-- ===== src/Admin/Console.antt =====
-- The console as a whole: App.tsx's router with routes.tsx, the page that a location opens, and the
-- addresses that one page writes and another reads. How the router splits an address is third-party
-- code, and a parameter.
pub mod Laws
pub mod Work
pub mod Acts
pub mod Sessions
use wow_vpn.Common.{String, Bool, true, false, Option, none, some, List, [], ◌∷◌, if◌then◌else◌}
use wow_vpn.Common.Number.{Number}
use wow_vpn.Admin.Shell.{
  Page, home, users, groups, config_profiles, nodes_page, templates, response_rules, hwid_inspector,
  connection_logs, settings, is_page, route,
}
use wow_vpn.Admin.Users
use wow_vpn.Admin.Users.Types
use wow_vpn.Admin.Users.Handlers
use wow_vpn.Admin.Dashboard
use wow_vpn.Admin.Groups
use wow_vpn.Admin.ConfigProfiles
use wow_vpn.Admin.Nodes
use wow_vpn.Admin.Templates
use wow_vpn.Admin.ResponseRules
use wow_vpn.Admin.HwidInspector
use wow_vpn.Admin.ConnectionLogs
use wow_vpn.Admin.Settings

-- React Router: the path of an address, and `searchParams.get` of its query. The browser: what a date
-- input that is given a text then holds.
pub record Router : Type 0 where
  pub pathname : String → String
  pub param : String → String → Option String
  pub date_value : String → String

-- The mounted page with its state.
pub data Mounted (num : Number) : Type 0 where
  at_home : Dashboard.State num → Mounted num
  at_users : Users.Types.State num → Mounted num
  at_groups : Groups.State → Mounted num
  at_profiles : ConfigProfiles.State → Mounted num
  at_nodes : Nodes.State num → Mounted num
  at_templates : Templates.State num → Mounted num
  at_rules : ResponseRules.State → Mounted num
  at_hwid : HwidInspector.State → Mounted num
  at_logs : ConnectionLogs.State → Mounted num
  at_settings : Settings.State → Mounted num

-- A freshly mounted clients page at this parameter "group".
abbrev pub fresh_users : (num : Number) → Option String → Users.Types.State num
fresh_users num group = record {
  users = [];
  groups = [];
  templates = [];
  selected_users = [];
  sidebar_open = false;
  selected_user = none;
  loading = false;
  selected_group_id = "";
  qr_modal = none;
  misread = Users.Types.none_misread;
  form = none;
  group_filter = group;
}

unfoldable pub mount : (num : Number) → Page → Option String → Mounted num
mount num home group = at_home (Dashboard.initial num)
mount num users group = at_users (fresh_users num group)
mount num groups group = at_groups Groups.initial
mount num config_profiles group = at_profiles ConfigProfiles.initial
mount num nodes_page group = at_nodes (record { nodes = []; form = none })
mount num templates group = at_templates (record { templates = []; form = none })
mount num response_rules group = at_rules (record { rules = []; form = none })
mount num hwid_inspector group = at_hwid HwidInspector.initial
mount num connection_logs group = at_logs (record { logs = [] })
mount num settings group = at_settings Settings.mount

module _ {num : Number} where
  abbrev pub page_of : Mounted num → Page
  page_of (at_home _) = home
  page_of (at_users _) = users
  page_of (at_groups _) = groups
  page_of (at_profiles _) = config_profiles
  page_of (at_nodes _) = nodes_page
  page_of (at_templates _) = templates
  page_of (at_rules _) = response_rules
  page_of (at_hwid _) = hwid_inspector
  page_of (at_logs _) = connection_logs
  page_of (at_settings _) = settings

  -- A page that stays mounted at a new query: only the clients page reads it.
  abbrev pub requery : Option String → Mounted num → Mounted num
  requery group (at_users s) = at_users (record s { group_filter = group })
  requery group m = m

  -- The outlet at a route: the page that is there already stays, another one is mounted.
  unfoldable pub open_page : Page → Option String → Option (Mounted num) → Option (Mounted num)
  unfolding mount
  open_page p group none = some (mount num p group)
  open_page p group (some m) =
      if is_page p (some (page_of m)) then some (requery group m) else some (mount num p group)

  unfoldable pub open_route :
      Option Page → Option String → Option (Mounted num) → Option (Mounted num)
  unfolding open_page
  open_route none group m = none
  open_route (some p) group m = open_page p group m

  -- `navigate(url)`, or a link; without a route for it there is the router's error page, `none`.
  unfoldable pub visit : Router → String → Option (Mounted num) → Option (Mounted num)
  unfolding open_route
  visit router url m = open_route (route (router.pathname url)) (router.param "group" url) m

  -- The clients that the server answers with, at the page that asked for them.
  unfoldable pub clients_come :
      List (Users.Types.Client num) → Option (Mounted num) → Option (Mounted num)
  clients_come xs (some (at_users s)) =
      some
        (at_users (Users.Handlers.answer Users.Types.loading_clients (Users.Types.clients xs) s).0)
  clients_come xs m = m
