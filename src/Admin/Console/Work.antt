-- ===== src/Admin/Console/Work.antt =====
-- The requests of the console's pages, each with what is left of its handler, and the handlers at
-- the answers: pages/*.tsx as the console sees them.
use wow_vpn.Common.{Option, List, [], ◌∷◌, map, ℕ, String, none}
use wow_vpn.Common.Number.{Number}
use wow_vpn.Admin.Shell.{
  Page, home, users, groups, config_profiles, nodes_page, templates, response_rules, hwid_inspector,
  connection_logs, settings,
}
use wow_vpn.Admin.Users
use wow_vpn.Admin.Dashboard
use wow_vpn.Admin.Dashboard.Answers.{asked_by}
use wow_vpn.Admin.Groups
use wow_vpn.Admin.ConfigProfiles
use wow_vpn.Admin.Nodes
use wow_vpn.Admin.Templates
use wow_vpn.Admin.ResponseRules
use wow_vpn.Admin.HwidInspector
use wow_vpn.Admin.ConnectionLogs
use wow_vpn.Admin.Settings
use wow_vpn.Admin.Console.{
  Mounted, at_home, at_users, at_groups, at_profiles, at_nodes, at_templates, at_rules, at_hwid,
  at_logs, at_settings, mount,
}

pub data Work (num : Number) : Type 0 where
  home_work : Dashboard.Request → Work num
  users_work : Users.Types.Job → Users.Types.Request num → Work num
  groups_work : Groups.Job → Groups.Request → Work num
  nodes_work : Nodes.Job → Nodes.Request num → Work num
  templates_work : Templates.Job → Templates.Request num → Work num
  rules_work : ResponseRules.Job → ResponseRules.Request → Work num
  -- GET /clients of three pages, GET /settings and POST /settings.
  profiles_work hwid_work logs_work settings_work : Work num
  save_work : Settings.SaveRequest → Work num

-- The answer to such a request, for the handler that made it.
pub data Reply (num : Number) : Type 0 where
  to_home : Dashboard.Answer num → Reply num
  to_users : Users.Types.Job → Users.Types.Request num → Users.Types.Answer num → Reply num
  to_groups : Groups.Job → Groups.Request → Groups.Answer → Reply num
  to_nodes : Nodes.Job → Nodes.Request num → Nodes.Answer num → Reply num
  to_templates : Templates.Job → Templates.Request num → Templates.Answer num → Reply num
  to_rules : ResponseRules.Job → ResponseRules.Request → ResponseRules.Answer → Reply num
  to_profiles : Option (List ConfigProfiles.Client) → Reply num
  to_hwid : Option (List HwidInspector.Client) → Reply num
  to_logs : (ℕ → String) → Option (List ConnectionLogs.Client) → Reply num
  to_settings : Settings.Redefault → Option Settings.Stored → Reply num
  to_save : Settings.SaveRequest → Settings.SaveAnswer → Reply num

module _ {num : Number} where
  -- The page whose handler it is.
  abbrev pub owner : Work num → Page
  owner (home_work _) = home
  owner (users_work _ _) = users
  owner (groups_work _ _) = groups
  owner (nodes_work _ _) = nodes_page
  owner (templates_work _ _) = templates
  owner (rules_work _ _) = response_rules
  owner profiles_work = config_profiles
  owner hwid_work = hwid_inspector
  owner logs_work = connection_logs
  owner settings_work = settings
  owner (save_work _) = settings

  abbrev pub work_of : Reply num → Work num
  work_of (to_home a) = home_work (asked_by a)
  work_of (to_users j q _) = users_work j q
  work_of (to_groups j q _) = groups_work j q
  work_of (to_nodes j q _) = nodes_work j q
  work_of (to_templates j q _) = templates_work j q
  work_of (to_rules j q _) = rules_work j q
  work_of (to_profiles _) = profiles_work
  work_of (to_hwid _) = hwid_work
  work_of (to_logs _ _) = logs_work
  work_of (to_settings _ _) = settings_work
  work_of (to_save q _) = save_work q

  -- The requests among what a handler does.
  abbrev pub users_works : List (Users.Types.Effect num) → List (Work num)
  users_works [] = []
  users_works (Users.Types.Effect.start j q ∷ es) = users_work j q ∷ users_works es
  users_works (_ ∷ es) = users_works es

  abbrev pub groups_works : List Groups.Effect → List (Work num)
  groups_works [] = []
  groups_works (Groups.Effect.start j q ∷ es) = groups_work j q ∷ groups_works es
  groups_works (_ ∷ es) = groups_works es

  abbrev pub nodes_works : List (Nodes.Effect num) → List (Work num)
  nodes_works [] = []
  nodes_works (Nodes.Effect.start j q ∷ es) = nodes_work j q ∷ nodes_works es
  nodes_works (_ ∷ es) = nodes_works es

  abbrev pub templates_works : List (Templates.Effect num) → List (Work num)
  templates_works [] = []
  templates_works (Templates.Effect.start j q ∷ es) = templates_work j q ∷ templates_works es
  templates_works (_ ∷ es) = templates_works es

  abbrev pub rules_works : List ResponseRules.Effect → List (Work num)
  rules_works [] = []
  rules_works (ResponseRules.Effect.start j q ∷ es) = rules_work j q ∷ rules_works es
  rules_works (_ ∷ es) = rules_works es

  -- What a page asks for when it is mounted, and again at each round of its interval.
  unfoldable pub loads : Page → List (Work num)
  unfolding Dashboard.fetch_data Users.Handlers.fetch_data
  loads home = map home_work Dashboard.fetch_data
  loads users = users_works Users.Handlers.fetch_data
  loads groups = groups_works (Groups.load_groups ∷ Groups.load_clients ∷ [])
  loads config_profiles = profiles_work ∷ []
  loads nodes_page = nodes_works (Nodes.load ∷ [])
  loads templates = templates_works (Templates.load ∷ [])
  loads response_rules = rules_works (ResponseRules.load ∷ [])
  loads hwid_inspector = hwid_work ∷ []
  loads connection_logs = logs_work ∷ []
  loads settings = settings_work ∷ []

  -- The rest of the handler at the answer: the page after it, and what the handler then asks for.
  unfoldable pub handled : Reply num → Mounted num → Mounted num × List (Work num)
  handled (to_home a) (at_home s) = (at_home (Dashboard.receive a s), [])
  handled (to_users j q a) (at_users s) =
      let (t, es) = Users.Handlers.answer j a s in (at_users t, users_works es)
  handled (to_groups j q a) (at_groups s) =
      let (t, es) = Groups.answer j a s in (at_groups t, groups_works es)
  handled (to_nodes j q a) (at_nodes s) =
      let (t, es) = Nodes.answer j a s in (at_nodes t, nodes_works es)
  handled (to_templates j q a) (at_templates s) =
      let (t, es) = Templates.answer j a s in (at_templates t, templates_works es)
  handled (to_rules j q a) (at_rules s) =
      let (t, es) = ResponseRules.answer j a s in (at_rules t, rules_works es)
  handled (to_profiles a) (at_profiles s) = (at_profiles (ConfigProfiles.load a s), [])
  handled (to_hwid a) (at_hwid s) = (at_hwid (HwidInspector.load a s), [])
  handled (to_logs time_back a) (at_logs s) =
      (at_logs (ConnectionLogs.generate_logs time_back a s), [])
  handled (to_settings react a) (at_settings s) = (at_settings (Settings.load react a s), [])
  handled (to_save q a) (at_settings s) = (at_settings (Settings.section_saved a s), [])
  handled _ m = (m, [])

  -- What a handler asks for when its page is gone: what it asks for does not depend on what the page
  -- shows.
  unfoldable pub follow_up : Reply num → List (Work num)
  unfolding handled
  follow_up r = (handled r (mount num (owner (work_of r)) none)).1
