-- ===== src/Admin/Console/Acts.antt =====
-- What a user does on the page of the console that is there, timers included.
use wow_vpn.View.{clicks}
use wow_vpn.Common.{Memᴰ, ◌⊎◌, ◌≡◌, true, Bool, String, List, [], ◌∷◌}
use wow_vpn.Common.Number.{Number}
use wow_vpn.Admin.Users
use wow_vpn.Admin.Groups
use wow_vpn.Admin.ConfigProfiles
use wow_vpn.Admin.Nodes
use wow_vpn.Admin.Templates
use wow_vpn.Admin.ResponseRules
use wow_vpn.Admin.Settings
use wow_vpn.Admin.Console.{
  Mounted, at_users, at_groups, at_profiles, at_nodes, at_templates, at_rules, at_hwid, at_logs,
  at_settings,
}
use wow_vpn.Admin.Console.Work.{
  Work, profiles_work, hwid_work, logs_work, save_work, users_works, groups_works, nodes_works,
  templates_works, rules_works,
}

-- A message of a page, with what the browser answers at once; or a timer.
pub data Act (num : Number) : Type 0 where
  users_act : Users.Page.Browser → Users.Screen.Msg num → Act num
  groups_act : Bool → Groups.Screen.Msg → Act num
  nodes_act : Bool → Nodes.Screen.Msg → Act num
  templates_act : Bool → Templates.Screen.Msg → Act num
  rules_act : Bool → ResponseRules.Screen.Msg → Act num
  profiles_act : Bool → ConfigProfiles.Screen.Msg → Act num
  settings_act : Settings.Screen.Msg → Act num
  hwid_refresh logs_refresh groups_timer profiles_timer settings_timer : Act num

module _ {num : Number} where
  -- The click on "refresh" calls the page's `load`.
  abbrev pub profiles_works : ConfigProfiles.Screen.Msg → List (Work num)
  profiles_works ConfigProfiles.Screen.refresh = profiles_work ∷ []
  profiles_works (ConfigProfiles.Screen.copy _ _) = []

  unfoldable pub settings_step :
      Settings.Screen.Msg → Settings.State → Settings.State × List (Work num)
  settings_step Settings.Screen.download s = (s, [])
  settings_step Settings.Screen.save_bot_section s = (s, save_work (Settings.save_bot s) ∷ [])
  settings_step Settings.Screen.save_server_section s = (s, save_work (Settings.save_server s) ∷ [])
  settings_step Settings.Screen.flip_logging s = (Settings.click_logging s, [])
  settings_step (Settings.Screen.enter_port t) s = (Settings.type_port t s, [])
  settings_step (Settings.Screen.enter_stealth t) s = (Settings.type_stealth t s, [])
  settings_step (Settings.Screen.enter_bot_token t) s = (Settings.type_bot_token t s, [])
  settings_step (Settings.Screen.enter_chat_id t) s = (Settings.type_chat_id t s, [])

  -- The page after it, and what its handler asks for.
  unfoldable pub acted : (String → String) → Act num → Mounted num → Mounted num × List (Work num)
  acted date_value (users_act browser m) (at_users s) =
      let (t, es) = Users.Page.update date_value browser m s in (at_users t, users_works es)
  acted date_value (groups_act sure m) (at_groups s) =
      let (t, es) = Groups.Screen.update sure m s in (at_groups t, groups_works es)
  acted date_value (nodes_act sure m) (at_nodes s) =
      let (t, es) = Nodes.Screen.update sure m s in (at_nodes t, nodes_works es)
  acted date_value (templates_act sure m) (at_templates s) =
      let (t, es) = Templates.Screen.update sure m s in (at_templates t, templates_works es)
  acted date_value (rules_act sure m) (at_rules s) =
      let (t, es) = ResponseRules.Screen.update sure m s in (at_rules t, rules_works es)
  acted date_value (profiles_act clipboard m) (at_profiles s) =
      (at_profiles (ConfigProfiles.Screen.update clipboard m s).0, profiles_works m)
  acted date_value (settings_act m) (at_settings s) =
      let (t, works) = settings_step m s in (at_settings t, works)
  acted date_value hwid_refresh (at_hwid s) = (at_hwid s, hwid_work ∷ [])
  acted date_value logs_refresh (at_logs s) = (at_logs s, logs_work ∷ [])
  acted date_value groups_timer (at_groups s) = (at_groups (Groups.fill s), [])
  acted date_value profiles_timer (at_profiles s) =
      (at_profiles (ConfigProfiles.copied_timer s), [])
  acted date_value settings_timer (at_settings s) = (at_settings (Settings.saved_timer s), [])
  acted date_value _ m = (m, [])

  -- What the clients page lets a user do: clicks on what is rendered and not disabled, and inputs. On
  -- the other pages it is any message.
  abbrev pub IsOffered : Act num → Mounted num → Type 0
  IsOffered (users_act browser m) (at_users s) =
      Memᴰ m (clicks (Users.Sidebar.view s)) ⊎ (Users.Page.is_entry m ≡ true)
  IsOffered _ _ = Unit
