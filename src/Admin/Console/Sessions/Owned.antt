-- ===== src/Admin/Console/Sessions/Owned.antt =====
-- Whose work is under way in the console: the handlers of a page ask only for work of that page.
use mathlib.Core.Path.{subst}
use wow_vpn.Common.{String, ◌≡◌, refl, none, List, [], ◌∷◌, arith, All}
use wow_vpn.Common.Number.{Number}
use wow_vpn.Admin.Shell
use wow_vpn.Admin.Shell.{Page}
use wow_vpn.Admin.Users
use wow_vpn.Admin.Groups
use wow_vpn.Admin.Nodes
use wow_vpn.Admin.Templates
use wow_vpn.Admin.ResponseRules
use wow_vpn.Admin.Dashboard
use wow_vpn.Admin.ConfigProfiles
use wow_vpn.Admin.Settings
use wow_vpn.Admin.Console
use wow_vpn.Admin.Console.Work
use wow_vpn.Admin.Console.Acts
use wow_vpn.Admin.Console.{Mounted, mount, page_of}
use wow_vpn.Admin.Console.Work.{
  Work, Reply, owner, work_of, loads, handled, follow_up, users_works, groups_works, nodes_works,
  templates_works, rules_works,
}
use wow_vpn.Admin.Console.Acts.{Act, acted, profiles_works, settings_step}

abbrev pub IsOwned : {num : Number} → Page → List (Work num) → Type 0
IsOwned p works = All (λ w. owner w ≡ p) works

mount-page_of : (num : Number) (p : Page) → page_of (mount num p none) ≡ p
unfolding mount
mount-page_of num p = ground arith

groups_works-IsOwned :
    (num : Number) → (es : List Groups.Effect) → IsOwned Shell.groups (groups_works {num = num} es)
groups_works-IsOwned num [] = tt
groups_works-IsOwned num (Groups.Effect.start j q ∷ es) = (refl, groups_works-IsOwned num es)
groups_works-IsOwned num (Groups.Effect.alert t ∷ es) = groups_works-IsOwned num es

rules_works-IsOwned :
    (num : Number)
    → (es : List ResponseRules.Effect) → IsOwned Shell.response_rules (rules_works {num = num} es)
rules_works-IsOwned num [] = tt
rules_works-IsOwned num (ResponseRules.Effect.start j q ∷ es) = (refl, rules_works-IsOwned num es)
rules_works-IsOwned num (ResponseRules.Effect.alert t ∷ es) = rules_works-IsOwned num es

profiles_works-IsOwned :
    (num : Number) (m : ConfigProfiles.Screen.Msg)
    → IsOwned {num = num} Shell.config_profiles (profiles_works m)
profiles_works-IsOwned num ConfigProfiles.Screen.refresh = (refl, tt)
profiles_works-IsOwned num (ConfigProfiles.Screen.copy _ _) = tt

settings_step-IsOwned :
    (num : Number) (m : Settings.Screen.Msg) (s : Settings.State)
    → IsOwned {num = num} Shell.settings (settings_step m s).1
unfolding settings_step
settings_step-IsOwned num Settings.Screen.save_bot_section s = (refl, tt)
settings_step-IsOwned num Settings.Screen.save_server_section s = (refl, tt)
settings_step-IsOwned num _ s = tt

pub loads-IsOwned : (num : Number) (p : Page) → IsOwned p (loads {num = num} p)
unfolding loads Dashboard.fetch_data Users.Handlers.fetch_data Users.Handlers.fetch_users
loads-IsOwned num Shell.home = (refl, (refl, (refl, (refl, (refl, tt)))))
loads-IsOwned num Shell.users = (refl, (refl, (refl, tt)))
loads-IsOwned num Shell.groups = (refl, (refl, tt))
loads-IsOwned num _ = (refl, tt)

module _ {num : Number} where
  pub handled-page_of : (r : Reply num) (m : Mounted num) → page_of (handled r m).0 ≡ page_of m
  unfolding handled
  handled-page_of r m = ground arith

  pub acted-page_of :
      (date_value : String → String) (u : Act num) (m : Mounted num)
      → page_of (acted date_value u m).0 ≡ page_of m
  unfolding acted
  acted-page_of date_value u m = ground arith

  users_works-IsOwned : (es : List (Users.Types.Effect num)) → IsOwned Shell.users (users_works es)
  users_works-IsOwned [] = tt
  users_works-IsOwned (Users.Types.Effect.start j q ∷ es) = (refl, users_works-IsOwned es)
  users_works-IsOwned (Users.Types.Effect.alert t ∷ es) = users_works-IsOwned es
  users_works-IsOwned (Users.Types.Effect.copy t ∷ es) = users_works-IsOwned es

  nodes_works-IsOwned :
      (es : List (Nodes.Effect num)) → IsOwned Shell.nodes_page (nodes_works {num = num} es)
  nodes_works-IsOwned [] = tt
  nodes_works-IsOwned (Nodes.Effect.start j q ∷ es) = (refl, nodes_works-IsOwned es)
  nodes_works-IsOwned (Nodes.Effect.alert t ∷ es) = nodes_works-IsOwned es

  templates_works-IsOwned :
      (es : List (Templates.Effect num)) → IsOwned Shell.templates (templates_works {num = num} es)
  templates_works-IsOwned [] = tt
  templates_works-IsOwned (Templates.Effect.start j q ∷ es) = (refl, templates_works-IsOwned es)
  templates_works-IsOwned (Templates.Effect.alert t ∷ es) = templates_works-IsOwned es

  pub handled-IsOwned : (r : Reply num) (m : Mounted num) → IsOwned (page_of m) (handled r m).1
  unfolding handled
  handled-IsOwned (Work.to_users j q a) (Console.at_users s) =
      users_works-IsOwned (Users.Handlers.answer j a s).1
  handled-IsOwned (Work.to_groups j q a) (Console.at_groups s) =
      groups_works-IsOwned num (Groups.answer j a s).1
  handled-IsOwned (Work.to_nodes j q a) (Console.at_nodes s) =
      nodes_works-IsOwned (Nodes.answer j a s).1
  handled-IsOwned (Work.to_templates j q a) (Console.at_templates s) =
      templates_works-IsOwned (Templates.answer j a s).1
  handled-IsOwned (Work.to_rules j q a) (Console.at_rules s) =
      rules_works-IsOwned num (ResponseRules.answer j a s).1
  handled-IsOwned (Work.to_home _) (Console.at_home _) = tt
  handled-IsOwned (Work.to_profiles _) (Console.at_profiles _) = tt
  handled-IsOwned (Work.to_hwid _) (Console.at_hwid _) = tt
  handled-IsOwned (Work.to_logs _ _) (Console.at_logs _) = tt
  handled-IsOwned (Work.to_settings _ _) (Console.at_settings _) = tt
  handled-IsOwned (Work.to_save _ _) (Console.at_settings _) = tt
  handled-IsOwned _ m = tt

  pub follow_up-IsOwned : (r : Reply num) → IsOwned (owner (work_of r)) (follow_up r)
  unfolding follow_up
  follow_up-IsOwned r =
      subst (λ p. IsOwned p (follow_up r)) (mount-page_of num (owner (work_of r)))
        (handled-IsOwned r (mount num (owner (work_of r)) none))

  pub acted-IsOwned :
      (date_value : String → String) (u : Act num) (m : Mounted num)
      → IsOwned (page_of m) (acted date_value u m).1
  unfolding acted
  acted-IsOwned date_value (Acts.users_act browser m) (Console.at_users s) =
      users_works-IsOwned (Users.Page.update date_value browser m s).1
  acted-IsOwned date_value (Acts.groups_act sure m) (Console.at_groups s) =
      groups_works-IsOwned num (Groups.Screen.update sure m s).1
  acted-IsOwned date_value (Acts.nodes_act sure m) (Console.at_nodes s) =
      nodes_works-IsOwned (Nodes.Screen.update sure m s).1
  acted-IsOwned date_value (Acts.templates_act sure m) (Console.at_templates s) =
      templates_works-IsOwned (Templates.Screen.update sure m s).1
  acted-IsOwned date_value (Acts.rules_act sure m) (Console.at_rules s) =
      rules_works-IsOwned num (ResponseRules.Screen.update sure m s).1
  acted-IsOwned date_value (Acts.profiles_act clipboard m) (Console.at_profiles s) =
      profiles_works-IsOwned num m
  acted-IsOwned date_value (Acts.settings_act m) (Console.at_settings s) =
      settings_step-IsOwned num m s
  acted-IsOwned date_value Acts.hwid_refresh (Console.at_hwid s) = (refl, tt)
  acted-IsOwned date_value Acts.logs_refresh (Console.at_logs s) = (refl, tt)
  acted-IsOwned date_value Acts.groups_timer (Console.at_groups s) = tt
  acted-IsOwned date_value Acts.profiles_timer (Console.at_profiles s) = tt
  acted-IsOwned date_value Acts.settings_timer (Console.at_settings s) = tt
  acted-IsOwned date_value _ m = tt

  -- A handler asks for the same whether its page is there or gone.
  pub handled-follow_up :
      (r : Reply num) (m : Mounted num)
      → page_of m ≡ owner (work_of r)
      → (handled r m).1 ≡ follow_up r
  unfolding handled follow_up mount Users.Handlers.answer Users.Handlers.created
      Users.Handlers.updated Users.Handlers.deleted Users.Handlers.toggled Users.Handlers.bulk_step
      Groups.answer Nodes.answer Templates.answer ResponseRules.answer
  handled-follow_up r m e = ground (arith, e)
