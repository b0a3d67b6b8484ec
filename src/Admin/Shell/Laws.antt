-- ===== src/Admin/Shell/Laws.antt =====
-- The links of components/Sidebar.tsx against the routes of routes.tsx.
use wow_vpn.Common.{
  ◌≡◌, refl, Bool, true, false, if◌then◌else◌, Option, some, List, [], ◌∷◌, filter,
}
use wow_vpn.View.{clicks, clicks_all, nodes}
use wow_vpn.Admin.Shell.Layout.{search_view, update}
use wow_vpn.Admin.Shell.{
  Page, home, users, groups, config_profiles, nodes_page, templates, response_rules, hwid_inspector,
  connection_logs, settings, is_page, route, Msg, go, close_search, press_key, link, section_view,
  sidebar_view,
}

-- The pages that clicks lead to.
abbrev pub opened_by : List Msg → List (Option Page)
opened_by [] = []
opened_by (go path ∷ ms) = route path ∷ opened_by ms
opened_by (_ ∷ ms) = opened_by ms

-- Every page of the console has exactly one link in the sidebar.
pub opened_by-sidebar_view :
    (p : Page) → filter (is_page p) (opened_by (clicks sidebar_view)) ≡ some p ∷ []
unfolding sidebar_view section_view link route
opened_by-sidebar_view home = refl
opened_by-sidebar_view users = refl
opened_by-sidebar_view groups = refl
opened_by-sidebar_view config_profiles = refl
opened_by-sidebar_view nodes_page = refl
opened_by-sidebar_view templates = refl
opened_by-sidebar_view response_rules = refl
opened_by-sidebar_view hwid_inspector = refl
opened_by-sidebar_view connection_logs = refl
opened_by-sidebar_view settings = refl

-- However the layout's search is opened, its overlay offers exactly the button that closes it, and
-- offers nothing while it is closed; that button, like the shortcut, closes it.
pub clicks-search_view :
    (shows : Bool)
    → (clicks_all (nodes (search_view shows)) ≡ (if shows then close_search ∷ [] else []))
      × (update close_search shows ≡ false)
      × (press_key "k" true false true ≡ false)
unfolding search_view update press_key
clicks-search_view true = (refl, refl, refl)
clicks-search_view false = (refl, refl, refl)
