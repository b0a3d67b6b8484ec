-- ===== src/Admin/Shell.antt =====
-- The frame of the console: routes.tsx, components/Layout.tsx, components/Sidebar.tsx,
-- components/Header.tsx and components/GlobalSearch.tsx.
pub mod Layout
pub mod Laws
use wow_vpn.Common.{
  String, Bool, true, false, not, ◌&&◌, ◌||◌, Option, none, some, List, [], ◌∷◌, ◌++◌, map, ◌==◌,
  if◌then◌else◌,
}
use wow_vpn.View.{Node, text, element, nodes, on_click}

pub data Page : Type 0 where
  home users groups config_profiles nodes_page templates : Page
  response_rules hwid_inspector connection_logs settings : Page

-- Whether a route shows this page.
abbrev pub is_page : Page → Option Page → Bool
is_page home (some home) = true
is_page users (some users) = true
is_page groups (some groups) = true
is_page config_profiles (some config_profiles) = true
is_page nodes_page (some nodes_page) = true
is_page templates (some templates) = true
is_page response_rules (some response_rules) = true
is_page hwid_inspector (some hwid_inspector) = true
is_page connection_logs (some connection_logs) = true
is_page settings (some settings) = true
is_page _ _ = false

-- The route that takes a path, as the links write it.
unfoldable pub route : String → Option Page
route path =
    if path == "/"
    then some home
    else if path == "/users"
    then some users
    else if path == "/groups"
    then some groups
    else if path == "/config-profiles"
    then some config_profiles
    else if path == "/nodes"
    then some nodes_page
    else if path == "/templates"
    then some templates
    else if path == "/response-rules"
    then some response_rules
    else if path == "/hwid-inspector"
    then some hwid_inspector
    else if path == "/connection-logs"
    then some connection_logs
    else if path == "/settings"
    then some settings
    else none

pub record Item : Type 0 where
  pub label : String
  pub path : String

pub record Section : Type 0 where
  pub title : String
  pub items : List Item

abbrev item : String → String → Item
item label path = record { label = label; path = path }

abbrev section : String → List Item → Section
section title items = record { title = title; items = items }

abbrev pub sections : List Section
sections =
    section "ОБЗОР" (item "Главная" "/" ∷ [])
    ∷ section "УПРАВЛЕНИЕ" (
        item "Клиенты" "/users"
        ∷ item "Группы" "/groups"
        ∷ item "Шаблоны конфигов" "/config-profiles"
        ∷ item "Серверы (Узлы)" "/nodes"
        ∷ [])
    ∷ section "ПОДПИСКИ"
        (item "Тарифы" "/templates" ∷ item "Правила биллинга" "/response-rules" ∷ [])
    ∷ section "ИНСТРУМЕНТЫ" (
        item "Контроль устройств" "/hwid-inspector"
        ∷ item "Логи подключений" "/connection-logs"
        ∷ [])
    ∷ section "СИСТЕМА" (item "Настройки" "/settings" ∷ [])
    ∷ []

pub data Msg : Type 0 where
  go : String → Msg
  open_search close_search : Msg

-- A `NavLink` is a link that navigates to its path.
unfoldable pub link : Item → Node Msg
link i =
    element "NavLink" (on_click (go i.path) ∷ [])
      (nodes (element "span" [] (nodes (text i.label ∷ [])) ∷ []))

unfoldable pub section_view : Section → Node Msg
section_view s = element "div" [] (
    nodes (
      element "h2" [] (nodes (text s.title ∷ []))
      ∷ element "div" [] (nodes (map link s.items))
      ∷ []))

unfoldable pub sidebar_view : Node Msg
sidebar_view = element "aside" [] (
    nodes (
      element "h1" [] (nodes (text "ShadeVPN" ∷ []))
      ∷ element "p" [] (nodes (text "Админ Панель v2.0" ∷ []))
      ∷ element "nav" [] (nodes (map section_view sections))
      ∷ []))

-- The last three buttons have no handler.
unfoldable pub header_view : Node Msg
header_view = element "header" [] (
    nodes (
      element "button" (on_click open_search ∷ [])
        (nodes (text "Search users, configs..." ∷ element "kbd" [] (nodes (text "⌘K" ∷ [])) ∷ []))
      ∷ element "button" [] (nodes [])
      ∷ element "button" [] (nodes [])
      ∷ element "button" [] (nodes [])
      ∷ []))

-- The key handler of GlobalSearch: what it makes of whether the search is open.
unfoldable pub press_key : String → Bool → Bool → Bool → Bool
press_key key meta ctrl shows = if key == "k" && (meta || ctrl) then not shows else shows
