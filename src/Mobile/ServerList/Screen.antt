-- ===== src/Mobile/ServerList/Screen.antt =====
-- What ServerListScreen.tsx renders.
use wow_vpn.Common.{String, [], ◌∷◌, map, ◌==◌, if◌then◌else◌, template, decimal}
use wow_vpn.View.{Node, text, element, nodes, on_click, on_change, value, tone}
use wow_vpn.Mobile.ServerList.{Server, State, filtered_servers, ping_color}

pub data Msg : Type 0 where
  navigate change select : String → Msg

-- `servers[0].id`, what the quick connect button selects.
abbrev pub quick_id : String
quick_id = "nl-ams"

unfoldable pub header : State → Node Msg
header s = element "div" [] (
    nodes (
      element "div" [] (
        nodes (
          element "button" (on_click (navigate "/home") ∷ []) (nodes [])
          ∷ element "h1" [] (nodes (text "Выберите сервер" ∷ []))
          ∷ []))
      ∷ element "input" (value s.search_query ∷ on_change change ∷ []) (nodes [])
      ∷ []))

unfoldable pub quick_connect : Node Msg
quick_connect = element "motion.button" (on_click (select quick_id) ∷ []) (
    nodes (
      element "p" [] (nodes (text "Быстрое подключение" ∷ []))
      ∷ element "p" [] (nodes (text "Автоматический выбор лучшего сервера" ∷ []))
      ∷ []))

abbrev row_tone : String → String → String
row_tone selected id =
    if selected == id
    then "bg-[#1A1D26] border-2 border-[#00E5FF]"
    else "bg-[#1A1D26] hover:bg-[#252830] border-2 border-transparent"

unfoldable pub server_row : String → Server → Node Msg
server_row selected sv =
    element "motion.button" (on_click (select sv.id) ∷ tone (row_tone selected sv.id) ∷ []) (
      nodes (
        element "span" [] (nodes (text sv.flag ∷ []))
        ∷ element "p" [] (nodes (text sv.country ∷ []))
        ∷ element "p" [] (nodes (text sv.city ∷ []))
        ∷ element "div" (tone (ping_color sv.ping) ∷ []) (nodes [])
        ∷ element "span" (tone (ping_color sv.ping) ∷ [])
            (nodes (text (template (decimal sv.ping ∷ "ms" ∷ [])) ∷ []))
        ∷ []))

unfoldable pub server_list_view : (String → String) → State → Node Msg
unfolding header quick_connect server_row
server_list_view to_lower s = element "div" [] (
    nodes (
      header s
      ∷ element "div" [] (
          nodes (
            quick_connect
            ∷ element "div" []
                (nodes (map (server_row s.selected_server) (filtered_servers to_lower s)))
            ∷ []))
      ∷ []))
