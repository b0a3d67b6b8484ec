-- ===== src/Mobile/SplitTunneling/Screen.antt =====
-- What SplitTunnelingScreen.tsx renders.
use wow_vpn.Common.{String, [], ◌∷◌, map, if◌then◌else◌}
use wow_vpn.View.{Node, text, element, nodes, on_click, on_change, value, tone}
use wow_vpn.Mobile.SplitTunneling.{App, State, filtered_apps}

pub data Msg : Type 0 where
  navigate change toggle : String → Msg

unfoldable pub header : State → Node Msg
header s = element "div" [] (
    nodes (
      element "div" [] (
        nodes (
          element "button" (on_click (navigate "/settings") ∷ []) (nodes [])
          ∷ element "h1" [] (nodes (text "Выберите приложения" ∷ []))
          ∷ element "p" [] (nodes (text "Эти приложения будут работать в обход VPN" ∷ []))
          ∷ []))
      ∷ element "input" (value s.search_query ∷ on_change change ∷ []) (nodes [])
      ∷ []))

unfoldable pub app_row : App → Node Msg
app_row a = element "motion.div" [] (
    nodes (
      element "div" [] (nodes (text a.icon ∷ []))
      ∷ element "p" [] (nodes (text a.name ∷ []))
      ∷ element "button"
          (on_click (toggle a.id)
            ∷ tone (if a.enabled then "bg-[#00E5FF]" else "bg-[#252830]")
            ∷ [])
          (nodes (
            element "motion.div" (tone (if a.enabled then "x: 30" else "x: 4") ∷ []) (nodes [])
            ∷ []))
      ∷ []))

unfoldable pub footer : Node Msg
footer = element "div" [] (
    nodes (
      element "p" [] (
        nodes (
          text
            "Включенные приложения будут обходить VPN и использовать прямое подключение к интернету"
          ∷ []))
      ∷ []))

unfoldable pub split_tunneling_view : (String → String) → State → Node Msg
unfolding header app_row footer
split_tunneling_view to_lower s = element "div" [] (
    nodes
      (header s ∷ element "div" [] (nodes (map app_row (filtered_apps to_lower s))) ∷ footer ∷ []))
