-- ===== src/Mobile/Home/Screen.antt =====
-- What HomeScreen.tsx renders, and the messages that its buttons send.
use wow_vpn.Common.{String, Bool, true, false, [], ◌∷◌, ◌++◌, if◌then◌else◌, template, decimal}
use wow_vpn.View.{Node, text, element, nodes, shown, on_click, disabled, tone}
use wow_vpn.Mobile.Home.{
  ConnectionStatus, disconnected, connecting, connected, State, SessionStats, ping_color,
}

pub data Msg : Type 0 where
  connect : Msg
  navigate : String → Msg

abbrev is_connected : ConnectionStatus → Bool
is_connected connected = true
is_connected _ = false

abbrev is_connecting : ConnectionStatus → Bool
is_connecting connecting = true
is_connecting _ = false

abbrev button_tone : ConnectionStatus → String
button_tone disconnected = "bg-[#252830]"
button_tone connecting = "bg-[#1A1D26]"
button_tone connected = "bg-[#00E5FF] shadow-[0_0_40px_rgba(0,229,255,0.5)]"

abbrev status_text : ConnectionStatus → String
status_text disconnected = "Нажмите для подключения"
status_text connecting = "Подключение..."
status_text connected = "Защищено ✓"

unfoldable pub header : Node Msg
header = element "div" [] (
    nodes (
      element "div" [] (nodes (element "span" [] (nodes (text "S" ∷ [])) ∷ []))
      ∷ element "button" (on_click (navigate "/settings") ∷ []) (nodes [])
      ∷ []))

unfoldable pub connection_button : ConnectionStatus → Node Msg
connection_button status = element "motion.div" [] (
    nodes (
      shown (is_connected status) (element "motion.div" [] (nodes []) ∷ [])
      ++ shown (is_connecting status) (element "motion.div" [] (nodes []) ∷ [])
      ++ element "button"
          (on_click connect ∷ disabled (is_connecting status) ∷ tone (button_tone status) ∷ [])
          (nodes (
            element "Power"
              (tone (if is_connected status then "text-[#0D0F14]" else "text-[#00E5FF]") ∷ [])
              (nodes [])
            ∷ []))
        ∷ []))

unfoldable pub status_line : ConnectionStatus → Node Msg
status_line status =
    element "motion.div" [] (nodes (element "p" [] (nodes (text (status_text status) ∷ [])) ∷ []))

unfoldable pub stats_panel : SessionStats → Node Msg
stats_panel stats = element "motion.div" [] (
    nodes (
      element "div" [] (
        nodes (
          element "p" [] (nodes (text "Время сессии" ∷ []))
          ∷ element "p" [] (nodes (text stats.duration ∷ []))
          ∷ []))
      ∷ element "div" [] (
          nodes (
            element "div" [] (
              nodes (
                element "p" [] (nodes (text "⬇ Загрузка" ∷ []))
                ∷ element "p" [] (nodes (text stats.download ∷ []))
                ∷ []))
            ∷ element "div" [] (
                nodes (
                  element "p" [] (nodes (text "⬆ Выгрузка" ∷ []))
                  ∷ element "p" [] (nodes (text stats.upload ∷ []))
                  ∷ []))
            ∷ []))
      ∷ []))

-- The card of the one server that the screen knows: Amsterdam, 45 ms.
unfoldable pub server_card : Node Msg
server_card = element "div" [] (
    nodes (
      element "button" (on_click (navigate "/servers") ∷ []) (
        nodes (
          element "span" [] (nodes (text "🇳🇱" ∷ []))
          ∷ element "p" [] (nodes (text (template ("Netherlands" ∷ ", " ∷ "Amsterdam" ∷ [])) ∷ []))
          ∷ element "p" (tone (ping_color 45) ∷ [])
              (nodes (text (template (decimal 45 ∷ "ms" ∷ [])) ∷ []))
          ∷ []))
      ∷ []))

unfoldable pub home_view : State → Node Msg
unfolding header connection_button status_line stats_panel server_card
home_view s = element "div" [] (
    nodes (
      header
      ∷ element "div" [] (
          nodes (
            connection_button s.status
            ∷ status_line s.status
            ∷ shown (is_connected s.status) (stats_panel s.stats ∷ [])))
      ∷ server_card
      ∷ []))
