-- ===== src/Mobile/Settings/Screen.antt =====
-- What SettingsScreen.tsx renders. An absent language shows as no text, as React renders
-- `undefined`.
use wow_vpn.Common.{
  String, Bool, true, false, Option, none, some, List, [], ◌∷◌, map, if◌then◌else◌,
}
use wow_vpn.View.{Node, text, element, nodes, on_click, tone}
use wow_vpn.Mobile.Settings.{Theme, light, dark, system, State}

pub data Msg : Type 0 where
  navigate : String → Msg
  kill_switch net_shield language : Msg
  theme : Theme → Msg
  change_key invite feedback : Msg

abbrev switch_button : Bool → Msg → Node Msg
switch_button enabled m =
    element "button" (on_click m ∷ tone (if enabled then "bg-[#00E5FF]" else "bg-[#252830]") ∷ []) (
      nodes
        (element "motion.div" (tone (if enabled then "x: 30" else "x: 4") ∷ []) (nodes []) ∷ []))

abbrev labelled : String → String → List (Node Msg)
labelled title hint =
    element "p" [] (nodes (text title ∷ [])) ∷ element "p" [] (nodes (text hint ∷ [])) ∷ []

unfoldable pub connection_section : State → Node Msg
connection_section s = element "div" [] (
    nodes (
      element "h2" [] (nodes (text "Соединение" ∷ []))
      ∷ element "div" [] (
          nodes (
            element "div" [] (nodes (labelled "Kill Switch" "Блокировать интернет при обрыве VPN"))
            ∷ switch_button s.kill_switch kill_switch
            ∷ []))
      ∷ element "div" [] (
          nodes (
            element "div" [] (nodes (labelled "NetShield" "Блокировка рекламы и трекеров"))
            ∷ switch_button s.net_shield net_shield
            ∷ []))
      ∷ element "button" (on_click (navigate "/split-tunneling") ∷ [])
          (nodes (labelled "Split Tunneling" "Раздельное туннелирование"))
      ∷ []))

abbrev shown_language : Option String → List (Node Msg)
shown_language none = []
shown_language (some lang) = text lang ∷ []

abbrev is_theme : Theme → Theme → Bool
is_theme light light = true
is_theme dark dark = true
is_theme system system = true
is_theme _ _ = false

abbrev theme_label : Theme → String
theme_label light = "Светлая"
theme_label dark = "Тёмная"
theme_label system = "Системная"

abbrev theme_button : Theme → Theme → Node Msg
theme_button current t =
    element "button"
      (on_click (theme t)
        ∷ tone (
            if is_theme current t
            then "bg-[#00E5FF] text-[#0D0F14]"
            else "bg-[#252830] text-[#8B8F9A] hover:text-[#F0F2F5]")
        ∷ [])
      (nodes (text (theme_label t) ∷ []))

unfoldable pub interface_section : State → Node Msg
interface_section s = element "div" [] (
    nodes (
      element "h2" [] (nodes (text "Интерфейс" ∷ []))
      ∷ element "button" (on_click language ∷ []) (
          nodes (
            element "p" [] (nodes (text "Язык" ∷ []))
            ∷ element "span" [] (nodes (shown_language s.language))
            ∷ []))
      ∷ element "div" [] (
          nodes (
            element "p" [] (nodes (text "Тема оформления" ∷ []))
            ∷ element "div" [] (nodes (map (theme_button s.theme) (light ∷ dark ∷ system ∷ [])))
            ∷ []))
      ∷ []))

unfoldable pub account_section : Node Msg
account_section = element "div" [] (
    nodes (
      element "h2" [] (nodes (text "Аккаунт" ∷ []))
      ∷ element "div" [] (
          nodes (
            element "div" [] (nodes (labelled "Текущий ключ" "shade://eyJ...7a3F"))
            ∷ element "button" (on_click change_key ∷ []) (nodes (text "Сменить ключ" ∷ []))
            ∷ []))
      ∷ element "button" (on_click invite ∷ [])
          (nodes (element "p" [] (nodes (text "Пригласить друга" ∷ [])) ∷ []))
      ∷ []))

unfoldable pub support_section : Node Msg
support_section = element "div" [] (
    nodes (
      element "h2" [] (nodes (text "Поддержка" ∷ []))
      ∷ element "button" (on_click feedback ∷ [])
          (nodes (element "p" [] (nodes (text "Помогите нам стать лучше" ∷ [])) ∷ []))
      ∷ element "button" [] (nodes (labelled "О приложении" "Версия 1.0.0"))
      ∷ []))

unfoldable pub settings_view : State → Node Msg
unfolding connection_section interface_section account_section support_section
settings_view s = element "div" [] (
    nodes (
      element "div" [] (
        nodes (
          element "button" (on_click (navigate "/home") ∷ []) (nodes [])
          ∷ element "h1" [] (nodes (text "Настройки" ∷ []))
          ∷ []))
      ∷ element "div" [] (
          nodes
            (connection_section s ∷ interface_section s ∷ account_section ∷ support_section ∷ []))
      ∷ []))
