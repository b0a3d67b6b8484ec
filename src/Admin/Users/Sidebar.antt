-- ===== src/Admin/Users/Sidebar.antt =====
-- The sidebar and the QR modal of pages/Users.tsx, and the page as a whole.
use wow_vpn.Common.{
  String, Bool, true, false, not, Option, none, some, List, [], ◌∷◌, ◌++◌, map, length, ◌==◌, ltb,
  if◌then◌else◌, template,
}
use wow_vpn.Common.Number.{Number}
use wow_vpn.View.{Node, text, element, nodes, shown, on_click, on_change, disabled, value}
use wow_vpn.Admin.Users.Types.{Client, Group, Tariff, Form, QrModal, State}
use wow_vpn.Admin.Users.Format.{limit_text}
use wow_vpn.Admin.Users.Screen.{
  Msg, close, save_new, save_changes, remove, copy_link, copy_qr, hide_qr, pick_group,
  pick_template, type_name, type_telegram, type_limit, type_date, title_bar, bulk_bar, table,
}

input_of : (Form → String) → Option Form → String
input_of field none = ""
input_of field (some f) = field f

abbrev pub side_title_of : Bool → String
side_title_of true = "Информация о клиенте"
side_title_of false = "Добавить клиента"

module _ {num : Number} where
  abbrev pub label : String → Node (Msg num)
  label title = element "label" [] (nodes (text title ∷ []))

  unfoldable pub tariff_option : Tariff num → Node (Msg num)
  tariff_option t = element "option" (value t.id ∷ []) (
      nodes (
        text
          (template (t.name ∷ " — " ∷ limit_text num t.data_limit_gb " ГБ" ∷ " — " ∷ t.price ∷ []))
        ∷ []))

  unfoldable pub group_option : Group → Node (Msg num)
  group_option g = element "option" (value g.id ∷ []) (nodes (text g.name ∷ []))

  unfoldable pub form_fields : State num → Node (Msg num)
  unfolding input_of tariff_option group_option
  form_fields s = element "div" [] (
      nodes (
        label "Имя клиента"
        ∷ element "input" (value (input_of (λ f. f.name) s.form) ∷ on_change type_name ∷ [])
            (nodes [])
        ∷ label "Telegram ID"
        ∷ element "input" (value (input_of (λ f. f.telegram) s.form) ∷ on_change type_telegram ∷ [])
            (nodes [])
        ∷ label "Шаблон тарифа (Применить и перезаписать лимиты)"
        ∷ element "select" (on_change pick_template ∷ []) (
            nodes (
              element "option" (value "" ∷ []) (nodes (text "Свой тариф" ∷ []))
              ∷ map tariff_option s.templates))
        ∷ label "Группа"
        ∷ element "select" (value s.selected_group_id ∷ on_change pick_group ∷ []) (
            nodes (
              element "option" (value "" ∷ []) (nodes (text "Без группы" ∷ []))
              ∷ map group_option s.groups))
        ∷ label "Протокол"
        ∷ element "select" (value "ShadeVPN" ∷ []) (
            nodes (
              element "option" (value "ShadeVPN" ∷ []) (nodes (text "ShadeVPN (Native)" ∷ []))
              ∷ []))
        ∷ label "Лимит Трафика (ГБ)"
        ∷ element "input" (value (input_of (λ f. f.limit) s.form) ∷ on_change type_limit ∷ [])
            (nodes [])
        ∷ label "Дата окончания"
        ∷ element "input" (value (input_of (λ f. f.date) s.form) ∷ on_change type_date ∷ [])
            (nodes [])
        ∷ []))

  unfoldable pub key_block_of : Option (Client num) → List (Node (Msg num))
  key_block_of none = []
  key_block_of (some u) = shown (not (u.shade_link == "")) (
      element "div" [] (
        nodes (
          label "КЛЮЧ ПОДКЛЮЧЕНИЯ"
          ∷ element "div" [] (nodes (text u.shade_link ∷ []))
          ∷ element "button" (on_click (copy_link u.shade_link) ∷ [])
              (nodes (text "Скопировать ключ" ∷ []))
          ∷ []))
      ∷ [])

  unfoldable pub footer_of : Bool → Option (Client num) → List (Node (Msg num))
  footer_of busy none =
      element "button" (on_click save_new ∷ disabled busy ∷ [])
        (nodes (text (if busy then "Создание..." else "Создать клиента") ∷ []))
      ∷ []
  footer_of busy (some u) =
      element "button" (on_click save_changes ∷ disabled busy ∷ [])
        (nodes (text (if busy then "..." else "💾 Сохранить изменения") ∷ []))
      ∷ element "button" (on_click (remove u.id) ∷ []) (nodes (text "🗑\u{fe0f}" ∷ []))
      ∷ []

  abbrev pub is_chosen : Option (Client num) → Bool
  is_chosen none = false
  is_chosen (some _) = true

  unfoldable pub save_bar : State num → Node (Msg num)
  save_bar s = element "div" [] (
      nodes (
        footer_of s.loading s.selected_user
        ++ element "button" (on_click close ∷ []) (nodes (text "Закрыть" ∷ [])) ∷ []))

  unfoldable pub panel : State num → Node (Msg num)
  panel s = element "div" [] (
      nodes (
        element "h2" [] (nodes (text (side_title_of (is_chosen s.selected_user)) ∷ []))
          ∷ element "button" (on_click close ∷ []) (nodes (text "✕" ∷ []))
          ∷ form_fields s
          ∷ key_block_of s.selected_user
        ++ save_bar s ∷ []))

  -- The overlay that closes the sidebar, and the sidebar.
  unfoldable pub sidebar : State num → List (Node (Msg num))
  sidebar s = element "div" (on_click close ∷ []) (nodes []) ∷ panel s ∷ []

  unfoldable pub qr_view : Option QrModal → List (Node (Msg num))
  qr_view none = []
  qr_view (some q) =
      element "div" [] (
        nodes (
          element "button" (on_click hide_qr ∷ []) (nodes [])
          ∷ element "h3" [] (nodes (text (template ("QR-Код для " ∷ q.username ∷ [])) ∷ []))
          ∷ element "QRCodeSVG" (value q.link ∷ []) (nodes [])
          ∷ element "button" (on_click (copy_qr q.link) ∷ []) (nodes (text "Скопировать ключ" ∷ []))
          ∷ []))
      ∷ []

  -- The tree, where rendering it does not throw.
  unfoldable pub view : State num → Node (Msg num)
  view s = element "div" [] (
      nodes (
        title_bar s ∷ shown (ltb 0 (length s.selected_users)) (bulk_bar s ∷ [])
        ++ (table s ∷ (shown s.sidebar_open (sidebar s) ++ qr_view s.qr_modal))))
