-- ===== src/Admin/Users/Screen.antt =====
-- What pages/Users.tsx renders, and the messages of its elements.
use wow_vpn.Common.{
  String, Bool, true, false, ◌&&◌, List, [], ◌∷◌, ◌++◌, map, length, includes, ◌==◌, nat_eq, ltb,
  if◌then◌else◌, or_else, template, decimal,
}
use wow_vpn.Common.Number.{Number}
use wow_vpn.View.{Node, text, element, nodes, shown, on_click, checked, tone}
use wow_vpn.Admin.Users.Types.{Client, Group, State}
use wow_vpn.Admin.Users.Panel.{has_filter, filter_id, displayed_users}
use wow_vpn.Admin.Users.Format.{format_bytes, limit_text}

pub data Msg (num : Number) : Type 0 where
  navigate : String → Msg num
  open_add close toggle_all save_new save_changes bulk_remove hide_qr : Msg num
  toggle_one remove copy_link copy_qr : String → Msg num
  details qr : Client num → Msg num
  toggle_status : String → String → Msg num
  pick_group pick_template : String → Msg num
  type_name type_telegram type_limit type_date : String → Msg num

abbrev pub is_empty {ℓ} : {A : Type ℓ} → List A → Bool
is_empty [] = true
is_empty (_ ∷ _) = false

name_in : List Group → String → String
name_in [] id = "Группа"
name_in (g ∷ gs) id =
    let rest = name_in gs id in if g.id == id then or_else g.name "Группа" else rest

module _ {num : Number} where
  open num use {Carrier, of_nat, num_le, over, times, minimum, to_text}

  unfoldable pub title_bar : State num → Node (Msg num)
  unfolding name_in
  title_bar s = element "div" [] (
      nodes (
        shown (has_filter s.group_filter)
          (element "button" (on_click (navigate "/groups") ∷ []) (nodes []) ∷ [])
        ++ element "h1" [] (
            nodes (
              text (
                if has_filter s.group_filter
                then template ("Клиенты (" ∷ name_in s.groups (filter_id s.group_filter) ∷ ")" ∷ [])
                else "Клиенты")
              ∷ []))
          ∷ element "p" [] (nodes (text "Управление клиентами VPN и их подписками" ∷ []))
          ∷ element "button" (on_click open_add ∷ []) (nodes (text "Добавить клиента" ∷ []))
          ∷ []))

  -- The bar over the table; its second button has no handler.
  unfoldable pub bulk_bar : State num → Node (Msg num)
  bulk_bar s = element "div" [] (
      nodes (
        element "p" []
          (nodes (text (decimal (length s.selected_users)) ∷ text " клиент(ов) выбрано" ∷ []))
        ∷ element "button" (on_click bulk_remove ∷ []) (nodes (text "Удалить" ∷ []))
        ∷ element "button" [] (nodes (text "Сбросить трафик" ∷ []))
        ∷ []))

  abbrev pub heading : String → Node (Msg num)
  heading title = element "th" [] (nodes (text title ∷ []))

  -- Whether the checkbox over the table is checked.
  unfoldable pub all_checked : State num → Bool
  all_checked s =
      nat_eq (length s.selected_users) (length (displayed_users s))
      && ltb 0 (length (displayed_users s))

  unfoldable pub table_head : State num → Node (Msg num)
  table_head s = element "thead" [] (
      nodes (
        element "tr" [] (
          nodes (
            element "th" [] (
              nodes (
                element "input" (checked (all_checked s) ∷ on_click toggle_all ∷ []) (nodes [])
                ∷ []))
            ∷ map heading (
                "ПОДПИСКА" ∷ "СЕТЬ" ∷ "ИМЯ КЛИЕНТА" ∷ "TELEGRAM ID" ∷ "ПРОТОКОЛ" ∷ "ТРАФИК"
                ∷ "ГРУППА" ∷ "ОКОНЧАНИЕ ПОДПИСКИ" ∷ "ДЕЙСТВИЯ" ∷ [])))
        ∷ []))

  unfoldable pub state_cells : Client num → List (Node (Msg num))
  state_cells u =
      let active = u.status == "online" in
      element "td" [] (
        nodes (
          element "div" (tone (if active then "bg-[#10B981]" else "bg-red-500") ∷ []) (nodes [])
          ∷ element "span" (tone (if active then "text-gray-300" else "text-red-400") ∷ [])
              (nodes (text (if active then "Активна" else "Заблокирована") ∷ []))
          ∷ []))
      ∷ element "td" [] (
          nodes (
            (if u.is_online
              then element "span" (tone "text-[#10B981]" ∷ []) (nodes (text "В сети" ∷ []))
              else element "span" (tone "text-gray-500" ∷ []) (nodes (text "Офлайн" ∷ [])))
            ∷ []))
      ∷ []

  unfoldable pub data_cells : Client num → List (Node (Msg num))
  data_cells u =
      element "td" [] (nodes (text u.username ∷ []))
      ∷ element "td" [] (nodes (text u.telegram_id ∷ []))
      ∷ element "td" [] (nodes (text u.protocol ∷ []))
      ∷ element "td" [] (
          nodes (
            element "span" [] (
              nodes (
                text (
                  template (
                    format_bytes num u.data_usage ∷ " / " ∷ limit_text num u.data_limit " GB" ∷ []))
                ∷ []))
            ∷ element "div"
                (tone (
                    template (
                      "width: "
                      ∷ to_text (
                          minimum (times (over u.data_usage u.data_limit) (of_nat 100))
                            (of_nat 100))
                      ∷ "%"
                      ∷ []))
                  ∷ [])
                (nodes [])
            ∷ []))
      ∷ element "td" [] (nodes (text (or_else u.group_name "—") ∷ []))
      ∷ element "td" [] (nodes (text u.subscription_end ∷ []))
      ∷ []

  unfoldable pub action_cell : Client num → Node (Msg num)
  action_cell u =
      let active = u.status == "online" in
      element "td" [] (
        nodes (
          element "button" (on_click (details u) ∷ []) (nodes [])
          ∷ element "button" (on_click (qr u) ∷ []) (nodes [])
          ∷ element "button" (on_click (copy_link u.shade_link) ∷ []) (nodes [])
          ∷ element "button"
              (on_click (toggle_status u.id u.status)
                ∷ tone (if active then "Заблокировать" else "Разблокировать")
                ∷ [])
              (nodes (element (if active then "ToggleRight" else "ToggleLeft") [] (nodes []) ∷ []))
          ∷ element "button" (on_click (remove u.id) ∷ []) (nodes [])
          ∷ []))

  unfoldable pub row : List String → Client num → Node (Msg num)
  unfolding state_cells data_cells action_cell
  row selected u = element "tr" [] (
      nodes (
        element "td" [] (
            nodes (
              element "input" (checked (includes selected u.id) ∷ on_click (toggle_one u.id) ∷ [])
                (nodes [])
              ∷ []))
          ∷ state_cells u
        ++ data_cells u
        ++ action_cell u ∷ []))

  unfoldable pub table : State num → Node (Msg num)
  table s = element "table" [] (
      nodes (
        table_head s
        ∷ element "tbody" [] (
            nodes (
              shown (is_empty (displayed_users s)) (
                element "tr" []
                  (nodes (text "Нет клиентов. Нажмите «Добавить клиента» для регистрации." ∷ []))
                ∷ [])
              ++ map (row s.selected_users) (displayed_users s)))
        ∷ []))
