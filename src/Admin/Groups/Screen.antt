-- ===== src/Admin/Groups/Screen.antt =====
-- What pages/Groups.tsx renders, and what its clicks and inputs do. A click on a button of a card
-- does not reach the card: its `stopPropagation` is why a click here sends one message only.
pub mod Laws
use wow_vpn.Common.{
  String, Bool, true, false, not, ◌&&◌, Option, none, some, List, [], ◌∷◌, ◌++◌, map, length,
  includes, ◌==◌, nat_eq, ltb, if◌then◌else◌, or_else, template, decimal,
}
use wow_vpn.View.{Node, text, element, nodes, shown, on_click, on_change, disabled, checked, tone}
use wow_vpn.Admin.Groups.{
  Group, Client, Form, State, Effect, is_truthy, handle_create, handle_delete, open_new, start_edit,
  cancel, open_assign_panel, close_assign_panel, toggle_client_selection, handle_assign, type_form,
}

pub data Msg : Type 0 where
  new save abandon close_panel assign : Msg
  navigate remove add_clients choose : String → Msg
  edit : Group → Msg
  type_name type_description type_limit : String → Msg

unfoldable pub title_bar : Node Msg
title_bar = element "div" [] (
    nodes (
      element "h1" [] (nodes (text "Группы" ∷ []))
      ∷ element "p" [] (nodes (text "Организация клиентов по категориям" ∷ []))
      ∷ element "button" (on_click new ∷ []) (nodes (text "Создать группу" ∷ []))
      ∷ []))

unfoldable pub group_form : Bool → Node Msg
group_form editing = element "div" [] (
    nodes (
      element "h3" []
        (nodes (text (if editing then "Редактировать группу" else "Новая группа") ∷ []))
      ∷ element "input" (on_change type_name ∷ []) (nodes [])
      ∷ element "input" (on_change type_description ∷ []) (nodes [])
      ∷ element "input" (on_change type_limit ∷ []) (nodes [])
      ∷ element "button" (on_click save ∷ [])
          (nodes (text (if editing then "Сохранить" else "Создать") ∷ []))
      ∷ element "button" (on_click abandon ∷ []) (nodes (text "Отмена" ∷ []))
      ∷ []))

-- `groups.find(g => g.id === assignGroupId)?.name`; an absent name shows as no text.
name_of : String → List Group → List (Node Msg)
name_of id [] = []
name_of id (g ∷ gs) = let rest = name_of id gs in if g.id == id then text g.name ∷ [] else rest

unfoldable pub client_row : List String → Client → Node Msg
client_row selected c =
    element "label" (tone (if includes selected c.id then "bg-primary/10" else "") ∷ []) (
      nodes (
        element "input" (checked (includes selected c.id) ∷ on_click (choose c.id) ∷ []) (nodes [])
        ∷ element "span" [] (nodes (text c.username ∷ []))
        ∷ element "span" [] (
            nodes (
              text (
                if not (c.group_name == "—")
                then template ("Группа: " ∷ c.group_name ∷ [])
                else "Без группы")
              ∷ []))
        ∷ []))

unfoldable pub assign_buttons : List String → Node Msg
assign_buttons selected = element "div" [] (
    nodes (
      element "button" (on_click assign ∷ disabled (nat_eq (length selected) 0) ∷ []) (
        nodes (
          text "Добавить "
          ∷ text (
              if ltb 0 (length selected)
              then template ("(" ∷ decimal (length selected) ∷ ")" ∷ [])
              else "")
          ∷ text " в группу"
          ∷ []))
      ∷ element "button" (on_click close_panel ∷ []) (nodes (text "Отмена" ∷ []))
      ∷ []))

unfoldable pub choice_of : List Client → List String → List (Node Msg)
choice_of [] selected =
    element "p" []
      (nodes (text "Нет клиентов. Сначала создайте клиента на вкладке «Клиенты»." ∷ []))
    ∷ []
choice_of (c ∷ cs) selected =
    element "p" [] (nodes (text "Выберите клиентов для добавления в группу:" ∷ []))
    ∷ element "div" [] (nodes (map (client_row selected) (c ∷ cs)))
    ∷ assign_buttons selected
    ∷ []

unfoldable pub assign_panel : Option String → State → List (Node Msg)
unfolding name_of
assign_panel none s = []
assign_panel (some id) s = shown (not (id == "")) (
    element "div" [] (
      nodes (
        element "h3" []
          (nodes (text "Добавить клиентов в группу «" ∷ name_of id s.groups ++ text "»" ∷ []))
        ∷ element "button" (on_click close_panel ∷ []) (nodes (text "✕" ∷ []))
        ∷ choice_of s.clients s.selected_clients))
    ∷ [])

unfoldable pub group_card : Group → Node Msg
group_card g = element "div" (on_click (navigate (template ("/users?group=" ∷ g.id ∷ []))) ∷ []) (
    nodes (
      element "button" (on_click (add_clients g.id) ∷ []) (nodes [])
      ∷ element "button" (on_click (edit g) ∷ []) (nodes [])
      ∷ element "button" (on_click (remove g.id) ∷ []) (nodes [])
      ∷ element "h3" [] (nodes (text g.name ∷ []))
      ∷ element "p" [] (nodes (text (or_else g.description "Без описания") ∷ []))
      ∷ element "span" [] (nodes (text "Участников" ∷ []))
      ∷ element "span" [] (nodes (text (decimal g.members) ∷ []))
      ∷ element "span" [] (nodes (text "Лимит" ∷ []))
      ∷ element "span" [] (nodes (text g.data_limit ∷ []))
      ∷ []))

unfoldable pub groups_view : State → Node Msg
groups_view s = element "div" [] (
    nodes (
      title_bar ∷ shown s.show_form (group_form (is_truthy s.edit_id) ∷ [])
      ++ (assign_panel s.assign_group_id s
          ++ (shown (nat_eq (length s.groups) 0 && not s.show_form) (
                element "div" []
                  (nodes (text "Нет групп. Нажмите «Создать группу» чтобы начать." ∷ []))
                ∷ [])
              ++ element "div" [] (nodes (map group_card s.groups)) ∷ []))))

quiet : State → State × List Effect
quiet s = (s, [])

-- The handler of each message, at the answer of `confirm`. `navigate` leaves the page.
unfoldable pub update : Bool → Msg → State → State × List Effect
unfolding quiet
update sure new s = quiet (open_new s)
update sure save s = handle_create s
update sure abandon s = quiet (cancel s)
update sure close_panel s = quiet (close_assign_panel s)
update sure assign s = handle_assign s
update sure (navigate path) s = quiet s
update sure (remove id) s = handle_delete sure id s
update sure (add_clients id) s = quiet (open_assign_panel id s)
update sure (choose id) s = quiet (toggle_client_selection id s)
update sure (edit g) s = quiet (start_edit g s)
update sure (type_name t) s = quiet (type_form (λ f. record f { name = t }) s)
update sure (type_description t) s = quiet (type_form (λ f. record f { description = t }) s)
update sure (type_limit t) s = quiet (type_form (λ f. record f { limit = t }) s)
