-- ===== src/Admin/Nodes/Screen.antt =====
-- What pages/Nodes.tsx renders, and what its clicks and inputs do.
use wow_vpn.Common.{
  String, Bool, true, false, not, ◌&&◌, Option, none, some, List, [], ◌∷◌, ◌++◌, map, length,
  nat_eq, if◌then◌else◌, or_else,
}
use wow_vpn.Common.Number.{Number}
use wow_vpn.View
use wow_vpn.View.{text, element, nodes, shown, on_click, on_change, value, tone}
use wow_vpn.Admin.Nodes.{
  Node, Form, State, Effect, handle_create, handle_delete, open_form, close_form, type_form,
}

pub data Msg : Type 0 where
  new save abandon : Msg
  remove : String → Msg
  type_name type_location type_ip type_port : String → Msg

labelled : String → String → (String → Msg) → View.Node Msg
labelled title content m = element "div" [] (
    nodes (
      element "label" [] (nodes (text title ∷ []))
      ∷ element "input" (value content ∷ on_change m ∷ []) (nodes [])
      ∷ []))

unfoldable pub node_form : Option Form → List (View.Node Msg)
unfolding labelled
node_form none = []
node_form (some f) =
    element "div" [] (
      nodes (
        element "h3" [] (nodes (text "Новый сервер" ∷ []))
        ∷ labelled "Название" f.name type_name
        ∷ labelled "Локация" f.location type_location
        ∷ labelled "IP адрес" f.ip type_ip
        ∷ labelled "Порт" f.port type_port
        ∷ element "button" (on_click save ∷ []) (nodes (text "Добавить" ∷ []))
        ∷ element "button" (on_click abandon ∷ []) (nodes (text "Отмена" ∷ []))
        ∷ []))
    ∷ []

is_shown : Option Form → Bool
is_shown none = false
is_shown (some _) = true

module _ {num : Number} where
  open num use {to_text}

  unfoldable pub node_card : Node num → View.Node Msg
  node_card n = element "div" [] (
      nodes (
        element "h3" [] (nodes (text n.name ∷ []))
        ∷ element "p" [] (nodes (text (or_else n.location "Локация не указана") ∷ []))
        ∷ element "div" (tone (if n.is_online then "bg-[#10B981]" else "bg-red-500") ∷ [])
            (nodes [])
        ∷ element "span" (tone (if n.is_online then "text-[#10B981]" else "text-red-500") ∷ [])
            (nodes (text (if n.is_online then "В сети" else "Не в сети") ∷ []))
        ∷ element "button" (on_click (remove n.id) ∷ []) (nodes [])
        ∷ element "p" [] (nodes (text "IP Адрес" ∷ []))
        ∷ element "p" [] (nodes (text (or_else n.ip_address "—") ∷ []))
        ∷ element "p" [] (nodes (text "Порт" ∷ []))
        ∷ element "p" [] (nodes (text (to_text n.port) ∷ []))
        ∷ []))

  unfoldable pub nodes_view : State num → View.Node Msg
  unfolding is_shown
  nodes_view s = element "div" [] (
      nodes (
        element "h1" [] (nodes (text "Серверы" ∷ []))
          ∷ element "p" [] (nodes (text "Управление VPN-серверами и их инфраструктурой" ∷ []))
          ∷ element "button" (on_click new ∷ []) (nodes (text "Добавить сервер" ∷ []))
          ∷ node_form s.form
        ++ (shown (nat_eq (length s.nodes) 0 && not (is_shown s.form)) (
              element "div" [] (
                nodes (
                  text "Нет серверов. Нажмите «Добавить сервер» для регистрации нового узла." ∷ []))
              ∷ [])
            ++ element "div" [] (nodes (map node_card s.nodes)) ∷ [])))

  quiet : State num → State num × List (Effect num)
  quiet s = (s, [])

  -- The handler of each message, at the answer of `confirm`.
  unfoldable pub update : Bool → Msg → State num → State num × List (Effect num)
  unfolding quiet
  update sure new s = quiet (open_form s)
  update sure save s = handle_create s
  update sure abandon s = quiet (close_form s)
  update sure (remove id) s = handle_delete sure id s
  update sure (type_name t) s = quiet (type_form (λ f. record f { name = t }) s)
  update sure (type_location t) s = quiet (type_form (λ f. record f { location = t }) s)
  update sure (type_ip t) s = quiet (type_form (λ f. record f { ip = t }) s)
  update sure (type_port t) s = quiet (type_form (λ f. record f { port = t }) s)
