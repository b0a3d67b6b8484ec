-- ===== src/Admin/Templates/Screen.antt =====
-- What pages/Templates.tsx renders, and what its clicks and inputs do.
use wow_vpn.Common.{
  String, Bool, true, false, not, ◌&&◌, Option, none, some, List, [], ◌∷◌, ◌++◌, map, length, ◌==◌,
  nat_eq, if◌then◌else◌, template,
}
use wow_vpn.Common.Number.{Number}
use wow_vpn.View.{Node, text, element, nodes, shown, on_click, on_change, value}
use wow_vpn.Admin.Templates.{
  Template, Form, State, Effect, duration_label, handle_create, handle_delete, open_form,
  close_form, type_form,
}

pub data Msg : Type 0 where
  new save abandon : Msg
  remove : String → Msg
  type_name type_days type_limit type_price : String → Msg

labelled : String → String → (String → Msg) → Node Msg
labelled title content m = element "div" [] (
    nodes (
      element "label" [] (nodes (text title ∷ []))
      ∷ element "input" (value content ∷ on_change m ∷ []) (nodes [])
      ∷ []))

unfoldable pub tariff_form : Option Form → List (Node Msg)
unfolding labelled
tariff_form none = []
tariff_form (some f) =
    element "div" [] (
      nodes (
        element "h3" [] (nodes (text "Создать тариф" ∷ []))
        ∷ element "input" (value f.name ∷ on_change type_name ∷ []) (nodes [])
        ∷ labelled "Дней" f.days type_days
        ∷ labelled "Лимит (ГБ)" f.limit type_limit
        ∷ labelled "Цена" f.price type_price
        ∷ element "button" (on_click save ∷ []) (nodes (text "Создать" ∷ []))
        ∷ element "button" (on_click abandon ∷ []) (nodes (text "Отмена" ∷ []))
        ∷ []))
    ∷ []

is_shown : Option Form → Bool
is_shown none = false
is_shown (some _) = true

module _ {num : Number} where
  open num use {of_nat, num_le, to_text}

  unfoldable pub tariff_card : Template num → Node Msg
  tariff_card t = element "div" [] (
      nodes (
        element "button" (on_click (remove t.id) ∷ []) (nodes [])
        ∷ element "h3" [] (nodes (text t.name ∷ []))
        ∷ element "p" [] (nodes (text (if t.price == "0" then "Бесплатно" else t.price) ∷ []))
        ∷ element "span" [] (nodes (text "Длительность" ∷ []))
        ∷ element "span" [] (nodes (text (duration_label num t.duration_days) ∷ []))
        ∷ element "span" [] (nodes (text "Лимит трафика" ∷ []))
        ∷ element "span" [] (
            nodes (
              text (
                if num_le (of_nat 999) t.data_limit_gb
                then "Безлимит"
                else template (to_text t.data_limit_gb ∷ " ГБ" ∷ []))
              ∷ []))
        ∷ []))

  unfoldable pub templates_view : State num → Node Msg
  unfolding is_shown
  templates_view s = element "div" [] (
      nodes (
        element "h1" [] (nodes (text "Шаблоны Тарифов" ∷ []))
          ∷ element "p" [] (nodes (text "Предустановленные тарифные планы" ∷ []))
          ∷ element "button" (on_click new ∷ []) (nodes (text "Новый тариф" ∷ []))
          ∷ tariff_form s.form
        ++ (shown (nat_eq (length s.templates) 0 && not (is_shown s.form)) (
              element "div" []
                (nodes (text "Нет тарифов. Нажмите «Новый тариф» чтобы создать." ∷ []))
              ∷ [])
            ++ element "div" [] (nodes (map tariff_card s.templates)) ∷ [])))

  quiet : State num → State num × List (Effect num)
  quiet s = (s, [])

  -- The handler of each message, at the answer of `confirm`.
  unfoldable pub update : Bool → Msg → State num → State num × List (Effect num)
  unfolding quiet
  update sure new s = quiet (open_form s)
  update sure save s = handle_create s
  update sure abandon s = quiet (close_form s)
  update sure (remove id) s = handle_delete sure id s
  update sure (type_name t) s = quiet (type_form (λ f. record f { name = t }) s)
  update sure (type_days t) s = quiet (type_form (λ f. record f { days = t }) s)
  update sure (type_limit t) s = quiet (type_form (λ f. record f { limit = t }) s)
  update sure (type_price t) s = quiet (type_form (λ f. record f { price = t }) s)
