-- ===== src/Admin/ResponseRules/Screen.antt =====
-- What pages/ResponseRules.tsx renders, and what its clicks and inputs do.
use wow_vpn.Common.{
  String, Bool, true, false, not, ◌&&◌, Option, none, some, List, [], ◌∷◌, ◌++◌, map, length,
  nat_eq, if◌then◌else◌,
}
use wow_vpn.View.{Node, text, element, nodes, shown, on_click, on_change, value, tone}
use wow_vpn.Admin.ResponseRules.{
  Rule, Form, State, Effect, handle_create, toggle_rule, delete_rule, open_form, close_form,
  type_form,
}

pub data Msg : Type 0 where
  new save abandon : Msg
  toggle : String → Bool → Msg
  remove : String → Msg
  type_name type_trigger type_action : String → Msg

unfoldable pub rule_form : Option Form → List (Node Msg)
rule_form none = []
rule_form (some f) =
    element "div" [] (
      nodes (
        element "h3" [] (nodes (text "Новое правило" ∷ []))
        ∷ element "input" (value f.name ∷ on_change type_name ∷ []) (nodes [])
        ∷ element "input" (value f.trigger ∷ on_change type_trigger ∷ []) (nodes [])
        ∷ element "input" (value f.action ∷ on_change type_action ∷ []) (nodes [])
        ∷ element "button" (on_click save ∷ []) (nodes (text "Создать" ∷ []))
        ∷ element "button" (on_click abandon ∷ []) (nodes (text "Отмена" ∷ []))
        ∷ []))
    ∷ []

is_shown : Option Form → Bool
is_shown none = false
is_shown (some _) = true

unfoldable pub rule_card : Rule → Node Msg
rule_card r = element "div" [] (
    nodes (
      element "div" (tone (if r.enabled then "bg-primary/10" else "bg-muted") ∷ []) (
        nodes (
          element "Zap" (tone (if r.enabled then "text-primary" else "text-muted-foreground") ∷ [])
            (nodes [])
          ∷ []))
      ∷ element "h3" [] (nodes (text r.name ∷ []))
      ∷ element "span" [] (nodes (text "Событие:" ∷ []))
      ∷ element "span" [] (nodes (text r.trigger ∷ []))
      ∷ element "span" [] (nodes (text "Действие:" ∷ []))
      ∷ element "span" [] (nodes (text r.action ∷ []))
      ∷ element "button"
          (on_click (toggle r.id r.enabled)
            ∷ tone (
                if r.enabled
                then "text-primary hover:bg-primary/20"
                else "text-muted-foreground hover:bg-muted")
            ∷ [])
          (nodes (element (if r.enabled then "ToggleRight" else "ToggleLeft") [] (nodes []) ∷ []))
      ∷ element "button" (on_click (remove r.id) ∷ []) (nodes [])
      ∷ []))

unfoldable pub rules_view : State → Node Msg
unfolding is_shown
rules_view s = element "div" [] (
    nodes (
      element "h1" [] (nodes (text "Правила Биллинга" ∷ []))
        ∷ element "p" [] (nodes (text "Автоматические действия на основе триггеров" ∷ []))
        ∷ element "button" (on_click new ∷ []) (nodes (text "Создать правило" ∷ []))
        ∷ rule_form s.form
      ++ (shown (nat_eq (length s.rules) 0 && not (is_shown s.form)) (
            element "div" [] (
              nodes
                (text "Нет правил. Нажмите «Создать правило» для добавления автоматизации." ∷ []))
            ∷ [])
          ++ element "div" [] (nodes (map rule_card s.rules)) ∷ [])))

quiet : State → State × List Effect
quiet s = (s, [])

-- The handler of each message, at the answer of `confirm`.
unfoldable pub update : Bool → Msg → State → State × List Effect
unfolding quiet
update sure new s = quiet (open_form s)
update sure save s = handle_create s
update sure abandon s = quiet (close_form s)
update sure (toggle id current) s = toggle_rule id current s
update sure (remove id) s = delete_rule sure id s
update sure (type_name t) s = quiet (type_form (λ f. record f { name = t }) s)
update sure (type_trigger t) s = quiet (type_form (λ f. record f { trigger = t }) s)
update sure (type_action t) s = quiet (type_form (λ f. record f { action = t }) s)
