-- ===== src/Admin/ResponseRules/Laws.antt =====
-- When pages/ResponseRules.tsx creates a rule, and what its switches ask for.
use wow_vpn.Common.{
  ◌≡◌, refl, ◌≢◌, ◌⊎◌, inl, inr, true, false, not, some, List, [], ◌∷◌, ◌++◌, map, arith, eq_iff,
  trim,
}
use wow_vpn.View.{clicks_all, nodes}
use wow_vpn.Admin.ResponseRules.{
  Rule, Form, State, Effect, start, alert, create_rule, creating, toggle_rule_to, toggling,
  handle_create, create_from, lacks_field, body_of, toggle_rule,
}
use wow_vpn.Admin.ResponseRules.Screen.{Msg, toggle, rule_card, update}

lacks_field-cases :
    (f : Form)
    → ((lacks_field f ≡ true) × ((trim f.name ≡ "") ⊎ (trim f.trigger ≡ "") ⊎ (trim f.action ≡ "")))
      ⊎ ((lacks_field f ≡ false)
          × (trim f.name ≢ "")
          × (trim f.trigger ≢ "")
          × (trim f.action ≢ ""))
unfolding lacks_field
lacks_field-cases f =
    ground (arith, eq_iff (trim f.name) "", eq_iff (trim f.trigger) "", eq_iff (trim f.action) "")

-- With the form open: if a field is blank, the click on the button only shows the alert; otherwise
-- it asks the server for one enabled rule with the three trimmed texts, and changes no state.
pub handle_create-fields :
    (f : Form) (s : State)
    → s.form ≡ some f
    → (((trim f.name ≡ "") ⊎ (trim f.trigger ≡ "") ⊎ (trim f.action ≡ ""))
        × (handle_create s ≡ (s, alert "Заполните все поля" ∷ [])))
      ⊎ ((trim f.name ≢ "")
          × (trim f.trigger ≢ "")
          × (trim f.action ≢ "")
          × (handle_create s ≡ (
            s,
            start creating (
                  create_rule (record {
                    name = trim f.name;
                    trigger = trim f.trigger;
                    action = trim f.action;
                    enabled = true;
                  }))
                ∷ [],
          )))
unfolding handle_create create_from body_of
handle_create-fields f s e = elim (lacks_field-cases f) [
  | inl (lacks, blank) ↦ inl (blank, rw (e, lacks) refl)
  | inr (full, a, b, c) ↦ inr (a, b, c, rw (e, full) refl)
]

-- The requests of one click on every switch that the cards offer.
pub switch_all : List Msg → State → List Effect
switch_all [] s = []
switch_all (toggle id current ∷ ms) s = (update false (toggle id current) s).1 ++ switch_all ms s
switch_all (_ ∷ ms) s = switch_all ms s

-- The switch of each card asks the server for the opposite of what the card shows, for its own
-- rule: one request for each rule, in the order of the cards.
pub switch_all-rule_card :
    (rs : List Rule) (s : State)
    → switch_all (clicks_all (nodes (map rule_card rs))) s
      ≡ map (λ r. start toggling (toggle_rule_to r.id (not r.enabled))) rs
unfolding switch_all rule_card update toggle_rule
switch_all-rule_card [] s = refl
switch_all-rule_card (r ∷ rs) s = rw (switch_all-rule_card rs s) refl
