-- ===== src/Admin/Templates/Laws.antt =====
-- From the button to the new list of pages/Templates.tsx, and what the page offers.
use wow_vpn.Common.{
  ◌≡◌, refl, ◌≢◌, false, Option, none, some, List, [], ◌∷◌, ◌++◌, map, arith, eq_iff, trim, nat_eq,
  ℕ, suc, length,
}
use mathlib.Core.List.{append-nil}
use wow_vpn.Common.Number.{Number}
use wow_vpn.View.{clicks, clicks_all, nodes}
use wow_vpn.Admin.Templates.{
  Template, Form, State, Effect, start, create_template, creating, loading, responded,
  templates_answer, load, handle_create, create_from, answer, body_of,
}
use wow_vpn.Admin.Templates.Screen.{
  Msg, new, save, abandon, remove, tariff_form, tariff_card, templates_view,
}

-- The state and all that was asked for when the request of a creation and then that of the list
-- that follows it have been answered.
abbrev pub create_and_list :
    {num : Number} → List (Template num) → State num → State num × List (Effect num)
create_and_list ts s =
    let (s₁, asked) = handle_create s in
    let (s₂, reloading) = answer creating responded s₁ in
    let (s₃, more) = answer loading (templates_answer ts) s₂ in (s₃, asked ++ (reloading ++ more))

not_zero : (n : ℕ) → nat_eq (suc n) 0 ≡ false
not_zero n = ground arith

module _ {num : Number} where
  -- A tariff whose name is not blank is asked for once, with the limits of the form; when the
  -- server has answered, and then sent its list, the form is closed and the list is the server's.
  pub handle_create-answer :
      (f : Form) (ts : List (Template num)) (s : State num)
      → s.form ≡ some f
      → trim f.name ≢ ""
      → create_and_list ts s ≡ (
        record s { templates = ts; form = none },
        start creating (create_template (body_of f)) ∷ load ∷ [],
      )
  unfolding handle_create create_from answer
  handle_create-answer f ts s e named = rw e (ground (arith, eq_iff (trim f.name) ""))

  -- What the page should offer: the new tariff, the two buttons of the form while it is shown, and
  -- one removal for each tariff.
  abbrev pub offer_of : Option Form → List (Template num) → List Msg
  offer_of none ts = new ∷ map (λ t. remove t.id) ts
  offer_of (some f) ts = new ∷ save ∷ abandon ∷ map (λ t. remove t.id) ts

  clicks_all-tariff_card :
      (ts : List (Template num))
      → clicks_all (nodes (map tariff_card ts)) ≡ map (λ t. remove t.id) ts
  unfolding tariff_card
  clicks_all-tariff_card [] = refl
  clicks_all-tariff_card (t ∷ ts) = rw (clicks_all-tariff_card ts)

  clicks-templates_view_of :
      (form : Option Form) (ts : List (Template num))
      → clicks (templates_view (record { templates = ts; form = form })) ≡ offer_of form ts
  unfolding templates_view tariff_form
  clicks-templates_view_of none [] = refl
  clicks-templates_view_of none (t ∷ ts) =
      rw (not_zero (length ts), clicks_all-tariff_card (t ∷ ts), append-nil) refl
  clicks-templates_view_of (some f) [] = refl
  clicks-templates_view_of (some f) (t ∷ ts) =
      rw (not_zero (length ts), clicks_all-tariff_card (t ∷ ts), append-nil) refl

  -- The clicks that the page offers: a new tariff, the two buttons of the form while it is shown,
  -- and one removal for each tariff, in their order.
  pub clicks-templates_view :
      (s : State num) → clicks (templates_view s) ≡ offer_of s.form s.templates
  clicks-templates_view s = clicks-templates_view_of s.form s.templates
