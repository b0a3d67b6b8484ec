-- ===== src/Admin/Templates/Listing.antt =====
-- pages/Templates.tsx as a page that lists the server's records.
use wow_vpn.Common.{◌≡◌, refl, Bool, true, false, Option, List, [], ◌∷◌, arith}
use wow_vpn.Common.Number.{Number}
use wow_vpn.Admin.ListPage.{ListPage, Restful, one-nonempty, World, Reach, Reply, listed, done}
use wow_vpn.Admin.ListPage.Settled.{settled}
use wow_vpn.Admin.ListPage.Rounds.{rounds, work_due, rounds-list_of}
use wow_vpn.Admin.Templates.{
  Template, Form, State, Job, loading, creating, deleting, Effect, start, alert, Request,
  list_templates, Answer, templates_answer, responded, handle_create, create_from, handle_delete,
  answer, open_form, close_form, type_form,
}
use wow_vpn.Admin.Templates.Screen.{Msg, update}
use wow_vpn.Admin.Templates.Screen

-- The requests among what a handler does, each with the rest of its handler.
abbrev pub commands : {num : Number} → List (Effect num) → List (Job × Request num)
commands [] = []
commands (start j r ∷ es) = (j, r) ∷ commands es
commands (alert _ ∷ es) = commands es

abbrev pub loads : Job → Bool
loads loading = true
loads _ = false

abbrev pub answer_of : {num : Number} → Reply (Template num) → Answer num
answer_of (listed xs) = templates_answer xs
answer_of done = responded

module _ (num : Number) where
  unfoldable pub act : Bool × Msg → State num → State num × List (Job × Request num)
  act (sure, m) s = let (t, es) = update sure m s in (t, commands es)

  unfoldable pub receive :
      Job × Request num → Reply (Template num) → State num → State num × List (Job × Request num)
  receive (j, q) r s = let (t, es) = answer j (answer_of r) s in (t, commands es)

  create_from-templates :
      (f : Option Form) (s : State num) → (create_from f s).0.templates ≡ s.templates
  unfolding create_from
  create_from-templates f s = ground arith

  pub templates-act : (a : Bool × Msg) (s : State num) → (act a s).0.templates ≡ s.templates
  unfolding act update handle_create handle_delete open_form close_form type_form
  templates-act (sure, Screen.new) s = refl
  templates-act (sure, Screen.save) s = create_from-templates s.form s
  templates-act (sure, Screen.abandon) s = refl
  templates-act (true, Screen.remove id) s = refl
  templates-act (false, Screen.remove id) s = refl
  templates-act (sure, Screen.type_name t) s = refl
  templates-act (sure, Screen.type_days t) s = refl
  templates-act (sure, Screen.type_limit t) s = refl
  templates-act (sure, Screen.type_price t) s = refl

  pub templates-receive :
      (c : Job × Request num) (xs : List (Template num)) (s : State num)
      → loads c.0 ≡ true
      → (receive c (listed xs) s).0.templates ≡ xs
  unfolding receive answer
  templates-receive (loading, q) xs s e = refl
  templates-receive (creating, q) xs s e = cc
  templates-receive (deleting, q) xs s e = cc

  pub receive-listed :
      (c : Job × Request num) (xs : List (Template num)) (s : State num)
      → loads c.0 ≡ true
      → (receive c (listed xs) s).1 ≡ []
  unfolding receive answer
  receive-listed (loading, q) xs s e = refl
  receive-listed (creating, q) xs s e = cc
  receive-listed (deleting, q) xs s e = cc

  pub receive-done :
      (c : Job × Request num) (s : State num)
      → loads c.0 ≡ false
      → (d : Job × Request num) × (loads d.0 ≡ true) × ((receive c done s).1 ≡ d ∷ [])
  unfolding receive answer
  receive-done (loading, q) s e = cc
  receive-done (creating, q) s e = ((loading, list_templates), refl, refl)
  receive-done (deleting, q) s e = ((loading, list_templates), refl, refl)

  abbrev pub templates_page : ListPage
  templates_page = record {
    Item = Template num;
    State = State num;
    Command = Job × Request num;
    Action = Bool × Msg;
    list_of = λ s. s.templates;
    is_load = λ c. loads c.0;
    act = act;
    answered = receive;
    list_of-act = templates-act;
    list_of-listed = templates-receive;
    done-starts = λ c s e. let (d, loads, one) = receive-done c s e in one-nonempty one;
  }

  abbrev pub templates_restful : Restful templates_page
  templates_restful = record { listed-ends = receive-listed; done-loads = receive-done }

  -- With answers in the order of the requests, none of them failing, and no one else changing the
  -- server's records: whatever is clicked and typed, when everything asked for has been answered, the
  -- page lists the server's records.
  pub templates-settled :
      (change : Job × Request num → List (Template num) → List (Template num))
      (w : World templates_page)
      → Reach templates_page change w
      → w.asked ≡ []
      → w.replies ≡ []
      → w.state.templates ≡ w.records
  templates-settled = settled templates_page

  -- The server answers in order, and no request fails: whatever was clicked and typed before, when the
  -- server and the page do the work that is due, nothing is under way at its end, and the page lists
  -- the server's records.
  pub rounds-templates :
      (change : Job × Request num → List (Template num) → List (Template num))
      (w : World templates_page)
      → Reach templates_page change w
      → let v =
          rounds templates_page templates_restful change
            (work_due templates_page templates_restful w)
            w in
        (v.asked ≡ []) × (v.replies ≡ []) × (v.state.templates ≡ v.records)
  rounds-templates = rounds-list_of templates_page templates_restful
