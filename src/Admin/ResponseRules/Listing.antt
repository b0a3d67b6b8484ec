-- ===== src/Admin/ResponseRules/Listing.antt =====
-- pages/ResponseRules.tsx as a page that lists the server's records.
use wow_vpn.Common.{◌≡◌, refl, Bool, true, false, Option, List, [], ◌∷◌, arith}
use wow_vpn.Admin.ListPage.{ListPage, Restful, one-nonempty, World, Reach, Reply, listed, done}
use wow_vpn.Admin.ListPage.Settled.{settled}
use wow_vpn.Admin.ListPage.Rounds.{rounds, work_due, rounds-list_of}
use wow_vpn.Admin.ResponseRules.{
  Rule, Form, State, Job, loading, creating, toggling, deleting, Effect, start, alert, Request,
  Answer, rules_answer, responded, handle_create, create_from, delete_rule, answer, open_form,
  close_form, type_form, toggle_rule,
}
use wow_vpn.Admin.ResponseRules.{list_rules}
use wow_vpn.Admin.ResponseRules.Screen.{Msg, update}
use wow_vpn.Admin.ResponseRules.Screen

-- The requests among what a handler does, each with the rest of its handler.
abbrev pub commands : List Effect → List (Job × Request)
commands [] = []
commands (start j r ∷ es) = (j, r) ∷ commands es
commands (alert _ ∷ es) = commands es

abbrev pub loads : Job → Bool
loads loading = true
loads _ = false

abbrev pub answer_of : Reply Rule → Answer
answer_of (listed xs) = rules_answer xs
answer_of done = responded

unfoldable pub act : Bool × Msg → State → State × List (Job × Request)
act (sure, m) s = let (t, es) = update sure m s in (t, commands es)

unfoldable pub receive : Job × Request → Reply Rule → State → State × List (Job × Request)
receive (j, q) r s = let (t, es) = answer j (answer_of r) s in (t, commands es)

create_from-rules : (f : Option Form) (s : State) → (create_from f s).0.rules ≡ s.rules
unfolding create_from
create_from-rules f s = ground arith

pub rules-act : (a : Bool × Msg) (s : State) → (act a s).0.rules ≡ s.rules
unfolding act update handle_create delete_rule open_form close_form type_form toggle_rule
rules-act (sure, Screen.new) s = refl
rules-act (sure, Screen.save) s = create_from-rules s.form s
rules-act (sure, Screen.abandon) s = refl
rules-act (sure, Screen.toggle id current) s = refl
rules-act (true, Screen.remove id) s = refl
rules-act (false, Screen.remove id) s = refl
rules-act (sure, Screen.type_name t) s = refl
rules-act (sure, Screen.type_trigger t) s = refl
rules-act (sure, Screen.type_action t) s = refl

pub rules-receive :
    (c : Job × Request) (xs : List Rule) (s : State)
    → loads c.0 ≡ true
    → (receive c (listed xs) s).0.rules ≡ xs
unfolding receive answer
rules-receive (loading, q) xs s e = refl
rules-receive (creating, q) xs s e = cc
rules-receive (toggling, q) xs s e = cc
rules-receive (deleting, q) xs s e = cc

pub receive-listed :
    (c : Job × Request) (xs : List Rule) (s : State)
    → loads c.0 ≡ true
    → (receive c (listed xs) s).1 ≡ []
unfolding receive answer
receive-listed (loading, q) xs s e = refl
receive-listed (creating, q) xs s e = cc
receive-listed (toggling, q) xs s e = cc
receive-listed (deleting, q) xs s e = cc

pub receive-done :
    (c : Job × Request) (s : State)
    → loads c.0 ≡ false
    → (d : Job × Request) × (loads d.0 ≡ true) × ((receive c done s).1 ≡ d ∷ [])
unfolding receive answer
receive-done (loading, q) s e = cc
receive-done (creating, q) s e = ((loading, list_rules), refl, refl)
receive-done (toggling, q) s e = ((loading, list_rules), refl, refl)
receive-done (deleting, q) s e = ((loading, list_rules), refl, refl)

abbrev pub rules_page : ListPage
rules_page = record {
  Item = Rule;
  State = State;
  Command = Job × Request;
  Action = Bool × Msg;
  list_of = λ s. s.rules;
  is_load = λ c. loads c.0;
  act = act;
  answered = receive;
  list_of-act = rules-act;
  list_of-listed = rules-receive;
  done-starts = λ c s e. let (d, loads, one) = receive-done c s e in one-nonempty one;
}

abbrev pub rules_restful : Restful rules_page
rules_restful = record { listed-ends = receive-listed; done-loads = receive-done }

-- With answers in the order of the requests, none of them failing, and no one else changing the
-- server's records: whatever is clicked and typed, when everything asked for has been answered, the
-- page lists the server's records.
pub rules-settled :
    (change : Job × Request → List Rule → List Rule) (w : World rules_page)
    → Reach rules_page change w
    → w.asked ≡ []
    → w.replies ≡ []
    → w.state.rules ≡ w.records
rules-settled = settled rules_page

-- The server answers in order, and no request fails: whatever was clicked and typed before, when the
-- server and the page do the work that is due, nothing is under way at its end, and the page lists
-- the server's records.
pub rounds-rules :
    (change : Job × Request → List Rule → List Rule) (w : World rules_page)
    → Reach rules_page change w
    → let v = rounds rules_page rules_restful change (work_due rules_page rules_restful w) w in
      (v.asked ≡ []) × (v.replies ≡ []) × (v.state.rules ≡ v.records)
rounds-rules = rounds-list_of rules_page rules_restful
