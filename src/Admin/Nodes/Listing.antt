-- ===== src/Admin/Nodes/Listing.antt =====
-- pages/Nodes.tsx as a page that lists the server's records.
use wow_vpn.Common.{◌≡◌, refl, Bool, true, false, Option, List, [], ◌∷◌, arith}
use wow_vpn.Common.Number.{Number}
use wow_vpn.Admin.ListPage.{ListPage, Restful, one-nonempty, World, Reach, Reply, listed, done}
use wow_vpn.Admin.ListPage.Settled.{settled}
use wow_vpn.Admin.ListPage.Rounds.{rounds, work_due, rounds-list_of}
use wow_vpn.Admin.Nodes.{
  Node, Form, State, Job, loading, creating, deleting, Effect, start, alert, Request, list_nodes,
  Answer, nodes_answer, responded, handle_create, create_from, handle_delete, answer, open_form,
  close_form, type_form,
}
use wow_vpn.Admin.Nodes.Screen.{Msg, update}
use wow_vpn.Admin.Nodes.Screen

-- The requests among what a handler does, each with the rest of its handler.
abbrev pub commands : {num : Number} → List (Effect num) → List (Job × Request num)
commands [] = []
commands (start j r ∷ es) = (j, r) ∷ commands es
commands (alert _ ∷ es) = commands es

abbrev pub loads : Job → Bool
loads loading = true
loads _ = false

abbrev pub answer_of : {num : Number} → Reply (Node num) → Answer num
answer_of (listed xs) = nodes_answer xs
answer_of done = responded

module _ (num : Number) where
  unfoldable pub act : Bool × Msg → State num → State num × List (Job × Request num)
  act (sure, m) s = let (t, es) = update sure m s in (t, commands es)

  unfoldable pub receive :
      Job × Request num → Reply (Node num) → State num → State num × List (Job × Request num)
  receive (j, q) r s = let (t, es) = answer j (answer_of r) s in (t, commands es)

  create_from-nodes : (f : Option Form) (s : State num) → (create_from f s).0.nodes ≡ s.nodes
  unfolding create_from
  create_from-nodes f s = ground arith

  pub nodes-act : (a : Bool × Msg) (s : State num) → (act a s).0.nodes ≡ s.nodes
  unfolding act update handle_create handle_delete open_form close_form type_form
  nodes-act (sure, Screen.new) s = refl
  nodes-act (sure, Screen.save) s = create_from-nodes s.form s
  nodes-act (sure, Screen.abandon) s = refl
  nodes-act (true, Screen.remove id) s = refl
  nodes-act (false, Screen.remove id) s = refl
  nodes-act (sure, Screen.type_name t) s = refl
  nodes-act (sure, Screen.type_location t) s = refl
  nodes-act (sure, Screen.type_ip t) s = refl
  nodes-act (sure, Screen.type_port t) s = refl

  pub nodes-receive :
      (c : Job × Request num) (xs : List (Node num)) (s : State num)
      → loads c.0 ≡ true
      → (receive c (listed xs) s).0.nodes ≡ xs
  unfolding receive answer
  nodes-receive (loading, q) xs s e = refl
  nodes-receive (creating, q) xs s e = cc
  nodes-receive (deleting, q) xs s e = cc

  pub receive-listed :
      (c : Job × Request num) (xs : List (Node num)) (s : State num)
      → loads c.0 ≡ true
      → (receive c (listed xs) s).1 ≡ []
  unfolding receive answer
  receive-listed (loading, q) xs s e = refl
  receive-listed (creating, q) xs s e = cc
  receive-listed (deleting, q) xs s e = cc

  pub receive-done :
      (c : Job × Request num) (s : State num)
      → loads c.0 ≡ false
      → (d : Job × Request num) × (loads d.0 ≡ true) × ((receive c done s).1 ≡ d ∷ [])
  unfolding receive answer
  receive-done (loading, q) s e = cc
  receive-done (creating, q) s e = ((loading, list_nodes), refl, refl)
  receive-done (deleting, q) s e = ((loading, list_nodes), refl, refl)

  abbrev pub nodes_page : ListPage
  nodes_page = record {
    Item = Node num;
    State = State num;
    Command = Job × Request num;
    Action = Bool × Msg;
    list_of = λ s. s.nodes;
    is_load = λ c. loads c.0;
    act = act;
    answered = receive;
    list_of-act = nodes-act;
    list_of-listed = nodes-receive;
    done-starts = λ c s e. let (d, loads, one) = receive-done c s e in one-nonempty one;
  }

  abbrev pub nodes_restful : Restful nodes_page
  nodes_restful = record { listed-ends = receive-listed; done-loads = receive-done }

  -- With answers in the order of the requests, none of them failing, and no one else changing the
  -- server's records: whatever is clicked and typed, when everything asked for has been answered, the
  -- page lists the server's records.
  pub nodes-settled :
      (change : Job × Request num → List (Node num) → List (Node num)) (w : World nodes_page)
      → Reach nodes_page change w
      → w.asked ≡ []
      → w.replies ≡ []
      → w.state.nodes ≡ w.records
  nodes-settled = settled nodes_page

  -- The server answers in order, and no request fails: whatever was clicked and typed before, when the
  -- server and the page do the work that is due, nothing is under way at its end, and the page lists
  -- the server's records.
  pub rounds-nodes :
      (change : Job × Request num → List (Node num) → List (Node num)) (w : World nodes_page)
      → Reach nodes_page change w
      → let v = rounds nodes_page nodes_restful change (work_due nodes_page nodes_restful w) w in
        (v.asked ≡ []) × (v.replies ≡ []) × (v.state.nodes ≡ v.records)
  rounds-nodes = rounds-list_of nodes_page nodes_restful
