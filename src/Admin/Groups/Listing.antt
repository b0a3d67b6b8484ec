-- ===== src/Admin/Groups/Listing.antt =====
-- pages/Groups.tsx as a page that lists the server's groups. The loads of the clients, which the page
-- also lists, are left out; they do not touch the groups.
use wow_vpn.Common.{◌≡◌, refl, String, Bool, true, false, Option, List, [], ◌∷◌, arith}
use wow_vpn.Admin.ListPage.{ListPage, Restful, one-nonempty, World, Reach, Reply, listed, done}
use wow_vpn.Admin.ListPage.Rounds.{rounds, work_due, rounds-list_of}
use wow_vpn.Admin.Groups.{
  Group, Form, State, Job, loading_groups, loading_clients, saving, deleting, assigning, Effect,
  start, alert, Request, list_groups, Answer, groups_answer, responded, handle_create, create_from,
  handle_delete, handle_assign, assign_to, open_new, start_edit, cancel, open_assign_panel,
  close_assign_panel, toggle_client_selection, type_form, fill, fill_next, answer,
}
use wow_vpn.Admin.Groups.Screen
use wow_vpn.Admin.Groups.Screen.{Msg, update}

-- Whether a job is about the groups.
abbrev pub concerns : Job → Bool
concerns loading_clients = false
concerns _ = true

abbrev pub loads : Job → Bool
loads loading_groups = true
loads _ = false

abbrev pub Command : Type 0
Command = (j : Job) × Request × (concerns j ≡ true)

-- The requests about the groups among what a handler does, each with the rest of its handler.
abbrev pub commands : List Effect → List Command
commands [] = []
commands (start loading_groups r ∷ es) = (loading_groups, r, refl) ∷ commands es
commands (start loading_clients r ∷ es) = commands es
commands (start saving r ∷ es) = (saving, r, refl) ∷ commands es
commands (start deleting r ∷ es) = (deleting, r, refl) ∷ commands es
commands (start assigning r ∷ es) = (assigning, r, refl) ∷ commands es
commands (alert _ ∷ es) = commands es

abbrev pub answer_of : Reply Group → Answer
answer_of (listed xs) = groups_answer xs
answer_of done = responded

-- A click or an input, with the answer of `confirm`; or the timer of an edit.
pub data Action : Type 0 where
  sent : Bool → Msg → Action
  filled : Action

unfoldable pub act : Action → State → State × List Command
act (sent sure m) s = let (t, es) = update sure m s in (t, commands es)
act filled s = (fill s, [])

unfoldable pub receive : Command → Reply Group → State → State × List Command
receive (j, q, about) r s = let (t, es) = answer j (answer_of r) s in (t, commands es)

create_from-groups : (f : Option Form) (s : State) → (create_from f s).0.groups ≡ s.groups
unfolding create_from
create_from-groups f s = ground arith

assign_to-groups :
    (o : Option String) (ids : List String) (s : State) → (assign_to o ids s).0.groups ≡ s.groups
unfolding assign_to
assign_to-groups o ids s = ground arith

fill_next-groups : (gs : List Group) (s : State) → (fill_next gs s).groups ≡ s.groups
unfolding fill_next
fill_next-groups gs s = ground arith

update-groups : (sure : Bool) (m : Msg) (s : State) → (update sure m s).0.groups ≡ s.groups
unfolding update handle_create handle_delete handle_assign open_new start_edit cancel
    open_assign_panel close_assign_panel toggle_client_selection type_form
update-groups sure Screen.save s = create_from-groups s.form s
update-groups sure Screen.assign s = assign_to-groups s.assign_group_id s.selected_clients s
update-groups sure m s = ground arith

pub groups-act : (a : Action) (s : State) → (act a s).0.groups ≡ s.groups
unfolding act fill
groups-act (sent sure m) s = update-groups sure m s
groups-act filled s = fill_next-groups s.fills s

pub groups-receive :
    (c : Command) (xs : List Group) (s : State)
    → loads c.0 ≡ true
    → (receive c (listed xs) s).0.groups ≡ xs
unfolding receive answer
groups-receive (loading_groups, q, about) xs s e = refl
groups-receive (j, q, about) xs s e = ground arith

pub receive-listed :
    (c : Command) (xs : List Group) (s : State)
    → loads c.0 ≡ true
    → (receive c (listed xs) s).1 ≡ []
unfolding receive answer
receive-listed (loading_groups, q, about) xs s e = refl
receive-listed (j, q, about) xs s e = ground arith

abbrev load_command : Command
load_command = (loading_groups, list_groups, refl)

pub receive-done :
    (c : Command) (s : State)
    → loads c.0 ≡ false
    → (d : Command) × (loads d.0 ≡ true) × ((receive c done s).1 ≡ d ∷ [])
unfolding receive answer
receive-done (loading_groups, q, about) s e = cc
receive-done (loading_clients, q, about) s e = cc
receive-done (saving, q, about) s e = (load_command, refl, refl)
receive-done (deleting, q, about) s e = (load_command, refl, refl)
receive-done (assigning, q, about) s e = (load_command, refl, refl)

abbrev pub groups_page : ListPage
groups_page = record {
  Item = Group;
  State = State;
  Command = Command;
  Action = Action;
  list_of = λ s. s.groups;
  is_load = λ c. loads c.0;
  act = act;
  answered = receive;
  list_of-act = groups-act;
  list_of-listed = groups-receive;
  done-starts = λ c s e. let (d, is_one, one) = receive-done c s e in one-nonempty one;
}

abbrev pub groups_restful : Restful groups_page
groups_restful = record { listed-ends = receive-listed; done-loads = receive-done }

-- The server answers in order, and no request fails: whatever was clicked and typed before, when the
-- server and the page do the work that is due on the groups, nothing about them is under way at its
-- end, and the page lists the server's groups.
pub rounds-groups :
    (change : Command → List Group → List Group) (w : World groups_page)
    → Reach groups_page change w
    → let v = rounds groups_page groups_restful change (work_due groups_page groups_restful w) w in
      (v.asked ≡ []) × (v.replies ≡ []) × (v.state.groups ≡ v.records)
rounds-groups = rounds-list_of groups_page groups_restful
