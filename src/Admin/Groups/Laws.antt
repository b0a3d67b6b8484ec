-- ===== src/Admin/Groups/Laws.antt =====
-- The form and the assignment panel of pages/Groups.tsx.
use wow_vpn.Common.{
  ◌≡◌, refl, ap, ◌∙◌, Bool-cases, ◌≢◌, ◌⊎◌, inl, inr, String, Bool, true, false, Option, none, some,
  List, [], ◌∷◌, arith, eq_iff, trim, or_else, ◌==◌,
}
use wow_vpn.Admin.Groups.{
  Group, Form, State, Body, update_group, create_group, assign_clients, Job, saving, assigning,
  start, Answer, initial, empty_form, handle_create, handle_delete, handle_assign, open_new,
  start_edit, fill, cancel, open_assign_panel, close_assign_panel, toggle_client_selection,
  type_form, answer, body_of, opened, write_form, fill_next, create_from, assign_to, is_truthy,
  save_request,
}

-- Any use of the page: its clicks and inputs, the timers of startEdit, and the answers of the server.
pub data Reach : State → Type 0 where
  begin : Reach initial
  opened_new : {s : State} → Reach s → Reach (open_new s)
  edited : {s : State} (g : Group) → Reach s → Reach (start_edit g s)
  filled : {s : State} → Reach s → Reach (fill s)
  cancelled : {s : State} → Reach s → Reach (cancel s)
  typed : {s : State} (write : Form → Form) → Reach s → Reach (type_form write s)
  created : {s : State} → Reach s → Reach (handle_create s).0
  removed : {s : State} (sure : Bool) (id : String) → Reach s → Reach (handle_delete sure id s).0
  panel_opened : {s : State} (id : String) → Reach s → Reach (open_assign_panel id s)
  panel_closed : {s : State} → Reach s → Reach (close_assign_panel s)
  toggled : {s : State} (id : String) → Reach s → Reach (toggle_client_selection id s)
  assigned : {s : State} → Reach s → Reach (handle_assign s).0
  answered : {s : State} (j : Job) (a : Answer) → Reach s → Reach (answer j a s).0

-- The inputs are there exactly while the form is shown, and a group is only edited in the form.
abbrev pub IsFormed : Bool → Option Form → Option String → Type 0
IsFormed true form edit_id = (f : Form) × (form ≡ some f)
IsFormed false form edit_id = (form ≡ none) × (edit_id ≡ none)

abbrev pub Formed : State → Type 0
Formed s = IsFormed s.show_form s.form s.edit_id

opened-some : (form : Option Form) → (f : Form) × (opened form ≡ some f)
opened-some none = (empty_form, refl)
opened-some (some f) = (f, refl)

write_form-IsFormed :
    (g : Group) (shows : Bool) (form : Option Form) (edit_id : Option String)
    → IsFormed shows form edit_id
    → IsFormed shows (write_form g form) edit_id
unfolding write_form
write_form-IsFormed g true none edit_id (f, e) = (f, e)
write_form-IsFormed g true (some h) edit_id v = (_, refl)
write_form-IsFormed g false none edit_id v = v
write_form-IsFormed g false (some h) edit_id (e, _) = ground (arith, e)

type_form-IsFormed :
    (write : Form → Form) (shows : Bool) (form : Option Form) (edit_id : Option String)
    → IsFormed shows form edit_id
    → IsFormed shows (elim form [ none ↦ none | some f ↦ some (write f) ]) edit_id
type_form-IsFormed write true none edit_id (f, e) = (f, e)
type_form-IsFormed write true (some h) edit_id v = (_, refl)
type_form-IsFormed write false none edit_id v = v
type_form-IsFormed write false (some h) edit_id (e, _) = ground (arith, e)

fill_next-Formed : (gs : List Group) (s : State) → Formed s → Formed (fill_next gs s)
unfolding fill_next
fill_next-Formed [] s v = v
fill_next-Formed (g ∷ gs) s v = write_form-IsFormed g s.show_form s.form s.edit_id v

create_from-state : (form : Option Form) (s : State) → (create_from form s).0 ≡ s
unfolding create_from
create_from-state none s = refl
create_from-state (some f) s = ground arith

handle_delete-state : (sure : Bool) (id : String) (s : State) → (handle_delete sure id s).0 ≡ s
unfolding handle_delete
handle_delete-state true id s = refl
handle_delete-state false id s = refl

assign_to-state :
    (group : Option String) (ids : List String) (s : State) → (assign_to group ids s).0 ≡ s
unfolding assign_to
assign_to-state none ids s = refl
assign_to-state (some id) [] s = refl
assign_to-state (some id) (c ∷ cs) s = ground arith

-- What an answer keeps of the form: all of it, or it closes the form.
answer-form :
    (j : Job) (a : Answer) (s : State)
    → (((answer j a s).0.show_form ≡ s.show_form)
        × ((answer j a s).0.form ≡ s.form)
        × ((answer j a s).0.edit_id ≡ s.edit_id))
      ⊎ (((answer j a s).0.show_form ≡ false)
          × ((answer j a s).0.form ≡ none)
          × ((answer j a s).0.edit_id ≡ none))
unfolding answer cancel
answer-form j a s = ground arith

answer-Formed : (j : Job) (a : Answer) (s : State) → Formed s → Formed (answer j a s).0
answer-Formed j a s v = elim (answer-form j a s) [
  | inl (b, f, e) ↦ rw (b, f, e) v
  | inr (b, f, e) ↦ rw (b, f, e) (refl, refl)
]

-- However the page is used, the inputs of the form are there exactly while it is shown, and
-- a group is marked as edited only then.
pub Reach-Formed : {s : State} → Reach s → Formed s
unfolding open_new start_edit fill cancel type_form handle_create open_assign_panel
    close_assign_panel toggle_client_selection handle_assign
Reach-Formed begin = (refl, refl)
Reach-Formed (opened_new {s} r) = opened-some s.form
Reach-Formed (edited {s} g r) = opened-some s.form
Reach-Formed (filled {s} r) = fill_next-Formed s.fills s (Reach-Formed r)
Reach-Formed (cancelled r) = (refl, refl)
Reach-Formed (typed {s} write r) =
    type_form-IsFormed write s.show_form s.form s.edit_id (Reach-Formed r)
Reach-Formed (created {s} r) = rw (create_from-state s.form s) (Reach-Formed r)
Reach-Formed (removed {s} sure id r) = rw (handle_delete-state sure id s) (Reach-Formed r)
Reach-Formed (panel_opened id r) = Reach-Formed r
Reach-Formed (panel_closed r) = Reach-Formed r
Reach-Formed (toggled id r) = Reach-Formed r
Reach-Formed (assigned {s} r) =
    rw (assign_to-state s.assign_group_id s.selected_clients s) (Reach-Formed r)
Reach-Formed (answered {s} j a r) = answer-Formed j a s (Reach-Formed r)

save_request-known :
    (id : String) (body : Body) → id ≢ "" → save_request (some id) body ≡ update_group id body
unfolding save_request
save_request-known id body known = ground (arith, eq_iff id "")

filled_save :
    (g : Group) (form : Option Form)
    → trim g.name ≢ ""
    → (s : State)
    → (create_from (write_form g (opened form)) s).1
      ≡ start saving (
          save_request s.edit_id
            (body_of (record { name = g.name; description = g.description; limit = g.data_limit })))
        ∷ []
unfolding create_from write_form
filled_save g none named s = ground (arith, eq_iff (trim g.name) "")
filled_save g (some f) named s = ground (arith, eq_iff (trim g.name) "")

-- The edit of a group: the click, its timer with no other pending, and the save with nothing
-- typed. If the name is not blank, the request writes back what the group has: its name without
-- outer spaces, its description, and its limit unless that is empty.
pub handle_create-start_edit :
    (g : Group) (s : State)
    → s.fills ≡ []
    → trim g.name ≢ ""
    → g.id ≢ ""
    → (handle_create (fill (start_edit g s))).1
      ≡ start saving (
          update_group g.id (record {
            name = trim g.name;
            description = g.description;
            data_limit = or_else g.data_limit "100 ГБ/юзер";
          }))
        ∷ []
unfolding handle_create fill start_edit
handle_create-start_edit g s none_pending named known = rw none_pending (
    filled_save g s.form named (record s {
      show_form = true;
      edit_id = some g.id;
      form = write_form g (opened s.form);
      fills = [];
    })
    ∙ ap (λ r. start saving r ∷ []) (save_request-known g.id _ known))

-- A click on "new group" while a form is shown keeps what the form holds, also the texts of a group
-- that was being edited; saving then asks for a new group with them.
pub handle_create-open_new :
    (f : Form) (s : State)
    → s.form ≡ some f
    → trim f.name ≢ ""
    → (handle_create (open_new s)).1 ≡ start saving (create_group (body_of f)) ∷ []
unfolding handle_create open_new
handle_create-open_new f s e named = rw e (ground (arith, eq_iff (trim f.name) ""))

not_same : {id : String} → id ≡ "" → (id == "") ≡ false → ⊥
not_same {id} z e = ground (arith, eq_iff id "")

assign_to-cases :
    (group : Option String) (ids : List String) (s : State)
    → (((is_truthy group ≡ false) ⊎ (ids ≡ [])) × (assign_to group ids s ≡ (s, [])))
      ⊎ ((id : String) × (group ≡ some id)
          × (id ≢ "")
          × (ids ≢ [])
          × (assign_to group ids s ≡ (s, start assigning (assign_clients id ids) ∷ [])))
unfolding assign_to
assign_to-cases none ids s = inl (inl refl, refl)
assign_to-cases (some id) [] s = inl (inr refl, refl)
assign_to-cases (some id) (c ∷ cs) s = elim (Bool-cases (id == "")) [
  | inl e ↦ rw e (inl (inl refl, refl))
  | inr e ↦ rw e (inr (id, refl, (λ z. absurd (not_same z e)), (λ z. ground arith), refl))
]

-- The assignment asks the server for nothing unless a group and a client are chosen, and otherwise
-- asks to put the chosen clients into the chosen group.
pub handle_assign-cases :
    (s : State)
    → (((is_truthy s.assign_group_id ≡ false) ⊎ (s.selected_clients ≡ []))
        × (handle_assign s ≡ (s, [])))
      ⊎ ((id : String) × (s.assign_group_id ≡ some id)
          × (id ≢ "")
          × (s.selected_clients ≢ [])
          × (handle_assign s ≡ (s, start assigning (assign_clients id s.selected_clients) ∷ [])))
unfolding handle_assign
handle_assign-cases s = assign_to-cases s.assign_group_id s.selected_clients s
