-- ===== src/Admin/Groups.antt =====
-- pages/Groups.tsx: the groups of clients, the form that creates and edits one, and the panel that
-- assigns clients. A handler that waits for the server is cut at its `await`; none of them catches
-- an error, so a failed request ends its handler.
pub mod Screen
pub mod Laws
pub mod Listing
use wow_vpn.Common.{
  ℕ, String, Bool, true, false, not, Option, none, some, List, [], ◌∷◌, ◌++◌, without, includes,
  ◌==◌, if◌then◌else◌, or_else, trim,
}

pub record Group : Type 0 where
  pub id : String
  pub name : String
  pub description : String
  pub data_limit : String
  pub members : ℕ

pub record Client : Type 0 where
  pub id : String
  pub username : String
  pub group_name : String

-- The inputs behind the refs, while the form is there.
pub record Form : Type 0 where
  pub name : String
  pub description : String
  pub limit : String

abbrev pub empty_form : Form
empty_form = record { name = ""; description = ""; limit = "100 ГБ/юзер" }

pub record State : Type 0 where
  pub groups : List Group
  pub clients : List Client
  pub show_form : Bool
  pub edit_id : Option String
  pub assign_group_id : Option String
  pub selected_clients : List String
  pub form : Option Form
  -- The groups that pending `setTimeout` calls of startEdit will write into the form.
  pub fills : List Group

abbrev pub initial : State
initial = record {
  groups = [];
  clients = [];
  show_form = false;
  edit_id = none;
  assign_group_id = none;
  selected_clients = [];
  form = none;
  fills = [];
}

-- The body of a request that creates or changes a group.
pub record Body : Type 0 where
  pub name : String
  pub description : String
  pub data_limit : String

pub data Request : Type 0 where
  list_groups list_clients : Request
  create_group : Body → Request
  update_group : String → Body → Request
  delete_group : String → Request
  assign_clients : String → List String → Request

-- What is left of a handler when its request has been answered.
pub data Job : Type 0 where
  loading_groups loading_clients saving deleting assigning : Job

pub data Effect : Type 0 where
  start : Job → Request → Effect
  alert : String → Effect

pub data Answer : Type 0 where
  failed : Answer
  groups_answer : List Group → Answer
  clients_answer : List Client → Answer
  -- Any response to the other requests; its status is not looked at.
  responded : Answer

abbrev pub load_groups : Effect
load_groups = start loading_groups list_groups

abbrev pub load_clients : Effect
load_clients = start loading_clients list_clients

-- JavaScript's truth of `editId` and `assignGroupId`.
abbrev pub is_truthy : Option String → Bool
is_truthy none = false
is_truthy (some id) = not (id == "")

unfoldable pub body_of : Form → Body
body_of f = record {
  name = trim f.name;
  description = f.description;
  data_limit = or_else f.limit "100 ГБ/юзер";
}

save_request : Option String → Body → Request
save_request none body = create_group body
save_request (some id) body = if id == "" then create_group body else update_group id body

create_from : Option Form → State → State × List Effect
unfolding save_request body_of
create_from none s = (s, alert "Введите название группы" ∷ [])
create_from (some f) s =
    if trim f.name == ""
    then (s, alert "Введите название группы" ∷ [])
    else (s, start saving (save_request s.edit_id (body_of f)) ∷ [])

unfoldable pub handle_create : State → State × List Effect
unfolding create_from
handle_create s = create_from s.form s

-- handleDelete, at the answer of `confirm`.
unfoldable pub handle_delete : Bool → String → State → State × List Effect
handle_delete true id s = (s, start deleting (delete_group id) ∷ [])
handle_delete false id s = (s, [])

-- The form as it is: mounted with its defaults if it was not there.
abbrev pub opened : Option Form → Option Form
opened none = some empty_form
opened (some f) = some f

unfoldable pub open_new : State → State
open_new s = record s { edit_id = none; show_form = true; form = opened s.form }

unfoldable pub start_edit : Group → State → State
start_edit g s = record s {
  edit_id = some g.id;
  show_form = true;
  form = opened s.form;
  fills = s.fills ++ g ∷ [];
}

write_form : Group → Option Form → Option Form
write_form g none = none
write_form g (some f) =
    some (record { name = g.name; description = g.description; limit = g.data_limit })

fill_next : List Group → State → State
unfolding write_form
fill_next [] s = s
fill_next (g ∷ gs) s = record s { form = write_form g s.form; fills = gs }

-- The next timer of startEdit fires; they all wait 50 ms, so they fire in their order.
unfoldable pub fill : State → State
unfolding fill_next
fill s = fill_next s.fills s

unfoldable pub cancel : State → State
cancel s = record s { show_form = false; edit_id = none; form = none }

unfoldable pub open_assign_panel : String → State → State
open_assign_panel id s = record s { assign_group_id = some id; selected_clients = [] }

unfoldable pub close_assign_panel : State → State
close_assign_panel s = record s { assign_group_id = none }

unfoldable pub toggle_client_selection : String → State → State
toggle_client_selection id s = record s {
  selected_clients =
      if includes s.selected_clients id
      then without id s.selected_clients
      else s.selected_clients ++ id ∷ [];
}

assign_to : Option String → List String → State → State × List Effect
assign_to none ids s = (s, [])
assign_to (some id) [] s = (s, [])
assign_to (some id) (c ∷ cs) s =
    if id == "" then (s, []) else (s, start assigning (assign_clients id (c ∷ cs)) ∷ [])

unfoldable pub handle_assign : State → State × List Effect
unfolding assign_to
handle_assign s = assign_to s.assign_group_id s.selected_clients s

unfoldable pub type_form : (Form → Form) → State → State
type_form write s = record s { form = elim s.form [ none ↦ none | some f ↦ some (write f) ] }

-- The rest of a handler at the answer that it waited for.
unfoldable pub answer : Job → Answer → State → State × List Effect
unfolding cancel
answer loading_groups (groups_answer gs) s = (record s { groups = gs }, [])
answer loading_clients (clients_answer cs) s = (record s { clients = cs }, [])
answer saving responded s = (cancel s, load_groups ∷ [])
answer deleting responded s = (s, load_groups ∷ load_clients ∷ [])
answer assigning responded s =
    (record s { assign_group_id = none; selected_clients = [] }, load_groups ∷ load_clients ∷ [])
answer _ _ s = (s, [])
