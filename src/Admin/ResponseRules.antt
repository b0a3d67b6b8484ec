-- ===== src/Admin/ResponseRules.antt =====
-- pages/ResponseRules.tsx: the billing rules, the form that creates one, and the switches. No
-- handler catches an error, so a failed request ends its handler.
pub mod Screen
pub mod Laws
pub mod Listing
use wow_vpn.Common.{
  String, Bool, true, false, not, ◌||◌, Option, none, some, List, [], ◌∷◌, ◌==◌, if◌then◌else◌,
  trim,
}

pub record Rule : Type 0 where
  pub id : String
  pub name : String
  pub trigger : String
  pub action : String
  pub enabled : Bool

-- The inputs behind the refs, while the form is there.
pub record Form : Type 0 where
  pub name : String
  pub trigger : String
  pub action : String

abbrev pub empty_form : Form
empty_form = record { name = ""; trigger = ""; action = "" }

pub record State : Type 0 where
  pub rules : List Rule
  -- `showForm`, with what its inputs hold.
  pub form : Option Form

-- The body of POST /rules.
pub record Body : Type 0 where
  pub name : String
  pub trigger : String
  pub action : String
  pub enabled : Bool

pub data Request : Type 0 where
  list_rules : Request
  create_rule : Body → Request
  toggle_rule_to : String → Bool → Request
  delete_rule_at : String → Request

-- What is left of a handler when its request has been answered.
pub data Job : Type 0 where
  loading creating toggling deleting : Job

pub data Effect : Type 0 where
  start : Job → Request → Effect
  alert : String → Effect

pub data Answer : Type 0 where
  failed : Answer
  rules_answer : List Rule → Answer
  -- Any response to the other requests; its status is not looked at.
  responded : Answer

-- `load`.
abbrev pub load : Effect
load = start loading list_rules

unfoldable pub body_of : Form → Body
body_of f = record {
  name = trim f.name;
  trigger = trim f.trigger;
  action = trim f.action;
  enabled = true;
}

-- Whether a field of the form is blank.
unfoldable pub lacks_field : Form → Bool
lacks_field f = trim f.name == "" || (trim f.trigger == "" || trim f.action == "")

create_from : Option Form → State → State × List Effect
unfolding body_of lacks_field
create_from none s = (s, alert "Заполните все поля" ∷ [])
create_from (some f) s =
    if lacks_field f
    then (s, alert "Заполните все поля" ∷ [])
    else (s, start creating (create_rule (body_of f)) ∷ [])

unfoldable pub handle_create : State → State × List Effect
unfolding create_from
handle_create s = create_from s.form s

unfoldable pub toggle_rule : String → Bool → State → State × List Effect
toggle_rule id current s = (s, start toggling (toggle_rule_to id (not current)) ∷ [])

-- deleteRule, at the answer of `confirm`.
unfoldable pub delete_rule : Bool → String → State → State × List Effect
delete_rule true id s = (s, start deleting (delete_rule_at id) ∷ [])
delete_rule false id s = (s, [])

open_with : Option Form → Option Form
open_with none = some empty_form
open_with (some f) = some f

unfoldable pub open_form : State → State
unfolding open_with
open_form s = record s { form = open_with s.form }

unfoldable pub close_form : State → State
close_form s = record s { form = none }

unfoldable pub type_form : (Form → Form) → State → State
type_form write s = record s { form = elim s.form [ none ↦ none | some f ↦ some (write f) ] }

-- The rest of a handler at the answer that it waited for.
unfoldable pub answer : Job → Answer → State → State × List Effect
unfolding close_form
answer loading (rules_answer rs) s = (record s { rules = rs }, [])
answer creating responded s = (close_form s, load ∷ [])
answer toggling responded s = (s, load ∷ [])
answer deleting responded s = (s, load ∷ [])
answer _ _ s = (s, [])
