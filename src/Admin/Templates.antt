-- ===== src/Admin/Templates.antt =====
-- pages/Templates.tsx: the tariffs, and the form that creates one. No handler catches an error, so
-- a failed request ends its handler.
pub mod Screen
pub mod Laws
pub mod Listing
use wow_vpn.Common.{
  String, Bool, true, false, Option, none, some, List, [], ◌∷◌, ◌==◌, if◌then◌else◌, or_else, trim,
  template,
}
use wow_vpn.Common.Number.{Number}

pub record Template (num : Number) : Type 0 where
  pub id : String
  pub name : String
  pub duration_days : num.Carrier
  pub data_limit_gb : num.Carrier
  pub price : String

-- The inputs behind the refs, while the form is there.
pub record Form : Type 0 where
  pub name : String
  pub days : String
  pub limit : String
  pub price : String

abbrev pub empty_form : Form
empty_form = record { name = ""; days = "30"; limit = "50"; price = "$9.99" }

pub record State (num : Number) : Type 0 where
  pub templates : List (Template num)
  -- `showForm`, with what its inputs hold.
  pub form : Option Form

-- The body of POST /templates.
pub record Body (num : Number) : Type 0 where
  pub name : String
  pub duration_days : num.Carrier
  pub data_limit_gb : num.Carrier
  pub price : String

pub data Request (num : Number) : Type 0 where
  list_templates : Request num
  create_template : Body num → Request num
  delete_template : String → Request num

-- What is left of a handler when its request has been answered.
pub data Job : Type 0 where
  loading creating deleting : Job

pub data Effect (num : Number) : Type 0 where
  start : Job → Request num → Effect num
  alert : String → Effect num

pub data Answer (num : Number) : Type 0 where
  failed : Answer num
  templates_answer : List (Template num) → Answer num
  -- Any response to the other requests; its status is not looked at.
  responded : Answer num

module _ (num : Number) where
  open num use {Carrier, of_nat, num_le, over, floor, to_text}

  unfoldable pub duration_label : Carrier → String
  duration_label days =
      if num_le (of_nat 365) days
      then template (to_text (floor (over days (of_nat 365))) ∷ " год" ∷ [])
      else if num_le (of_nat 30) days
      then template (to_text (floor (over days (of_nat 30))) ∷ " мес." ∷ [])
      else template (to_text days ∷ " дн." ∷ [])

open_with : Option Form → Option Form
open_with none = some empty_form
open_with (some f) = some f

module _ {num : Number} where
  open num use {parse_float, parse_int}

  -- `load`.
  abbrev pub load : Effect num
  load = start loading list_templates

  unfoldable pub body_of : Form → Body num
  body_of f = record {
    name = trim f.name;
    duration_days = parse_int (or_else f.days "30");
    data_limit_gb = parse_float (or_else f.limit "50");
    price = or_else f.price "0";
  }

  create_from : Option Form → State num → State num × List (Effect num)
  unfolding body_of
  create_from none s = (s, alert "Введите название тарифа" ∷ [])
  create_from (some f) s =
      if trim f.name == ""
      then (s, alert "Введите название тарифа" ∷ [])
      else (s, start creating (create_template (body_of f)) ∷ [])

  unfoldable pub handle_create : State num → State num × List (Effect num)
  unfolding create_from
  handle_create s = create_from s.form s

  -- handleDelete, at the answer of `confirm`.
  unfoldable pub handle_delete : Bool → String → State num → State num × List (Effect num)
  handle_delete true id s = (s, start deleting (delete_template id) ∷ [])
  handle_delete false id s = (s, [])

  unfoldable pub open_form : State num → State num
  unfolding open_with
  open_form s = record s { form = open_with s.form }

  unfoldable pub close_form : State num → State num
  close_form s = record s { form = none }

  unfoldable pub type_form : (Form → Form) → State num → State num
  type_form write s = record s { form = elim s.form [ none ↦ none | some f ↦ some (write f) ] }

  -- The rest of a handler at the answer that it waited for.
  unfoldable pub answer : Job → Answer num → State num → State num × List (Effect num)
  unfolding close_form
  answer loading (templates_answer ts) s = (record s { templates = ts }, [])
  answer creating responded s = (close_form s, load ∷ [])
  answer deleting responded s = (s, load ∷ [])
  answer _ _ s = (s, [])
