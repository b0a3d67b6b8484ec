-- ===== src/Admin/Nodes.antt =====
-- pages/Nodes.tsx: the VPN servers, and the form that registers one. No handler catches an error,
-- so a failed request ends its handler.
pub mod Screen
pub mod Listing
use wow_vpn.Common.{
  String, Bool, true, false, Option, none, some, List, [], ◌∷◌, ◌==◌, if◌then◌else◌, or_else, trim,
}
use wow_vpn.Common.Number.{Number}

pub record Node (num : Number) : Type 0 where
  pub id : String
  pub name : String
  pub location : String
  pub ip_address : String
  pub port : num.Carrier
  pub is_online : Bool

-- The inputs behind the refs, while the form is there.
pub record Form : Type 0 where
  pub name : String
  pub location : String
  pub ip : String
  pub port : String

abbrev pub empty_form : Form
empty_form = record { name = ""; location = ""; ip = ""; port = "443" }

pub record State (num : Number) : Type 0 where
  pub nodes : List (Node num)
  -- `showForm`, with what its inputs hold.
  pub form : Option Form

-- The body of POST /nodes.
pub record Body (num : Number) : Type 0 where
  pub name : String
  pub location : String
  pub ip_address : String
  pub port : num.Carrier

pub data Request (num : Number) : Type 0 where
  list_nodes : Request num
  create_node : Body num → Request num
  delete_node : String → Request num

-- What is left of a handler when its request has been answered.
pub data Job : Type 0 where
  loading creating deleting : Job

pub data Effect (num : Number) : Type 0 where
  start : Job → Request num → Effect num
  alert : String → Effect num

pub data Answer (num : Number) : Type 0 where
  failed : Answer num
  nodes_answer : List (Node num) → Answer num
  -- Any response to the other requests; its status is not looked at.
  responded : Answer num

open_with : Option Form → Option Form
open_with none = some empty_form
open_with (some f) = some f

write_form : (Form → Form) → Option Form → Option Form
write_form write none = none
write_form write (some f) = some (write f)

module _ {num : Number} where
  open num use {parse_int}

  -- `load`.
  abbrev pub load : Effect num
  load = start loading list_nodes

  unfoldable pub body_of : Form → Body num
  body_of f = record {
    name = trim f.name;
    location = f.location;
    ip_address = f.ip;
    port = parse_int (or_else f.port "443");
  }

  create_from : Option Form → State num → State num × List (Effect num)
  unfolding body_of
  create_from none s = (s, alert "Введите название сервера" ∷ [])
  create_from (some f) s =
      if trim f.name == ""
      then (s, alert "Введите название сервера" ∷ [])
      else (s, start creating (create_node (body_of f)) ∷ [])

  unfoldable pub handle_create : State num → State num × List (Effect num)
  unfolding create_from
  handle_create s = create_from s.form s

  -- handleDelete, at the answer of `confirm`.
  unfoldable pub handle_delete : Bool → String → State num → State num × List (Effect num)
  handle_delete true id s = (s, start deleting (delete_node id) ∷ [])
  handle_delete false id s = (s, [])

  unfoldable pub open_form : State num → State num
  unfolding open_with
  open_form s = record s { form = open_with s.form }

  unfoldable pub close_form : State num → State num
  close_form s = record s { form = none }

  unfoldable pub type_form : (Form → Form) → State num → State num
  unfolding write_form
  type_form write s = record s { form = write_form write s.form }

  -- The rest of a handler at the answer that it waited for.
  unfoldable pub answer : Job → Answer num → State num → State num × List (Effect num)
  unfolding close_form
  answer loading (nodes_answer ns) s = (record s { nodes = ns }, [])
  answer creating responded s = (close_form s, load ∷ [])
  answer deleting responded s = (s, load ∷ [])
  answer _ _ s = (s, [])
