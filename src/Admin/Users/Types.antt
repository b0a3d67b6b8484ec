-- ===== src/Admin/Users/Types.antt =====
-- The data of pages/Users.tsx. The lists are what the server's list requests answer with.
use wow_vpn.Common.{String, Bool, false, Option, List}
use wow_vpn.Common.Number.{Number}

pub record Client (num : Number) : Type 0 where
  pub id : String
  pub username : String
  pub telegram_id : String
  pub status : String
  pub is_online : Bool
  pub protocol : String
  pub data_usage : num.Carrier
  pub data_limit : num.Carrier
  pub group_id : String
  pub group_name : String
  pub subscription_end : String
  pub shade_link : String

pub record Group : Type 0 where
  pub id : String
  pub name : String

pub record Tariff (num : Number) : Type 0 where
  pub id : String
  pub name : String
  pub data_limit_gb : num.Carrier
  pub price : String

-- The inputs behind the refs, while the sidebar is there.
pub record Form : Type 0 where
  pub name : String
  pub telegram : String
  pub limit : String
  pub date : String

pub record QrModal : Type 0 where
  pub link : String
  pub username : String

-- Which of the three lists hold something that is no list: the body of an answer is stored
-- whatever it is.
pub record Misread : Type 0 where
  pub users : Bool
  pub groups : Bool
  pub templates : Bool

abbrev pub none_misread : Misread
none_misread = record { users = false; groups = false; templates = false }

pub record State (num : Number) : Type 0 where
  pub users : List (Client num)
  pub groups : List Group
  pub templates : List (Tariff num)
  pub misread : Misread
  pub selected_users : List String
  pub sidebar_open : Bool
  pub selected_user : Option (Client num)
  pub loading : Bool
  pub selected_group_id : String
  pub qr_modal : Option QrModal
  pub form : Option Form
  -- The parameter "group" of the address, if it is there.
  pub group_filter : Option String

-- The body of POST /clients; `none` is null.
pub record NewClient (num : Number) : Type 0 where
  pub username : String
  pub telegram_id : Option String
  pub data_limit : num.Carrier
  pub group_id : Option String

-- The body of PATCH /clients/{id}; `none` is a property that is left out.
pub record ClientPatch (num : Number) : Type 0 where
  pub username : Option String
  pub telegram_id : Option String
  pub data_limit : Option num.Carrier
  pub subscription_end : String
  pub group_id : String

pub data Request (num : Number) : Type 0 where
  list_clients list_groups list_templates : Request num
  toggle_client : String → Bool → Request num
  create_client : NewClient num → Request num
  update_client : String → ClientPatch num → Request num
  delete_client : String → Request num

-- What is left of a handler when its request has been answered.
pub data Job : Type 0 where
  loading_clients loading_groups loading_templates : Job
  toggling creating updating : Job
  deleting : String → Job
  -- The identifiers that the loop of handleBulkDelete still has to delete.
  bulk_deleting : List String → Job

pub data Effect (num : Number) : Type 0 where
  start : Job → Request num → Effect num
  alert : String → Effect num
  -- A text handed to the clipboard.
  copy : String → Effect num

-- An answer: `failed` if `fetch` rejects, or the body of a list is no JSON. A body that is JSON but
-- not the list that was asked for is any of the others.
pub data Answer (num : Number) : Type 0 where
  failed : Answer num
  clients : List (Client num) → Answer num
  groups_answer : List Group → Answer num
  templates_answer : List (Tariff num) → Answer num
  -- A response that is ok, and one that is not, with the text that its `detail` holds.
  ok : Answer num
  refused : String → Answer num
