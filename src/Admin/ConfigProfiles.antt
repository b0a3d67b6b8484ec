-- ===== src/Admin/ConfigProfiles.antt =====
-- pages/ConfigProfiles.tsx: the links of the clients, and the mark of the one copied last.
pub mod Screen
pub mod Laws
use wow_vpn.Common.{Bool, true, false, String, Option, none, some, List, [], ◌∷◌}
use wow_vpn.Admin.Notice.{Notice, no_notice, show, expire}

pub record Client : Type 0 where
  pub id : String
  pub username : String
  pub protocol : String
  pub vpn_ip : String
  pub status : String
  pub shade_link : String

pub record State : Type 0 where
  pub clients : List Client
  -- `copied`, with the timers that clear it.
  pub copied : Notice

abbrev pub initial : State
initial = record { clients = []; copied = no_notice }

-- `load`, on mount and at a click: `none` is a request or an answer that fails.
unfoldable pub load : Option (List Client) → State → State
load none s = s
load (some clients) s = record s { clients = clients }

-- copyKey: the new state, and the texts handed to the clipboard. Without `navigator.clipboard`, as on
-- a page that is not served over HTTPS, the first line throws.
unfoldable pub copy_key : Bool → String → String → State → State × List String
unfolding show
copy_key false link name s = (s, [])
copy_key true link name s = (record s { copied = show name s.copied }, link ∷ [])

-- The callback of copyKey's timer.
unfoldable pub copied_timer : State → State
unfolding expire
copied_timer s = record s { copied = expire s.copied }
