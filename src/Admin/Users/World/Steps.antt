-- ===== src/Admin/Users/World/Steps.antt =====
-- The jobs of pages/Users.tsx that are under way, and the steps of the page with the server.
use wow_vpn.Common.{ℕ, ◌+◌, String, Option, Bool, true, false, ◌≡◌, List, [], ◌∷◌, ◌++◌, Memᴰ}
use wow_vpn.Common.Number.{Number}
use wow_vpn.View.{clicks}
use wow_vpn.Admin.Users.Types.{State, Job, creating, updating, Effect, start, Answer}
use wow_vpn.Admin.Users.Handlers.{fetch_data, answer}
use wow_vpn.Admin.Users.Screen.{Msg}
use wow_vpn.Admin.Users.Sidebar.{view}
use wow_vpn.Admin.Users.Page.{Browser, update, is_entry}

-- How many of the jobs save a client.
abbrev pub save_of : Job → ℕ
save_of creating = 1
save_of updating = 1
save_of _ = 0

abbrev pub saves : List Job → ℕ
saves [] = 0
saves (j ∷ js) = save_of j + saves js

abbrev pub busy : Bool → ℕ
busy true = 1
busy false = 0

abbrev pub started : {num : Number} → List (Effect num) → List Job
started [] = []
started (start j _ ∷ es) = j ∷ started es
started (_ ∷ es) = started es

pub record World (num : Number) : Type 0 where
  pub state : State num
  pub jobs : List Job

module _ {num : Number} where
  -- The world after a handler: its jobs are added to those under way.
  abbrev pub after : List Job → State num × List (Effect num) → World num
  after jobs (s, es) = record { state = s; jobs = jobs ++ started es }

  pub data Step (date_value : String → String) (w : World num) : World num → Type 0 where
    clicked :
        (browser : Browser) (m : Msg num)
        → Memᴰ m (clicks (view w.state))
        → Step date_value w (after w.jobs (update date_value browser m w.state))
    entered :
        (browser : Browser) (m : Msg num)
        → is_entry m ≡ true
        → Step date_value w (after w.jobs (update date_value browser m w.state))
    polled : Step date_value w (after w.jobs (w.state, fetch_data))
    -- The page stays mounted at another query.
    requeried :
        (group : Option String)
        → Step date_value w (record w { state = record w.state { group_filter = group } })
    answered :
        (before later : List Job) (j : Job) (a : Answer num)
        → w.jobs ≡ before ++ j ∷ later
        → Step date_value w (after (before ++ later) (answer j a w.state))

  pub data Reach (date_value : String → String) (first : State num) : World num → Type 0 where
    here : Reach date_value first (record { state = first; jobs = [] })
    next :
        {w v : World num}
        → Reach date_value first w
        → Step date_value w v
        → Reach date_value first v
