-- ===== src/Admin/Console/Sessions.antt =====
-- The console over time: pages are used and left while their requests are under way. React drops
-- what a page that is gone would set, and runs its cleanup.
pub mod Owned
pub mod Addressed
pub mod Laws
pub mod Jobs
pub mod ClientSteps
pub mod Clients
use wow_vpn.Common.{
  ℕ, ◌+◌, ◌≡◌, String, Bool, true, false, not, Option, none, some, List, [], ◌∷◌, ◌++◌, Memᴰ, map,
  filter, nat_eq, if◌then◌else◌,
}
use wow_vpn.Common.Number.{Number}
use wow_vpn.Admin.Shell.{Page, home, users, is_page, route}
use wow_vpn.Admin.Console.{Router, Mounted, page_of, visit}
use wow_vpn.Admin.Console.Work.{Work, Reply, work_of, loads, handled, follow_up}
use wow_vpn.Admin.Console.Acts.{Act, acted, IsOffered}

-- The pages whose effect starts an interval.
abbrev pub polls : Page → Bool
polls home = true
polls users = true
polls _ = false

-- An instance of a page is a number, and what it has asked for is work of that number.
abbrev pub Asked : Number → Type 0
Asked num = ℕ × Work num

-- The mounted page is the instance of this number; a request and an interval belong to an instance.
pub record Session (num : Number) : Type 0 where
  pub mounted : Option (Mounted num)
  pub instance_no : ℕ
  pub asked : List (Asked num)
  pub intervals : List ℕ

-- The cleanup of an instance's effect: `clearInterval`.
abbrev pub cleared : ℕ → List ℕ → List ℕ
cleared k ks = filter (λ j. not (nat_eq j k)) ks

abbrev pub interval_of : Bool → ℕ → List ℕ
interval_of true k = k ∷ []
interval_of false k = []

module _ {num : Number} where
  -- Requests of the instance `k`.
  abbrev pub by : ℕ → List (Work num) → List (Asked num)
  by k works = map (λ w. (k, w)) works

  abbrev pub loads_at : Option (Mounted num) → List (Work num)
  loads_at none = []
  loads_at (some m) = loads (page_of m)

  abbrev pub polls_at : Option (Mounted num) → Bool
  polls_at none = false
  polls_at (some m) = polls (page_of m)

  abbrev pub handled_at : Reply num → Option (Mounted num) → Option (Mounted num)
  handled_at r none = none
  handled_at r (some m) = some (handled r m).0

  -- Whether a location shows another page than the one that is there.
  abbrev pub opens_new : Option Page → Option (Mounted num) → Bool
  opens_new none m = true
  opens_new (some p) none = true
  opens_new (some p) (some m) = not (is_page p (some (page_of m)))

  abbrev pub turn : Bool → Option (Mounted num) → Session num → Session num
  turn true now s = record {
    mounted = now;
    instance_no = s.instance_no + 1;
    asked = s.asked ++ by (s.instance_no + 1) (loads_at now);
    intervals = cleared s.instance_no s.intervals ++ interval_of (polls_at now) (s.instance_no + 1);
  }
  turn false now s = record s { mounted = now }

  unfoldable pub open_url : Router → String → Session num → Session num
  open_url router url s =
      turn (opens_new (route (router.pathname url)) s.mounted) (visit router url s.mounted) s

  -- A handler goes on at its answer, also when its page is gone: React then drops what it sets, as it
  -- does by itself for a component that is unmounted, but the handler still asks for what follows.
  unfoldable pub come : ℕ → Reply num → Session num → Session num
  come k r s = record s {
    mounted = if nat_eq k s.instance_no then handled_at r s.mounted else s.mounted;
    asked = s.asked ++ by k (follow_up r);
  }

  unfoldable pub poll : ℕ → Session num → Session num
  poll k s = record s { asked = s.asked ++ by k (loads_at s.mounted) }

  act_on : (String → String) → Act num → Option (Mounted num) → Session num → Session num
  act_on date_value u none s = s
  act_on date_value u (some m) s =
      let (n, works) = acted date_value u m in
      record s { mounted = some n; asked = s.asked ++ by s.instance_no works }

  unfoldable pub act : (String → String) → Act num → Session num → Session num
  unfolding act_on
  act date_value u s = act_on date_value u s.mounted s

  crash_of : Option (Mounted num) → Session num → Session num
  crash_of none s = s
  crash_of (some _) s = turn true none s

  -- The page throws while it is rendered, as where an answer that should be a list is none: React
  -- Router shows its own error page, since routes.tsx gives it none.
  unfoldable pub crash : Session num → Session num
  unfolding crash_of
  crash s = crash_of s.mounted s

  abbrev pub drop_asked : List (Asked num) → List (Asked num) → Session num → Session num
  drop_asked before later s = record s { asked = before ++ later }

  pub data Step (router : Router) (s : Session num) : Session num → Type 0 where
    visited : (url : String) → Step router s (open_url router url s)
    acts :
        (u : Act num) (m : Mounted num)
        → s.mounted ≡ some m
        → IsOffered u m
        → Step router s (act router.date_value u s)
    crashed : Step router s (crash s)
    polled : (k : ℕ) → Memᴰ k s.intervals → Step router s (poll k s)
    answered :
        (before later : List (Asked num)) (k : ℕ) (r : Reply num)
        → s.asked ≡ before ++ (k, work_of r) ∷ later
        → Step router s (come k r (drop_asked before later s))

  abbrev pub first_session : Session num
  first_session = record { mounted = none; instance_no = 0; asked = []; intervals = [] }

  pub data Reach (router : Router) : Session num → Type 0 where
    start : Reach router first_session
    next : {s t : Session num} → Reach router s → Step router s t → Reach router t
