-- ===== src/Admin/Console/Sessions/Laws.antt =====
-- Using and leaving the pages of the console: its intervals and its requests, over any run.
use mathlib.Core.Path.{subst}
use mathlib.Core.Bool.{true≢false}
use wow_vpn.Common.{
  ℕ, ◌≤◌, ◌≡◌, refl, sym, ap, ◌∙◌, String, Bool, true, false, Option, none, some, [], Memᴰ, arith,
  All-append,
}
use wow_vpn.Common.Number.{Number}
use wow_vpn.Admin.Shell.{Page, route}
use wow_vpn.Admin.Console.{Router, Mounted, visit}
use wow_vpn.Admin.Console.Acts.{Act}
use wow_vpn.Admin.Console.Sessions.{
  Session, polls, polls_at, by, loads_at, cleared, interval_of, opens_new, turn, open_url, come,
  poll, act_on, act, crash_of, crash, Step, visited, acts, crashed, polled, answered, Reach, start,
  next,
}
use wow_vpn.Admin.Console.Sessions.Owned.{acted-page_of}
use wow_vpn.Admin.Console.Sessions.Addressed.{
  page_at, IsPlaced, IsAddressed, page_at-stays, page_at-come, loads_at-AllPlaced,
  open_url-IsAddressed, act-IsAddressed, crash-IsAddressed, come-IsAddressed,
}

-- Only the mounted page has an interval, if its effect starts one.
abbrev pub IsPolling : {num : Number} → Session num → Type 0
IsPolling s = s.intervals ≡ interval_of (polls_at s.mounted) s.instance_no

cleared-interval_of : (b : Bool) (k : ℕ) → cleared k (interval_of b k) ≡ []
cleared-interval_of true k = ground arith
cleared-interval_of false k = refl

-- An interval that fires belongs to an instance that is there.
interval_of-past : (b : Bool) (k m : ℕ) → Memᴰ k (interval_of b m) → k ≤ m
interval_of-past true k m (Memᴰ.head e) = omega (arith, e)
interval_of-past true k m (Memᴰ.tail among) = elim among [ ]
interval_of-past false k m among = elim among [ ]

abbrev polls_page : Option Page → Bool
polls_page none = false
polls_page (some p) = polls p

module _ {num : Number} where
  polls_at-page_at : (m : Option (Mounted num)) → polls_at m ≡ polls_page (page_at m)
  polls_at-page_at none = refl
  polls_at-page_at (some m) = refl

  same_polls : (m n : Option (Mounted num)) → page_at m ≡ page_at n → polls_at m ≡ polls_at n
  same_polls m n e = polls_at-page_at m ∙ ap polls_page e ∙ sym (polls_at-page_at n)

  turn-IsPolling :
      (b : Bool) (now : Option (Mounted num)) (s : Session num)
      → IsPolling s
      → (b ≡ false → polls_at now ≡ polls_at s.mounted)
      → IsPolling (turn b now s)
  turn-IsPolling true now s v h =
      rw (v, cleared-interval_of (polls_at s.mounted) s.instance_no) refl
  turn-IsPolling false now s v h = rw (h refl) v

  -- A step that keeps the page, the instance and the intervals.
  kept-IsPolling :
      (s t : Session num)
      → page_at t.mounted ≡ page_at s.mounted
      → t.instance_no ≡ s.instance_no
      → t.intervals ≡ s.intervals
      → IsPolling s
      → IsPolling t
  kept-IsPolling s t page number same v = rw (same, same_polls t.mounted s.mounted page, number) v

  act_on-IsPolling :
      (date_value : String → String) (u : Act num) (m : Option (Mounted num)) (s : Session num)
      → m ≡ s.mounted
      → IsPolling s
      → IsPolling (act_on date_value u m s)
  unfolding act_on
  act_on-IsPolling date_value u none s e v = v
  act_on-IsPolling date_value u (some m) s e v =
      kept-IsPolling s (act_on date_value u (some m) s)
        (ap some (acted-page_of date_value u m) ∙ ap page_at e) refl refl v

  crash_of-IsPolling :
      (m : Option (Mounted num)) (s : Session num) → IsPolling s → IsPolling (crash_of m s)
  unfolding crash_of
  crash_of-IsPolling none s v = v
  crash_of-IsPolling (some m) s v = turn-IsPolling true none s v (λ h. absurd (true≢false h))

  Step-IsPolling :
      (router : Router) (s t : Session num) → Step router s t → IsPolling s → IsPolling t
  unfolding open_url visit poll come act crash
  Step-IsPolling router s t (visited url) v =
      turn-IsPolling (opens_new (route (router.pathname url)) s.mounted)
        (visit router url s.mounted) s v
        (λ h.
          same_polls (visit router url s.mounted) s.mounted
            (page_at-stays (route (router.pathname url)) (router.param "group" url) s.mounted h))
  Step-IsPolling router s t (acts u m e offered) v =
      act_on-IsPolling router.date_value u s.mounted s refl v
  Step-IsPolling router s t crashed v = crash_of-IsPolling s.mounted s v
  Step-IsPolling router s t (polled k among) v = v
  Step-IsPolling router s t (answered before later k r e) v =
      kept-IsPolling s t (page_at-come k r s) refl refl v

  -- Whatever pages are visited and used, and however polls and answers come between: an interval
  -- runs exactly while the dashboard or the clients page is mounted, it is the only one, and it is
  -- its own.
  pub Reach-IsPolling : (router : Router) (s : Session num) → Reach router s → IsPolling s
  Reach-IsPolling router s start = refl
  Reach-IsPolling router s (next {s = t} r step) =
      Step-IsPolling router t s step (Reach-IsPolling router t r)

  Step-IsAddressed :
      (router : Router) (s t : Session num)
      → Step router s t
      → IsPolling s
      → IsAddressed s
      → IsAddressed t
  unfolding poll
  Step-IsAddressed router s t (visited url) p v = open_url-IsAddressed router url s v
  Step-IsAddressed router s t (acts u m e offered) p v = act-IsAddressed router.date_value u s v
  Step-IsAddressed router s t crashed p v = crash-IsAddressed s v
  Step-IsAddressed router s t (polled k among) p v =
      All-append (IsPlaced (page_at s.mounted) s.instance_no) s.asked (by k (loads_at s.mounted)) v
        (loads_at-AllPlaced s.mounted s.instance_no k
          (interval_of-past (polls_at s.mounted) k s.instance_no (subst (Memᴰ k) p among)))
  Step-IsAddressed router s t (answered before later k r e) p v =
      come-IsAddressed before later k r s e v

  pub Reach-IsAddressed : (router : Router) (s : Session num) → Reach router s → IsAddressed s
  Reach-IsAddressed router s start = tt
  Reach-IsAddressed router s (next {s = t} r step) =
      Step-IsAddressed router t s step (Reach-IsPolling router t r) (Reach-IsAddressed router t r)
