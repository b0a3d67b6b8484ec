-- ===== src/Admin/Console/Sessions/Addressed.antt =====
-- Which page the requests under way belong to: at every step of the console.
use mathlib.Core.Path.{subst}
use mathlib.Core.Bool.{true≢false}
use wow_vpn.Common.{
  ℕ, ◌+◌, ◌≤◌, ◌≡◌, refl, sym, ap, ◌∙◌, String, Bool, true, false, not, Option, none, some, List,
  [], ◌∷◌, ◌++◌, nat_eq, arith, All, All-append, All-split, Bool-cases, inl, inr,
}
use wow_vpn.Common.Number.{Number}
use wow_vpn.Admin.Shell.{Page, is_page, route}
use wow_vpn.Admin.Console.{Router, Mounted, page_of, visit, requery, open_page, open_route}
use wow_vpn.Admin.Console.Work.{Work, Reply, owner, work_of, follow_up}
use wow_vpn.Admin.Console.Acts.{Act, acted}
use wow_vpn.Admin.Console.Sessions.{
  Asked, Session, by, loads_at, handled_at, opens_new, turn, open_url, come, act_on, act, crash_of,
  crash, drop_asked,
}
use wow_vpn.Admin.Console.Sessions.Owned.{
  IsOwned, handled-page_of, acted-page_of, loads-IsOwned, acted-IsOwned, follow_up-IsOwned,
}

abbrev pub page_at : {num : Number} → Option (Mounted num) → Option Page
page_at none = none
page_at (some m) = some (page_of m)

-- A request belongs to the page that is there, or to an instance before it.
abbrev pub IsPlaced : {num : Number} → Option Page → ℕ → Asked num → Type 0
IsPlaced page n a = (a.0 ≤ n) × (a.0 ≡ n → page ≡ some (owner a.1))

abbrev pub AllPlaced : {num : Number} → Option Page → ℕ → List (Asked num) → Type 0
AllPlaced page n asked = All (IsPlaced page n) asked

abbrev pub IsAddressed : {num : Number} → Session num → Type 0
IsAddressed s = AllPlaced (page_at s.mounted) s.instance_no s.asked

no_later : {k n : ℕ} → k ≤ n → k ≡ n + 1 → ⊥
no_later h e = omega (arith, h, e)

module _ {num : Number} where
  pub page_at-handled_at :
      (r : Reply num) (m : Option (Mounted num)) → page_at (handled_at r m) ≡ page_at m
  page_at-handled_at r none = refl
  page_at-handled_at r (some m) = ap some (handled-page_of r m)

  page_at-requery :
      (group : Option String) (m : Mounted num) → page_of (requery group m) ≡ page_of m
  page_at-requery group m = ground arith

  -- The page that is there stays there, unless another one is opened.
  pub page_at-stays :
      (p : Option Page) (group : Option String) (m : Option (Mounted num))
      → opens_new p m ≡ false
      → page_at (open_route p group m) ≡ page_at m
  unfolding open_route open_page
  page_at-stays none group m h = absurd (true≢false h)
  page_at-stays (some p) group none h = absurd (true≢false h)
  page_at-stays (some p) group (some m) h = elim (Bool-cases (is_page p (some (page_of m)))) [
    | inl e ↦ rw e (ap some (page_at-requery group m))
    | inr e ↦ absurd (true≢false (sym (ap not e) ∙ h))
  ]

  by-AllPlaced :
      (page : Option Page) (n k : ℕ) (p : Page) (works : List (Work num))
      → IsOwned p works
      → k ≤ n
      → (k ≡ n → page ≡ some p)
      → AllPlaced page n (by k works)
  by-AllPlaced page n k p [] owned h same = tt
  by-AllPlaced page n k p (w ∷ works) (o, owned) h same =
      ((h, λ e. same e ∙ ap some (sym o)), by-AllPlaced page n k p works owned h same)

  AllPlaced-later :
      (page other : Option Page) (n : ℕ) (asked : List (Asked num))
      → AllPlaced page n asked
      → AllPlaced other (n + 1) asked
  AllPlaced-later page other n [] h = tt
  AllPlaced-later page other n (a ∷ asked) (p, h) =
      ((omega (arith, p.0), λ e. absurd (no_later p.0 e)), AllPlaced-later page other n asked h)

  pub loads_at-AllPlaced :
      (m : Option (Mounted num)) (n k : ℕ) → k ≤ n → AllPlaced (page_at m) n (by k (loads_at m))
  loads_at-AllPlaced none n k h = tt
  loads_at-AllPlaced (some m) n k h =
      by-AllPlaced (some (page_of m)) n k (page_of m) (loads_at (some m))
        (loads-IsOwned num (page_of m)) h (λ _. refl)

  turn-IsAddressed :
      (b : Bool) (now : Option (Mounted num)) (s : Session num)
      → IsAddressed s
      → (b ≡ false → page_at now ≡ page_at s.mounted)
      → IsAddressed (turn b now s)
  turn-IsAddressed true now s v h =
      All-append (IsPlaced (page_at now) (s.instance_no + 1)) s.asked
        (by (s.instance_no + 1) (loads_at now))
        (AllPlaced-later (page_at s.mounted) (page_at now) s.instance_no s.asked v)
        (loads_at-AllPlaced now (s.instance_no + 1) (s.instance_no + 1) (omega arith))
  turn-IsAddressed false now s v h = rw (h refl) v

  pub open_url-IsAddressed :
      (router : Router) (url : String) (s : Session num)
      → IsAddressed s
      → IsAddressed (open_url router url s)
  unfolding open_url visit
  open_url-IsAddressed router url s v =
      turn-IsAddressed (opens_new (route (router.pathname url)) s.mounted)
        (visit router url s.mounted) s v
        (page_at-stays (route (router.pathname url)) (router.param "group" url) s.mounted)

  act_on-IsAddressed :
      (date_value : String → String) (u : Act num) (m : Option (Mounted num)) (s : Session num)
      → m ≡ s.mounted
      → IsAddressed s
      → IsAddressed (act_on date_value u m s)
  unfolding act_on
  act_on-IsAddressed date_value u none s e v = v
  act_on-IsAddressed date_value u (some m) s e v =
      let page = ap some (acted-page_of date_value u m) in
      All-append (IsPlaced (some (page_of (acted date_value u m).0)) s.instance_no) s.asked
        (by s.instance_no (acted date_value u m).1)
        (subst (λ p. AllPlaced p s.instance_no s.asked) (sym (page ∙ ap page_at e)) v)
        (by-AllPlaced (some (page_of (acted date_value u m).0)) s.instance_no s.instance_no
          (page_of m) (acted date_value u m).1 (acted-IsOwned date_value u m) (omega arith)
          (λ _. page))

  pub act-IsAddressed :
      (date_value : String → String) (u : Act num) (s : Session num)
      → IsAddressed s
      → IsAddressed (act date_value u s)
  unfolding act
  act-IsAddressed date_value u s v = act_on-IsAddressed date_value u s.mounted s refl v

  act_on-none :
      (date_value : String → String) (u : Act num) (m : Option (Mounted num)) (s : Session num)
      → m ≡ none
      → act_on date_value u m s ≡ s
  unfolding act_on
  act_on-none date_value u none s e = refl
  act_on-none date_value u (some m) s e = ground (arith, e)

  -- Without a page there is nothing to act on.
  pub act-none :
      (date_value : String → String) (u : Act num) (s : Session num)
      → s.mounted ≡ none
      → act date_value u s ≡ s
  unfolding act
  act-none date_value u s e = act_on-none date_value u s.mounted s e

  crash_of-none : (m : Option (Mounted num)) (s : Session num) → m ≡ none → crash_of m s ≡ s
  unfolding crash_of
  crash_of-none none s e = refl
  crash_of-none (some m) s e = ground (arith, e)

  pub crash-none : (s : Session num) → s.mounted ≡ none → crash s ≡ s
  unfolding crash
  crash-none s e = crash_of-none s.mounted s e

  crash_of-IsAddressed :
      (m : Option (Mounted num)) (s : Session num) → IsAddressed s → IsAddressed (crash_of m s)
  unfolding crash_of
  crash_of-IsAddressed none s v = v
  crash_of-IsAddressed (some m) s v = turn-IsAddressed true none s v (λ h. absurd (true≢false h))

  pub crash-IsAddressed : (s : Session num) → IsAddressed s → IsAddressed (crash s)
  unfolding crash
  crash-IsAddressed s v = crash_of-IsAddressed s.mounted s v

  -- The page after an answer is the page before it.
  pub page_at-come :
      (k : ℕ) (r : Reply num) (s : Session num) → page_at (come k r s).mounted ≡ page_at s.mounted
  unfolding come
  page_at-come k r s = elim (Bool-cases (nat_eq k s.instance_no)) [
    | inl e ↦ rw e (page_at-handled_at r s.mounted)
    | inr e ↦ rw e refl
  ]

  -- The answered request is gone, and what follows it is of the same instance and page.
  answered-AllPlaced :
      (page : Option Page) (n : ℕ) (before later : List (Asked num)) (k : ℕ) (r : Reply num)
      → AllPlaced page n (before ++ (k, work_of r) ∷ later)
      → AllPlaced page n (before ++ later ++ by k (follow_up r))
  answered-AllPlaced page n before later k r v =
      let (left, right) = All-split (IsPlaced page n) before ((k, work_of r) ∷ later) v in
      All-append (IsPlaced page n) (before ++ later) (by k (follow_up r))
        (All-append (IsPlaced page n) before later left right.1)
        (by-AllPlaced page n k (owner (work_of r)) (follow_up r) (follow_up-IsOwned r) right.0.0
          right.0.1)

  pub come-IsAddressed :
      (before later : List (Asked num)) (k : ℕ) (r : Reply num) (s : Session num)
      → s.asked ≡ before ++ (k, work_of r) ∷ later
      → IsAddressed s
      → IsAddressed (come k r (drop_asked before later s))
  unfolding come
  come-IsAddressed before later k r s e v =
      subst (λ p. AllPlaced p s.instance_no (before ++ later ++ by k (follow_up r)))
        (sym (page_at-come k r s))
        (answered-AllPlaced (page_at s.mounted) s.instance_no before later k r
          (subst (AllPlaced (page_at s.mounted) s.instance_no) e v))
