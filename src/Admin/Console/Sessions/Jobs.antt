-- ===== src/Admin/Console/Sessions/Jobs.antt =====
-- The jobs of the clients page among what is under way in the console.
use mathlib.Core.List.{append_assoc, append-nil}
use wow_vpn.Common.{
  ℕ, ◌+◌, ◌≤◌, ◌≡◌, refl, sym, ap, ◌∙◌, Bool, true, false, Option, some, List, [], ◌∷◌, ◌++◌,
  nat_eq, arith,
}
use wow_vpn.Common.Number.{Number}
use wow_vpn.Admin.Shell
use wow_vpn.Admin.Shell.{Page, is_page, route}
use wow_vpn.Admin.Users.Types.{Job, Effect, Request}
use wow_vpn.Admin.Users.World.{started}
use wow_vpn.Admin.Console.Work.{Work, users_work, owner, users_works}
use wow_vpn.Admin.Console.Sessions.{Asked, by}
use wow_vpn.Admin.Console.Sessions.Owned.{IsOwned}
use wow_vpn.Admin.Console.Sessions.Addressed.{AllPlaced}

-- The jobs of the clients page among what is under way for one instance.
pub job_of_work : {num : Number} → Bool → Work num → List Job
job_of_work true (users_work j q) = j ∷ []
job_of_work _ _ = []

unfoldable pub jobs_at : {num : Number} → ℕ → List (Asked num) → List Job
unfolding job_of_work
jobs_at n [] = []
jobs_at n ((k, w) ∷ asked) = job_of_work (nat_eq k n) w ++ jobs_at n asked

pub itself : (k : ℕ) → nat_eq k k ≡ true
itself k = ground arith

later_number : (k n : ℕ) → k ≤ n → nat_eq k (n + 1) ≡ false
later_number k n h = ground arith

module _ {num : Number} where
  pub jobs_at-append :
      (n : ℕ) (xs ys : List (Asked num)) → jobs_at n (xs ++ ys) ≡ jobs_at n xs ++ jobs_at n ys
  unfolding jobs_at
  jobs_at-append n [] ys = refl
  jobs_at-append n ((k, w) ∷ xs) ys =
      ap (λ t. job_of_work (nat_eq k n) w ++ t) (jobs_at-append n xs ys)
      ∙ sym (append_assoc (job_of_work (nat_eq k n) w) (jobs_at n xs) (jobs_at n ys))

  -- What the page's own handlers start.
  pub jobs_at-users_works :
      (n : ℕ) (es : List (Effect num)) → jobs_at n (by n (users_works es)) ≡ started es
  unfolding jobs_at job_of_work
  jobs_at-users_works n [] = refl
  jobs_at-users_works n (Effect.start j q ∷ es) =
      rw (itself n) (ap (λ t. j ∷ t) (jobs_at-users_works n es))
  jobs_at-users_works n (Effect.alert t ∷ es) = jobs_at-users_works n es
  jobs_at-users_works n (Effect.copy t ∷ es) = jobs_at-users_works n es

  pub no_job : (w : Work num) → job_of_work false w ≡ []
  unfolding job_of_work
  no_job (users_work j q) = refl
  no_job _ = refl

  pub jobs_at-other :
      (n k : ℕ) (works : List (Work num)) → nat_eq k n ≡ false → jobs_at n (by k works) ≡ []
  unfolding jobs_at
  jobs_at-other n k [] h = refl
  jobs_at-other n k (w ∷ works) h = rw (h, no_job w) (jobs_at-other n k works h)

  pub not_job :
      (b : Bool) (w : Work num)
      → is_page Shell.users (some (owner w)) ≡ false
      → job_of_work b w ≡ []
  unfolding job_of_work
  not_job b w h = ground (arith, h)

  -- What the handlers of another page start.
  pub jobs_at-IsOwned :
      (n k : ℕ) (p : Page) (works : List (Work num))
      → IsOwned p works
      → is_page Shell.users (some p) ≡ false
      → jobs_at n (by k works) ≡ []
  unfolding jobs_at
  jobs_at-IsOwned n k p [] owned h = refl
  jobs_at-IsOwned n k p (w ∷ works) (o, owned) h =
      rw (not_job (nat_eq k n) w (rw o h)) (jobs_at-IsOwned n k p works owned h)

  -- A new instance has no job yet.
  pub jobs_at-later :
      (page : Option Page) (n : ℕ) (asked : List (Asked num))
      → AllPlaced page n asked
      → jobs_at (n + 1) asked ≡ []
  unfolding jobs_at
  jobs_at-later page n [] v = refl
  jobs_at-later page n ((k, w) ∷ asked) (p, v) =
      rw (later_number k n p.0, no_job w) (jobs_at-later page n asked v)

  -- An answered request without a job of the page, whose handler starts none.
  pub jobs_at-answered :
      (n k : ℕ) (w : Work num) (before later : List (Asked num)) (works : List (Work num))
      → job_of_work (nat_eq k n) w ≡ []
      → jobs_at n (by k works) ≡ []
      → jobs_at n (before ++ later ++ by k works) ≡ jobs_at n (before ++ (k, w) ∷ later)
  unfolding jobs_at
  jobs_at-answered n k w before later works e f =
      rw
        (
          jobs_at-append n (before ++ later) (by k works),
          jobs_at-append n before later,
          jobs_at-append n before ((k, w) ∷ later),
          e,
          f,
        )
        (append-nil (jobs_at n before ++ jobs_at n later))

  -- An answered job of the page.
  pub jobs_at-users_work :
      (n : ℕ) (j : Job) (q : Request num) (before later : List (Asked num))
      → jobs_at n (before ++ (n, users_work j q) ∷ later) ≡ jobs_at n before ++ j ∷ jobs_at n later
  unfolding jobs_at job_of_work
  jobs_at-users_work n j q before later =
      jobs_at-append n before ((n, users_work j q) ∷ later) ∙ rw (itself n) refl
