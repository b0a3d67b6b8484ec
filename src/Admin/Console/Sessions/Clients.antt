-- ===== src/Admin/Console/Sessions/Clients.antt =====
-- The clients page inside the console: the console's steps against those of Admin.Users.World.
use mathlib.Core.Path.{subst}
use wow_vpn.Common.{
  ℕ, ◌≡◌, refl, sym, Option, none, some, List, ◌∷◌, ◌++◌, Memᴰ, nat_eq, Bool-cases, inl, inr,
}
use wow_vpn.Common.Number.{Number}
use wow_vpn.Admin.Shell.{route}
use wow_vpn.Admin.Users
use wow_vpn.Admin.Users.Types.{Job}
use wow_vpn.Admin.Users.World
use wow_vpn.Admin.Users.World.{World, after, started, saves, busy, saves-loading}
use wow_vpn.Admin.Console.{Router, Mounted, at_users, fresh_users, visit}
use wow_vpn.Admin.Console.Work.{Reply, work_of, follow_up}
use wow_vpn.Admin.Console.Sessions.{
  Asked, Session, by, handled_at, open_url, come, poll, act_on, act, crash_of, crash, polls_at,
  loads_at, Step, visited, acts, crashed, polled, answered, Reach, start, next, drop_asked,
}
use wow_vpn.Admin.Console.Sessions.Addressed.{IsAddressed}
use wow_vpn.Admin.Console.Sessions.Laws.{IsPolling, Reach-IsPolling, Reach-IsAddressed}
use wow_vpn.Admin.Console.Sessions.Jobs.{jobs_at, no_job, jobs_at-other, jobs_at-answered}
use wow_vpn.Admin.Console.Sessions.ClientSteps.{
  Refines, RefinesNow, interval_of-own, same_number, same_jobs, open_route-Refines, polled-Refines,
  acted-Refines, handled-Refines,
}

module _ {num : Number} (router : Router) where
  handled_at-Refines :
      (a : Reply num) (m : Option (Mounted num)) (n : ℕ) (before later : List (Asked num))
      → Refines router m n (before ++ (n, work_of a) ∷ later)
      → Refines router (handled_at a m) n (before ++ later ++ by n (follow_up a))
  handled_at-Refines a none n before later r = tt
  handled_at-Refines a (some m) n before later r = handled-Refines router a m n before later r

  come-Refines :
      (before later : List (Asked num)) (k : ℕ) (a : Reply num) (s : Session num)
      → s.asked ≡ before ++ (k, work_of a) ∷ later
      → RefinesNow router s
      → RefinesNow router (come k a (drop_asked before later s))
  unfolding come
  come-Refines before later k a s e r = elim (Bool-cases (nat_eq k s.instance_no)) [
    | inl h ↦ rw h (
        subst
          (λ n. Refines router (handled_at a s.mounted) n (before ++ later ++ by k (follow_up a)))
          (sym (same_number k s.instance_no h))
          (handled_at-Refines a s.mounted k before later (
            subst (λ n. Refines router s.mounted n (before ++ (k, work_of a) ∷ later))
              (same_number k s.instance_no h)
              (subst (Refines router s.mounted s.instance_no) e r))))
    | inr h ↦ rw h (
        same_jobs router s.mounted s.instance_no (before ++ (k, work_of a) ∷ later)
          (before ++ later ++ by k (follow_up a))
          (jobs_at-answered s.instance_no k (work_of a) before later (follow_up a)
            (rw h (no_job (work_of a))) (jobs_at-other s.instance_no k (follow_up a) h))
          (subst (Refines router s.mounted s.instance_no) e r))
  ]

  crash_of-Refines :
      (m : Option (Mounted num)) (s : Session num)
      → RefinesNow router s
      → RefinesNow router (crash_of m s)
  unfolding crash_of
  crash_of-Refines none s r = r
  crash_of-Refines (some m) s r = tt

  Step-Refines :
      (s t : Session num)
      → Step router s t
      → IsPolling s
      → IsAddressed s
      → RefinesNow router s
      → RefinesNow router t
  unfolding open_url visit act crash poll
  Step-Refines s t (visited url) p v r =
      open_route-Refines router (route (router.pathname url)) (router.param "group" url) s.mounted s
        refl v r
  Step-Refines s t (acts u m e offered) p v r =
      subst (λ x. RefinesNow router (act_on router.date_value u x s)) (sym e)
        (acted-Refines router u m s.instance_no s.asked offered
          (subst (λ x. Refines router x s.instance_no s.asked) e r))
  Step-Refines s t crashed p v r = crash_of-Refines s.mounted s r
  Step-Refines s t (polled k among) p v r =
      subst (λ j. Refines router s.mounted s.instance_no (s.asked ++ by j (loads_at s.mounted)))
        (sym (interval_of-own (polls_at s.mounted) k s.instance_no (subst (Memᴰ k) p among)))
        (polled-Refines router s.mounted s.instance_no s.asked r)
  Step-Refines s t (answered before later k a e) p v r = come-Refines before later k a s e r

  Reach-Refines : (s : Session num) → Reach router s → RefinesNow router s
  Reach-Refines s start = tt
  Reach-Refines s (next {s = t} reached step) =
      Step-Refines t s step (Reach-IsPolling router t reached) (Reach-IsAddressed router t reached)
        (Reach-Refines t reached)

  -- Whatever pages are visited and used in the console, and however answers, of pages that were left
  -- too, come between: if the clients page is mounted, its state and its own jobs that are under way
  -- are those of a run of that page alone; so while the page is loading, exactly one of these jobs
  -- saves a client, and otherwise none.
  pub clients_refine :
      (s : Session num) (u : Users.Types.State num)
      → Reach router s
      → s.mounted ≡ some (at_users u)
      → World.Reach router.date_value
          (fresh_users num none)
          (record { state = u; jobs = jobs_at s.instance_no s.asked })
        × (saves (jobs_at s.instance_no s.asked) ≡ busy u.loading)
  clients_refine s u reached e =
      let alone = subst (λ x. Refines router x s.instance_no s.asked) e (Reach-Refines s reached) in
      (
        alone,
        saves-loading router.date_value (fresh_users num none)
            (record { state = u; jobs = jobs_at s.instance_no s.asked }) refl alone,
      )
