-- ===== src/Admin/Console/Sessions/ClientSteps.antt =====
-- What happens on the pages of the console, against the steps of Admin.Users.World.
use mathlib.Core.Path.{subst}
use mathlib.Core.List.{append-nil}
use wow_vpn.Common.{
  ℕ, ◌+◌, ◌≡◌, refl, sym, ap, ◌∙◌, String, Bool, true, false, Option, none, some, List, ◌∷◌, ◌++◌,
  Memᴰ, nat_eq, arith, Bool-cases, inl, inr,
}
use wow_vpn.Common.Number.{Number}
use wow_vpn.Admin.Shell
use wow_vpn.Admin.Shell.{Page, is_page, route}
use wow_vpn.Admin.Users
use wow_vpn.Admin.Users.Types.{Job}
use wow_vpn.Admin.Users.World
use wow_vpn.Admin.Users.World.{World, after, started, saves, busy, saves-loading}
use wow_vpn.Admin.Console
use wow_vpn.Admin.Console.{
  Router, Mounted, at_users, page_of, fresh_users, mount, visit, requery, open_page, open_route,
}
use wow_vpn.Admin.Console.Work
use wow_vpn.Admin.Console.Work.{
  Work, users_work, Reply, to_users, owner, work_of, users_works, loads, handled, follow_up,
}
use wow_vpn.Admin.Console.Acts
use wow_vpn.Admin.Console.Acts.{Act, users_act, acted, IsOffered}
use wow_vpn.Admin.Console.Sessions.{Asked, Session, by, opens_new, turn, loads_at, interval_of}
use wow_vpn.Admin.Console.Sessions.Owned.{handled-follow_up, follow_up-IsOwned}
use wow_vpn.Admin.Console.Sessions.Addressed.{AllPlaced, page_at, IsAddressed}
use wow_vpn.Admin.Console.Sessions.Jobs.{
  jobs_at, not_job, jobs_at-append, jobs_at-users_works, jobs_at-IsOwned, jobs_at-later,
  jobs_at-answered, jobs_at-users_work,
}

-- The clients page alone comes to this state with these jobs.
abbrev pub Comes : {num : Number} → Router → Users.Types.State num → List Job → Type 0
Comes {num} router u jobs =
    World.Reach router.date_value (fresh_users num none) (record { state = u; jobs = jobs })

-- If the clients page is mounted, it is in a state that it comes to alone.
abbrev pub Refines : {num : Number} → Router → Option (Mounted num) → ℕ → List (Asked num) → Type 0
Refines router (some (at_users u)) n asked = Comes router u (jobs_at n asked)
Refines router _ n asked = Unit

pub interval_of-own : (b : Bool) (k n : ℕ) → Memᴰ k (interval_of b n) → k ≡ n
interval_of-own true k n (Memᴰ.head e) = e
interval_of-own true k n (Memᴰ.tail among) = elim among [ ]
interval_of-own false k n among = elim among [ ]

pub same_number : (k n : ℕ) → nat_eq k n ≡ true → n ≡ k
same_number k n h = ground (arith, h)

module _ {num : Number} (router : Router) where
  pub same_jobs :
      (m : Option (Mounted num)) (n : ℕ) (asked others : List (Asked num))
      → jobs_at n others ≡ jobs_at n asked
      → Refines router m n asked
      → Refines router m n others
  same_jobs (some (at_users u)) n asked others e r = subst (Comes router u) (sym e) r
  same_jobs _ n asked others e r = tt

  -- The page is mounted, and asks for its lists.
  mount-Refines :
      (p : Page) (group : Option String) (page : Option Page) (n : ℕ) (asked : List (Asked num))
      → AllPlaced page n asked
      → Refines router
          (some (mount num p group))
          (n + 1)
          (asked ++ by (n + 1) (loads_at (some (mount num p group))))
  unfolding mount loads
  mount-Refines Shell.users group page n asked v =
      subst (Comes router (fresh_users num group))
        (sym (
          jobs_at-append (n + 1) asked (by (n + 1) (users_works Users.Handlers.fetch_data))
          ∙ rw (jobs_at-later page n asked v)
              (jobs_at-users_works (n + 1) Users.Handlers.fetch_data)))
        (World.Reach.next (World.Reach.next World.Reach.here (World.Step.requeried group))
          World.Step.polled)
  mount-Refines _ group page n asked v = tt

  requery-Refines :
      (m : Mounted num) (group : Option String) (n : ℕ) (asked : List (Asked num))
      → Refines router (some m) n asked
      → Refines router (some (requery group m)) n asked
  requery-Refines (at_users u) group n asked r = World.Reach.next r (World.Step.requeried group)
  requery-Refines _ group n asked r = tt

  abbrev pub RefinesNow : Session num → Type 0
  RefinesNow s = Refines router s.mounted s.instance_no s.asked

  pub open_route-Refines :
      (p : Option Page) (group : Option String) (m : Option (Mounted num)) (s : Session num)
      → m ≡ s.mounted
      → IsAddressed s
      → RefinesNow s
      → RefinesNow (turn (opens_new p m) (open_route p group m) s)
  unfolding open_route open_page
  open_route-Refines none group m s e v r = tt
  open_route-Refines (some p) group none s e v r =
      mount-Refines p group (page_at s.mounted) s.instance_no s.asked v
  open_route-Refines (some p) group (some m) s e v r =
      elim (Bool-cases (is_page p (some (page_of m)))) [
        | inl h ↦ rw h (
            requery-Refines m group s.instance_no s.asked
              (subst (λ x. Refines router x s.instance_no s.asked) (sym e) r))
        | inr h ↦ rw h (mount-Refines p group (page_at s.mounted) s.instance_no s.asked v)
      ]

  -- What the page starts is added to its jobs.
  jobs_after :
      (n : ℕ) (asked : List (Asked num)) (es : List (Users.Types.Effect num))
      → jobs_at n (asked ++ by n (users_works es)) ≡ jobs_at n asked ++ started es
  jobs_after n asked es =
      jobs_at-append n asked (by n (users_works es))
      ∙ ap (λ t. jobs_at n asked ++ t) (jobs_at-users_works n es)

  pub polled-Refines :
      (m : Option (Mounted num)) (n : ℕ) (asked : List (Asked num))
      → Refines router m n asked
      → Refines router m n (asked ++ by n (loads_at m))
  unfolding loads
  polled-Refines (some (at_users u)) n asked r =
      subst (Comes router u) (sym (jobs_after n asked Users.Handlers.fetch_data))
        (World.Reach.next r World.Step.polled)
  polled-Refines _ n asked r = tt

  -- What a user does on a page: on the clients page it is a step of that page, if it is offered.
  pub acted-Refines :
      (u : Act num) (m : Mounted num) (n : ℕ) (asked : List (Asked num))
      → IsOffered u m
      → Refines router (some m) n asked
      → Refines router
          (some (acted router.date_value u m).0)
          n
          (asked ++ by n (acted router.date_value u m).1)
  unfolding acted
  acted-Refines (users_act browser m) (at_users u) n asked (inl among) r =
      subst (Comes router (Users.Page.update router.date_value browser m u).0)
        (sym (jobs_after n asked (Users.Page.update router.date_value browser m u).1))
        (World.Reach.next r (World.Step.clicked browser m among))
  acted-Refines (users_act browser m) (at_users u) n asked (inr entry) r =
      subst (Comes router (Users.Page.update router.date_value browser m u).0)
        (sym (jobs_after n asked (Users.Page.update router.date_value browser m u).1))
        (World.Reach.next r (World.Step.entered browser m entry))
  acted-Refines (Acts.groups_act _ _) (Console.at_groups _) n asked o r = tt
  acted-Refines (Acts.nodes_act _ _) (Console.at_nodes _) n asked o r = tt
  acted-Refines (Acts.templates_act _ _) (Console.at_templates _) n asked o r = tt
  acted-Refines (Acts.rules_act _ _) (Console.at_rules _) n asked o r = tt
  acted-Refines (Acts.profiles_act _ _) (Console.at_profiles _) n asked o r = tt
  acted-Refines (Acts.settings_act _) (Console.at_settings _) n asked o r = tt
  acted-Refines Acts.hwid_refresh (Console.at_hwid _) n asked o r = tt
  acted-Refines Acts.logs_refresh (Console.at_logs _) n asked o r = tt
  acted-Refines Acts.groups_timer (Console.at_groups _) n asked o r = tt
  acted-Refines Acts.profiles_timer (Console.at_profiles _) n asked o r = tt
  acted-Refines Acts.settings_timer (Console.at_settings _) n asked o r = tt
  acted-Refines _ (at_users u) n asked o r =
      subst (λ a. Comes router u (jobs_at n a)) (sym (append-nil asked)) r
  acted-Refines _ m n asked o r = tt

  -- The rest of a handler of the instance that is there.
  pub handled-Refines :
      (a : Reply num) (m : Mounted num) (n : ℕ) (before later : List (Asked num))
      → Refines router (some m) n (before ++ (n, work_of a) ∷ later)
      → Refines router (some (handled a m).0) n (before ++ later ++ by n (follow_up a))
  unfolding handled
  handled-Refines (to_users j q a) (at_users u) n before later r =
      let es = (Users.Handlers.answer j a u).1 in
      subst (Comes router (Users.Handlers.answer j a u).0)
        (ap (λ t. t ++ started es) (sym (jobs_at-append n before later))
          ∙ sym (jobs_after n (before ++ later) es)
          ∙ ap (λ works. jobs_at n (before ++ later ++ by n works))
              (handled-follow_up (to_users j q a) (at_users u) refl))
        (World.Reach.next r (
          World.Step.answered (jobs_at n before) (jobs_at n later) j a
            (jobs_at-users_work n j q before later)))
  handled-Refines (Work.to_home _) (Console.at_home _) n before later r = tt
  handled-Refines (Work.to_groups _ _ _) (Console.at_groups _) n before later r = tt
  handled-Refines (Work.to_nodes _ _ _) (Console.at_nodes _) n before later r = tt
  handled-Refines (Work.to_templates _ _ _) (Console.at_templates _) n before later r = tt
  handled-Refines (Work.to_rules _ _ _) (Console.at_rules _) n before later r = tt
  handled-Refines (Work.to_profiles _) (Console.at_profiles _) n before later r = tt
  handled-Refines (Work.to_hwid _) (Console.at_hwid _) n before later r = tt
  handled-Refines (Work.to_logs _ _) (Console.at_logs _) n before later r = tt
  handled-Refines (Work.to_settings _ _) (Console.at_settings _) n before later r = tt
  handled-Refines (Work.to_save _ _) (Console.at_settings _) n before later r = tt
  handled-Refines a (at_users u) n before later r =
      subst (Comes router u)
        (sym (
          jobs_at-answered n n (work_of a) before later (follow_up a)
            (not_job (nat_eq n n) (work_of a) refl)
            (jobs_at-IsOwned n n (owner (work_of a)) (follow_up a) (follow_up-IsOwned a) refl)))
        r
  handled-Refines _ m n before later r = tt
