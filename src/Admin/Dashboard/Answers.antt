-- ===== src/Admin/Dashboard/Answers.antt =====
-- The five requests of pages/Home.tsx: the order of their answers.
use mathlib.Core.Path.{subst}
use wow_vpn.Common.{◌≡◌, ◌≢◌, refl, sym, ap, ◌∙◌, List, [], ◌∷◌, Permᴰ, arith, All, All-perm}
use wow_vpn.Common.Number.{Number}
use wow_vpn.Admin.Dashboard.{
  State, Request, get_dashboard, get_system, get_clients, get_summary, get_chart, Answer, failed,
  dashboard, system, clients_answer, summary, chart, receive,
}

-- The request that an answer belongs to.
abbrev pub asked_by : {num : Number} → Answer num → Request
asked_by (failed r) = r
asked_by (dashboard _) = get_dashboard
asked_by (system _) = get_system
asked_by (clients_answer _) = get_clients
asked_by (summary _) = get_summary
asked_by (chart _) = get_chart

-- Two answers to different requests may come in either order.
pub receive-commutes :
    {num : Number} (a b : Answer num) (s : State num)
    → asked_by a ≢ asked_by b
    → receive a (receive b s) ≡ receive b (receive a s)
unfolding receive
receive-commutes a b s h = ground arith

module _ {num : Number} where
  -- The answers, in the order in which they come.
  abbrev pub receive_all : List (Answer num) → State num → State num
  receive_all [] s = s
  receive_all (a ∷ rest) s = receive_all rest (receive a s)

  abbrev IsApart : Answer num → List (Answer num) → Type 0
  IsApart a rest = All (λ b. asked_by a ≢ asked_by b) rest

  -- Answers to requests of which no two are the same.
  abbrev pub AllApart : List (Answer num) → Type 0
  AllApart [] = Unit
  AllApart (a ∷ rest) = IsApart a rest × AllApart rest

  AllApart-perm : (xs ys : List (Answer num)) → Permᴰ xs ys → AllApart xs → AllApart ys
  AllApart-perm _ _ Permᴰ.nil h = h
  AllApart-perm (x ∷ xs) (y ∷ ys) (Permᴰ.cons e d) (p, h) = (
    subst (λ a. IsApart a ys) e (All-perm (λ b. asked_by x ≢ asked_by b) xs ys d p),
    AllApart-perm xs ys d h,
  )
  AllApart-perm (x ∷ z ∷ xs) (y ∷ w ∷ ys) (Permᴰ.swap e f) ((p, q), (r, h)) = (
    (λ same. p (ap asked_by e ∙ sym same ∙ sym (ap asked_by f)), subst (λ a. IsApart a xs) f r),
    (subst (λ a. IsApart a xs) e q, h),
  )
  AllApart-perm xs zs (Permᴰ.trans {l₂ = ys} d c) h =
      AllApart-perm ys zs c (AllApart-perm xs ys d h)

  -- Answers to pairwise different requests may come in any order: the page ends in the same state.
  pub receive_all-perm :
      (xs ys : List (Answer num)) (s : State num)
      → Permᴰ xs ys
      → AllApart xs
      → receive_all xs s ≡ receive_all ys s
  receive_all-perm _ _ s Permᴰ.nil h = refl
  receive_all-perm (x ∷ xs) (y ∷ ys) s (Permᴰ.cons e d) (p, h) =
      receive_all-perm xs ys (receive x s) d h ∙ ap (λ a. receive_all ys (receive a s)) e
  receive_all-perm (x ∷ z ∷ xs) (y ∷ w ∷ ys) s (Permᴰ.swap e f) ((p, q), h) = ap (receive_all xs) (
      receive-commutes z x s (λ same. p (sym same))
      ∙ ap (λ a. receive a (receive z s)) e
      ∙ ap (λ a. receive w (receive a s)) f)
  receive_all-perm xs zs s (Permᴰ.trans {l₂ = ys} d c) h =
      receive_all-perm xs ys s d h ∙ receive_all-perm ys zs s c (AllApart-perm xs ys d h)
