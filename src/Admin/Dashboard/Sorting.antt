-- ===== src/Admin/Dashboard/Sorting.antt =====
-- The table of pages/Home.tsx against what a stable sort by falling traffic has to do.
use mathlib.Core.List.{Perm}
use mathlib.Core.List.Perm
use wow_vpn.Common.{
  ◌≡◌, refl, ap, ◌∙◌, Bool, true, false, not, ◌&&◌, ◌⊎◌, inl, inr, List, [], ◌∷◌, arith, filter,
  All, Bool-cases, if◌then◌else◌,
}
use wow_vpn.Common.Number.{Number}
use wow_vpn.Admin.Dashboard.{Client, insert_client, sorted_clients}

-- The order of JavaScript's numbers, NaN left out: a number is not NaN if it is at most itself.
pub record OrderLaws (num : Number) : Type 0 where
  pub lt-not-le :
      (a b : num.Carrier)
      → num.num_le a a ≡ true
      → num.num_le b b ≡ true
      → num.num_lt a b ≡ not (num.num_le b a)
  pub le-total :
      (a b : num.Carrier)
      → num.num_le a a ≡ true
      → num.num_le b b ≡ true
      → (num.num_le a b ≡ true) ⊎ (num.num_le b a ≡ true)
  pub le-trans :
      (a b c : num.Carrier) → num.num_le a b ≡ true → num.num_le b c ≡ true → num.num_le a c ≡ true

module _ {num : Number} where
  open num use {Carrier, num_le, num_lt}

  -- The traffic of a client is a number.
  abbrev pub IsMeasured : Client num → Type 0
  IsMeasured c = num_le c.data_usage c.data_usage ≡ true

  -- No client stands above one who used more.
  abbrev pub Falling : List (Client num) → Type 0
  Falling [] = Unit
  Falling (c ∷ cs) = All (λ d. num_le d.data_usage c.data_usage ≡ true) cs × Falling cs

  -- Whether a client used exactly this much.
  abbrev pub has_used : Carrier → Client num → Bool
  has_used k c = num_le k c.data_usage && num_le c.data_usage k

  insert_client-perm :
      (c : Client num) (ds : List (Client num)) → Perm (insert_client c ds) (c ∷ ds)
  unfolding insert_client
  insert_client-perm c [] = Perm.rfl
  insert_client-perm c (d ∷ ds) = elim (Bool-cases (num_lt c.data_usage d.data_usage)) [
    | inl e ↦ rw e (Perm.trans (Perm.cons d (insert_client-perm c ds)) (Perm.swap c d ds))
    | inr e ↦ rw e Perm.rfl
  ]

  sorted_clients-perm : (cs : List (Client num)) → Perm (sorted_clients cs) cs
  unfolding sorted_clients
  sorted_clients-perm [] = Perm.rfl
  sorted_clients-perm (c ∷ cs) =
      Perm.trans (insert_client-perm c (sorted_clients cs)) (Perm.cons c (sorted_clients-perm cs))

  filter-behind :
      (p : Client num → Bool) (c d : Client num) (xs ys : List (Client num))
      → (p c ≡ true → p d ≡ false)
      → filter p xs ≡ filter p (c ∷ ys)
      → filter p (d ∷ xs) ≡ filter p (c ∷ d ∷ ys)
  filter-behind p c d xs ys h e = ground (arith, e)

  All-insert_client :
      (P : Client num → Type 0) (c : Client num) (ds : List (Client num))
      → P c
      → All P ds
      → All P (insert_client c ds)
  unfolding insert_client
  All-insert_client P c [] p h = (p, tt)
  All-insert_client P c (d ∷ ds) p (q, h) = elim (Bool-cases (num_lt c.data_usage d.data_usage)) [
    | inl e ↦ rw e (q, All-insert_client P c ds p h)
    | inr e ↦ rw e (p, (q, h))
  ]

  All-sorted_clients :
      (P : Client num → Type 0) (cs : List (Client num)) → All P cs → All P (sorted_clients cs)
  unfolding sorted_clients
  All-sorted_clients P [] h = tt
  All-sorted_clients P (c ∷ cs) (p, h) =
      All-insert_client P c (sorted_clients cs) p (All-sorted_clients P cs h)

  module _ (laws : OrderLaws num) where
    open laws use {lt-not-le, le-total, le-trans}

    le_of_lt :
        (a b : Carrier)
        → num_le a a ≡ true
        → num_le b b ≡ true
        → num_lt a b ≡ true
        → num_le a b ≡ true
    le_of_lt a b h k l = ground (arith, lt-not-le a b h k, le-total a b h k)

    le_of_not_lt :
        (a b : Carrier)
        → num_le a a ≡ true
        → num_le b b ≡ true
        → num_lt a b ≡ false
        → num_le b a ≡ true
    le_of_not_lt a b h k l = ground (arith, lt-not-le a b h k)

    All-below :
        (a b : Carrier) (ds : List (Client num))
        → num_le a b ≡ true
        → All (λ d. num_le d.data_usage a ≡ true) ds
        → All (λ d. num_le d.data_usage b ≡ true) ds
    All-below a b [] h k = tt
    All-below a b (d ∷ ds) h (k, l) = (le-trans d.data_usage a b k h, All-below a b ds h l)

    Falling-insert_client :
        (c : Client num) (ds : List (Client num))
        → IsMeasured c
        → All IsMeasured ds
        → Falling ds
        → Falling (insert_client c ds)
    unfolding insert_client
    Falling-insert_client c [] m ms f = (tt, tt)
    Falling-insert_client c (d ∷ ds) m (n, ms) (below, f) =
        elim (Bool-cases (num_lt c.data_usage d.data_usage)) [
          | inl e ↦ rw e (
            All-insert_client (λ x. num_le x.data_usage d.data_usage ≡ true) c ds
                (le_of_lt c.data_usage d.data_usage m n e) below,
            Falling-insert_client c ds m ms f,
          )
          | inr e ↦
              let first = le_of_not_lt c.data_usage d.data_usage m n e in
              rw e ((first, All-below d.data_usage c.data_usage ds first below), (below, f))
        ]

    Falling-sorted_clients :
        (cs : List (Client num)) → All IsMeasured cs → Falling (sorted_clients cs)
    unfolding sorted_clients
    Falling-sorted_clients [] ms = tt
    Falling-sorted_clients (c ∷ cs) (m, ms) =
        Falling-insert_client c (sorted_clients cs) m (All-sorted_clients IsMeasured cs ms)
          (Falling-sorted_clients cs ms)

    -- Two clients who used the same do not change places.
    not_both :
        (k : Carrier) (c d : Client num)
        → IsMeasured c
        → IsMeasured d
        → num_lt c.data_usage d.data_usage ≡ true
        → has_used k c ≡ true
        → has_used k d ≡ false
    not_both k c d m n e h = elim (Bool-cases (num_le d.data_usage k)) [
      | inl l ↦
          let round = le-trans d.data_usage k c.data_usage l (ground arith) in
          absurd (ground (arith, lt-not-le c.data_usage d.data_usage m n))
      | inr l ↦ ground arith
    ]

    filter-insert_client :
        (k : Carrier) (c : Client num) (ds : List (Client num))
        → IsMeasured c
        → All IsMeasured ds
        → filter (has_used k) (insert_client c ds) ≡ filter (has_used k) (c ∷ ds)
    unfolding insert_client
    filter-insert_client k c [] m ms = refl
    filter-insert_client k c (d ∷ ds) m (n, ms) =
        elim (Bool-cases (num_lt c.data_usage d.data_usage)) [
          | inl e ↦ rw e (
              filter-behind (has_used k) c d (insert_client c ds) ds (not_both k c d m n e)
                (filter-insert_client k c ds m ms))
          | inr e ↦ rw e refl
        ]

    filter-sorted_clients :
        (k : Carrier) (cs : List (Client num))
        → All IsMeasured cs
        → filter (has_used k) (sorted_clients cs) ≡ filter (has_used k) cs
    unfolding sorted_clients
    filter-sorted_clients k [] ms = refl
    filter-sorted_clients k (c ∷ cs) (m, ms) =
        filter-insert_client k c (sorted_clients cs) m (All-sorted_clients IsMeasured cs ms)
        ∙ ap (λ rest. if has_used k c then c ∷ rest else rest) (filter-sorted_clients k cs ms)

    -- With numbers that keep OrderLaws, and the traffic of every client a number: the table has the
    -- clients of the answer, each as often, by falling traffic, and those who used the same in the
    -- order of the answer.
    pub sorted_clients-Falling :
        (cs : List (Client num))
        → All IsMeasured cs
        → Perm (sorted_clients cs) cs
          × Falling (sorted_clients cs)
          × ((k : Carrier) → filter (has_used k) (sorted_clients cs) ≡ filter (has_used k) cs)
    sorted_clients-Falling cs ms =
        (sorted_clients-perm cs, Falling-sorted_clients cs ms, λ k. filter-sorted_clients k cs ms)
