-- ===== src/Admin/Dashboard/Progress.antt =====
-- The bar of a client's traffic in pages/Home.tsx: its width.
use wow_vpn.Common.{ℕ, ◌≡◌, ◌≤◌, ◌⊎◌, inl, inr, true, arith, Bool-cases}
use wow_vpn.Common.Number.{Number}
use wow_vpn.Admin.Dashboard.{Client, pct}

-- What the page relies on of JavaScript's arithmetic, for the numbers that are finite. A number that
-- is not negative is not NaN.
pub record RatioLaws (num : Number) (IsFinite : num.Carrier → Type 0) : Type 0 where
  pub of_nat-le : (m n : ℕ) → m ≤ n → num.num_le (num.of_nat m) (num.of_nat n) ≡ true
  pub over-nonneg :
      (a b : num.Carrier)
      → IsFinite a
      → num.num_le (num.of_nat 0) a ≡ true
      → num.num_lt (num.of_nat 0) b ≡ true
      → num.num_le (num.of_nat 0) (num.over a b) ≡ true
  pub times-nonneg :
      (a : num.Carrier) (n : ℕ)
      → 1 ≤ n
      → num.num_le (num.of_nat 0) a ≡ true
      → num.num_le (num.of_nat 0) (num.times a (num.of_nat n)) ≡ true
  pub minimum-cases :
      (a b : num.Carrier)
      → num.num_le (num.of_nat 0) a ≡ true
      → num.num_le (num.of_nat 0) b ≡ true
      → ((num.minimum a b ≡ a) × (num.num_le a b ≡ true))
        ⊎ ((num.minimum a b ≡ b) × (num.num_le b a ≡ true))

module _ {num : Number} {IsFinite : num.Carrier → Type 0} (laws : RatioLaws num IsFinite) where
  open num use {Carrier, of_nat, num_le, num_lt, minimum, times, over}
  open laws use {of_nat-le, over-nonneg, times-nonneg, minimum-cases}

  minimum-bounds :
      (a b : Carrier)
      → num_le (of_nat 0) a ≡ true
      → num_le (of_nat 0) b ≡ true
      → num_le b b ≡ true
      → (num_le (of_nat 0) (minimum a b) ≡ true) × (num_le (minimum a b) b ≡ true)
  minimum-bounds a b h k r = elim (minimum-cases a b h k) [
    | inl (e, l) ↦ rw e (h, l)
    | inr (e, l) ↦ rw e (k, r)
  ]

  -- With numbers that keep RatioLaws: a client's bar is never narrower than 0 % and never wider
  -- than 100 %, if the traffic is a finite number that is not negative, whatever the limit is.
  pub pct-bounds :
      (c : Client num)
      → IsFinite c.data_usage
      → num_le (of_nat 0) c.data_usage ≡ true
      → (num_le (of_nat 0) (pct c) ≡ true) × (num_le (pct c) (of_nat 100) ≡ true)
  unfolding pct
  pct-bounds c finite h = elim (Bool-cases (num_lt (of_nat 0) c.data_limit)) [
    | inl l ↦ rw l (
        minimum-bounds (times (over c.data_usage c.data_limit) (of_nat 100)) (of_nat 100)
          (times-nonneg (over c.data_usage c.data_limit) 100 (omega arith)
            (over-nonneg c.data_usage c.data_limit finite h l))
          (of_nat-le 0 100 (omega arith)) (of_nat-le 100 100 (omega arith)))
    | inr l ↦ rw l (of_nat-le 0 0 (omega arith), of_nat-le 0 100 (omega arith))
  ]
