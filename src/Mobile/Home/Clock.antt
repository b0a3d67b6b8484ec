-- ===== src/Mobile/Home/Clock.antt =====
-- The session clock of HomeScreen.tsx: what its three fields show.
use Prim.Native.Char.{code}
use Prim.Native.String
use text.Mathlib.TextLemmas.{nil-append, cons-append}
use mathlib.Core.List.{append-nil}
use wow_vpn.Common.{
  ℕ, zero, suc, ◌+◌, ◌-◌, ◌*◌, ◌/◌, ◌%◌, ◌<◌, ◌≡◌, refl, String, Bool, true, false, ◌&&◌, List, [],
  ◌∷◌, ◌++◌, nat_eq, pad_two, arith,
}
use wow_vpn.Mobile.Home.{duration_text}

abbrev pub codes : String → List ℕ
codes String.[] = []
codes (String.◌∷◌ c s) = code c ∷ codes s

codes-append : (s t : String) → codes (String.◌++◌ s t) ≡ codes s ++ codes t
codes-append String.[] t = rw nil-append
codes-append (String.◌∷◌ c s) t = rw cons-append (rw (codes-append s t))

-- A test of the numbers from 0 up to a bound, which evaluates.
module _ (test : ℕ → Bool) where
  passes_under : ℕ → Bool
  passes_under zero = true
  passes_under (suc bound) = passes_under bound && test bound

  test_of_passes_under : {k : ℕ} (bound : ℕ) → k < bound → passes_under bound ≡ true → test k ≡ true
  unfolding passes_under
  test_of_passes_under zero under passed = absurd (omega (arith, under))
  test_of_passes_under {k} (suc bound) under passed =
      ground (arith, test_of_passes_under {k = k} bound)

abbrev tens_and_units : ℕ → List ℕ
tens_and_units n = (48 + n / 10) ∷ (48 + n % 10) ∷ []

abbrev same_codes : List ℕ → List ℕ → Bool
same_codes (a ∷ b ∷ []) (c ∷ d ∷ []) = nat_eq a c && nat_eq b d
same_codes _ _ = false

pad_two_table : passes_under (λ n. same_codes (codes (pad_two n)) (tens_and_units n)) 100 ≡ true
unfolding passes_under pad_two
pad_two_table = refl

eq_of_same_codes : (xs : List ℕ) (a b : ℕ) → same_codes xs (a ∷ b ∷ []) ≡ true → xs ≡ a ∷ b ∷ []
eq_of_same_codes [] a b h = cc
eq_of_same_codes (x ∷ []) a b h = cc
eq_of_same_codes (x ∷ y ∷ []) a b h = ground arith
eq_of_same_codes (x ∷ y ∷ z ∷ xs) a b h = cc

codes-pad_two : (n : ℕ) → n < 100 → codes (pad_two n) ≡ tens_and_units n
codes-pad_two n h =
    eq_of_same_codes (codes (pad_two n)) _ _ (test_of_passes_under _ 100 h pad_two_table)

-- Reading "HH:MM:SS" back as seconds.
abbrev two_digits : ℕ → ℕ → ℕ
two_digits a b = 10 * (a - 48) + (b - 48)

abbrev pub read_clock : List ℕ → ℕ
read_clock (a ∷ b ∷ _ ∷ c ∷ d ∷ _ ∷ e ∷ f ∷ []) =
    3600 * two_digits a b + 60 * two_digits c d + two_digits e f
read_clock _ = 0

codes-duration_text :
    (n : ℕ)
    → codes (duration_text n)
      ≡ codes (pad_two (n / 3600))
        ++ b':' ∷ (codes (pad_two ((n % 3600) / 60)) ++ b':' ∷ codes (pad_two (n % 60)))
unfolding duration_text
codes-duration_text n = simp (codes-append, append-nil)

-- Below 100 hours, the clock's text reads back as the seconds that it was made from.
pub read_clock-duration_text : (n : ℕ) → n < 360000 → read_clock (codes (duration_text n)) ≡ n
read_clock-duration_text n h =
    rw
      (
        codes-duration_text n,
        codes-pad_two (n / 3600) (omega arith),
        codes-pad_two ((n % 3600) / 60) (omega arith),
        codes-pad_two (n % 60) (omega arith),
      )
      (omega arith)
