-- ===== src/Common/Whole.antt =====
-- Whole numbers in the place of JavaScript's, for the tests: a division rounds down, a text is read
-- as 0, and a number is written without its fraction.
use Prim.Native.Nat.{◌/◌}
use wow_vpn.Common.{ℕ, ◌+◌, ◌*◌, leb, ltb, nat_eq, decimal, if◌then◌else◌}
use wow_vpn.Common.Number.{Number}

abbrev pub whole : Number
whole = record {
  Carrier = ℕ;
  of_nat = λ n. n;
  num_le = leb;
  num_lt = ltb;
  plus = λ a b. a + b;
  times = λ a b. a * b;
  over = λ a b. if nat_eq b 0 then 0 else a / b;
  minimum = λ a b. if leb a b then a else b;
  floor = λ a. a;
  to_fixed = λ digits a. decimal a;
  to_text = λ a. decimal a;
  parse_float = λ text. 0;
  parse_int = λ text. 0;
  is_falsy = λ a. nat_eq a 0;
}
