-- ===== src/Common/Number.antt =====
-- JavaScript's numbers: IEEE doubles, which the library does not have. A development that only
-- passes them on takes them and their operations as this record.
use wow_vpn.Common.{ℕ, Bool, String}

pub record Number : Type 1 where
  pub Carrier : Type 0
  -- A whole number as it is written in the source, `a <= b`, `a < b`.
  pub of_nat : ℕ → Carrier
  pub num_le : Carrier → Carrier → Bool
  pub num_lt : Carrier → Carrier → Bool
  pub plus : Carrier → Carrier → Carrier
  pub times : Carrier → Carrier → Carrier
  pub over : Carrier → Carrier → Carrier
  -- `Math.min`, `Math.floor`, `x.toFixed(digits)`, `String(x)`.
  pub minimum : Carrier → Carrier → Carrier
  pub floor : Carrier → Carrier
  pub to_fixed : ℕ → Carrier → String
  pub to_text : Carrier → String
  -- `parseFloat`, `parseInt`.
  pub parse_float : String → Carrier
  pub parse_int : String → Carrier
  -- Whether a number is falsy: 0 or NaN.
  pub is_falsy : Carrier → Bool
