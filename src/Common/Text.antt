-- ===== src/Common/Text.antt =====
-- Texts as the program's JavaScript handles them: `||` and `??` on texts, `trim`, `startsWith`,
-- `includes`, `join` of template literals, decimal numerals and `padStart(2, "0")`.
use Prim.Native.Nat.{ℕ, zero, suc, ◌+◌, ◌/◌, ◌%◌}
use Prim.Native.Char.{code}
use Prim.Native.String
use Prim.Native.String.{String}
use mathlib.Core.Bool.{Bool, true, ◌&&◌, ◌||◌}
use mathlib.Core.List.{List, [], ◌∷◌}
use text.Mathlib.Text.{starts_with}
use wow_vpn.Common.Tests.{ltb, leb, nat_eq, ◌==◌, if◌then◌else◌}

-- A template literal: its parts one after another.
abbrev pub template : List String → String
template [] = ""
template (s ∷ ss) = String.◌++◌ s (template ss)

-- `s || d`: the empty text is falsy.
abbrev pub or_else : String → String → String
or_else s d = if s == "" then d else s

-- The code points that `trim` removes (WhiteSpace and LineTerminator of ECMAScript).
unfoldable pub is_space : ℕ → Bool
is_space c =
    (leb 9 c && leb c 13)
    || nat_eq c 32
    || nat_eq c 0xa0
    || nat_eq c 0x1680
    || (leb 0x2000 c && leb c 0x200a)
    || nat_eq c 0x2028
    || nat_eq c 0x2029
    || nat_eq c 0x202f
    || nat_eq c 0x205f
    || nat_eq c 0x3000
    || nat_eq c 0xfeff

unfoldable pub trim_start : String → String
unfolding is_space
trim_start String.[] = ""
trim_start (String.◌∷◌ c s) = elim (is_space (code c)) [ true ↦ trim_start s | _ ↦ String.◌∷◌ c s ]

reverse_onto : String → String → String
reverse_onto acc String.[] = acc
reverse_onto acc (String.◌∷◌ c s) = reverse_onto (String.◌∷◌ c acc) s

unfoldable pub trim : String → String
unfolding trim_start reverse_onto
trim s = reverse_onto "" (trim_start (reverse_onto "" (trim_start s)))

-- `s.includes(t)`: some suffix of `s` starts with `t`.
unfoldable pub includes_text : String → String → Bool
includes_text String.[] t = t == ""
includes_text (String.◌∷◌ c s) t = starts_with (String.◌∷◌ c s) t || includes_text s t

abbrev digit : ℕ → String
digit zero = "0"
digit (suc zero) = "1"
digit (suc (suc zero)) = "2"
digit (suc (suc (suc zero))) = "3"
digit (suc (suc (suc (suc zero)))) = "4"
digit (suc (suc (suc (suc (suc zero))))) = "5"
digit (suc (suc (suc (suc (suc (suc zero)))))) = "6"
digit (suc (suc (suc (suc (suc (suc (suc zero))))))) = "7"
digit (suc (suc (suc (suc (suc (suc (suc (suc zero)))))))) = "8"
digit _ = "9"

decimal_from : ℕ → ℕ → String
decimal_from zero n = ""
decimal_from (suc fuel) n =
    let more = String.◌++◌ (decimal_from fuel (n / 10)) (digit (n % 10)) in
    if ltb n 10 then digit n else more

-- `String(n)` of a whole number; n + 1 rounds are enough, since n / 10 falls below n.
unfoldable pub decimal : ℕ → String
unfolding decimal_from
decimal n = decimal_from (n + 1) n

-- `String(n).padStart(2, "0")`.
unfoldable pub pad_two : ℕ → String
unfolding decimal
pad_two n = if ltb n 10 then String.◌++◌ "0" (decimal n) else decimal n
