-- ===== src/Admin/Users/Format.antt =====
-- formatBytes and the limits of pages/Users.tsx.
use wow_vpn.Common.{String, [], ◌∷◌, if◌then◌else◌, template}
use wow_vpn.Common.Number.{Number}

module _ (num : Number) where
  open num use {Carrier, of_nat, num_le, num_lt, over, times, to_fixed, to_text}

  -- formatBytes.
  unfoldable pub format_bytes : Carrier → String
  format_bytes gb =
      if num_le (of_nat 1024) gb
      then template (to_fixed 1 (over gb (of_nat 1024)) ∷ " TB" ∷ [])
      else if num_le (of_nat 1) gb
      then template (to_fixed 2 gb ∷ " GB" ∷ [])
      else if num_lt (of_nat 0) gb
      then template (to_fixed 1 (times gb (of_nat 1024)) ∷ " MB" ∷ [])
      else "0 MB"

  -- A limit of 999 and more stands for no limit.
  unfoldable pub limit_text : Carrier → String → String
  limit_text limit unit =
      if num_le (of_nat 999) limit then "Безлимит" else template (to_text limit ∷ unit ∷ [])
