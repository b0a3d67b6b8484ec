-- ===== src/Admin/HwidInspector/Laws.antt =====
-- The counts of pages/HWIDInspector.tsx against the labels of its rows.
use wow_vpn.Common.{
  ◌+◌, ◌≡◌, ◌==◌, List, [], ◌∷◌, length, filter, arith, length-filter, Bool-cases, inl, inr,
}
use wow_vpn.Admin.HwidInspector.{Client, is_active, total, safe, suspicious, row_label}

filter-split :
    (clients : List Client)
    → length clients
      ≡ length (filter is_active clients)
        + length (filter (λ c. row_label c == "ЗАБЛОКИРОВАН") clients)
unfolding row_label
filter-split [] = omega arith
filter-split (c ∷ cs) = elim (Bool-cases (is_active c)) [
  | inl e ↦ rw e (omega (arith, filter-split cs))
  | inr e ↦ rw e (omega (arith, filter-split cs))
]

-- The third card, a difference, counts the rows that are labelled as blocked; with the second card's
-- it makes up the first.
pub suspicious-row_label :
    (clients : List Client)
    → (suspicious clients ≡ length (filter (λ c. row_label c == "ЗАБЛОКИРОВАН") clients))
      × (safe clients + suspicious clients ≡ total clients)
unfolding suspicious safe
suspicious-row_label clients =
    (omega (arith, filter-split clients), omega (arith, length-filter is_active clients))
