-- ===== src/Mobile/ServerList/Laws.antt =====
-- The search, the rows and the choice of a server of ServerListScreen.tsx.
use mathlib.Core.List.{append-nil}
use wow_vpn.Common.{
  ◌≡◌, refl, ◌⊎◌, inl, inr, ◌↔◌, String, true, List, [], ◌∷◌, map, Memᴰ, includes_text,
}
use wow_vpn.Common.Search.{
  Contains, includes_text-Contains, includes_text_of_Contains, mem_of_mem-filter, mem-filter,
  or_cases, or_true, or_true_left,
}
use wow_vpn.View.{clicks, clicks_all, nodes}
use wow_vpn.Mobile.ServerList.{Server, servers, State, matches, filtered_servers}
use wow_vpn.Mobile.ServerList.Screen.{navigate, select, quick_id, server_row, server_list_view}

abbrev pub Matches : (String → String) → String → Server → Type 0
Matches to_lower query sv =
    Contains (to_lower sv.country) (to_lower query) ⊎ Contains (to_lower sv.city) (to_lower query)

module _ (to_lower : String → String) where
  matches_iff :
      (query : String) (sv : Server)
      → (matches to_lower query sv ≡ true) ↔ Matches to_lower query sv
  unfolding matches
  matches_iff query sv = (
    λ h. elim (or_cases (includes_text (to_lower sv.country) (to_lower query)) _ h) [
      | inl p ↦ inl (includes_text-Contains _ _ p)
      | inr q ↦ inr (includes_text-Contains _ _ q)
    ],
    elim [
      | inl p ↦ or_true_left _ _ (includes_text_of_Contains _ _ p)
      | inr q ↦
          or_true (includes_text (to_lower sv.country) (to_lower query)) _
            (includes_text_of_Contains _ _ q)
    ],
  )

  -- The search shows exactly the servers of the table whose country or city holds the query, the
  -- letter case aside.
  pub mem-filtered_servers :
      (s : State) (sv : Server)
      → Memᴰ sv (filtered_servers to_lower s)
        ↔ (Memᴰ sv servers × Matches to_lower s.search_query sv)
  unfolding filtered_servers
  mem-filtered_servers s sv = (
    λ m.
        let (listed, h) = mem_of_mem-filter (matches to_lower s.search_query) servers m in
        (listed, (matches_iff s.search_query sv).0 h),
    λ h.
        mem-filter (matches to_lower s.search_query) servers h.0
          ((matches_iff s.search_query sv).1 h.1),
  )

  clicks_all-server_row :
      (selected : String) (rows : List Server)
      → clicks_all (nodes (map (server_row selected) rows)) ≡ map (λ sv. select sv.id) rows
  unfolding server_row
  clicks_all-server_row selected [] = refl
  clicks_all-server_row selected (sv ∷ rows) = rw (clicks_all-server_row selected rows)

  -- The clicks that the screen offers: back, quick connect, and one choice for each server whose
  -- country or city holds the query, in the order of the table.
  pub clicks-server_list_view :
      (s : State)
      → clicks (server_list_view to_lower s)
        ≡ navigate "/home"
          ∷ select quick_id
          ∷ map (λ sv. select sv.id) (filtered_servers to_lower s)
  unfolding server_list_view
  clicks-server_list_view s = simp (clicks_all-server_row, append-nil)
