-- ===== src/Mobile/SplitTunneling/Laws.antt =====
-- The switches and the search of SplitTunnelingScreen.tsx.
use mathlib.Core.List.{append-nil}
use mathlib.Core.Option
use wow_vpn.Common.{
  ◌≡◌, refl, String, Bool, not, Option, none, some, List, [], ◌∷◌, map, ◌==◌, if◌then◌else◌, arith,
  eq_iff,
}
use wow_vpn.View.{clicks, clicks_all, nodes}
use wow_vpn.Mobile.SplitTunneling.{App, State, flip, toggle_app, filtered_apps}
use wow_vpn.Mobile.SplitTunneling.Screen.{navigate, toggle, app_row, split_tunneling_view}

map-flip-flip : (id : String) (xs : List App) → map (flip id) (map (flip id) xs) ≡ xs
unfolding flip
map-flip-flip id [] = refl
map-flip-flip id (a ∷ xs) = ground (arith, map-flip-flip id xs)

-- Flipping a switch twice changes nothing.
pub toggle_app_twice : (id : String) (s : State) → toggle_app id (toggle_app id s) ≡ s
unfolding toggle_app
toggle_app_twice id s = rw (map-flip-flip id s.apps)

-- Whether an application bypasses the VPN; `none` if it is not in the list.
pub bypasses : String → List App → Option Bool
bypasses id [] = none
bypasses id (a ∷ xs) = let rest = bypasses id xs in if a.id == id then some a.enabled else rest

bypasses-flip :
    (id other : String) (xs : List App)
    → bypasses other (map (flip id) xs)
      ≡ (if id == other then Option.map not (bypasses other xs) else bypasses other xs)
unfolding bypasses flip
bypasses-flip id other [] = ground arith
bypasses-flip id other (a ∷ xs) =
    ground (arith, bypasses-flip id other xs, eq_iff a.id id, eq_iff a.id other, eq_iff id other)

-- A switch turns the setting of its own application over, and leaves every other as it is.
pub bypasses-toggle_app :
    (id other : String) (s : State)
    → bypasses other (toggle_app id s).apps
      ≡ (if id == other then Option.map not (bypasses other s.apps) else bypasses other s.apps)
unfolding toggle_app
bypasses-toggle_app id other s = bypasses-flip id other s.apps

module _ (to_lower : String → String) where
  clicks_all-app_row :
      (rows : List App) → clicks_all (nodes (map app_row rows)) ≡ map (λ a. toggle a.id) rows
  unfolding app_row
  clicks_all-app_row [] = refl
  clicks_all-app_row (a ∷ rows) = rw (clicks_all-app_row rows)

  -- The clicks that the screen offers: back, and one switch for each application that the search
  -- finds.
  pub clicks-split_tunneling_view :
      (s : State)
      → clicks (split_tunneling_view to_lower s)
        ≡ navigate "/settings" ∷ map (λ a. toggle a.id) (filtered_apps to_lower s)
  unfolding split_tunneling_view
  clicks-split_tunneling_view s = rw (clicks_all-app_row (filtered_apps to_lower s)) (rw append-nil)
