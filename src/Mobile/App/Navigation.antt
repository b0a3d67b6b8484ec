-- ===== src/Mobile/App/Navigation.antt =====
-- What the router of App.tsx does to the history at a navigation.
use wow_vpn.Common.{
  String, ◌≡◌, refl, inl, inr, Option, none, some, List, [], ◌∷◌, ◌==◌, arith, eq_iff, Bool-cases,
}
use wow_vpn.Mobile.App.{
  State, Screen, mount, path_of, navigate, navigate_replace, rest_of, show, open_route,
}

-- The open history entry is the path of the screen that is shown.
abbrev pub IsAt : String → List String → Type 0
IsAt path [] = ⊥
IsAt path (p ∷ _) = p ≡ path

path_of-mount : (p : String) (sc : Screen) → mount p ≡ some sc → p ≡ path_of sc
unfolding mount
path_of-mount p sc e = ground (
  arith,
  eq_iff p "/",
  eq_iff p "/onboarding",
  eq_iff p "/home",
  eq_iff p "/servers",
  eq_iff p "/settings",
  eq_iff p "/split-tunneling",
)

-- What a navigation keeps: it leads to a screen at its path, and changes neither the key nor the
-- pending timers.
pub record IsLed (s t : State) : Type 0 where
  pub at_path : IsAt (path_of t.screen) t.history
  pub same_key : t.key ≡ s.key
  pub same_laters : t.laters ≡ s.laters

open_route-IsLed :
    (p : String) (below : List String) (m : Option Screen) (s : State)
    → ((sc : Screen) → m ≡ some sc → p ≡ path_of sc)
    → IsLed s (open_route below m (record s { history = p ∷ below }))
unfolding open_route
open_route-IsLed p below none s h = record { at_path = refl; same_key = refl; same_laters = refl }
open_route-IsLed p below (some sc) s h = record {
  at_path = h sc refl;
  same_key = refl;
  same_laters = refl;
}

pub show-IsLed : (p : String) (below : List String) (s : State) → IsLed s (show p below s)
unfolding show
show-IsLed p below s = elim (Bool-cases (p == path_of s.screen)) [
  | inl same ↦
      rw same (record { at_path = (eq_iff _ _).0 same; same_key = refl; same_laters = refl })
  | inr other ↦ rw other (open_route-IsLed p below (mount p) s (path_of-mount p))
]

pub navigate-key : (p : String) (s : State) → (navigate p s).key ≡ s.key
unfolding navigate
navigate-key p s = (show-IsLed p s.history s).same_key

pub navigate_replace-key : (p : String) (s : State) → (navigate_replace p s).key ≡ s.key
unfolding navigate_replace
navigate_replace-key p s = (show-IsLed p (rest_of s.history) s).same_key
