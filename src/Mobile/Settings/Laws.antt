-- ===== src/Mobile/Settings/Laws.antt =====
-- What the buttons of SettingsScreen.tsx do.
use wow_vpn.Common.{
  String, ◌≡◌, refl, ◌≢◌, ◌⊎◌, inl, inr, Option, some, List, [], ◌∷◌, arith, none, ap, eq_iff,
}
use wow_vpn.View.{clicks}
use wow_vpn.Mobile.Settings.{
  State, Theme, light, dark, system, next_language, toggle_kill_switch, toggle_net_shield,
  set_theme, initial,
}
use wow_vpn.Mobile.Settings.Screen.{
  Msg, navigate, kill_switch, net_shield, language, theme, change_key, invite, feedback,
  settings_view,
}

abbrev pub IsKnown : Option String → Type 0
IsKnown lang = (lang ≡ some "Русский") ⊎ (lang ≡ some "English") ⊎ (lang ≡ some "Deutsch")

-- The screen's own changes of its state.
pub data Reach : State → Type 0 where
  start : Reach initial
  kill : {s : State} → Reach s → Reach (toggle_kill_switch s)
  net : {s : State} → Reach s → Reach (toggle_net_shield s)
  lang : {s : State} → Reach s → Reach (next_language s)
  look : {s : State} (t : Theme) → Reach s → Reach (set_theme t s)

next_language-IsKnown : (s : State) → IsKnown s.language → IsKnown (next_language s).language
unfolding next_language
next_language-IsKnown s (inl h) = rw h (inr (inl refl))
next_language-IsKnown s (inr (inl h)) = rw h (inr (inr refl))
next_language-IsKnown s (inr (inr h)) = rw h (inl refl)

-- However the screen is used, its language is one of the three, never `undefined`.
pub Reach-IsKnown : {s : State} → Reach s → IsKnown s.language
unfolding toggle_kill_switch toggle_net_shield set_theme
Reach-IsKnown start = inl refl
Reach-IsKnown (kill r) = Reach-IsKnown r
Reach-IsKnown (net r) = Reach-IsKnown r
Reach-IsKnown (lang {s} r) = next_language-IsKnown s (Reach-IsKnown r)
Reach-IsKnown (look t r) = Reach-IsKnown r

cycle_known : (s : State) → IsKnown s.language → next_language (next_language (next_language s)) ≡ s
unfolding next_language
cycle_known s (inl h) = rw h
cycle_known s (inr (inl h)) = rw h
cycle_known s (inr (inr h)) = rw h

moves : (s : State) → IsKnown s.language → (next_language s).language ≢ s.language
unfolding next_language
moves s (inl h) = rw h (ground (arith, eq_iff "English" "Русский"))
moves s (inr (inl h)) = rw h (ground (arith, eq_iff "Deutsch" "English"))
moves s (inr (inr h)) = rw h (ground (arith, eq_iff "Русский" "Deutsch"))

moves_twice :
    (s : State) → IsKnown s.language → (next_language (next_language s)).language ≢ s.language
unfolding next_language
moves_twice s (inl h) = rw h (ground (arith, eq_iff "Deutsch" "Русский"))
moves_twice s (inr (inl h)) = rw h (ground (arith, eq_iff "Русский" "English"))
moves_twice s (inr (inr h)) = rw h (ground (arith, eq_iff "English" "Deutsch"))

-- From any reachable state, three clicks on the language bring the state back, and no one or two
-- clicks do.
pub next_language-cycles :
    (s : State)
    → Reach s
    → (next_language (next_language (next_language s)) ≡ s)
      × (next_language s ≢ s)
      × (next_language (next_language s) ≢ s)
next_language-cycles s r = (
  cycle_known s (Reach-IsKnown r),
  λ e. moves s (Reach-IsKnown r) (ap (λ t. t.language) e),
  λ e. moves_twice s (Reach-IsKnown r) (ap (λ t. t.language) e),
)

-- The clicks that the screen offers, whatever its state.
abbrev pub offer : List Msg
offer =
    navigate "/home"
    ∷ kill_switch
    ∷ net_shield
    ∷ navigate "/split-tunneling"
    ∷ language
    ∷ theme light
    ∷ theme dark
    ∷ theme system
    ∷ change_key
    ∷ invite
    ∷ feedback
    ∷ []

clicks-settings_view_of :
    (l : Option String) (s : State) → s.language ≡ l → clicks (settings_view s) ≡ offer
unfolding settings_view
clicks-settings_view_of none s e = rw e
clicks-settings_view_of (some l) s e = rw e

-- In every state the screen offers the same eleven clicks.
pub clicks-settings_view : (s : State) → clicks (settings_view s) ≡ offer
clicks-settings_view s = clicks-settings_view_of s.language s refl
