-- ===== src/Mobile/App/Sessions.antt =====
-- The key across the screens of the prototype: who changes it, what a restart finds, and what a
-- timer does that outlives its screen.
use mathlib.Core.Bool.{false≢true}
use wow_vpn.Common.{
  String, true, false, ◌≡◌, refl, inl, inr, Option, none, some, List, [], ◌∷◌, ◌++◌, ◌==◌, eq_iff,
  zero, suc, ℕ, starts_with, Bool-cases, if◌then◌else◌, sym, ◌∙◌,
}
use wow_vpn.Common.Number.{Number}
use wow_vpn.Mobile.Home
use wow_vpn.Mobile.Onboarding
use wow_vpn.Mobile.Onboarding.Laws.{IsKey, handle_activate-cases}
use wow_vpn.Mobile.ServerList
use wow_vpn.Mobile.Settings
use wow_vpn.Mobile.SplitTunneling
use wow_vpn.Mobile.App.{
  State, Screen, Event, Later, mount, navigate, navigate_replace, launch, splash_timer, step, run,
  show, has_key, fire_later, go_back, after_onboarding, on_screen, on_onboarding, on_settings,
  on_server_list, on_split_tunneling, on_home,
}
use wow_vpn.Mobile.App.Laws.{run-Inv, IsStored}
use wow_vpn.Mobile.App.Navigation.{show-IsLed, navigate-key, navigate_replace-key}

starts_with-nil : starts_with "" "shade://" ≡ false
starts_with-nil = refl

has_key_of_IsKey : (k : String) → IsKey k → has_key (some k) ≡ true
has_key_of_IsKey k h = elim (Bool-cases (k == "")) [
  | inl e ↦ absurd (nonempty ((eq_iff k "").0 e) h.1)
  | inr e ↦ rw e
]
  where
    nonempty : k ≡ "" → starts_with k "shade://" ≡ true → ⊥
    nonempty e p = false≢true (sym starts_with-nil ∙ (rw e at p))

-- What a start of the app shows once the splash timer has fired.
abbrev pub Opens : Option String → State → Type 0
Opens none s = s.screen ≡ Screen.onboarding Onboarding.initial
Opens (some _) s = s.screen ≡ Screen.home Home.initial

-- How one step treats the key.
pub data KeyStep {num : Number} (e : Event num) (s t : State) : Type 0 where
  kept : t.key ≡ s.key → KeyStep e s t
  activated :
      (o : Onboarding.State)
      → s.screen ≡ Screen.onboarding o
      → e ≡ Event.on_onboarding_msg Onboarding.Screen.activate
      → IsKey o.key_input
      → t.key ≡ some o.key_input
      → KeyStep e s t
  removed :
      (o : Settings.State)
      → s.screen ≡ Screen.settings o
      → e ≡ Event.on_settings_msg Settings.Screen.change_key
      → t.key ≡ none
      → KeyStep e s t

fire_later-key :
    (before ls : List Later) (n : ℕ) (s : State) → (fire_later before ls n s).key ≡ s.key
unfolding fire_later
fire_later-key before [] n s = refl
fire_later-key before (l ∷ ls) zero s =
    elim l.replace
      as (λ b.
        (if b
          then navigate_replace l.path (record s { laters = before ++ ls })
          else navigate l.path (record s { laters = before ++ ls })).key
        ≡ s.key) [
          | true ↦ navigate_replace-key l.path (record s { laters = before ++ ls })
          | false ↦ navigate-key l.path (record s { laters = before ++ ls })
        ]
fire_later-key before (l ∷ ls) (suc n) s = fire_later-key (before ++ l ∷ []) ls n s

go_back-key : (h : List String) (s : State) → (go_back h s).key ≡ s.key
unfolding go_back
go_back-key [] s = refl
go_back-key (p ∷ []) s = refl
go_back-key (p ∷ q ∷ below) s = (show-IsLed q below s).same_key

launch-Opens :
    (key : Option String)
    → IsStored key
    → Opens key (splash_timer (launch key)) × ((splash_timer (launch key)).key ≡ key)
unfolding splash_timer show mount
launch-Opens none h = (refl, refl)
launch-Opens (some k) h = rw (has_key_of_IsKey k h) (refl, refl)

-- The onboarding screen in use, with no timer pending.
abbrev pub entering : Onboarding.State → Option String → List String → State
entering o key below = record {
  history = "/onboarding" ∷ below;
  screen = Screen.onboarding o;
  key = key;
  laters = [];
}

module _ (num : Number) where
  -- After any use of the app, a restart opens the home screen if a key is stored and the
  -- onboarding screen if none is, and keeps the key.
  pub restart-Opens :
      (es : List (Event num))
      → let s = run num es (launch none) in
        let t = step num Event.splash_elapsed (step num Event.restart s) in
        Opens s.key t × (t.key ≡ s.key)
  unfolding step
  restart-Opens es = launch-Opens _ (run-Inv num es).stored

  on_onboarding-KeyStep :
      (m : Onboarding.Screen.Msg) (o : Onboarding.State) (s : State)
      → s.screen ≡ Screen.onboarding o
      → KeyStep {num = num} (Event.on_onboarding_msg m) s (on_onboarding m o s)
  unfolding on_onboarding after_onboarding
  on_onboarding-KeyStep Onboarding.Screen.activate o s e = elim (handle_activate-cases o) [
    | inl (_, done) ↦ rw done (KeyStep.kept refl)
    | inr (inl (_, _, done)) ↦ rw done (KeyStep.kept refl)
    | inr (inr (valid, done)) ↦ rw done (KeyStep.activated o e refl valid refl)
  ]
  on_onboarding-KeyStep m o s e = KeyStep.kept refl

  on_settings-KeyStep :
      (m : Settings.Screen.Msg) (t : Settings.State) (s : State)
      → s.screen ≡ Screen.settings t
      → KeyStep {num = num} (Event.on_settings_msg m) s (on_settings m t s)
  unfolding on_settings
  on_settings-KeyStep (Settings.Screen.navigate path) t s e = KeyStep.kept (navigate-key path s)
  on_settings-KeyStep Settings.Screen.change_key t s e =
      KeyStep.removed t e refl (navigate_replace-key "/onboarding" (record s { key = none }))
  on_settings-KeyStep m t s e = KeyStep.kept refl

  on_server_list-key :
      (m : ServerList.Screen.Msg) (l : ServerList.State) (s : State)
      → (on_server_list m l s).key ≡ s.key
  unfolding on_server_list
  on_server_list-key (ServerList.Screen.navigate path) l s = navigate-key path s
  on_server_list-key m l s = refl

  on_split_tunneling-key :
      (m : SplitTunneling.Screen.Msg) (t : SplitTunneling.State) (s : State)
      → (on_split_tunneling m t s).key ≡ s.key
  unfolding on_split_tunneling
  on_split_tunneling-key (SplitTunneling.Screen.navigate path) t s = navigate-key path s
  on_split_tunneling-key m t s = refl

  on_home-key : (m : Home.Screen.Msg) (h : Home.State) (s : State) → (on_home m h s).key ≡ s.key
  unfolding on_home
  on_home-key Home.Screen.connect h s = refl
  on_home-key (Home.Screen.navigate path) h s = navigate-key path s

  paste-key :
      (answer : Option String) (o : Onboarding.State) (s : State)
      → (after_onboarding (Onboarding.handle_paste answer o) s).key ≡ s.key
  unfolding after_onboarding Onboarding.handle_paste
  paste-key none o s = refl
  paste-key (some clip) o s = refl

  on_screen-KeyStep :
      (sc : Screen) (e : Event num) (s : State) → s.screen ≡ sc → KeyStep e s (on_screen num sc e s)
  unfolding on_screen
  on_screen-KeyStep sc (Event.later_elapsed n) s e = KeyStep.kept (fire_later-key [] s.laters n s)
  on_screen-KeyStep sc Event.back s e = KeyStep.kept (go_back-key s.history s)
  on_screen-KeyStep Screen.splash Event.splash_elapsed s e = KeyStep.kept (navigate_replace-key _ s)
  on_screen-KeyStep (Screen.home h) (Event.on_home_click m) s e = KeyStep.kept (on_home-key m h s)
  on_screen-KeyStep (Screen.home h) Event.connect_elapsed s e = KeyStep.kept refl
  on_screen-KeyStep (Screen.home h) (Event.second down up) s e = KeyStep.kept refl
  on_screen-KeyStep (Screen.onboarding o) (Event.on_onboarding_msg m) s e =
      on_onboarding-KeyStep m o s e
  on_screen-KeyStep (Screen.onboarding o) (Event.clipboard answer) s e =
      KeyStep.kept (paste-key answer o s)
  on_screen-KeyStep (Screen.server_list l) (Event.on_server_list_msg m) s e =
      KeyStep.kept (on_server_list-key m l s)
  on_screen-KeyStep (Screen.settings t) (Event.on_settings_msg m) s e = on_settings-KeyStep m t s e
  on_screen-KeyStep (Screen.split_tunneling t) (Event.on_split_tunneling_msg m) s e =
      KeyStep.kept (on_split_tunneling-key m t s)
  on_screen-KeyStep _ _ s e = KeyStep.kept refl

  -- A step keeps the stored key, with two exceptions: activation on the onboarding screen, which
  -- stores the typed key and does so only if the form takes it, and the change of the key on the
  -- settings screen, which removes it.
  pub step-KeyStep : (e : Event num) (s : State) → KeyStep e s (step num e s)
  unfolding step
  step-KeyStep e s = on_screen-KeyStep s.screen e s refl

  -- A key that the form takes is stored by the click, and when the timer of the click fires, with
  -- no other pending, the home screen has taken the place of the onboarding screen in the history.
  pub activate-opens_home :
      (o : Onboarding.State) (key : Option String) (below : List String)
      → IsKey o.key_input
      → let t =
          step num (Event.on_onboarding_msg Onboarding.Screen.activate) (entering o key below) in
        let u = step num (Event.later_elapsed 0) t in
        (t.key ≡ some o.key_input)
        × (u.key ≡ some o.key_input)
        × (u.screen ≡ Screen.home Home.initial)
        × (u.history ≡ "/home" ∷ below)
  unfolding step mount
  activate-opens_home o key below valid = elim (handle_activate-cases o) [
    | inl (empty, _) ↦ absurd (valid.0 empty)
    | inr (inl (_, foreign, _)) ↦ absurd (false≢true (sym foreign ∙ valid.1))
    | inr (inr (_, done)) ↦ rw done (refl, refl, refl, refl)
  ]
