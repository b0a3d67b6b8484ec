-- ===== src/Mobile/App/Laws.antt =====
-- What holds of the prototype after any events.
use wow_vpn.Common.{
  String, true, false, ◌≡◌, refl, inl, inr, Option, none, some, List, [], ◌∷◌, ◌++◌, ℕ, zero, suc,
  ap, sym, ◌∙◌, if◌then◌else◌,
}
use mathlib.Core.Path.{subst}
use wow_vpn.Common.Number.{Number}
use wow_vpn.Mobile.Home
use wow_vpn.Mobile.Onboarding
use wow_vpn.Mobile.Onboarding.Laws.{IsKey, handle_activate-cases}
use wow_vpn.Mobile.ServerList
use wow_vpn.Mobile.Settings
use wow_vpn.Mobile.SplitTunneling
use wow_vpn.Mobile.App.{
  State, Screen, Event, Later, path_of, navigate, navigate_replace, launch, step, run, rest_of,
  show, fire_later, go_back, after_onboarding, on_screen, on_onboarding, on_settings,
  on_server_list, on_split_tunneling, on_home,
}
use wow_vpn.Mobile.App.Navigation.{IsAt, IsLed, show-IsLed}

abbrev pub IsStored : Option String → Type 0
IsStored none = Unit
IsStored (some key) = IsKey key

pub record Inv (s : State) : Type 0 where
  pub at_path : IsAt (path_of s.screen) s.history
  pub stored : IsStored s.key

IsLed-Inv : {s t : State} → IsLed s t → IsStored s.key → Inv t
IsLed-Inv led stored = record { at_path = led.at_path; stored = rw led.same_key stored }

show-Inv : (p : String) (below : List String) (s : State) → IsStored s.key → Inv (show p below s)
show-Inv p below s stored = IsLed-Inv (show-IsLed p below s) stored

navigate-Inv : (p : String) (s : State) → IsStored s.key → Inv (navigate p s)
unfolding navigate
navigate-Inv p s = show-Inv p s.history s

navigate_replace-Inv : (p : String) (s : State) → IsStored s.key → Inv (navigate_replace p s)
unfolding navigate_replace
navigate_replace-Inv p s = show-Inv p (rest_of s.history) s

fire_later-Inv :
    (before ls : List Later) (n : ℕ) (s : State) → Inv s → Inv (fire_later before ls n s)
unfolding fire_later
fire_later-Inv before [] n s v = v
fire_later-Inv before (l ∷ ls) zero s v =
    elim l.replace
      as (λ b. Inv (
        if b
        then navigate_replace l.path (record s { laters = before ++ ls })
        else navigate l.path (record s { laters = before ++ ls }))) [
          | true ↦ navigate_replace-Inv l.path (record s { laters = before ++ ls }) v.stored
          | false ↦ navigate-Inv l.path (record s { laters = before ++ ls }) v.stored
        ]
fire_later-Inv before (l ∷ ls) (suc n) s v = fire_later-Inv (before ++ l ∷ []) ls n s v

go_back-Inv : (h : List String) (s : State) → Inv s → Inv (go_back h s)
unfolding go_back
go_back-Inv [] s v = v
go_back-Inv (p ∷ []) s v = v
go_back-Inv (p ∷ q ∷ below) s v = show-Inv q below s v.stored

-- Another state of the screen that is open.
module _ (s : State) (old new : Screen) (open_now : s.screen ≡ old)
    (same : path_of new ≡ path_of old) where
  update-IsAt : Inv s → IsAt (path_of new) s.history
  update-IsAt v = subst (λ p. IsAt p s.history) (ap path_of open_now ∙ sym same) v.at_path

  update-Inv : Inv s → Inv (record s { screen = new })
  update-Inv v = record { at_path = update-IsAt v; stored = v.stored }

activate-Inv :
    (o : Onboarding.State) (s : State)
    → s.screen ≡ Screen.onboarding o
    → Inv s
    → Inv (after_onboarding (Onboarding.handle_activate o) s)
unfolding after_onboarding
activate-Inv o s e v = elim (handle_activate-cases o) [
  | inl (_, done) ↦ rw done (update-Inv s _ _ e refl v)
  | inr (inl (_, _, done)) ↦ rw done (update-Inv s _ _ e refl v)
  | inr (inr (valid, done)) ↦
      rw done (record { at_path = update-IsAt s _ (Screen.onboarding o) e refl v; stored = valid })
]

on_onboarding-Inv :
    (m : Onboarding.Screen.Msg) (o : Onboarding.State) (s : State)
    → s.screen ≡ Screen.onboarding o
    → Inv s
    → Inv (on_onboarding m o s)
unfolding on_onboarding
on_onboarding-Inv (Onboarding.Screen.change typed) o s e v = update-Inv s _ _ e refl v
on_onboarding-Inv Onboarding.Screen.activate o s e v = activate-Inv o s e v
on_onboarding-Inv Onboarding.Screen.scan_qr o s e v = update-Inv s _ _ e refl v
on_onboarding-Inv Onboarding.Screen.upload_qr o s e v = update-Inv s _ _ e refl v
on_onboarding-Inv Onboarding.Screen.paste o s e v = v

on_settings-Inv :
    (m : Settings.Screen.Msg) (t : Settings.State) (s : State)
    → s.screen ≡ Screen.settings t
    → Inv s
    → Inv (on_settings m t s)
unfolding on_settings
on_settings-Inv (Settings.Screen.navigate path) t s e v = navigate-Inv path s v.stored
on_settings-Inv Settings.Screen.kill_switch t s e v = update-Inv s _ _ e refl v
on_settings-Inv Settings.Screen.net_shield t s e v = update-Inv s _ _ e refl v
on_settings-Inv Settings.Screen.language t s e v = update-Inv s _ _ e refl v
on_settings-Inv (Settings.Screen.theme th) t s e v = update-Inv s _ _ e refl v
on_settings-Inv Settings.Screen.change_key t s e v =
    navigate_replace-Inv "/onboarding" (record s { key = none }) tt
on_settings-Inv Settings.Screen.invite t s e v = v
on_settings-Inv Settings.Screen.feedback t s e v = v

on_server_list-Inv :
    (m : ServerList.Screen.Msg) (l : ServerList.State) (s : State)
    → s.screen ≡ Screen.server_list l
    → Inv s
    → Inv (on_server_list m l s)
unfolding on_server_list
on_server_list-Inv (ServerList.Screen.navigate path) l s e v = navigate-Inv path s v.stored
on_server_list-Inv (ServerList.Screen.change typed) l s e v = update-Inv s _ _ e refl v
on_server_list-Inv (ServerList.Screen.select id) l s e v = record {
  at_path = update-IsAt s _ (Screen.server_list l) e refl v;
  stored = v.stored;
}

on_split_tunneling-Inv :
    (m : SplitTunneling.Screen.Msg) (t : SplitTunneling.State) (s : State)
    → s.screen ≡ Screen.split_tunneling t
    → Inv s
    → Inv (on_split_tunneling m t s)
unfolding on_split_tunneling
on_split_tunneling-Inv (SplitTunneling.Screen.navigate path) t s e v = navigate-Inv path s v.stored
on_split_tunneling-Inv (SplitTunneling.Screen.change typed) t s e v = update-Inv s _ _ e refl v
on_split_tunneling-Inv (SplitTunneling.Screen.toggle id) t s e v = update-Inv s _ _ e refl v

on_home-Inv :
    (m : Home.Screen.Msg) (h : Home.State) (s : State)
    → s.screen ≡ Screen.home h
    → Inv s
    → Inv (on_home m h s)
unfolding on_home
on_home-Inv Home.Screen.connect h s e v = update-Inv s _ _ e refl v
on_home-Inv (Home.Screen.navigate path) h s e v = navigate-Inv path s v.stored

paste-Inv :
    (answer : Option String) (o : Onboarding.State) (s : State)
    → s.screen ≡ Screen.onboarding o
    → Inv s
    → Inv (after_onboarding (Onboarding.handle_paste answer o) s)
unfolding after_onboarding Onboarding.handle_paste
paste-Inv none o s e v = update-Inv s _ _ e refl v
paste-Inv (some clip) o s e v = update-Inv s _ _ e refl v

launch-Inv : (key : Option String) → IsStored key → Inv (launch key)
launch-Inv key h = record { at_path = refl; stored = h }

module _ (num : Number) where
  on_screen-Inv :
      (sc : Screen) (e : Event num) (s : State) → s.screen ≡ sc → Inv s → Inv (on_screen num sc e s)
  unfolding on_screen
  on_screen-Inv sc (Event.later_elapsed n) s e v = fire_later-Inv [] s.laters n s v
  on_screen-Inv sc Event.back s e v = go_back-Inv s.history s v
  on_screen-Inv sc Event.restart s e v = launch-Inv s.key v.stored
  on_screen-Inv Screen.splash Event.splash_elapsed s e v = navigate_replace-Inv _ s v.stored
  on_screen-Inv (Screen.home h) (Event.on_home_click m) s e v = on_home-Inv m h s e v
  on_screen-Inv (Screen.home h) Event.connect_elapsed s e v = update-Inv s _ _ e refl v
  on_screen-Inv (Screen.home h) (Event.second down up) s e v = update-Inv s _ _ e refl v
  on_screen-Inv (Screen.onboarding o) (Event.on_onboarding_msg m) s e v =
      on_onboarding-Inv m o s e v
  on_screen-Inv (Screen.onboarding o) (Event.clipboard answer) s e v = paste-Inv answer o s e v
  on_screen-Inv (Screen.server_list l) (Event.on_server_list_msg m) s e v =
      on_server_list-Inv m l s e v
  on_screen-Inv (Screen.settings t) (Event.on_settings_msg m) s e v = on_settings-Inv m t s e v
  on_screen-Inv (Screen.split_tunneling t) (Event.on_split_tunneling_msg m) s e v =
      on_split_tunneling-Inv m t s e v
  on_screen-Inv _ _ s e v = v

  step-Inv : (e : Event num) (s : State) → Inv s → Inv (step num e s)
  unfolding step
  step-Inv e s v = on_screen-Inv s.screen e s refl v

  run_from-Inv : (es : List (Event num)) (s : State) → Inv s → Inv (run num es s)
  unfolding run
  run_from-Inv [] s v = v
  run_from-Inv (e ∷ es) s v = run_from-Inv es (step num e s) (step-Inv e s v)

  -- After any events from a first start, the screen shown is the one of the open path, and the
  -- stored key, if there is one, passed the check of the onboarding form.
  pub run-Inv : (es : List (Event num)) → Inv (run num es (launch none))
  run-Inv es = run_from-Inv es (launch none) (launch-Inv none tt)
