-- ===== src/Mobile/App.antt =====
-- App.tsx and SplashScreen.tsx: the router of the prototype, the browser's history, localStorage's
-- "shadeVPN_key", and the timers that navigate. A screen that is left loses its state, and its
-- interval and the splash timer with it; the timers of handleActivate and handleServerSelect are
-- not cleared, and fire on whatever screen is then open. A message for another screen than the one
-- that is open does nothing.
mod Router
pub mod Splash
pub mod Navigation
pub mod Laws
pub mod Sessions
unfoldable pub use Router.*
use wow_vpn.Common.{
  String, Bool, true, false, Option, none, some, ℕ, zero, suc, List, [], ◌∷◌, ◌++◌, ◌==◌,
  if◌then◌else◌, not,
}
use wow_vpn.Common.Number.{Number}
use wow_vpn.Mobile.Home
use wow_vpn.Mobile.Onboarding
use wow_vpn.Mobile.ServerList
use wow_vpn.Mobile.Settings
use wow_vpn.Mobile.SplitTunneling

run_onboarding : List Onboarding.Effect → State → State
run_onboarding [] s = s
run_onboarding (Onboarding.Effect.store_key key ∷ es) s =
    run_onboarding es (record s { key = some key })
run_onboarding (Onboarding.Effect.navigate_later path ∷ es) s =
    run_onboarding es
      (record s { laters = s.laters ++ record { path = path; replace = true } ∷ [] })
run_onboarding (Onboarding.Effect.alert _ ∷ es) s = run_onboarding es s
run_onboarding (Onboarding.Effect.log_error _ ∷ es) s = run_onboarding es s

run_settings : List Settings.Effect → State → State
unfolding navigate_replace
run_settings [] s = s
run_settings (Settings.Effect.remove_key ∷ es) s = run_settings es (record s { key = none })
run_settings (Settings.Effect.replace_path path ∷ es) s = run_settings es (navigate_replace path s)
run_settings (Settings.Effect.alert _ ∷ es) s = run_settings es s

after_onboarding : Onboarding.State × List Onboarding.Effect → State → State
unfolding run_onboarding
after_onboarding (o, es) s = run_onboarding es (record s { screen = onboarding o })

-- A click or an input on the onboarding screen; `paste` waits for the clipboard.
on_onboarding : Onboarding.Screen.Msg → Onboarding.State → State → State
unfolding after_onboarding Onboarding.change_key Onboarding.handle_activate
    Onboarding.handle_scan_qr Onboarding.handle_upload_qr
on_onboarding (Onboarding.Screen.change typed) o s = record s {
  screen = onboarding (Onboarding.change_key typed o);
}
on_onboarding Onboarding.Screen.activate o s = after_onboarding (Onboarding.handle_activate o) s
on_onboarding Onboarding.Screen.scan_qr o s = after_onboarding (Onboarding.handle_scan_qr o) s
on_onboarding Onboarding.Screen.upload_qr o s = after_onboarding (Onboarding.handle_upload_qr o) s
on_onboarding Onboarding.Screen.paste o s = s

on_home : Home.Screen.Msg → Home.State → State → State
unfolding navigate Home.handle_connect
on_home Home.Screen.connect h s = record s { screen = home (Home.handle_connect h) }
on_home (Home.Screen.navigate path) h s = navigate path s

on_server_list : ServerList.Screen.Msg → ServerList.State → State → State
unfolding navigate ServerList.change_query ServerList.handle_server_select
on_server_list (ServerList.Screen.navigate path) l s = navigate path s
on_server_list (ServerList.Screen.change typed) l s = record s {
  screen = server_list (ServerList.change_query typed l);
}
on_server_list (ServerList.Screen.select id) l s =
    let (l', path) = ServerList.handle_server_select id l in
    record s {
      screen = server_list l';
      laters = s.laters ++ record { path = path; replace = false } ∷ [];
    }

on_settings : Settings.Screen.Msg → Settings.State → State → State
unfolding navigate run_settings Settings.toggle_kill_switch Settings.toggle_net_shield
    Settings.next_language Settings.set_theme Settings.handle_change_key Settings.handle_invite
    Settings.handle_feedback
on_settings (Settings.Screen.navigate path) t s = navigate path s
on_settings Settings.Screen.kill_switch t s = record s {
  screen = settings (Settings.toggle_kill_switch t);
}
on_settings Settings.Screen.net_shield t s = record s {
  screen = settings (Settings.toggle_net_shield t);
}
on_settings Settings.Screen.language t s = record s { screen = settings (Settings.next_language t) }
on_settings (Settings.Screen.theme th) t s = record s {
  screen = settings (Settings.set_theme th t);
}
on_settings Settings.Screen.change_key t s = run_settings Settings.handle_change_key s
on_settings Settings.Screen.invite t s = run_settings Settings.handle_invite s
on_settings Settings.Screen.feedback t s = run_settings Settings.handle_feedback s

on_split_tunneling : SplitTunneling.Screen.Msg → SplitTunneling.State → State → State
unfolding navigate SplitTunneling.change_query SplitTunneling.toggle_app
on_split_tunneling (SplitTunneling.Screen.navigate path) t s = navigate path s
on_split_tunneling (SplitTunneling.Screen.change typed) t s = record s {
  screen = split_tunneling (SplitTunneling.change_query typed t);
}
on_split_tunneling (SplitTunneling.Screen.toggle id) t s = record s {
  screen = split_tunneling (SplitTunneling.toggle_app id t);
}

-- The timer at a place of the list, taken out, fires.
fire_later : List Later → List Later → ℕ → State → State
unfolding navigate navigate_replace
fire_later before [] n s = s
fire_later before (l ∷ ls) zero s =
    let t = record s { laters = before ++ ls } in
    if l.replace then navigate_replace l.path t else navigate l.path t
fire_later before (l ∷ ls) (suc n) s = fire_later (before ++ l ∷ []) ls n s

go_back : List String → State → State
unfolding show
go_back (_ ∷ below ∷ rest) s = show below rest s
go_back _ s = s

-- What happens to the app: messages of the open screen, the answers and timers of its handlers,
-- the browser's back button, and a restart of the page at "/".
pub data Event (num : Number) : Type 0 where
  splash_elapsed : Event num
  later_elapsed : ℕ → Event num
  on_home_click : Home.Screen.Msg → Event num
  connect_elapsed : Event num
  second : num.Carrier → num.Carrier → Event num
  on_onboarding_msg : Onboarding.Screen.Msg → Event num
  clipboard : Option String → Event num
  on_server_list_msg : ServerList.Screen.Msg → Event num
  on_settings_msg : Settings.Screen.Msg → Event num
  on_split_tunneling_msg : SplitTunneling.Screen.Msg → Event num
  back : Event num
  restart : Event num

module _ (num : Number) where
  on_screen : Screen → Event num → State → State
  unfolding splash_timer fire_later go_back on_home Home.connect_timer Home.tick on_onboarding
      Onboarding.handle_paste after_onboarding on_server_list on_settings on_split_tunneling
  on_screen screen (later_elapsed n) s = fire_later [] s.laters n s
  on_screen screen back s = go_back s.history s
  on_screen screen restart s = launch s.key
  on_screen splash splash_elapsed s = splash_timer s
  on_screen (home h) (on_home_click m) s = on_home m h s
  on_screen (home h) connect_elapsed s = record s { screen = home (Home.connect_timer h) }
  on_screen (home h) (second down up) s = record s { screen = home (Home.tick num down up h) }
  on_screen (onboarding o) (on_onboarding_msg m) s = on_onboarding m o s
  on_screen (onboarding o) (clipboard answer) s =
      after_onboarding (Onboarding.handle_paste answer o) s
  on_screen (server_list l) (on_server_list_msg m) s = on_server_list m l s
  on_screen (settings t) (on_settings_msg m) s = on_settings m t s
  on_screen (split_tunneling t) (on_split_tunneling_msg m) s = on_split_tunneling m t s
  on_screen _ _ s = s

  unfoldable pub step : Event num → State → State
  unfolding on_screen
  step e s = on_screen s.screen e s

  pub run : List (Event num) → State → State
  run [] s = s
  run (e ∷ es) s = run es (step e s)
