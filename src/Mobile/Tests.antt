-- ===== src/Mobile/Tests.antt =====
-- Concrete runs of the prototype.
use wow_vpn.Common.{
  ◌≡◌, refl, ◌↔◌, String, true, false, none, some, List, [], ◌∷◌, Memᴰ, arith, eq_iff, trim,
}
use wow_vpn.Common.Whole.{whole}
use wow_vpn.View.{clicks}
use wow_vpn.Mobile.Home
use wow_vpn.Mobile.Onboarding
use wow_vpn.Mobile.ServerList
use wow_vpn.Mobile.SplitTunneling
use wow_vpn.Mobile.App

-- Home: a click, the timer, and one second.
abbrev online : Home.State
online = Home.tick whole 3 1 (Home.connect_timer (Home.handle_connect Home.initial))

connect_offered : Memᴰ Home.Screen.Msg.connect (clicks (Home.Screen.home_view Home.initial))
unfolding Home.Screen.home_view
connect_offered = Memᴰ.tail (Memᴰ.head refl)

online_reached : Home.Laws.Reach whole online
online_reached =
    Home.Laws.Reach.next
      (Home.Laws.Reach.next
        (Home.Laws.Reach.next Home.Laws.Reach.start (Home.Laws.Step.press connect_offered))
        Home.Laws.Step.elapse)
      (Home.Laws.Step.second 3 1)

Reach-Shape_example : Home.Laws.Shape online.status online
Reach-Shape_example = Home.Laws.Reach-Shape whole online_reached

read_clock-duration_text_example :
    Home.Clock.read_clock (Home.Clock.codes (Home.duration_text 3725)) ≡ 3725
read_clock-duration_text_example = Home.Clock.read_clock-duration_text 3725 (omega arith)

-- Onboarding.
abbrev typed : Onboarding.State
typed = record { key_input = "shade://k"; error = ""; success = false }

typed-IsKey : Onboarding.Laws.IsKey typed.key_input
unfolding trim
typed-IsKey = (λ e. ground (arith, eq_iff "shade://k" ""), refl)

abbrev accepted : Onboarding.State × List Onboarding.Effect
accepted = (
  record typed { success = true },
  Onboarding.Effect.store_key "shade://k" ∷ Onboarding.Effect.navigate_later "/home" ∷ [],
)

-- The list of servers, with upper and lower case left as they are.
abbrev lower : String → String
lower s = s

abbrev german : ServerList.State
german = record { search_query = "erm"; selected_server = "nl-ams" }

abbrev frankfurt : ServerList.Server
frankfurt = record {
  id = "de-fra";
  flag = "🇩🇪";
  country = "Germany";
  city = "Frankfurt";
  ping = 62;
}

mem-filtered_servers_example :
    Memᴰ frankfurt (ServerList.filtered_servers lower german)
    ↔ (Memᴰ frankfurt ServerList.servers × ServerList.Laws.Matches lower "erm" frankfurt)
mem-filtered_servers_example = ServerList.Laws.mem-filtered_servers lower german frankfurt

-- Split tunneling.
abbrev apps : SplitTunneling.State
apps = SplitTunneling.initial

-- A first use of the app: the splash ends, a key is typed and activated, its timer fires.
abbrev first_use : List (App.Event whole)
first_use =
    App.Event.splash_elapsed
    ∷ App.Event.on_onboarding_msg (Onboarding.Screen.change "shade://k")
    ∷ App.Event.on_onboarding_msg Onboarding.Screen.activate
    ∷ App.Event.later_elapsed 0
    ∷ []

run-Inv_example : App.Laws.Inv (App.run whole first_use (App.launch none))
run-Inv_example = App.Laws.run-Inv whole first_use

restart-Opens_example :
    let s = App.run whole first_use (App.launch none) in
    let t = App.step whole App.Event.splash_elapsed (App.step whole App.Event.restart s) in
    App.Sessions.Opens s.key t × (t.key ≡ s.key)
restart-Opens_example = App.Sessions.restart-Opens whole first_use

step-KeyStep_example :
    App.Sessions.KeyStep {num = whole}
      (App.Event.on_onboarding_msg Onboarding.Screen.activate)
      (App.Sessions.entering typed none [])
      (App.step whole
        (App.Event.on_onboarding_msg Onboarding.Screen.activate)
        (App.Sessions.entering typed none []))
step-KeyStep_example =
    App.Sessions.step-KeyStep whole (App.Event.on_onboarding_msg Onboarding.Screen.activate)
      (App.Sessions.entering typed none [])

activate-opens_home_example :
    let t =
      App.step whole
        (App.Event.on_onboarding_msg Onboarding.Screen.activate)
        (App.Sessions.entering typed none []) in
    let u = App.step whole (App.Event.later_elapsed 0) t in
    (t.key ≡ some "shade://k")
    × (u.key ≡ some "shade://k")
    × (u.screen ≡ App.Screen.home Home.initial)
    × (u.history ≡ "/home" ∷ [])
activate-opens_home_example = App.Sessions.activate-opens_home whole typed none [] typed-IsKey

-- On, up, two seconds, and off.
abbrev session_events : List (Home.Phases.Event whole)
session_events =
    Home.Phases.Event.pressed
    ∷ Home.Phases.Event.timer
    ∷ Home.Phases.Event.second 3 1
    ∷ Home.Phases.Event.second 0 2
    ∷ Home.Phases.Event.pressed
    ∷ []

phase-run_example :
    (Home.Phases.phase (Home.Phases.run session_events Home.initial)
      ≡ Home.Phases.phases session_events Home.Phases.Phase.off)
    × ((Home.Phases.run session_events Home.initial).stats.duration
        ≡ Home.Phases.clock_of (Home.Phases.phases session_events Home.Phases.Phase.off))
phase-run_example = Home.Phases.phase-run session_events
