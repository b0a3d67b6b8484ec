-- ===== src/Mobile/Home/Laws.antt =====
-- The connection state machine of HomeScreen.tsx: its invariant, and what the user can do in it.
use wow_vpn.Common.{
  ℕ, ◌+◌, ◌≡◌, refl, ◌≢◌, Option, none, some, List, [], ◌∷◌, Memᴰ, arith, ap, ◌∙◌, length, pad_two,
  decimal,
}
use native.Mathlib.Nat.{add-zero}
use wow_vpn.Common.Number.{Number}
use wow_vpn.View.{clicks}
use wow_vpn.Mobile.Home.{
  ConnectionStatus, disconnected, connecting, connected, State, idle_stats, initial, duration_text,
  handle_connect, connect_timer, tick,
}
use wow_vpn.Mobile.Home.Screen.{Msg, connect, navigate, home_view}

-- The seconds that the running interval has counted.
abbrev pub elapsed : Option ℕ → ℕ
elapsed none = 0
elapsed (some n) = n

pub record Inv (s : State) : Type 0 where
  pub one_timer : s.status ≡ connecting → s.connect_timers ≡ 1
  pub no_timer : s.status ≢ connecting → s.connect_timers ≡ 0
  pub idle : s.status ≢ connected → (s.session ≡ none) × (s.stats ≡ idle_stats)
  pub running : s.status ≡ connected → s.session ≢ none
  pub clock : s.status ≡ connected → s.stats.duration ≡ duration_text (elapsed s.session)

-- The shape of the state at each status.
abbrev pub Shape : ConnectionStatus → State → Type 0
Shape disconnected s = (s.connect_timers ≡ 0) × (s.session ≡ none) × (s.stats ≡ idle_stats)
Shape connecting s = (s.connect_timers ≡ 1) × (s.session ≡ none) × (s.stats ≡ idle_stats)
Shape connected s =
    (n : ℕ) × (s.connect_timers ≡ 0) × (s.session ≡ some n) × (s.stats.duration ≡ duration_text n)

session_of_connected : (o : Option ℕ) → o ≢ none → o ≡ some (elapsed o)
session_of_connected none h = absurd (h refl)
session_of_connected (some n) h = refl

Inv-Shape : (c : ConnectionStatus) (s : State) → s.status ≡ c → Inv s → Shape c s
Inv-Shape disconnected s e v = ground arith
Inv-Shape connecting s e v = ground arith
Inv-Shape connected s e v =
    (elapsed s.session, ground arith, session_of_connected s.session (v.running e), v.clock e)

module _ (num : Number) where
  open num use {Carrier}

  -- A click on what the screen offers, or a timer.
  pub data Step (s : State) : State → Type 0 where
    press : Memᴰ connect (clicks (home_view s)) → Step s (handle_connect s)
    elapse : Step s (connect_timer s)
    second : (down up : Carrier) → Step s (tick num down up s)

  pub data Reach : State → Type 0 where
    start : Reach initial
    next : {s t : State} → Reach s → Step s t → Reach t

  duration_text_zero : duration_text 0 ≡ "00:00:00"
  unfolding duration_text pad_two decimal
  duration_text_zero = refl

  initial-Inv : Inv initial
  initial-Inv = ground arith

  Step-Inv : {s t : State} → Step s t → Inv s → Inv t
  unfolding handle_connect connect_timer tick
  Step-Inv (press m) v = ground (arith, duration_text_zero)
  Step-Inv elapse v = ground (arith, duration_text_zero)
  Step-Inv (second down up) v = ground arith

  pub Reach-Inv : {s : State} → Reach s → Inv s
  Reach-Inv start = initial-Inv
  Reach-Inv (next r st) = Step-Inv st (Reach-Inv r)

  -- Whatever the user and the timers do: while the app is disconnected nothing is pending or
  -- running; while it connects exactly one timer is pending; while it is connected none is, and an
  -- interval runs, whose seconds the clock shows. Unless it is connected the stats are at zero.
  pub Reach-Shape : {s : State} → Reach s → Shape s.status s
  Reach-Shape {s} r = Inv-Shape s.status s refl (Reach-Inv r)

  -- From any reachable state that is connected, disconnecting brings back the initial state, with
  -- nothing left running.
  pub handle_connect-resets :
      (s : State) → Reach s → s.status ≡ connected → handle_connect s ≡ initial
  unfolding handle_connect
  handle_connect-resets s r e = ground (arith, Reach-Inv r)

  -- The interval's rounds, at a list of draws.
  abbrev pub ticks : List (Carrier × Carrier) → State → State
  ticks [] s = s
  ticks ((down, up) ∷ draws) s = ticks draws (tick num down up s)

  ticks-clock :
      (draws : List (Carrier × Carrier)) (n : ℕ) (s : State)
      → s.status ≡ connected
      → s.session ≡ some n
      → s.stats.duration ≡ duration_text n
      → ((ticks draws s).status ≡ connected)
        × ((ticks draws s).stats.duration ≡ duration_text (n + length draws))
  unfolding tick
  ticks-clock [] n s c e d = (c, rw add-zero d)
  ticks-clock ((down, up) ∷ draws) n s c e d =
      let (still, shows) =
        ticks-clock draws (n + 1) (tick num down up s) (ground arith) (ground arith)
          (ground arith) in
      (still, shows ∙ ap duration_text (omega arith))

  -- A session, from the click on in any reachable state that is disconnected: when the timer has
  -- fired the screen is connected, and after k rounds of the interval its clock shows k seconds.
  pub session_clock :
      (s : State) (draws : List (Carrier × Carrier))
      → Reach s
      → s.status ≡ disconnected
      → let t = ticks draws (connect_timer (handle_connect s)) in
        (t.status ≡ connected) × (t.stats.duration ≡ duration_text (length draws))
  unfolding handle_connect connect_timer
  session_clock s draws r e =
      let v = Reach-Inv r in
      let (still, shows) =
        ticks-clock draws 0 (connect_timer (handle_connect s)) (ground arith) (ground arith)
          (ground (arith, duration_text_zero)) in
      (still, shows ∙ ap duration_text (omega arith))

-- What the screen should offer: the connect button works unless the app is connecting.
abbrev pub offer : ConnectionStatus → List Msg
offer connecting = navigate "/settings" ∷ navigate "/servers" ∷ []
offer _ = navigate "/settings" ∷ connect ∷ navigate "/servers" ∷ []

clicks-home_view_of :
    (c : ConnectionStatus) (s : State) → s.status ≡ c → clicks (home_view s) ≡ offer c
unfolding home_view
clicks-home_view_of disconnected s e = rw e
clicks-home_view_of connecting s e = rw e
clicks-home_view_of connected s e = rw e

-- The clicks that the screen offers: the settings, the connect button unless the app is
-- connecting, and the servers.
pub clicks-home_view : (s : State) → clicks (home_view s) ≡ offer s.status
clicks-home_view s = clicks-home_view_of s.status s refl
