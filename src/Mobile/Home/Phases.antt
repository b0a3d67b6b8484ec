-- ===== src/Mobile/Home/Phases.antt =====
-- What HomeScreen.tsx promises, without the bookkeeping of its timers and its interval: a connection
-- is off, on its way, or on for some seconds.
use wow_vpn.Common.{ℕ, ◌+◌, ◌≡◌, refl, sym, Option, String, List, [], ◌∷◌, arith, pad_two, decimal}
use wow_vpn.Common.Number.{Number}
use wow_vpn.Mobile.Home.{
  ConnectionStatus, disconnected, connecting, connected, State, initial, duration_text,
  handle_connect, connect_timer, tick,
}
use wow_vpn.Mobile.Home.Laws.{elapsed, Inv}

pub data Phase : Type 0 where
  off waiting : Phase
  on : ℕ → Phase

-- A click on the button, the timer of a connection, or a round of the interval at two draws.
pub data Event (num : Number) : Type 0 where
  pressed timer : Event num
  second : num.Carrier → num.Carrier → Event num

abbrev pub phase_after : {num : Number} → Event num → Phase → Phase
phase_after pressed off = waiting
phase_after pressed waiting = waiting
phase_after pressed (on _) = off
phase_after timer waiting = on 0
phase_after timer p = p
phase_after (second _ _) (on n) = on (n + 1)
phase_after (second _ _) p = p

abbrev pub phases : {num : Number} → List (Event num) → Phase → Phase
phases [] p = p
phases (e ∷ es) p = phases es (phase_after e p)

-- What the clock shows in each phase.
abbrev pub clock_of : Phase → String
clock_of (on n) = duration_text n
clock_of _ = "00:00:00"

abbrev pub phase_of : ConnectionStatus → Option ℕ → Phase
phase_of disconnected o = off
phase_of connecting o = waiting
phase_of connected o = on (elapsed o)

abbrev pub phase : State → Phase
phase s = phase_of s.status s.session

abbrev pub react : {num : Number} → Event num → State → State
react pressed s = handle_connect s
react timer s = connect_timer s
react {num} (second down up) s = tick num down up s

abbrev pub run : {num : Number} → List (Event num) → State → State
run [] s = s
run (e ∷ es) s = run es (react e s)

duration_text_zero : duration_text 0 ≡ "00:00:00"
unfolding duration_text pad_two decimal
duration_text_zero = refl

clock_of-phase : (s : State) → Inv s → s.stats.duration ≡ clock_of (phase s)
clock_of-phase s v = ground arith

initial-Inv : Inv initial
initial-Inv = ground arith

module _ {num : Number} where
  react-Inv : (e : Event num) (s : State) → Inv s → Inv (react e s)
  unfolding handle_connect connect_timer tick
  react-Inv pressed s v = ground (arith, duration_text_zero)
  react-Inv timer s v = ground (arith, duration_text_zero)
  react-Inv (second down up) s v = ground arith

  phase-react : (e : Event num) (s : State) → Inv s → phase (react e s) ≡ phase_after e (phase s)
  unfolding handle_connect connect_timer tick
  phase-react pressed s v = ground arith
  phase-react timer s v = ground arith
  phase-react (second down up) s v = ground arith

  phase-run_of :
      (events : List (Event num)) (s : State)
      → Inv s
      → (phase (run events s) ≡ phases events (phase s))
        × ((run events s).stats.duration ≡ clock_of (phases events (phase s)))
  phase-run_of [] s v = (refl, clock_of-phase s v)
  phase-run_of (e ∷ es) s v =
      rw (sym (phase-react e s v)) (phase-run_of es (react e s) (react-Inv e s v))

  -- Whatever the order of clicks on the button, connections that come up and rounds of the interval
  -- from the start, the screen is in the phase that follows from them alone, and its clock shows the
  -- phase's seconds, or 00:00:00 if it is not on.
  pub phase-run :
      (events : List (Event num))
      → (phase (run events initial) ≡ phases events off)
        × ((run events initial).stats.duration ≡ clock_of (phases events off))
  phase-run events = phase-run_of events initial initial-Inv
