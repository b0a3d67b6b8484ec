-- ===== src/Mobile/Home.antt =====
-- HomeScreen.tsx: the connect button, its two-second timer, and the session clock. A message is a
-- click, or a timer that fires. An effect runs with the state change that causes it.
pub mod Screen
pub mod Laws
pub mod Phases
pub mod Clock
use wow_vpn.Common.{
  ℕ, suc, ◌+◌, ◌-◌, ◌/◌, ◌%◌, String, Bool, true, false, Option, none, some, List, [], ◌∷◌, ltb,
  if◌then◌else◌, template, pad_two,
}
use wow_vpn.Common.Number.{Number}

pub data ConnectionStatus : Type 0 where
  disconnected connecting connected : ConnectionStatus

pub record SessionStats : Type 0 where
  pub duration : String
  pub download : String
  pub upload : String

pub record State : Type 0 where
  pub status : ConnectionStatus
  pub stats : SessionStats
  -- The `seconds` of the running interval, if the effect has one running.
  pub session : Option ℕ
  -- How many `setTimeout` calls of handleConnect have not fired yet.
  pub connect_timers : ℕ

abbrev pub idle_stats : SessionStats
idle_stats = record { duration = "00:00:00"; download = "0.0 MB"; upload = "0.0 MB" }

abbrev pub initial : State
initial = record { status = disconnected; stats = idle_stats; session = none; connect_timers = 0 }

unfoldable pub duration_text : ℕ → String
duration_text seconds = template (
    pad_two (seconds / 3600)
    ∷ ":"
    ∷ pad_two ((seconds % 3600) / 60)
    ∷ ":"
    ∷ pad_two (seconds % 60)
    ∷ [])

abbrev is_same : ConnectionStatus → ConnectionStatus → Bool
is_same disconnected disconnected = true
is_same connecting connecting = true
is_same connected connected = true
is_same _ _ = false

-- The effect on `status`: the old interval is cleared, and `connected` starts one at 0.
abbrev interval_for : ConnectionStatus → Option ℕ
interval_for connected = some 0
interval_for _ = none

-- `setStatus`: the effect runs again only if the value changes.
unfoldable pub set_status : ConnectionStatus → State → State
set_status new s =
    if is_same new s.status then s else record s { status = new; session = interval_for new }

connect_from : ConnectionStatus → State → State
unfolding set_status
connect_from disconnected s =
    let t = set_status connecting s in record t { connect_timers = t.connect_timers + 1 }
connect_from connected s = let t = set_status disconnected s in record t { stats = idle_stats }
connect_from connecting s = s

unfoldable pub handle_connect : State → State
unfolding connect_from
handle_connect s = connect_from s.status s

-- The callback of handleConnect's timer; with no timer pending nothing fires.
unfoldable pub connect_timer : State → State
unfolding set_status
connect_timer s =
    if ltb 0 s.connect_timers
    then set_status connected (record s { connect_timers = s.connect_timers - 1 })
    else s

module _ (num : Number) where
  open num use {Carrier, of_nat, plus, times, to_fixed}

  abbrev pub download_text : Carrier → String
  download_text r = template (to_fixed 1 (plus (times r (of_nat 200)) (of_nat 100)) ∷ " MB" ∷ [])

  abbrev pub upload_text : Carrier → String
  upload_text r = template (to_fixed 1 (plus (times r (of_nat 50)) (of_nat 10)) ∷ " MB" ∷ [])

  tick_session : Option ℕ → Carrier → Carrier → State → State
  tick_session none down up s = s
  tick_session (some seconds) down up s = record s {
    session = some (seconds + 1);
    stats = record {
      duration = duration_text (seconds + 1);
      download = download_text down;
      upload = upload_text up;
    };
  }

  -- One round of the interval, at the two draws of `Math.random`.
  unfoldable pub tick : Carrier → Carrier → State → State
  unfolding tick_session
  tick down up s = tick_session s.session down up s

unfoldable pub ping_color : ℕ → String
ping_color ping = if ltb ping 80 then "#00C853" else if ltb ping 150 then "#FFB300" else "#FF3D57"
