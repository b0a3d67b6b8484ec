-- ===== src/Admin/Notice.antt =====
-- A text that a page shows for two seconds (`saved` of pages/Settings.tsx, `copied` of
-- pages/ConfigProfiles.tsx): each `setX(text); setTimeout(() => setX(""), 2000)` leaves one more
-- timer, and none is ever cancelled.
use wow_vpn.Common.{ℕ, ◌+◌, ◌-◌, ◌≡◌, String, ltb, if◌then◌else◌, arith}

pub record Notice : Type 0 where
  pub content : String
  pub timers : ℕ

abbrev pub no_notice : Notice
no_notice = record { content = ""; timers = 0 }

unfoldable pub show : String → Notice → Notice
show text n = record { content = text; timers = n.timers + 1 }

-- A timer fires, if one is pending.
unfoldable pub expire : Notice → Notice
expire n = if ltb 0 n.timers then record { content = ""; timers = n.timers - 1 } else n

-- A text is shown only while a timer will take it away.
abbrev pub IsTimed : Notice → Type 0
IsTimed n = n.timers ≡ 0 → n.content ≡ ""

pub show-IsTimed : (text : String) (n : Notice) → IsTimed (show text n)
unfolding show
show-IsTimed text n = λ e. absurd (omega (arith, e))

pub expire-IsTimed : (n : Notice) → IsTimed n → IsTimed (expire n)
unfolding expire
expire-IsTimed n h = ground arith
