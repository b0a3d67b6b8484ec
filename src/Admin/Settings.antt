-- ===== src/Admin/Settings.antt =====
-- pages/Settings.tsx: the settings that the server answers with, the inputs, and saving a section.
-- The inputs are uncontrolled: React gives them their default when they are mounted, which is before
-- the settings have come. What a later default does to them is React's, and a parameter.
pub mod Screen
pub mod Laws
use wow_vpn.Common.{
  String, Bool, true, not, Option, none, some, List, [], ◌∷◌, ◌==◌, if◌then◌else◌, or_else,
}
use wow_vpn.Admin.Notice.{Notice, no_notice, show, expire}

-- The keys that the page reads; `none` is a key that is not there.
pub record Stored : Type 0 where
  pub telegram_bot_token : Option String
  pub telegram_admin_chat_id : Option String
  pub server_port : Option String
  pub stealth_domain : Option String
  pub logging_enabled : Option String

abbrev pub nothing_stored : Stored
nothing_stored = record {
  telegram_bot_token = none;
  telegram_admin_chat_id = none;
  server_port = none;
  stealth_domain = none;
  logging_enabled = none;
}

-- The inputs behind the refs.
pub record Inputs : Type 0 where
  pub port : String
  pub stealth : String
  pub logging : Bool
  pub bot_token : String
  pub chat_id : String

pub record State : Type 0 where
  pub settings : Stored
  pub saved : Notice
  pub inputs : Inputs

-- `value || other`.
abbrev pub text_or : Option String → String → String
text_or none other = other
text_or (some text) other = or_else text other

-- `value !== "false"`.
abbrev pub not_false : Option String → Bool
not_false none = true
not_false (some text) = not (text == "false")

-- The defaults of the inputs.
unfoldable pub defaults : Stored → Inputs
defaults stored = record {
  port = text_or stored.server_port "443";
  stealth = text_or stored.stealth_domain "www.apple.com";
  logging = not_false stored.logging_enabled;
  bot_token = text_or stored.telegram_bot_token "";
  chat_id = text_or stored.telegram_admin_chat_id "";
}

unfoldable pub mount : State
unfolding defaults
mount = record { settings = nothing_stored; saved = no_notice; inputs = defaults nothing_stored }

-- React: what becomes of an input that is mounted when its default changes, from what it holds and
-- the new default.
pub record Redefault : Type 0 where
  pub text_after : String → String → String
  pub checked_after : Bool → Bool → Bool

unfoldable pub redefault : Redefault → Inputs → Inputs → Inputs
redefault react now new = record {
  port = react.text_after now.port new.port;
  stealth = react.text_after now.stealth new.stealth;
  logging = react.checked_after now.logging new.logging;
  bot_token = react.text_after now.bot_token new.bot_token;
  chat_id = react.text_after now.chat_id new.chat_id;
}

-- The answer to GET /settings: `none` is a request or an answer that fails.
unfoldable pub load : Redefault → Option Stored → State → State
unfolding redefault defaults
load react none s = s
load react (some stored) s = record s {
  settings = stored;
  inputs = redefault react s.inputs (defaults stored);
}

-- POST /settings with these keys.
pub record SaveRequest : Type 0 where
  pub data_sent : List (String × String)

unfoldable pub save_bot : State → SaveRequest
save_bot s = record {
  data_sent =
      ("telegram_bot_token", or_else s.inputs.bot_token "")
      ∷ ("telegram_admin_chat_id", or_else s.inputs.chat_id "")
      ∷ [];
}

unfoldable pub save_server : State → SaveRequest
save_server s = record {
  data_sent =
      ("server_port", or_else s.inputs.port "443")
      ∷ ("stealth_domain", or_else s.inputs.stealth "")
      ∷ ("logging_enabled", if s.inputs.logging then "true" else "false")
      ∷ [];
}

-- The rest of saveSection at the answer, whose status it does not read; a request that fails ends it.
pub data SaveAnswer : Type 0 where
  failed : SaveAnswer
  response : SaveAnswer

unfoldable pub section_saved : SaveAnswer → State → State
unfolding show
section_saved failed s = s
section_saved response s = record s { saved = show "✅ Сохранено!" s.saved }

-- The callback of saveSection's timer.
unfoldable pub saved_timer : State → State
unfolding expire
saved_timer s = record s { saved = expire s.saved }

unfoldable pub type_port : String → State → State
type_port t s = let i = s.inputs in record s { inputs = record i { port = t } }

unfoldable pub type_stealth : String → State → State
type_stealth t s = let i = s.inputs in record s { inputs = record i { stealth = t } }

unfoldable pub type_bot_token : String → State → State
type_bot_token t s = let i = s.inputs in record s { inputs = record i { bot_token = t } }

unfoldable pub type_chat_id : String → State → State
type_chat_id t s = let i = s.inputs in record s { inputs = record i { chat_id = t } }

unfoldable pub click_logging : State → State
click_logging s = let i = s.inputs in record s { inputs = record i { logging = not i.logging } }
