-- ===== src/Admin/Settings/Laws.antt =====
-- pages/Settings.tsx over time: what saving the server's section sends, and how long the notice stays.
use wow_vpn.Common.{
  ◌≡◌, refl, ◌≢◌, String, Bool, Option, none, some, [], ◌∷◌, arith, if◌then◌else◌, eq_iff,
}
use wow_vpn.View.{clicks}
use wow_vpn.Admin.Settings.{
  Stored, State, mount, Redefault, redefault, defaults, text_or, load, save_server, SaveAnswer,
  failed, response, section_saved, saved_timer, type_bot_token, type_chat_id, click_logging,
}
use wow_vpn.Admin.Settings.Screen.{
  download, save_bot_section, save_server_section, flip_logging, panels_view,
}

-- What the page does before anyone types into the port or the domain.
pub data Untouched (react : Redefault) : State → Type 0 where
  opened : Untouched react mount
  loaded :
      {s : State}
      → (answer : Option Stored) → Untouched react s
      → Untouched react (load react answer s)
  saved : {s : State} → (a : SaveAnswer) → Untouched react s → Untouched react (section_saved a s)
  expired : {s : State} → Untouched react s → Untouched react (saved_timer s)
  typed_token :
      {s : State} → (t : String) → Untouched react s → Untouched react (type_bot_token t s)
  typed_chat : {s : State} → (t : String) → Untouched react s → Untouched react (type_chat_id t s)
  flipped : {s : State} → Untouched react s → Untouched react (click_logging s)

-- An input that holds a text keeps it when its default changes.
abbrev pub Keeps : Redefault → Type 0
Keeps react = (now new : String) → now ≢ "" → react.text_after now new ≡ now

abbrev pub bool_text : Bool → String
bool_text b = if b then "true" else "false"

abbrev default_port : String
default_port = "443"

abbrev default_domain : String
default_domain = "www.apple.com"

port_given : default_port ≢ ""
port_given e = ground (arith, eq_iff default_port "")

domain_given : default_domain ≢ ""
domain_given e = ground (arith, eq_iff default_domain "")

abbrev Holds : State → Type 0
Holds s = (s.inputs.port ≡ "443") × (s.inputs.stealth ≡ "www.apple.com")

load-Holds :
    (react : Redefault) (answer : Option Stored) (s : State)
    → Keeps react
    → Holds s
    → Holds (load react answer s)
unfolding load redefault defaults
load-Holds react none s k h = h
load-Holds react (some stored) s k (p, d) = (
  rw p (k default_port (text_or stored.server_port "443") port_given),
  rw d (k default_domain (text_or stored.stealth_domain "www.apple.com") domain_given),
)

Untouched-Holds : (react : Redefault) (s : State) → Keeps react → Untouched react s → Holds s
unfolding mount section_saved saved_timer type_bot_token type_chat_id click_logging defaults
Untouched-Holds react s k opened = (refl, refl)
Untouched-Holds react s k (loaded {s = t} answer u) =
    load-Holds react answer t k (Untouched-Holds react t k u)
Untouched-Holds react s k (saved {s = t} failed u) = Untouched-Holds react t k u
Untouched-Holds react s k (saved {s = t} response u) = Untouched-Holds react t k u
Untouched-Holds react s k (expired {s = t} u) = Untouched-Holds react t k u
Untouched-Holds react s k (typed_token {s = t} text u) = Untouched-Holds react t k u
Untouched-Holds react s k (typed_chat {s = t} text u) = Untouched-Holds react t k u
Untouched-Holds react s k (flipped {s = t} u) = Untouched-Holds react t k u

-- If a mounted input keeps its text when its default changes: whatever settings the server answers
-- with, saving the server's section sends the port 443 and the domain www.apple.com, unless one of
-- the two inputs has been typed into.
pub save_server-Untouched :
    (react : Redefault) (s : State)
    → Keeps react
    → Untouched react s
    → (save_server s).data_sent
      ≡ ("server_port", "443")
        ∷ ("stealth_domain", "www.apple.com")
        ∷ ("logging_enabled", bool_text s.inputs.logging)
        ∷ []
unfolding save_server
save_server-Untouched react s k u = let (p, d) = Untouched-Holds react s k u in rw (p, d) refl

-- The clicks that the page offers: the backup, the two sections, and the switch of the log; the
-- button for a new password offers none.
pub clicks-panels_view :
    (s : State)
    → clicks (panels_view s) ≡ download ∷ save_bot_section ∷ flip_logging ∷ save_server_section ∷ []
unfolding panels_view
clicks-panels_view s = ground arith
