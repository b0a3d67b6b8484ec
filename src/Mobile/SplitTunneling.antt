-- ===== src/Mobile/SplitTunneling.antt =====
-- SplitTunnelingScreen.tsx: the applications that bypass the VPN, their switches and the search.
-- The text operation `toLowerCase` is a parameter.
pub mod Screen
pub mod Laws
use wow_vpn.Common.{
  String, Bool, true, false, not, List, [], ◌∷◌, map, filter, includes_text, ◌==◌, if◌then◌else◌,
}

pub record App : Type 0 where
  pub id : String
  pub name : String
  pub icon : String
  pub enabled : Bool

abbrev app : String → String → String → Bool → App
app id name icon enabled = record { id = id; name = name; icon = icon; enabled = enabled }

abbrev pub mock_apps : List App
mock_apps =
    app "chrome" "Chrome" "🌐" false
    ∷ app "telegram" "Telegram" "✈\u{fe0f}" true
    ∷ app "whatsapp" "WhatsApp" "💬" false
    ∷ app "instagram" "Instagram" "📷" true
    ∷ app "youtube" "YouTube" "📺" false
    ∷ app "spotify" "Spotify" "🎵" false
    ∷ app "netflix" "Netflix" "🎬" false
    ∷ app "gmail" "Gmail" "📧" false
    ∷ app "maps" "Google Maps" "🗺\u{fe0f}" false
    ∷ app "twitter" "Twitter" "🐦" false
    ∷ []

pub record State : Type 0 where
  pub search_query : String
  pub apps : List App

abbrev pub initial : State
initial = record { search_query = ""; apps = mock_apps }

unfoldable pub change_query : String → State → State
change_query typed s = record s { search_query = typed }

unfoldable pub filtered_apps : (String → String) → State → List App
filtered_apps to_lower s =
    filter (λ a. includes_text (to_lower a.name) (to_lower s.search_query)) s.apps

unfoldable pub flip : String → App → App
flip id a = if a.id == id then record a { enabled = not a.enabled } else a

unfoldable pub toggle_app : String → State → State
unfolding flip
toggle_app id s = record s { apps = map (flip id) s.apps }
