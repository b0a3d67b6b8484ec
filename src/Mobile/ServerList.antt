-- ===== src/Mobile/ServerList.antt =====
-- ServerListScreen.tsx: the table of servers, the search, and the choice of a server. The text
-- operation `toLowerCase` is a parameter.
pub mod Screen
pub mod Laws
use wow_vpn.Common.{ℕ, String, Bool, ◌||◌, List, [], ◌∷◌, filter, includes_text, ltb, if◌then◌else◌}

pub record Server : Type 0 where
  pub id : String
  pub flag : String
  pub country : String
  pub city : String
  pub ping : ℕ

abbrev server : String → String → String → String → ℕ → Server
server id flag country city ping = record {
  id = id;
  flag = flag;
  country = country;
  city = city;
  ping = ping;
}

unfoldable pub servers : List Server
servers =
    server "nl-ams" "🇳🇱" "Netherlands" "Amsterdam" 45
    ∷ server "de-fra" "🇩🇪" "Germany" "Frankfurt" 62
    ∷ server "us-ny" "🇺🇸" "United States" "New York" 128
    ∷ server "jp-tok" "🇯🇵" "Japan" "Tokyo" 210
    ∷ server "gb-lon" "🇬🇧" "United Kingdom" "London" 58
    ∷ server "fr-par" "🇫🇷" "France" "Paris" 52
    ∷ server "sg-sin" "🇸🇬" "Singapore" "Singapore" 185
    ∷ server "ca-tor" "🇨🇦" "Canada" "Toronto" 115
    ∷ []

pub record State : Type 0 where
  pub search_query : String
  pub selected_server : String

abbrev pub initial : State
initial = record { search_query = ""; selected_server = "nl-ams" }

unfoldable pub change_query : String → State → State
change_query typed s = record s { search_query = typed }

module _ (to_lower : String → String) where
  unfoldable pub matches : String → Server → Bool
  matches query sv =
      includes_text (to_lower sv.country) (to_lower query)
      || includes_text (to_lower sv.city) (to_lower query)

  unfoldable pub filtered_servers : State → List Server
  unfolding matches
  filtered_servers s = filter (matches s.search_query) servers

-- handleServerSelect, with the path that its 300 ms timer opens.
unfoldable pub handle_server_select : String → State → State × String
handle_server_select id s = (record s { selected_server = id }, "/home")

unfoldable pub ping_color : ℕ → String
ping_color ping = if ltb ping 80 then "#00C853" else if ltb ping 150 then "#FFB300" else "#FF3D57"
