-- ===== src/Admin/Dashboard.antt =====
-- pages/Home.tsx of the admin panel: the five answers that it shows, its cards, and the table of the
-- clients by traffic. The charts are drawn by a third-party library from the data here.
pub mod Sorting
pub mod Progress
pub mod Answers
pub mod Figures
pub mod Screen
use wow_vpn.Common.{
  String, Bool, Option, none, some, List, [], ◌∷◌, ◌==◌, if◌then◌else◌, or_else, template, length,
  nat_eq,
}
use wow_vpn.Common.Number.{Number}

-- What GET /dashboard answers with.
pub record Counts (num : Number) : Type 0 where
  pub total_clients : num.Carrier
  pub enabled_clients : num.Carrier
  pub disabled_clients : num.Carrier
  pub online_clients : num.Carrier
  pub offline_clients : num.Carrier
  pub active_24h : num.Carrier
  pub inactive_24h : num.Carrier
  pub download_gb : num.Carrier
  pub upload_gb : num.Carrier

-- GET /system.
pub record Machine (num : Number) : Type 0 where
  pub memory_used_gb : num.Carrier
  pub memory_total_gb : num.Carrier
  pub memory_percent : num.Carrier
  pub cpu_percent : num.Carrier
  pub disk_free_gb : num.Carrier
  pub disk_total_gb : num.Carrier
  pub disk_percent : num.Carrier
  pub uptime_human : String

-- GET /traffic/summary.
pub record Traffic (num : Number) : Type 0 where
  pub today_gb : num.Carrier
  pub last7days_gb : num.Carrier
  pub last30days_gb : num.Carrier
  pub current_month_gb : num.Carrier
  pub current_year_gb : num.Carrier

-- GET /clients: what this page reads of a client.
pub record Client (num : Number) : Type 0 where
  pub id : String
  pub username : String
  pub status : String
  pub group_name : String
  pub data_usage : num.Carrier
  pub data_limit : num.Carrier

-- GET /traffic/chart24h.
pub record Point (num : Number) : Type 0 where
  pub time : String
  pub traffic : num.Carrier

pub record State (num : Number) : Type 0 where
  pub dash : Option (Counts num)
  pub sys : Option (Machine num)
  pub clients : List (Client num)
  pub traffic_summary : Option (Traffic num)
  pub chart_data : List (Point num)

abbrev pub initial : (num : Number) → State num
initial num = record {
  dash = none;
  sys = none;
  clients = [];
  traffic_summary = none;
  chart_data = [];
}

pub data Request : Type 0 where
  get_dashboard get_system get_clients get_summary get_chart : Request

-- An answer that can be read, with the request that it belongs to.
pub data Answer (num : Number) : Type 0 where
  failed : Request → Answer num
  dashboard : Counts num → Answer num
  system : Machine num → Answer num
  clients_answer : List (Client num) → Answer num
  summary : Traffic num → Answer num
  chart : List (Point num) → Answer num

-- `fetchData`, on mount and every five seconds.
unfoldable pub fetch_data : List Request
fetch_data = get_dashboard ∷ get_system ∷ get_clients ∷ get_summary ∷ get_chart ∷ []

module _ {num : Number} where
  open num use {Carrier, of_nat, num_lt, over, times, to_text}

  unfoldable pub receive : Answer num → State num → State num
  receive (failed _) s = s
  receive (dashboard d) s = record s { dash = some d }
  receive (system m) s = record s { sys = some m }
  receive (clients_answer cs) s = record s { clients = cs }
  receive (summary t) s = record s { traffic_summary = some t }
  receive (chart ps) s = record s { chart_data = ps }

  -- The order that the comparison `b.dataUsage - a.dataUsage` gives to `sort`, which is stable: a
  -- client goes behind those who used more.
  unfoldable pub insert_client : Client num → List (Client num) → List (Client num)
  insert_client c [] = c ∷ []
  insert_client c (d ∷ ds) =
      let rest = insert_client c ds in
      if num_lt c.data_usage d.data_usage then d ∷ rest else c ∷ d ∷ ds

  unfoldable pub sorted_clients : List (Client num) → List (Client num)
  unfolding insert_client
  sorted_clients [] = []
  sorted_clients (c ∷ cs) = insert_client c (sorted_clients cs)

  -- `pct` and `barColor` of a row.
  unfoldable pub pct : Client num → Carrier
  pct c =
      if num_lt (of_nat 0) c.data_limit
      then num.minimum (times (over c.data_usage c.data_limit) (of_nat 100)) (of_nat 100)
      else of_nat 0
