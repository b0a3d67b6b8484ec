-- ===== src/Admin/DashboardTests.antt =====
-- Concrete runs of the dashboard, the logs, the link list and the settings. Whole numbers stand for
-- JavaScript's.
use mathlib.Core.List.{Perm}
use wow_vpn.Common.{
  ℕ, ◌+◌, ◌*◌, ◌⊎◌, ◌≡◌, refl, ◌≢◌, String, true, some, List, [], ◌∷◌, Permᴰ, filter, length, arith,
  eq_iff, leb,
}
use wow_vpn.Common.Whole.{whole}
use wow_vpn.Admin.Dashboard
use wow_vpn.Admin.ConnectionLogs
use wow_vpn.Admin.ConfigProfiles
use wow_vpn.Admin.Settings

-- The dashboard: three clients, two of whom used the same.
abbrev used : String → ℕ → Dashboard.Client whole
used id usage = record {
  id = id;
  username = id;
  status = "online";
  group_name = "";
  data_usage = usage;
  data_limit = 10;
}

abbrev three : List (Dashboard.Client whole)
three = used "a" 1 ∷ used "b" 5 ∷ used "c" 1 ∷ []

whole_order : Dashboard.Sorting.OrderLaws whole
whole_order = record {
  lt-not-le = λ a b h k. ground arith;
  le-total = λ a b h k. ground arith;
  le-trans = λ a b c h k. ground arith;
}

sorted_clients-Falling_example :
    Perm (Dashboard.sorted_clients three) three
    × Dashboard.Sorting.Falling (Dashboard.sorted_clients three)
    × ((k : ℕ)
        → filter (Dashboard.Sorting.has_used k) (Dashboard.sorted_clients three)
          ≡ filter (Dashboard.Sorting.has_used k) three)
sorted_clients-Falling_example =
    Dashboard.Sorting.sorted_clients-Falling whole_order three (refl, (refl, (refl, tt)))

-- Every whole number is finite.
abbrev AnyWhole : ℕ → Type 0
AnyWhole n = Unit

nothing_below_zero : (n : ℕ) → leb 0 n ≡ true
nothing_below_zero n = ground arith

whole_minimum :
    (a b : ℕ)
    → ((whole.minimum a b ≡ a) × (leb a b ≡ true)) ⊎ ((whole.minimum a b ≡ b) × (leb b a ≡ true))
whole_minimum a b = ground arith

whole_ratio : Dashboard.Progress.RatioLaws whole AnyWhole
whole_ratio = record {
  of_nat-le = λ m n h. ground arith;
  over-nonneg = λ a b f h k. nothing_below_zero (whole.over a b);
  times-nonneg = λ a n h k. nothing_below_zero (a * n);
  minimum-cases = λ a b h k. whole_minimum a b;
}

pct-bounds_example :
    (leb 0 (Dashboard.pct (used "b" 5)) ≡ true) × (leb (Dashboard.pct (used "b" 5)) 100 ≡ true)
pct-bounds_example = Dashboard.Progress.pct-bounds whole_ratio (used "b" 5) tt refl

-- The chart comes before or after the clients.
abbrev chart_answer : Dashboard.Answer whole
chart_answer = Dashboard.Answer.chart (record { time = "10:00"; traffic = 3 } ∷ [])

chart_apart :
    Dashboard.Answers.asked_by chart_answer
    ≢ Dashboard.Answers.asked_by (Dashboard.Answer.clients_answer three)
chart_apart e = ground arith

receive_all-perm_example :
    Dashboard.Answers.receive_all
      (chart_answer ∷ Dashboard.Answer.clients_answer three ∷ [])
      (Dashboard.initial whole)
    ≡ Dashboard.Answers.receive_all
        (Dashboard.Answer.clients_answer three ∷ chart_answer ∷ [])
        (Dashboard.initial whole)
receive_all-perm_example =
    Dashboard.Answers.receive_all-perm (chart_answer ∷ Dashboard.Answer.clients_answer three ∷ [])
      (Dashboard.Answer.clients_answer three ∷ chart_answer ∷ []) (Dashboard.initial whole)
      (Permᴰ.swap refl refl) ((chart_apart, tt), (tt, tt))

-- The logs of one client, every row at the same time.
abbrev noon : ℕ → String
noon back = "12:00"

abbrev one_client : List ConnectionLogs.Client
one_client = record { username = "ann" } ∷ []

generated-Names_example :
    (logs : List ConnectionLogs.Log) × (ConnectionLogs.generated noon one_client ≡ some logs)
    × ConnectionLogs.Laws.Names noon logs 0 (record { username = "ann" })
    × ConnectionLogs.Laws.Names noon logs (0 + length one_client) (record { username = "ann" })
generated-Names_example =
    ConnectionLogs.Laws.generated-Names noon one_client 0 (record { username = "ann" }) refl

-- A link is copied, and its mark goes again.
abbrev ann : ConfigProfiles.Client
ann = record {
  id = "1";
  username = "ann";
  protocol = "shade";
  vpn_ip = "10.0.0.2";
  status = "online";
  shade_link = "shade://k";
}

abbrev unmarked : ConfigProfiles.State
unmarked =
    ConfigProfiles.copied_timer
      (ConfigProfiles.copy_key true "shade://k" "ann" ConfigProfiles.initial).0

unmarked_reached : ConfigProfiles.Laws.Reach unmarked
unmarked_reached =
    ConfigProfiles.Laws.Reach.expired
      (ConfigProfiles.Laws.Reach.copied true "shade://k" "ann" ConfigProfiles.Laws.Reach.start)

unmarked_timers : unmarked.copied.timers ≡ 0
unfolding ConfigProfiles.copied_timer ConfigProfiles.copy_key
unmarked_timers = refl

ann_named : ann.username ≢ ""
ann_named e = ground (arith, eq_iff ann.username "")

copy_label-settled_example : ConfigProfiles.Screen.copy_label unmarked ann ≡ "Скопировать ключ"
copy_label-settled_example =
    ConfigProfiles.Laws.copy_label-settled unmarked ann unmarked_reached unmarked_timers ann_named

-- The settings come with another port than 443, after the inputs were mounted.
abbrev stays : Settings.Redefault
stays = record { text_after = λ now new. now; checked_after = λ now new. new }

abbrev stored : Settings.Stored
stored = record Settings.nothing_stored {
  server_port = some "8443";
  stealth_domain = some "www.example.com";
}

abbrev loaded : Settings.State
loaded = Settings.load stays (some stored) Settings.mount

stays-Keeps : Settings.Laws.Keeps stays
stays-Keeps now new h = refl

save_server-Untouched_example :
    (Settings.save_server loaded).data_sent
    ≡ ("server_port", "443")
      ∷ ("stealth_domain", "www.apple.com")
      ∷ ("logging_enabled", Settings.Laws.bool_text loaded.inputs.logging)
      ∷ []
save_server-Untouched_example =
    Settings.Laws.save_server-Untouched stays loaded stays-Keeps
      (Settings.Laws.Untouched.loaded (some stored) Settings.Laws.Untouched.opened)
