-- ===== src/Admin/Dashboard/Figures.antt =====
-- The figures of pages/Home.tsx of the admin panel: number formats, the cards of the machine and
-- of the traffic.
use wow_vpn.Common.{String, Option, none, some, List, [], ◌∷◌, if◌then◌else◌, or_else, template}
use wow_vpn.Common.Number.{Number}
use wow_vpn.Admin.Dashboard.{Machine, Traffic}

pub record SystemCard : Type 0 where
  pub label : String
  pub content : String
  pub sub : String
  pub color : String

pub record BandwidthCard : Type 0 where
  pub period : String
  pub content : String
  pub color : String

module _ (num : Number) where
  open num use {Carrier, of_nat, num_le, num_lt, over, times, to_fixed, is_falsy}

  -- `record?.field || 0`.
  abbrev pub field_or_zero : {R : Type 0} → (R → Carrier) → Option R → Carrier
  field_or_zero field none = of_nat 0
  field_or_zero field (some r) = if is_falsy (field r) then of_nat 0 else field r

  unfoldable pub format_bytes : Carrier → String
  format_bytes gb =
      if num_le (of_nat 1024) gb
      then template (to_fixed 1 (over gb (of_nat 1024)) ∷ " TB" ∷ [])
      else if num_le (of_nat 1) gb
      then template (to_fixed 2 gb ∷ " GB" ∷ [])
      else if num_lt (of_nat 0) gb
      then template (to_fixed 1 (times gb (of_nat 1024)) ∷ " MB" ∷ [])
      else "0"

  unfoldable pub bar_color : Carrier → String
  bar_color p =
      if num_lt (of_nat 90) p
      then "#F43F5E"
      else if num_lt (of_nat 70) p
      then "#F59E0B"
      else "#10B981"

module _ {num : Number} where
  open num use {Carrier, to_text}

  -- `sys ? text : other`.
  abbrev pub sys_text : (Machine num → List String) → String → Option (Machine num) → String
  sys_text parts other none = other
  sys_text parts other (some m) = template (parts m)

  uptime : Option (Machine num) → String
  uptime none = "—"
  uptime (some m) = or_else m.uptime_human "—"

  unfoldable pub system_cards : Option (Machine num) → List SystemCard
  unfolding uptime
  system_cards sys =
      record {
        label = "Оперативная память";
        content =
            sys_text
              (λ m. to_text m.memory_used_gb ∷ " / " ∷ to_text m.memory_total_gb ∷ " GB" ∷ []) "—"
              sys;
        sub = sys_text (λ m. to_text m.memory_percent ∷ "%" ∷ []) "" sys;
        color = "#06B6D4";
      }
      ∷ record {
        label = "Загрузка ЦП";
        content = sys_text (λ m. to_text m.cpu_percent ∷ "%" ∷ []) "—" sys;
        sub = "";
        color = "#8B5CF6";
      }
      ∷ record {
        label = "Свободно на диске";
        content = sys_text (λ m. to_text m.disk_free_gb ∷ " GB" ∷ []) "—" sys;
        sub =
            sys_text
              (λ m. "из " ∷ to_text m.disk_total_gb ∷ " GB (" ∷ to_text m.disk_percent ∷ "%)" ∷ [])
              "" sys;
        color = "#10B981";
      }
      ∷ record { label = "Аптайм сервера"; content = uptime sys; sub = ""; color = "#F59E0B" }
      ∷ []

  bandwidth_card : String → String → (Traffic num → Carrier) → Option (Traffic num) → BandwidthCard
  unfolding format_bytes
  bandwidth_card period color field ts = record {
    period = period;
    content = format_bytes num (field_or_zero num field ts);
    color = color;
  }

  unfoldable pub bandwidth_cards : Option (Traffic num) → List BandwidthCard
  unfolding bandwidth_card
  bandwidth_cards ts =
      bandwidth_card "За сегодня" "#06B6D4" (λ t. t.today_gb) ts
      ∷ bandwidth_card "За 7 дней" "#10B981" (λ t. t.last7days_gb) ts
      ∷ bandwidth_card "За 30 дней" "#8B5CF6" (λ t. t.last30days_gb) ts
      ∷ bandwidth_card "Текущий месяц" "#F59E0B" (λ t. t.current_month_gb) ts
      ∷ bandwidth_card "Текущий год" "#10B981" (λ t. t.current_year_gb) ts
      ∷ []
