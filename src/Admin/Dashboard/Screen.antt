-- ===== src/Admin/Dashboard/Screen.antt =====
-- What pages/Home.tsx of the admin panel renders. The charts are third-party components: what they
-- draw of their data is a parameter.
use wow_vpn.Common.{
  String, List, [], ◌∷◌, map, length, nat_eq, not, Option, none, some, ◌==◌, if◌then◌else◌, or_else,
  template,
}
use wow_vpn.Common.Number.{Number}
use wow_vpn.View.{Node, text, element, nodes, shown, tone}
use wow_vpn.Admin.Dashboard.{Counts, Client, Point, State, sorted_clients, pct}
use wow_vpn.Admin.Dashboard.Figures.{
  SystemCard, BandwidthCard, system_cards, bandwidth_cards, field_or_zero, format_bytes, bar_color,
}

pub record Slice (num : Number) : Type 0 where
  pub name : String
  pub content : num.Carrier
  pub color : String

pub record PieChart (num : Number) : Type 0 where
  pub title : String
  pub slices : List (Slice num)

pub record Charts (num : Number) (M : Type 0) : Type 0 where
  pub area : List (Point num) → Node M
  pub pie : List (Slice num) → Node M

module _ {M : Type 0} where
  unfoldable pub system_card : SystemCard → Node M
  system_card card = element "div" [] (
      nodes (
        element "p" [] (nodes (text card.label ∷ []))
        ∷ element "div" (tone (template (card.color ∷ "20" ∷ [])) ∷ []) (nodes [])
        ∷ element "p" [] (nodes (text card.content ∷ []))
        ∷ shown (not (card.sub == "")) (element "p" [] (nodes (text card.sub ∷ [])) ∷ [])))

  unfoldable pub bandwidth_card_view : BandwidthCard → Node M
  bandwidth_card_view card = element "div" [] (
      nodes (
        element "p" [] (nodes (text card.period ∷ []))
        ∷ element "div" (tone (template (card.color ∷ "20" ∷ [])) ∷ []) (nodes [])
        ∷ element "p" [] (nodes (text card.content ∷ []))
        ∷ []))

  head_cell : String → Node M
  head_cell title = element "th" [] (nodes (text title ∷ []))

  unfoldable pub section : String → List (Node M) → Node M
  section title content =
      element "section" [] (nodes (element "h2" [] (nodes (text title ∷ [])) ∷ content))

module _ {num : Number} where
  open num use {of_nat, num_le, to_text, to_fixed}

  slice : String → String → (Counts num → num.Carrier) → Option (Counts num) → Slice num
  slice name color field dash = record {
    name = name;
    content = field_or_zero num field dash;
    color = color;
  }

  unfoldable pub pie_charts : Option (Counts num) → List (PieChart num)
  unfolding slice
  pie_charts dash =
      record {
        title = "Статус подписок";
        slices =
            slice "Активные" "#10B981" (λ d. d.enabled_clients) dash
            ∷ slice "Отключены" "#F43F5E" (λ d. d.disabled_clients) dash
            ∷ [];
      }
      ∷ record {
        title = "Текущий онлайн";
        slices =
            slice "В сети" "#06B6D4" (λ d. d.online_clients) dash
            ∷ slice "Офлайн" "#334155" (λ d. d.offline_clients) dash
            ∷ [];
      }
      ∷ record {
        title = "Трафик за 24 часа";
        slices =
            slice "Был трафик" "#8B5CF6" (λ d. d.active_24h) dash
            ∷ slice "Не было" "#475569" (λ d. d.inactive_24h) dash
            ∷ [];
      }
      ∷ []

  -- What the area chart is given: one point at 0 in the place of no data.
  unfoldable pub chart_points : List (Point num) → List (Point num)
  chart_points [] = record { time = "—"; traffic = of_nat 0 } ∷ []
  chart_points (p ∷ ps) = p ∷ ps

  module _ {M : Type 0} where
    badges : Option (Counts num) → List (Node M)
    badges none = []
    badges (some d) =
        element "div" [] (
          nodes (
            element "span" [] (
              nodes (
                text "👥 Клиентов: "
                ∷ text (to_text (field_or_zero num (λ c. c.total_clients) (some d)))
                ∷ []))
            ∷ element "span" [] (
                nodes (
                  text "✅ Активных: "
                  ∷ text (to_text (field_or_zero num (λ c. c.enabled_clients) (some d)))
                  ∷ []))
            ∷ element "span" [] (
                nodes (
                  text "⬇ "
                  ∷ text (format_bytes num (field_or_zero num (λ c. c.download_gb) (some d)))
                  ∷ []))
            ∷ element "span" [] (
                nodes (
                  text "⬆ "
                  ∷ text (format_bytes num (field_or_zero num (λ c. c.upload_gb) (some d)))
                  ∷ []))
            ∷ []))
        ∷ []

    slice_view : Slice num → Node M
    slice_view item = element "div" [] (
        nodes (
          element "div" (tone item.color ∷ []) (nodes [])
          ∷ element "span" [] (nodes (text item.name ∷ []))
          ∷ element "span" [] (nodes (text (to_text item.content) ∷ []))
          ∷ []))

    pie_view : Charts num M → PieChart num → Node M
    unfolding slice_view
    pie_view charts chart = element "div" [] (
        nodes (
          element "h3" [] (nodes (text chart.title ∷ []))
          ∷ charts.pie chart.slices
          ∷ element "div" [] (nodes (map slice_view chart.slices))
          ∷ []))

    unfoldable pub client_row : Client num → Node M
    client_row c = element "tr" [] (
        nodes (
          element "td" [] (nodes (text c.username ∷ []))
          ∷ element "td" [] (
              nodes (
                element "span"
                  (tone (
                      if c.status == "online"
                      then "bg-[#10B981]/20 text-[#10B981]"
                      else "bg-muted text-muted-foreground")
                    ∷ [])
                  (nodes (text (if c.status == "online" then "АКТИВЕН" else "ЗАБЛОКИРОВАН") ∷ []))
                ∷ []))
          ∷ element "td" [] (nodes (text (or_else c.group_name "—") ∷ []))
          ∷ element "td" [] (nodes (text (format_bytes num c.data_usage) ∷ []))
          ∷ element "td" [] (
              nodes (
                text (
                  if num_le (of_nat 999) c.data_limit
                  then "Безлимит"
                  else template (to_text c.data_limit ∷ " GB" ∷ []))
                ∷ []))
          ∷ element "td" [] (
              nodes (
                element "div"
                  (tone (template (to_text (pct c) ∷ "%" ∷ [])) ∷ tone (bar_color num (pct c)) ∷ [])
                  (nodes [])
                ∷ element "span" [] (nodes (text (template (to_fixed 0 (pct c) ∷ "%" ∷ [])) ∷ []))
                ∷ []))
          ∷ []))

    unfoldable pub traffic_table : List (Client num) → List (Node M)
    unfolding head_cell
    traffic_table clients = shown (not (nat_eq (length clients) 0)) (
        element "section" [] (
          nodes (
            element "h2" [] (nodes (text "ТРАФИК ПО КЛИЕНТАМ" ∷ []))
            ∷ element "table" [] (
                nodes (
                  element "thead" [] (
                    nodes (
                      map head_cell (
                        "КЛИЕНТ" ∷ "СТАТУС" ∷ "ГРУППА" ∷ "ИСПОЛЬЗОВАНО" ∷ "ЛИМИТ" ∷ "ПРОГРЕСС"
                        ∷ [])))
                  ∷ element "tbody" [] (nodes (map client_row (sorted_clients clients)))
                  ∷ []))
            ∷ []))
        ∷ [])

    unfoldable pub home_view : Charts num M → State num → Node M
    unfolding badges pie_view section
    home_view charts s = element "div" [] (
        nodes (
          element "div" [] (
            nodes (
              element "h1" [] (nodes (text "Командный центр" ∷ []))
              ∷ element "p" []
                  (nodes (text "Мониторинг инфраструктуры ShadeVPN в реальном времени" ∷ []))
              ∷ badges s.dash))
          ∷ section "НАГРУЗКА НА СИСТЕМУ" (map system_card (system_cards s.sys))
          ∷ section "ПОТРЕБЛЕНИЕ ТРАФИКА"
              (map bandwidth_card_view (bandwidth_cards s.traffic_summary))
          ∷ section "ТРАФИК (ЗА 24 ЧАСА)" (
              charts.area (chart_points s.chart_data)
              ∷ shown (nat_eq (length s.chart_data) 0) (
                  element "p" []
                    (nodes (text "Нет данных — график заполнится после подключения к VPS" ∷ []))
                  ∷ []))
          ∷ section "СТАТИСТИКА ОНЛАЙНА" (map (pie_view charts) (pie_charts s.dash))
          ∷ traffic_table s.clients))
