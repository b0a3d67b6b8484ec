-- ===== src/Admin/Cards.antt =====
-- components/MetricCard.tsx and components/BandwidthCard.tsx, which no page uses yet. A sparkline is
-- drawn by a third-party component from the list that it is given.
use wow_vpn.Common.{String, Option, none, some, List, [], ◌∷◌}
use wow_vpn.Common.Number.{Number}
use wow_vpn.View.{Node, text, element, nodes, tone}

pub data Direction : Type 0 where
  up down : Direction

pub record Trend : Type 0 where
  pub direction : Direction
  pub change : String

pub data Variant : Type 0 where
  plain success destructive : Variant

pub record MetricCard (num : Number) : Type 0 where
  pub label : String
  pub content : String
  pub trend : Option Trend
  pub sparkline_data : Option (List num.Carrier)
  -- `none` is a property that is left out, which stands for "default".
  pub variant : Option Variant

pub record BandwidthCard : Type 0 where
  pub period : String
  pub content : String
  pub trend : Trend

variant_colors : Variant → String
variant_colors plain = "border-primary/30 bg-gradient-to-br from-card to-card/50"
variant_colors success = "border-[#10B981]/30 bg-gradient-to-br from-card to-[#10B981]/5"
variant_colors destructive = "border-[#F43F5E]/30 bg-gradient-to-br from-card to-[#F43F5E]/5"

variant_or_default : Option Variant → Variant
variant_or_default none = plain
variant_or_default (some v) = v

direction_color : Direction → String
direction_color up = "text-[#10B981]"
direction_color down = "text-[#F43F5E]"

direction_icon : Direction → String
direction_icon up = "TrendingUp"
direction_icon down = "TrendingDown"

module _ {M : Type 0} where
  trend_view : Trend → Node M
  unfolding direction_color direction_icon
  trend_view t = element "div" (tone (direction_color t.direction) ∷ []) (
      nodes (
        element (direction_icon t.direction) [] (nodes [])
        ∷ element "span" [] (nodes (text t.change ∷ []))
        ∷ []))

  trend_part : Option Trend → List (Node M)
  unfolding trend_view
  trend_part none = []
  trend_part (some t) = trend_view t ∷ []

  sparkline_part : {A : Type 0} → (List A → Node M) → Option (List A) → List (Node M)
  sparkline_part draw none = []
  sparkline_part draw (some xs) = element "div" [] (nodes (draw xs ∷ [])) ∷ []

  unfoldable pub metric_card :
      {num : Number} → (List num.Carrier → Node M) → MetricCard num → Node M
  unfolding variant_colors variant_or_default trend_part sparkline_part
  metric_card draw card =
      element "div" (tone (variant_colors (variant_or_default card.variant)) ∷ []) (
        nodes (
          element "div" [] (
            nodes (
              element "div" [] (nodes (element "Icon" [] (nodes []) ∷ [])) ∷ trend_part card.trend))
          ∷ element "div" [] (
              nodes (
                element "p" [] (nodes (text card.label ∷ []))
                ∷ element "p" [] (nodes (text card.content ∷ []))
                ∷ []))
          ∷ sparkline_part draw card.sparkline_data))

  unfoldable pub bandwidth_card : BandwidthCard → Node M
  unfolding trend_view
  bandwidth_card card = element "div" [] (
      nodes (
        element "p" [] (nodes (text card.period ∷ []))
        ∷ element "div" []
            (nodes (element "p" [] (nodes (text card.content ∷ [])) ∷ trend_view card.trend ∷ []))
        ∷ []))
