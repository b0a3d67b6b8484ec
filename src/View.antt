-- ===== src/View.antt =====
-- What a component renders: JSX as a tree of elements. A node keeps its tag, its texts, and the
-- attributes that carry behaviour or depend on the state: handlers, `disabled`, `checked`, values,
-- and the class or style that the state selects (`tone`). Class names, icons, animations and
-- placeholders that never change are left out. A handler is the message that it sends.
pub mod Offers
use wow_vpn.Common.{Bool, true, false, String, List, [], ◌∷◌, ◌++◌}

pub data Attr (M : Type 0) : Type 0 where
  on_click : M → Attr M
  on_submit : M → Attr M
  on_change : (String → M) → Attr M
  disabled : Bool → Attr M
  checked : Bool → Attr M
  value : String → Attr M
  tone : String → Attr M

mutual
  pub data Node (M : Type 0) : Type 0 where
    text : String → Node M
    element : String → List (Attr M) → Nodes M → Node M

  pub data Nodes (M : Type 0) : Type 0 where
    nil : Nodes M
    cons : Node M → Nodes M → Nodes M

module _ {M : Type 0} where
  abbrev pub nodes : List (Node M) → Nodes M
  nodes [] = nil
  nodes (x ∷ xs) = cons x (nodes xs)

  -- `{test && <…/>}`.
  abbrev pub shown : Bool → List (Node M) → List (Node M)
  shown true xs = xs
  shown false xs = []

  abbrev pub is_disabled : List (Attr M) → Bool
  is_disabled [] = false
  is_disabled (disabled b ∷ rest) = b
  is_disabled (_ ∷ rest) = is_disabled rest

  abbrev click_handlers : List (Attr M) → List M
  click_handlers [] = []
  click_handlers (on_click m ∷ rest) = m ∷ click_handlers rest
  click_handlers (_ ∷ rest) = click_handlers rest

  abbrev pub own_clicks : List (Attr M) → List M
  own_clicks attrs = elim (is_disabled attrs) [ true ↦ [] | false ↦ click_handlers attrs ]

abbrev mutual
  -- The messages that the user can send by a click: those of every element that is not disabled.
  pub clicks : {M : Type 0} → Node M → List M
  clicks (text s) = []
  clicks (element tag attrs xs) = own_clicks attrs ++ clicks_all xs

  pub clicks_all : {M : Type 0} → Nodes M → List M
  clicks_all nil = []
  clicks_all (cons x xs) = clicks x ++ clicks_all xs
