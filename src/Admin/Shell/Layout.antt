-- ===== src/Admin/Shell/Layout.antt =====
-- components/Layout.tsx around a page, and the overlay of components/GlobalSearch.tsx. The items of
-- its list have no handler; which of them a third-party component shows for an input is left out.
use wow_vpn.Common.{String, Bool, true, false, List, [], ◌∷◌, map}
use wow_vpn.View.{Node, text, element, nodes, on_click, shown}
use wow_vpn.Admin.Shell.{Msg, go, open_search, close_search, sidebar_view, header_view}

-- `searchOpen` after a click in the frame.
unfoldable pub update : Msg → Bool → Bool
update (go path) search_open = search_open
update open_search search_open = true
update close_search search_open = false

search_item : String → Node Msg
search_item name = element "Command.Item" [] (nodes (text name ∷ []))

unfoldable pub search_view : Bool → List (Node Msg)
unfolding search_item
search_view search_open = shown search_open (
    element "div" [] (
      nodes (
        element "Command" [] (
          nodes (
            element "div" [] (
              nodes (
                element "Command.Input" [] (nodes [])
                ∷ element "button" (on_click close_search ∷ []) (nodes [])
                ∷ []))
            ∷ element "Command.List" [] (
                nodes (
                  element "Command.Empty" [] (nodes (text "No results found." ∷ []))
                  ∷ element "Command.Group" []
                      (nodes (map search_item ("user_premium_001" ∷ "user_family_vip" ∷ [])))
                  ∷ element "Command.Group" [] (
                      nodes
                        (map search_item ("node-eu-01 (Amsterdam)" ∷ "node-us-02 (New York)" ∷ [])))
                  ∷ []))
            ∷ []))
        ∷ []))
    ∷ [])

-- The frame, around what the route renders.
unfoldable pub layout_view : Node Msg → Bool → Node Msg
unfolding search_view
layout_view outlet search_open = element "div" [] (
    nodes (
      sidebar_view
      ∷ element "div" [] (nodes (header_view ∷ element "main" [] (nodes (outlet ∷ [])) ∷ []))
      ∷ search_view search_open))
