-- ===== src/Admin/Groups/Screen/Laws.antt =====
-- What the page of the groups offers.
use wow_vpn.Common.{
  ◌≡◌, refl, String, false, some, List, [], ◌∷◌, ◌++◌, map, arith, nat_eq, length, ◌≢◌, ℕ, suc,
  eq_iff, ◌==◌,
}
use mathlib.Core.List.{append-nil, append_assoc}
use wow_vpn.View.{Node, clicks_all, nodes}
use wow_vpn.Admin.Groups.{Group, Client, State}
use wow_vpn.Admin.Groups.Screen.{
  Msg, close_panel, assign, choose, client_row, assign_buttons, choice_of, name_of, assign_panel,
}

-- What the assignment panel should offer: a checkbox for each client and, once one is chosen, the
-- assignment.
abbrev pub panel_offer : List Client → List String → List Msg
panel_offer [] selected = close_panel ∷ []
panel_offer clients [] = close_panel ∷ (map (λ c. choose c.id) clients ++ close_panel ∷ [])
panel_offer clients selected =
    close_panel ∷ (map (λ c. choose c.id) clients ++ assign ∷ close_panel ∷ [])

clicks_all-client_row :
    (selected : List String) (cs : List Client)
    → clicks_all (nodes (map (client_row selected) cs)) ≡ map (λ c. choose c.id) cs
unfolding client_row
clicks_all-client_row selected [] = refl
clicks_all-client_row selected (c ∷ cs) = rw (clicks_all-client_row selected cs)

clicks_all-append :
    (xs ys : List (Node Msg))
    → clicks_all (nodes (xs ++ ys)) ≡ clicks_all (nodes xs) ++ clicks_all (nodes ys)
clicks_all-append [] ys = refl
clicks_all-append (x ∷ xs) ys = simp (clicks_all-append xs ys, append_assoc)

clicks_all-name_of : (id : String) (gs : List Group) → clicks_all (nodes (name_of id gs)) ≡ []
unfolding name_of
clicks_all-name_of id [] = refl
clicks_all-name_of id (g ∷ gs) = ground (arith, clicks_all-name_of id gs)

chosen : (n : ℕ) → nat_eq (suc n) 0 ≡ false
chosen n = ground arith

clicks_all-choice_of :
    (cs : List Client) (selected : List String)
    → close_panel ∷ clicks_all (nodes (choice_of cs selected)) ≡ panel_offer cs selected
unfolding choice_of assign_buttons
clicks_all-choice_of [] selected = refl
clicks_all-choice_of (c ∷ cs) [] = rw (clicks_all-client_row [] (c ∷ cs)) refl
clicks_all-choice_of (c ∷ cs) (i ∷ is) =
    rw (chosen (length is), clicks_all-client_row (i ∷ is) (c ∷ cs)) refl

not_empty : {id : String} → id ≢ "" → (id == "") ≡ false
not_empty {id} known = ground (arith, eq_iff id "")

-- The open panel offers to close it, a checkbox for each client, and, if there is a client, to close
-- it once more; the button that assigns works only once a client is chosen.
pub clicks_all-assign_panel :
    (id : String) (s : State)
    → id ≢ ""
    → clicks_all (nodes (assign_panel (some id) s)) ≡ panel_offer s.clients s.selected_clients
unfolding assign_panel
clicks_all-assign_panel id s known =
    rw (not_empty known) simp
      (clicks_all-append, clicks_all-name_of, append-nil, clicks_all-choice_of)
