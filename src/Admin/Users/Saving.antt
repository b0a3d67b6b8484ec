-- ===== src/Admin/Users/Saving.antt =====
-- pages/Users.tsx: while a client is being saved, the page offers no second save.
use wow_vpn.Common.{
  String, Bool, true, false, ◌≡◌, refl, Option, none, some, List, [], ◌∷◌, ◌++◌, map, All-append,
  arith, length, ltb, not, ◌==◌,
}
use wow_vpn.Common.Number.{Number}
use wow_vpn.View.{clicks_all, nodes, shown, element, text, on_click}
use wow_vpn.View.Offers.{
  Offers, EachOffers, EachOffers-cons, EachOffers-append, EachOffers-shown, EachOffers-map,
}
use wow_vpn.Admin.Users.Types.{Client, State, QrModal}
use wow_vpn.Admin.Users.Panel.{displayed_users, has_filter}
use wow_vpn.Admin.Users.Screen
use wow_vpn.Admin.Users.Screen.{
  Msg, title_bar, bulk_bar, table_head, row, table, state_cells, data_cells, action_cell, is_empty,
  heading,
}
use wow_vpn.Admin.Users.Sidebar.{
  form_fields, key_block_of, footer_of, sidebar, panel, save_bar, qr_view, view, group_option,
  tariff_option,
}
use wow_vpn.Admin.Users.Page.{is_save}

module _ {num : Number} (s : State num) where
  -- What a message may be while the page is loading.
  abbrev pub IsFree : Msg num → Type 0
  IsFree m = is_save m ≡ true → s.loading ≡ false

  title_bar-IsFree : Offers IsFree (title_bar s)
  unfolding title_bar
  title_bar-IsFree =
      EachOffers-append IsFree (shown (has_filter s.group_filter) _) _
        (EachOffers-shown IsFree (has_filter s.group_filter) _ (λ e. cc, tt)) (λ e. cc, tt)

  bulk_bar-IsFree : Offers IsFree (bulk_bar s)
  unfolding bulk_bar
  bulk_bar-IsFree = (λ e. cc, tt)

  row-IsFree : (selected : List String) (u : Client num) → Offers IsFree (row selected u)
  unfolding row
  row-IsFree selected u = ground arith

  table-IsFree : Offers IsFree (table s)
  unfolding table table_head
  table-IsFree = (
    λ e. cc,
    All-append IsFree _ []
        (EachOffers-append IsFree (shown (is_empty (displayed_users s)) _) _
          (EachOffers-shown IsFree (is_empty (displayed_users s)) _ tt)
          (EachOffers-map IsFree (row s.selected_users) (displayed_users s)
            (row-IsFree s.selected_users)))
        tt,
  )

  form_fields-IsFree : Offers IsFree (form_fields s)
  unfolding form_fields tariff_option group_option
  form_fields-IsFree =
      All-append IsFree (clicks_all (nodes (map tariff_option s.templates))) _
        (EachOffers-map IsFree tariff_option s.templates (λ t. tt))
        (All-append IsFree (clicks_all (nodes (map group_option s.groups))) _
          (EachOffers-map IsFree group_option s.groups (λ g. tt)) tt)

  footer-IsFree :
      (b : Bool) (u : Option (Client num)) → s.loading ≡ b → EachOffers IsFree (footer_of b u)
  unfolding footer_of
  footer-IsFree true none e = tt
  footer-IsFree false none e = (λ _. e, tt)
  footer-IsFree true (some u) e = (λ p. cc, tt)
  footer-IsFree false (some u) e = (λ _. e, (λ p. cc, tt))

  key_block-IsFree : (u : Option (Client num)) → EachOffers IsFree (key_block_of u)
  unfolding key_block_of
  key_block-IsFree none = tt
  key_block-IsFree (some u) = EachOffers-shown IsFree (not (u.shade_link == "")) _ (λ e. cc, tt)

  save_bar-IsFree : Offers IsFree (save_bar s)
  unfolding save_bar
  save_bar-IsFree =
      EachOffers-append IsFree (footer_of s.loading s.selected_user)
        (element "button" (on_click Screen.close ∷ []) (nodes (text "Закрыть" ∷ [])) ∷ [])
        (footer-IsFree s.loading s.selected_user refl) (λ e. cc, tt)

  panel-IsFree : Offers IsFree (panel s)
  unfolding panel
  panel-IsFree = (
    λ e. cc,
    EachOffers-cons IsFree (form_fields s) (key_block_of s.selected_user ++ save_bar s ∷ [])
        form_fields-IsFree
        (EachOffers-append IsFree (key_block_of s.selected_user) (save_bar s ∷ [])
          (key_block-IsFree s.selected_user)
          (EachOffers-cons IsFree (save_bar s) [] save_bar-IsFree tt)),
  )

  sidebar-IsFree : EachOffers IsFree (sidebar s)
  unfolding sidebar
  sidebar-IsFree = (λ e. cc, EachOffers-cons IsFree (panel s) [] panel-IsFree tt)

  qr_view-IsFree : (q : Option QrModal) → EachOffers IsFree (qr_view {num = num} q)
  unfolding qr_view
  qr_view-IsFree none = tt
  qr_view-IsFree (some q) = (λ e. cc, (λ e. cc, tt))

  pub view-IsFree : Offers IsFree (view s)
  unfolding view
  view-IsFree =
      let bar = shown (ltb 0 (length s.selected_users)) (bulk_bar s ∷ []) in
      let side = shown s.sidebar_open (sidebar s) in
      let modal = qr_view s.qr_modal in
      EachOffers-cons IsFree (title_bar s) (bar ++ (table s ∷ (side ++ modal))) title_bar-IsFree (
        EachOffers-append IsFree bar (table s ∷ (side ++ modal))
          (EachOffers-shown IsFree (ltb 0 (length s.selected_users)) (bulk_bar s ∷ [])
            (EachOffers-cons IsFree (bulk_bar s) [] bulk_bar-IsFree tt))
          (EachOffers-cons IsFree (table s) (side ++ modal) table-IsFree (
            EachOffers-append IsFree side modal
              (EachOffers-shown IsFree s.sidebar_open (sidebar s) sidebar-IsFree)
              (qr_view-IsFree s.qr_modal))))
