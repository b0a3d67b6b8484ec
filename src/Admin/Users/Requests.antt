-- ===== src/Admin/Users/Requests.antt =====
-- pages/Users.tsx: what reaches the server, from the click to the last answer.
use wow_vpn.Common.{
  ◌≡◌, refl, ◌∙◌, String, Bool, true, false, List, [], ◌∷◌, ◌++◌, map, length, Option, arith,
}
use wow_vpn.Common.Number.{Number}
use wow_vpn.Admin.Users.Types.{
  Form, State, Request, list_clients, delete_client, creating, bulk_deleting, Effect, start, Answer,
  failed, refused,
}
use wow_vpn.Admin.Users.Handlers.{
  answer, handle_bulk_delete, handle_create, create_from, created, bulk_step, fetch_users,
}

-- The requests among what a handler does.
abbrev pub requests : {num : Number} → List (Effect num) → List (Request num)
requests [] = []
requests (start j r ∷ es) = r ∷ requests es
requests (_ ∷ es) = requests es

-- The loop of handleBulkDelete to its end: the answers to its requests, one after the other. The
-- page does nothing else meanwhile.
abbrev pub drive :
    {num : Number}
    → List (Answer num)
    → State num × List (Effect num)
    → State num × List (Request num)
drive (a ∷ rest) (s, start (bulk_deleting ids) r ∷ []) =
    let (t, rs) = drive rest (answer (bulk_deleting ids) a s) in (t, r ∷ rs)
drive _ (s, es) = (s, requests es)

-- An answer that does not create the client.
abbrev pub IsRefusal : {num : Number} → Answer num → Type 0
IsRefusal failed = Unit
IsRefusal (refused _) = Unit
IsRefusal _ = ⊥

module _ {num : Number} where
  drive-bulk_step :
      (answers : List (Answer num)) (ids : List String) (s : State num)
      → length answers ≡ length ids
      → drive answers (bulk_step ids s)
        ≡ (record s { selected_users = [] }, map delete_client ids ++ list_clients ∷ [])
  unfolding bulk_step answer fetch_users
  drive-bulk_step [] [] s e = refl
  drive-bulk_step (a ∷ rest) [] s e = refl
  drive-bulk_step [] (id ∷ ids) s e = ground arith
  drive-bulk_step (a ∷ rest) (id ∷ ids) s e = ground (arith, drive-bulk_step rest ids s)

  -- A confirmed bulk removal that gets an answer to each of its requests, whatever the answers
  -- are, asks the server to delete every selected client, in the order of the selection, then
  -- clears the selection and asks for the list of clients again.
  pub drive-handle_bulk_delete :
      (answers : List (Answer num)) (s : State num)
      → length answers ≡ length s.selected_users
      → drive answers (handle_bulk_delete true s) ≡ (
        record s { selected_users = [] },
        map delete_client s.selected_users ++ list_clients ∷ [],
      )
  unfolding handle_bulk_delete
  drive-handle_bulk_delete answers s e = drive-bulk_step answers s.selected_users s e

  handle_create-state :
      (f : Option Form) (s : State num)
      → (create_from f s).0 ≡ record s { loading = (create_from f s).0.loading }
  unfolding create_from
  handle_create-state f s = ground arith

  created-IsRefusal :
      (a : Answer num) (b : Bool) (s : State num)
      → IsRefusal a
      → (created a (record s { loading = b })).0 ≡ record s { loading = false }
  unfolding created
  created-IsRefusal a b s r = ground arith

  not_loading : (s : State num) → s.loading ≡ false → record s { loading = false } ≡ s
  not_loading s e = ground arith

  -- On a page that is not loading: when the creation of a client fails or is refused, the page is
  -- as it was before the click on the button, with the sidebar open and what was typed in it.
  pub create-IsRefusal :
      (a : Answer num) (s : State num)
      → s.loading ≡ false
      → IsRefusal a
      → (answer creating a (handle_create s).0).0 ≡ s
  unfolding handle_create answer
  create-IsRefusal a s e r =
      rw (handle_create-state s.form s) (created-IsRefusal a _ s r ∙ not_loading s e)
