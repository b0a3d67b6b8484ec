-- ===== src/Admin/Users/Listing.antt =====
-- pages/Users.tsx as a page that lists the server's clients. What it asks about groups and tariffs is
-- left out; it does not touch the clients.
use wow_vpn.Common.{◌≡◌, refl, ◌≢◌, String, Bool, true, false, Option, List, [], ◌∷◌, arith}
use wow_vpn.Common.Number.{Number}
use wow_vpn.Admin.ListPage.{ListPage, World, Reach, Reply, listed, done}
use wow_vpn.Admin.ListPage.Settled.{settled}
use wow_vpn.Admin.Users.Types.{
  Client, Form, State, Job, loading_clients, loading_groups, loading_templates, toggling, creating,
  updating, deleting, bulk_deleting, Effect, start, alert, copy, Request, Answer, clients, ok,
}
use wow_vpn.Admin.Users.Handlers.{
  answer, create_from, handle_create, handle_update, handle_delete, handle_bulk_delete,
  handle_toggle, bulk_step, fetch_data,
}
use wow_vpn.Admin.Users.Panel.{
  open_new, close_sidebar, toggle_select_all, close_qr, toggle_user_selection, open_user_details,
  show_qr, select_group, handle_template_change,
}
use wow_vpn.Admin.Users.Page.{Browser, update}
use wow_vpn.Admin.Users.Screen
use wow_vpn.Admin.Users.Screen.{Msg}

-- Whether a job is about the clients.
abbrev pub concerns : Job → Bool
concerns loading_groups = false
concerns loading_templates = false
concerns _ = true

abbrev pub loads : Job → Bool
loads loading_clients = true
loads _ = false

abbrev pub Command : Number → Type 0
Command num = (j : Job) × Request num × (concerns j ≡ true)

-- The requests about the clients among what a handler does, each with the rest of its handler.
abbrev pub commands : {num : Number} → List (Effect num) → List (Command num)
commands [] = []
commands (start loading_clients r ∷ es) = (loading_clients, r, refl) ∷ commands es
commands (start loading_groups r ∷ es) = commands es
commands (start loading_templates r ∷ es) = commands es
commands (start toggling r ∷ es) = (toggling, r, refl) ∷ commands es
commands (start creating r ∷ es) = (creating, r, refl) ∷ commands es
commands (start updating r ∷ es) = (updating, r, refl) ∷ commands es
commands (start (deleting id) r ∷ es) = (deleting id, r, refl) ∷ commands es
commands (start (bulk_deleting ids) r ∷ es) = (bulk_deleting ids, r, refl) ∷ commands es
commands (alert _ ∷ es) = commands es
commands (copy _ ∷ es) = commands es

-- What happens on the page: a message of what is rendered, or a round of the interval.
pub data Happening (num : Number) : Type 0 where
  used : Browser → Msg num → Happening num
  polled : Happening num

abbrev pub answer_of : {num : Number} → Reply (Client num) → Answer num
answer_of (listed xs) = clients xs
answer_of done = ok

module _ (num : Number) (date_value : String → String) where
  unfoldable pub act : Happening num → State num → State num × List (Command num)
  act (used browser m) s = let (t, es) = update date_value browser m s in (t, commands es)
  act polled s = (s, commands fetch_data)

  unfoldable pub receive :
      Command num → Reply (Client num) → State num → State num × List (Command num)
  receive (j, q, about) r s = let (t, es) = answer j (answer_of r) s in (t, commands es)

  create_from-users : (f : Option Form) (s : State num) → (create_from f s).0.users ≡ s.users
  unfolding create_from
  create_from-users f s = ground arith

  bulk_step-users : (ids : List String) (s : State num) → (bulk_step ids s).0.users ≡ s.users
  unfolding bulk_step
  bulk_step-users ids s = ground arith

  bulk_delete-users : (sure : Bool) (s : State num) → (handle_bulk_delete sure s).0.users ≡ s.users
  unfolding handle_bulk_delete
  bulk_delete-users true s = bulk_step-users s.selected_users s
  bulk_delete-users false s = refl

  update-users :
      (browser : Browser) (m : Msg num) (s : State num)
      → (update date_value browser m s).0.users ≡ s.users
  unfolding update handle_create handle_update handle_delete handle_bulk_delete handle_toggle
      open_new close_sidebar toggle_select_all close_qr toggle_user_selection open_user_details
      show_qr select_group handle_template_change
  update-users browser Screen.save_new s = create_from-users s.form s
  update-users browser Screen.save_changes s = ground arith
  update-users browser Screen.bulk_remove s = bulk_delete-users browser.confirmed s
  update-users browser m s = ground arith

  pub users-act : (a : Happening num) (s : State num) → (act a s).0.users ≡ s.users
  unfolding act
  users-act (used browser m) s = update-users browser m s
  users-act polled s = refl

  pub users-receive :
      (c : Command num) (xs : List (Client num)) (s : State num)
      → loads c.0 ≡ true
      → (receive c (listed xs) s).0.users ≡ xs
  unfolding receive answer
  users-receive (loading_clients, q, about) xs s e = refl
  users-receive (j, q, about) xs s e = ground arith

  bulk_step-starts : (ids : List String) (s : State num) → commands (bulk_step ids s).1 ≢ []
  unfolding bulk_step
  bulk_step-starts [] s e = ground arith
  bulk_step-starts (id ∷ ids) s e = ground arith

  pub receive-starts :
      (c : Command num) (s : State num) → loads c.0 ≡ false → (receive c done s).1 ≢ []
  unfolding receive answer
  receive-starts (loading_clients, q, about) s e = cc
  receive-starts (loading_groups, q, about) s e = cc
  receive-starts (loading_templates, q, about) s e = cc
  receive-starts (toggling, q, about) s e = λ z. ground arith
  receive-starts (creating, q, about) s e = λ z. ground arith
  receive-starts (updating, q, about) s e = λ z. ground arith
  receive-starts (deleting id, q, about) s e = λ z. ground arith
  receive-starts (bulk_deleting ids, q, about) s e = bulk_step-starts ids s

  abbrev pub users_page : ListPage
  users_page = record {
    Item = Client num;
    State = State num;
    Command = Command num;
    Action = Happening num;
    list_of = λ s. s.users;
    is_load = λ c. loads c.0;
    act = act;
    answered = receive;
    list_of-act = users-act;
    list_of-listed = users-receive;
    done-starts = receive-starts;
  }

  -- With answers in the order of the requests, none of them a failure or a refusal, and no one else
  -- changing the server's clients: whatever is clicked and typed, and however often the page polls,
  -- when everything asked about the clients has been answered, the page lists the server's clients.
  pub users-settled :
      (change : Command num → List (Client num) → List (Client num)) (w : World users_page)
      → Reach users_page change w
      → w.asked ≡ []
      → w.replies ≡ []
      → w.state.users ≡ w.records
  users-settled = settled users_page
