-- ===== src/Admin/Tests.antt =====
-- Concrete runs of the admin panel.
use wow_vpn.Common.{
  ℕ, ◌≡◌, refl, ◌≢◌, ◌⊎◌, String, true, false, not, ◌&&◌, none, some, List, [], ◌∷◌, map, Memᴰ,
  includes, includes_text, decimal,
}
use wow_vpn.Common.Whole.{whole}
use wow_vpn.View.{clicks}
use wow_vpn.Admin.Auth
use wow_vpn.Admin.Users

-- Signing in: a password is typed and sent, and the server takes it.
abbrev address : String
address = "https://panel.example/"

abbrev waiting : Auth.State
waiting = Auth.submit (Auth.type_password "pw" (Auth.load none address))

abbrev signed_in : Auth.State
signed_in = Auth.login_answer (Auth.Answer.response 200) waiting

signed_in_reached : Auth.Laws.Reach signed_in
signed_in_reached =
    Auth.Laws.Reach.answered (Auth.Answer.response 200)
      (Auth.Laws.Reach.submitted (Auth.Laws.Reach.typed "pw" (Auth.Laws.Reach.start none address)))

signed_in_page : signed_in.page ≡ Auth.Page.console
unfolding Auth.login_answer Auth.submit Auth.type_password Auth.load
signed_in_page = refl

console_needs_token_example :
    (Auth.is_set signed_in.token ≡ true)
    ⊎ ((signed_in.reload_due ≡ true)
        × ((Auth.reload signed_in).page ≡ Auth.Page.login Auth.new_form))
console_needs_token_example =
    Auth.Laws.console_needs_token signed_in signed_in_reached signed_in_page

abbrev sending : Auth.LoginForm
sending = record { password = "pw"; error = ""; sent = some "pw" }

waiting_page : waiting.page ≡ Auth.Page.login sending
unfolding Auth.submit Auth.type_password Auth.load
waiting_page = refl

waiting_href : includes_text waiting.href "login" ≡ false
unfolding Auth.submit Auth.type_password Auth.load includes_text
waiting_href = refl

abbrev unauthorized : ℕ
unauthorized = 401

login_answer_refused_example :
    ((unauthorized ≡ 401)
      × (Auth.reload (Auth.login_answer (Auth.Answer.response 401) waiting)
          ≡ Auth.load none address))
    ⊎ ((unauthorized ≢ 401)
        × (Auth.login_answer (Auth.Answer.response 401) waiting ≡ record waiting {
          page = Auth.Page.login (record sending { error = "Неверный пароль"; sent = none });
        }))
unfolding Auth.submit Auth.type_password Auth.load
login_answer_refused_example =
    Auth.Laws.login_answer_refused waiting sending "pw" unauthorized waiting_page refl refl
      waiting_href

-- The page of the clients, with two of them.
abbrev client : String → String → Users.Types.Client whole
client id group = record {
  id = id;
  username = "user";
  telegram_id = "";
  status = "online";
  is_online = true;
  protocol = "shade";
  data_usage = 1;
  data_limit = 0;
  group_id = group;
  group_name = "VIP";
  subscription_end = "2026-12-31";
  shade_link = "shade://k";
}

abbrev page : Users.Types.State whole
page = record {
  users = client "a" "g1" ∷ client "b" "g2" ∷ [];
  groups = [];
  templates = [];
  selected_users = "a" ∷ "b" ∷ [];
  sidebar_open = false;
  selected_user = none;
  loading = false;
  selected_group_id = "g2";
  qr_modal = none;
  misread = Users.Types.none_misread;
  form = none;
  group_filter = none;
}

-- Both clients that are displayed are selected.
both_selected : Users.Selection.IsOfDisplayed page
unfolding Users.Panel.displayed_users Users.Selection.includes_all
both_selected = record {
  once = (refl, (refl, tt));
  displayed_once = (refl, (refl, tt));
  among = refl;
}

includes-toggle_select_all_example :
    includes (Users.Panel.toggle_select_all page).selected_users "a"
    ≡ not (
        Users.Selection.includes_all
          (map (λ u. u.id) (Users.Panel.displayed_users page))
          page.selected_users)
      && includes (map (λ u. u.id) (Users.Panel.displayed_users page)) "a"
includes-toggle_select_all_example =
    Users.Selection.includes-toggle_select_all "a" page both_selected

drive-handle_bulk_delete_example :
    Users.Requests.drive
      (Users.Types.Answer.failed ∷ Users.Types.Answer.ok ∷ [])
      (Users.Handlers.handle_bulk_delete true page)
    ≡ (
      record page { selected_users = [] },
      Users.Types.Request.delete_client "a"
          ∷ Users.Types.Request.delete_client "b"
          ∷ Users.Types.Request.list_clients
          ∷ [],
    )
drive-handle_bulk_delete_example =
    Users.Requests.drive-handle_bulk_delete (Users.Types.Answer.failed ∷ Users.Types.Answer.ok ∷ [])
      page refl

abbrev naming : Users.Types.State whole
naming = record page {
  sidebar_open = true;
  form = some (record { name = "new"; telegram = ""; limit = "50"; date = "" });
}

create-IsRefusal_example :
    (Users.Handlers.answer Users.Types.Job.creating
      (Users.Types.Answer.refused "taken")
      (Users.Handlers.handle_create naming).0).0
    ≡ naming
create-IsRefusal_example =
    Users.Requests.create-IsRefusal (Users.Types.Answer.refused "taken") naming refl tt

-- The browser's date input takes the date as it is.
abbrev same_date : String → String
same_date d = d

handle_update-open_user_details_example :
    (Users.Handlers.handle_update
      (Users.Panel.open_user_details same_date (client "a" "g1") page)).1
    ≡ Users.Types.Effect.start Users.Types.Job.updating (
        Users.Types.Request.update_client "a" (record {
          username = some "user";
          telegram_id = none;
          data_limit = some 0;
          subscription_end = "2026-12-31";
          group_id = "g2";
        }))
      ∷ []
unfolding Users.Panel.open_user_details Users.Handlers.handle_update decimal
handle_update-open_user_details_example =
    Users.Editing.handle_update-open_user_details same_date (client "a" "g1") page refl

-- A new client is typed in, and the click on the button is answered.
abbrev filling : Users.Types.State whole
filling = record naming { users = []; selected_users = [] }

save_offered : Memᴰ Users.Screen.Msg.save_new (clicks (Users.Sidebar.view filling))
unfolding Users.Sidebar.view Users.Screen.title_bar Users.Screen.table Users.Screen.table_head
    Users.Panel.displayed_users Users.Sidebar.sidebar Users.Sidebar.panel Users.Sidebar.form_fields
    Users.Sidebar.key_block_of Users.Sidebar.save_bar Users.Sidebar.footer_of
save_offered = Memᴰ.tail (Memᴰ.tail (Memᴰ.tail (Memᴰ.tail (Memᴰ.head refl))))

abbrev browser : Users.Page.Browser
browser = record { confirmed = true; secure_clipboard = true; copy_works = true }

abbrev saving : Users.World.World whole
saving =
    Users.World.after [] (Users.Page.update same_date browser Users.Screen.Msg.save_new filling)

saving_reached : Users.World.Reach same_date filling saving
saving_reached =
    Users.World.Reach.next Users.World.Reach.here
      (Users.World.Step.clicked browser Users.Screen.Msg.save_new save_offered)

saves-loading_example : Users.World.saves saving.jobs ≡ Users.World.busy saving.state.loading
saves-loading_example = Users.World.saves-loading same_date filling saving refl saving_reached

-- Two polls' answers while a new client is typed in: one fails, one brings no clients.
abbrev poll_answers : List (Users.Types.Job × Users.Types.Answer whole)
poll_answers =
    (Users.Types.Job.loading_groups, Users.Types.Answer.failed)
    ∷ (Users.Types.Job.loading_clients, Users.Types.Answer.clients [])
    ∷ []

naming_read : naming.misread ≡ Users.Types.none_misread
unfolding Users.Panel.open_new
naming_read = refl

with_lists-take_in_example :
    Users.Polling.IsUndisturbed naming (Users.Polling.take_in poll_answers naming)
    ⊎ ((Users.Polling.take_in poll_answers naming ≡ none)
        × (Users.Polling.all_readable poll_answers ≡ false))
with_lists-take_in_example =
    Users.Polling.with_lists-take_in poll_answers naming (refl, (refl, tt)) naming_read
