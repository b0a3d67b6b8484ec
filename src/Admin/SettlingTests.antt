-- ===== src/Admin/SettlingTests.antt =====
-- Concrete runs of the clients page with the server, to the last answer.
use wow_vpn.Common.{◌+◌, ◌≤◌, ◌≡◌, refl, String, true, false, none, List, [], ◌∷◌}
use wow_vpn.Common.Whole.{whole}
use wow_vpn.Admin.ListPage.{World, Step, Reach, Reply}
use wow_vpn.Admin.Users

-- The clients page: a poll's three requests are under way, and none is answered well.
abbrev quiet : Users.Types.State whole
quiet = record {
  users = [];
  groups = [];
  templates = [];
  selected_users = [];
  sidebar_open = false;
  selected_user = none;
  loading = false;
  selected_group_id = "";
  qr_modal = none;
  misread = Users.Types.none_misread;
  form = none;
  group_filter = none;
}

abbrev polled : Users.World.World whole
polled = Users.World.after [] (quiet, Users.Handlers.fetch_data)

abbrev date_as_is : String → String
date_as_is d = d

polled_reached : Users.World.Reach date_as_is quiet polled
polled_reached = Users.World.Reach.next Users.World.Reach.here Users.World.Step.polled

abbrev always_failed : Users.Types.State whole → Users.Types.Job → Users.Types.Answer whole
always_failed s j = Users.Types.Answer.failed

rounds-settle_example :
    ((Users.Settling.rounds always_failed (Users.Settling.answers_due polled.jobs) polled).jobs
      ≡ [])
    × ((Users.Settling.rounds always_failed
          (Users.Settling.answers_due polled.jobs)
          polled).state.loading
        ≡ false)
rounds-settle_example =
    Users.Settling.rounds-settle date_as_is quiet always_failed polled refl polled_reached

-- A bulk removal of two clients, of which the first answer has come.
abbrev removing : Users.World.World whole
removing = record { state = quiet; jobs = Users.Types.Job.bulk_deleting ("b" ∷ []) ∷ [] }

abbrev one_left : Users.World.World whole
one_left =
    Users.World.after []
      (Users.Handlers.answer (Users.Types.Job.bulk_deleting ("b" ∷ [])) Users.Types.Answer.ok quiet)

first_answer : Users.Settling.Answers removing 1 one_left
first_answer =
    Users.Settling.Answers.one_more Users.Settling.Answers.none_yet [] []
      (Users.Types.Job.bulk_deleting ("b" ∷ [])) Users.Types.Answer.ok refl

Answers-due_example :
    1 + Users.Settling.answers_due one_left.jobs ≤ Users.Settling.answers_due removing.jobs
Answers-due_example = Users.Settling.Answers-due removing one_left 1 first_answer

-- The clients page: the list comes, its one client is removed, the page polls, and the list comes
-- anew, twice.
abbrev customer : Users.Types.Client whole
customer = record {
  id = "a";
  username = "ann";
  telegram_id = "";
  status = "online";
  is_online = true;
  protocol = "shade";
  data_usage = 1;
  data_limit = 10;
  group_id = "";
  group_name = "";
  subscription_end = "";
  shade_link = "shade://k";
}

abbrev sure : Users.Page.Browser
sure = record { confirmed = true; secure_clipboard = true; copy_works = true }

abbrev loads_clients : Users.Listing.Command whole
loads_clients = (Users.Types.Job.loading_clients, Users.Types.Request.list_clients, refl)

abbrev removes_client : Users.Listing.Command whole
removes_client = (Users.Types.Job.deleting "a", Users.Types.Request.delete_client "a", refl)

abbrev drop_clients :
    Users.Listing.Command whole → List (Users.Types.Client whole) → List (Users.Types.Client whole)
drop_clients c xs = []

abbrev clients_after : World (Users.Listing.users_page whole date_as_is)
clients_after = record { state = quiet; asked = []; replies = []; records = [] }

clients_reached : Reach (Users.Listing.users_page whole date_as_is) drop_clients clients_after
unfolding Users.Listing.act Users.Listing.receive Users.Handlers.answer Users.Page.update
    Users.Handlers.handle_delete Users.Handlers.fetch_data
clients_reached =
    Reach.next
      (Reach.next
        (Reach.next
          (Reach.next
            (Reach.next
              (Reach.next
                (Reach.next
                  (Reach.next
                    (Reach.next
                      (Reach.next (Reach.opened quiet loads_clients (customer ∷ []))
                        (Step.served loads_clients [] refl))
                      (Step.received loads_clients (Reply.listed (customer ∷ [])) [] refl))
                    (Step.acted (Users.Listing.Happening.used sure (Users.Screen.Msg.remove "a"))))
                  (Step.acted Users.Listing.Happening.polled))
                (Step.served removes_client (loads_clients ∷ []) refl))
              (Step.served loads_clients [] refl))
            (Step.received removes_client Reply.done ((loads_clients, Reply.listed []) ∷ []) refl))
          (Step.received loads_clients (Reply.listed []) [] refl))
        (Step.served loads_clients [] refl))
      (Step.received loads_clients (Reply.listed []) [] refl)

users-settled_example : clients_after.state.users ≡ clients_after.records
users-settled_example =
    Users.Listing.users-settled whole date_as_is drop_clients clients_after clients_reached refl
      refl
