-- ===== src/Admin/ConsoleTests.antt =====
-- Concrete runs of the router: from page to page.
use wow_vpn.Common.{◌≡◌, refl, ◌≢◌, none, some, [], Memᴰ, arith, eq_iff, if◌then◌else◌, ◌==◌}
use wow_vpn.Common.Whole.{whole}
use wow_vpn.View.{clicks}
use wow_vpn.Admin.Console
use wow_vpn.Admin.Shell
use wow_vpn.Admin.Groups
use wow_vpn.Admin.Users
use wow_vpn.Admin.Users.World

-- A router that knows one address with a query.
abbrev vips : Groups.Group
vips = record { id = "g1"; name = "VIP"; description = "all"; data_limit = ""; members = 2 }

abbrev one_query : Console.Router
one_query = record {
  pathname = λ url. if url == "/users?group=g1" then "/users" else url;
  param = λ name url. if url == "/users?group=g1" then some "g1" else none;
  date_value = λ t. t;
}

card_path : one_query.pathname (Console.Laws.clients_of vips) ≡ "/users"
card_path = refl

card_param : one_query.param "group" (Console.Laws.clients_of vips) ≡ some vips.id
card_param = refl

vips_named : vips.id ≢ ""
vips_named e = ground (arith, eq_iff vips.id "")

displayed-group_card_example :
    Memᴰ
      (Groups.Screen.navigate (Console.Laws.clients_of vips))
      (clicks (Groups.Screen.group_card vips))
    × (Console.Laws.displayed {num = whole} (
          Console.clients_come [] (
            Console.visit one_query
              (Console.Laws.clients_of vips)
              (some (Console.at_groups Groups.initial))))
        ≡ some [])
displayed-group_card_example =
    Console.Laws.displayed-group_card one_query vips Groups.initial [] card_path card_param
      vips_named

-- The dashboard is opened, and polls.
abbrev on_dashboard : Console.Sessions.Session whole
on_dashboard = Console.Sessions.open_url one_query "/" Console.Sessions.first_session

dashboard_reached : Console.Sessions.Reach one_query on_dashboard
dashboard_reached =
    Console.Sessions.Reach.next Console.Sessions.Reach.start (Console.Sessions.Step.visited "/")

Reach-IsPolling_example : Console.Sessions.Laws.IsPolling on_dashboard
Reach-IsPolling_example =
    Console.Sessions.Laws.Reach-IsPolling one_query on_dashboard dashboard_reached

-- The clients page is opened, and has asked for its lists.
abbrev on_clients : Console.Sessions.Session whole
on_clients = Console.Sessions.open_url one_query "/users" Console.Sessions.first_session

clients_there : on_clients.mounted ≡ some (Console.at_users (Console.fresh_users whole none))
unfolding Console.Sessions.open_url Console.visit Console.open_route Console.open_page Console.mount
    Shell.route
clients_there = refl

clients_refine_example :
    Users.World.Reach one_query.date_value (Console.fresh_users whole none) (record {
      state = Console.fresh_users whole none;
      jobs = Console.Sessions.Jobs.jobs_at on_clients.instance_no on_clients.asked;
    })
    × (Users.World.saves (Console.Sessions.Jobs.jobs_at on_clients.instance_no on_clients.asked)
        ≡ 0)
clients_refine_example =
    Console.Sessions.Clients.clients_refine one_query on_clients (Console.fresh_users whole none)
      (Console.Sessions.Reach.next Console.Sessions.Reach.start
        (Console.Sessions.Step.visited "/users"))
      clients_there
