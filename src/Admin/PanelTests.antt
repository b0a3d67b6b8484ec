-- ===== src/Admin/PanelTests.antt =====
-- A concrete run of the panel: signed in on the dashboard, whose first request is refused.
use wow_vpn.Common.{◌≡◌, refl, true, false, none, some, List, [], ◌∷◌, ◌++◌, includes_text}
use wow_vpn.Common.Whole.{whole}
use wow_vpn.Admin.Auth
use wow_vpn.Admin.Dashboard
use wow_vpn.Admin.Shell
use wow_vpn.Admin.Console
use wow_vpn.Admin.Panel

abbrev plain : Console.Router
plain = record { pathname = λ url. url; param = λ name url. none; date_value = λ t. t }

abbrev vpn_site : Panel.Site
vpn_site = record { origin = "https://vpn.example"; router = plain }

abbrev signed_in : Panel.State whole
signed_in = Panel.load vpn_site (some "secret") "/"

abbrev signed_out : Panel.State whole
signed_out = Panel.load vpn_site none "/"

form_there : signed_out.auth.page ≡ Auth.Page.login Auth.new_form
unfolding Panel.load Auth.load
form_there = refl

form_alone_example : signed_out.session ≡ Console.Sessions.first_session
form_alone_example =
    Panel.Laws.form_alone vpn_site signed_out Auth.new_form (Panel.Reach.start none "/") form_there

console_there : signed_in.auth.page ≡ Auth.Page.console
unfolding Panel.load Auth.load
console_there = refl

no_reload : signed_in.auth.reload_due ≡ false
unfolding Panel.load Auth.load
no_reload = refl

requests_carry_token_example :
    (Auth.is_set signed_in.auth.token ≡ true)
    × (Auth.Requests.lookup "X-Admin-Token" (
          Auth.Requests.with_token signed_in.auth.token (("Content-Type", "application/json") ∷ []))
        ≡ signed_in.auth.token)
requests_carry_token_example =
    Panel.Laws.requests_carry_token vpn_site signed_in (("Content-Type", "application/json") ∷ [])
      (Panel.Reach.start (some "secret") "/") console_there no_reload

away_from_login : includes_text signed_in.auth.href "login" ≡ false
unfolding Panel.load Auth.load includes_text
away_from_login = refl

abbrev no_counts : Console.Work.Reply whole
no_counts = Console.Work.Reply.to_home (Dashboard.Answer.failed Dashboard.Request.get_dashboard)

abbrev others : List (Console.Sessions.Asked whole)
others = Console.Sessions.by 1 (
    Console.Work.Work.home_work Dashboard.Request.get_system
    ∷ Console.Work.Work.home_work Dashboard.Request.get_clients
    ∷ Console.Work.Work.home_work Dashboard.Request.get_summary
    ∷ Console.Work.Work.home_work Dashboard.Request.get_chart
    ∷ [])

all_asked : signed_in.session.asked ≡ [] ++ (1, Console.Work.work_of no_counts) ∷ others
unfolding Panel.load Panel.rendered Console.Sessions.open_url Console.visit Console.open_route
    Console.open_page Console.mount Shell.route Console.Work.loads Dashboard.fetch_data
all_asked = refl

abbrev refused : Panel.State whole
refused = Panel.answer vpn_site [] others 1 (Auth.Answer.response 401) no_counts signed_in

expired_reloads_example : Panel.reload vpn_site (Panel.visit vpn_site "/users" refused) ≡ record {
  auth = record {
    token = none;
    href = "https://vpn.example/users";
    page = Auth.Page.login Auth.new_form;
    reload_due = false;
  };
  location = "/users";
  session = Console.Sessions.first_session;
}
unfolding Panel.visit
expired_reloads_example =
    Panel.Laws.expired_reloads vpn_site signed_in (Panel.visit vpn_site "/users" refused) [] others
      1 no_counts console_there away_from_login all_asked
      (Panel.Until.more Panel.Until.stay (Panel.Step.visited "/users"))
