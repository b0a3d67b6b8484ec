-- ===== src/Admin/Panel/Rendering.antt =====
-- What App.tsx renders at a sign-in, a reload and another address: the console, or the form with
-- nothing behind it.
use wow_vpn.Common.{String, ◌≡◌, refl, arith}
use wow_vpn.Common.Number.{Number}
use wow_vpn.Admin.Auth
use wow_vpn.Admin.Console.Sessions
use wow_vpn.Admin.Console.Sessions.{Asked, Session, first_session, open_url, come, poll, act, crash}
use wow_vpn.Admin.Panel.SignIn.{IsKept}
use wow_vpn.Admin.Panel.{Site, rendered, visited_on, rerendered}

-- Nothing of the console is there.
abbrev pub IsBare : {num : Number} → Session num → Type 0
IsBare s = s ≡ first_session

module _ {num : Number} (site : Site) where
  pub rendered-Reach :
      (page : Auth.Page) (location : String)
      → Sessions.Reach site.router (rendered {num = num} site page location)
  unfolding rendered
  rendered-Reach (Auth.Page.login f) location = Sessions.Reach.start
  rendered-Reach Auth.Page.console location =
      Sessions.Reach.next Sessions.Reach.start (Sessions.Step.visited location)

  pub rendered-IsBare :
      (page : Auth.Page) (location : String) (f : Auth.LoginForm)
      → page ≡ Auth.Page.login f
      → IsBare (rendered {num = num} site page location)
  unfolding rendered
  rendered-IsBare (Auth.Page.login _) location f e = refl
  rendered-IsBare Auth.Page.console location f e = ground (arith, e)

  pub visited_on-Reach :
      (page : Auth.Page) (url : String) (s : Session num)
      → Sessions.Reach site.router s
      → Sessions.Reach site.router (visited_on site page url s)
  unfolding visited_on
  visited_on-Reach (Auth.Page.login _) url s r = r
  visited_on-Reach Auth.Page.console url s r = Sessions.Reach.next r (Sessions.Step.visited url)

  pub visited_on-IsBare :
      (page : Auth.Page) (url : String) (s : Session num) (f : Auth.LoginForm)
      → page ≡ Auth.Page.login f
      → IsBare s
      → IsBare (visited_on site page url s)
  unfolding visited_on
  visited_on-IsBare (Auth.Page.login _) url s f e bare = bare
  visited_on-IsBare Auth.Page.console url s f e bare = ground (arith, e)

  pub rerendered-Reach :
      (before now : Auth.Page) (location : String) (s : Session num)
      → Sessions.Reach site.router s
      → Sessions.Reach site.router (rerendered site before now location s)
  unfolding rerendered
  rerendered-Reach (Auth.Page.login _) now location s r = rendered-Reach now location
  rerendered-Reach Auth.Page.console now location s r = r

  pub rerendered-IsBare :
      (before now : Auth.Page) (location : String) (s : Session num) (f : Auth.LoginForm)
      → IsKept before now
      → now ≡ Auth.Page.login f
      → IsBare (rerendered site before now location s)
  unfolding rerendered
  rerendered-IsBare (Auth.Page.login _) now location s f keeps e = rendered-IsBare now location f e
  rerendered-IsBare Auth.Page.console now location s f keeps e = ground (arith, e, keeps refl)
