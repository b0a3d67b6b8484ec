-- ===== src/Admin/Panel.antt =====
-- The whole admin panel over time: App.tsx shows the sign-in form or the console's router, and
-- every answer to a request of a page passes the wrapped `fetch` of config.ts. A reload starts a new
-- document, which has none of the old one's pages, requests and intervals.
pub mod SignIn
pub mod Rendering
pub mod Invariant
pub mod Laws
use wow_vpn.Common.{
  ℕ, String, ◌≡◌, Option, some, List, [], ◌∷◌, ◌++◌, Memᴰ, template, if◌then◌else◌,
}
use wow_vpn.Common.Number.{Number}
use wow_vpn.Admin.Auth
use wow_vpn.Admin.Console.{Router, Mounted}
use wow_vpn.Admin.Console.Work.{Reply, work_of}
use wow_vpn.Admin.Console.Acts.{Act, IsOffered}
use wow_vpn.Admin.Console.Sessions.{
  Asked, Session, first_session, open_url, come, poll, act, crash, drop_asked,
}

pub record State (num : Number) : Type 0 where
  pub auth : Auth.State
  -- The path and the query in the address bar.
  pub location : String
  pub session : Session num

-- Where the panel is served, and how the router reads an address.
pub record Site : Type 0 where
  pub origin : String
  pub router : Router

-- `window.location.href`.
abbrev pub href_at : Site → String → String
href_at site location = template (site.origin ∷ location ∷ [])

module _ {num : Number} (site : Site) where
  -- What App.tsx renders: the form, or the router with the page of the address.
  unfoldable pub rendered : Auth.Page → String → Session num
  rendered (Auth.Page.login _) location = first_session
  rendered Auth.Page.console location = open_url site.router location first_session

  unfoldable pub load : Option String → String → State num
  load token location = record {
    auth = Auth.load token (href_at site location);
    location = location;
    session = rendered (Auth.first_page token) location;
  }

  pub visited_on : Auth.Page → String → Session num → Session num
  visited_on (Auth.Page.login _) url s = s
  visited_on Auth.Page.console url s = open_url site.router url s

  -- Another address. The form does not read it.
  unfoldable pub visit : String → State num → State num
  unfolding visited_on
  visit url p = record {
    auth = Auth.go_to (href_at site url) p.auth;
    location = url;
    session = visited_on p.auth.page url p.session;
  }

  pub rerendered : Auth.Page → Auth.Page → String → Session num → Session num
  rerendered (Auth.Page.login _) now location s = rendered now location
  rerendered Auth.Page.console now location s = s

  -- The answer to the form's request: `onLogin` renders the router.
  unfoldable pub login_answer : Auth.Answer → State num → State num
  unfolding rerendered
  login_answer a p =
      let auth = Auth.login_answer a p.auth in
      record p { auth = auth; session = rerendered p.auth.page auth.page p.location p.session }

  -- The answer `a` to a request of the instance `k`, one of those asked; its handler reads it as `r`.
  -- The response and its body come at once.
  unfoldable pub answer :
      List (Asked num) → List (Asked num) → ℕ → Auth.Answer → Reply num → State num → State num
  answer before later k a r p = record p {
    auth = Auth.receive a p.auth;
    session = come k r (drop_asked before later p.session);
  }

  unfoldable pub reload : State num → State num
  unfolding load
  reload p = if p.auth.reload_due then load p.auth.token p.location else p

  -- What happens on a page that is not reloaded.
  pub data Step (p : State num) : State num → Type 0 where
    visited : (url : String) → Step p (visit url p)
    typed : (text : String) → Step p (record p { auth = Auth.type_password text p.auth })
    submitted : Step p (record p { auth = Auth.submit p.auth })
    login_answered : (a : Auth.Answer) → Step p (login_answer a p)
    acts :
        (u : Act num) (m : Mounted num)
        → p.session.mounted ≡ some m
        → IsOffered u m
        → Step p (record p { session = act site.router.date_value u p.session })
    crashed : Step p (record p { session = crash p.session })
    polled : (k : ℕ) → Memᴰ k p.session.intervals → Step p (record p { session = poll k p.session })
    answered :
        (before later : List (Asked num)) (k : ℕ) (a : Auth.Answer) (r : Reply num)
        → p.session.asked ≡ before ++ (k, work_of r) ∷ later
        → Step p (answer before later k a r p)

  pub data Reach : State num → Type 0 where
    start : (token : Option String) (location : String) → Reach (load token location)
    next : {p q : State num} → Reach p → Step p q → Reach q
    reloaded : {p : State num} → Reach p → Reach (reload p)

  -- Steps one after another, without a reload.
  pub data Until (p : State num) : State num → Type 0 where
    stay : Until p p
    more : {q r : State num} → Until p q → Step q r → Until p r
