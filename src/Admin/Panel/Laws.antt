-- ===== src/Admin/Panel/Laws.antt =====
-- Signing in and the console together: what a reachable state of the panel shows, asks and sends.
use wow_vpn.Common.{
  ℕ, String, ◌≡◌, refl, true, false, Option, none, some, List, ◌∷◌, ◌++◌, arith, includes_text,
}
use wow_vpn.Common.Number.{Number}
use wow_vpn.Admin.Auth
use wow_vpn.Admin.Auth.Laws
use wow_vpn.Admin.Auth.Requests.{Headers, with_token, lookup, lookup-with_token}
use wow_vpn.Admin.Console.Work.{Reply, work_of}
use wow_vpn.Admin.Console.Sessions.{Asked, first_session}
use wow_vpn.Admin.Panel.{
  State, Site, href_at, load, visit, login_answer, answer, reload, Step, visited, typed, submitted,
  login_answered, acts, crashed, polled, answered, Reach, Until, stay, more, rendered,
}
use wow_vpn.Admin.Panel.Invariant.{Reach-Inv}

-- Signed out, with the console still shown: the reload is to come.
record IsExpired (s : Auth.State) : Type 0 where
  no_token : s.token ≡ none
  due : s.reload_due ≡ true
  still : s.page ≡ Auth.Page.console

receive-IsExpired : (a : Auth.Answer) (s : Auth.State) → IsExpired s → IsExpired (Auth.receive a s)
unfolding Auth.receive
receive-IsExpired a s v = ground arith

expires :
    (s : Auth.State)
    → s.page ≡ Auth.Page.console
    → includes_text s.href "login" ≡ false
    → IsExpired (Auth.receive (Auth.Answer.response 401) s)
unfolding Auth.receive
expires s e h = ground arith

type_password-IsExpired :
    (text : String) (s : Auth.State) → IsExpired s → IsExpired (Auth.type_password text s)
unfolding Auth.type_password
type_password-IsExpired text s v = ground arith

submit-IsExpired : (s : Auth.State) → IsExpired s → IsExpired (Auth.submit s)
unfolding Auth.submit
submit-IsExpired s v = ground arith

login_answer-IsExpired :
    (a : Auth.Answer) (s : Auth.State) → IsExpired s → IsExpired (Auth.login_answer a s)
unfolding Auth.login_answer
login_answer-IsExpired a s v = ground arith

token_kept :
    (s : Auth.State)
    → Auth.Laws.Reach s
    → s.page ≡ Auth.Page.console
    → s.reload_due ≡ false
    → Auth.is_set s.token ≡ true
token_kept s r e h = ground (arith, Auth.Laws.console_needs_token s r e)

token-sent :
    (token : Option String) (headers : Headers)
    → Auth.is_set token ≡ true
    → lookup "X-Admin-Token" (with_token token headers) ≡ token
token-sent none headers h = ground (arith, h)
token-sent (some t) headers h =
    ground (arith, h, lookup-with_token (some t) headers "X-Admin-Token")

module _ {num : Number} (site : Site) where
  -- However the panel is used, while the sign-in form is shown no page of the console is mounted, no
  -- request of a page is under way and no interval runs.
  pub form_alone :
      (p : State num) (f : Auth.LoginForm)
      → Reach site p
      → p.auth.page ≡ Auth.Page.login f
      → p.session ≡ first_session
  form_alone p f r e = (Reach-Inv site p r).bare f e

  -- However the panel is used, while the console is shown and no reload is due, every request that is
  -- made by `fetch` carries the stored token, which is not empty, in X-Admin-Token, whatever headers
  -- the page wrote.
  pub requests_carry_token :
      (p : State num) (headers : Headers)
      → Reach site p
      → p.auth.page ≡ Auth.Page.console
      → p.auth.reload_due ≡ false
      → (Auth.is_set p.auth.token ≡ true)
        × (lookup "X-Admin-Token" (with_token p.auth.token headers) ≡ p.auth.token)
  requests_carry_token p headers r e h =
      let kept = token_kept p.auth (Reach-Inv site p r).signs_in e h in
      (kept, token-sent p.auth.token headers kept)

  Step-IsExpired : (p q : State num) → Step site p q → IsExpired p.auth → IsExpired q.auth
  unfolding visit login_answer answer
  Step-IsExpired p q (visited url) v = record {
    no_token = v.no_token;
    due = v.due;
    still = v.still;
  }
  Step-IsExpired p q (typed text) v = type_password-IsExpired text p.auth v
  Step-IsExpired p q submitted v = submit-IsExpired p.auth v
  Step-IsExpired p q (login_answered a) v = login_answer-IsExpired a p.auth v
  Step-IsExpired p q (acts u m e offered) v = v
  Step-IsExpired p q crashed v = v
  Step-IsExpired p q (polled k among) v = v
  Step-IsExpired p q (answered before later k a r e) v = receive-IsExpired a p.auth v

  Until-IsExpired : (p q : State num) → Until site p q → IsExpired p.auth → IsExpired q.auth
  Until-IsExpired p q stay v = v
  Until-IsExpired p q (more {q = r} so_far step) v =
      Step-IsExpired r q step (Until-IsExpired p r so_far v)

  reload-IsExpired : (q : State num) → IsExpired q.auth → reload site q ≡ load site none q.location
  unfolding reload
  reload-IsExpired q v = rw (v.due, v.no_token) refl

  -- At an address without "login": once the server answers one request of the console with 401,
  -- whatever the user does and the server answers until the browser reloads, the reload ends at an
  -- empty sign-in form without a token, with no page, no request and no interval.
  pub expired_reloads :
      (p q : State num) (before later : List (Asked num)) (k : ℕ) (r : Reply num)
      → p.auth.page ≡ Auth.Page.console
      → includes_text p.auth.href "login" ≡ false
      → p.session.asked ≡ before ++ (k, work_of r) ∷ later
      → Until site (answer site before later k (Auth.Answer.response 401) r p) q
      → reload site q ≡ record {
        auth = record {
          token = none;
          href = href_at site q.location;
          page = Auth.Page.login Auth.new_form;
          reload_due = false;
        };
        location = q.location;
        session = first_session;
      }
  unfolding load rendered Auth.load answer
  expired_reloads p q before later k r e away asked after = reload-IsExpired q (
      Until-IsExpired (answer site before later k (Auth.Answer.response 401) r p) q after
        (expires p.auth e away))
