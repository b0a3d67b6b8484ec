-- ===== src/Admin/Auth/Laws.antt =====
-- What signing in guarantees, and what becomes of a refused password.
use wow_vpn.Common.{ℕ, String, true, false, ◌≡◌, ◌≢◌, ◌⊎◌, Option, none, some, arith, includes_text}
use wow_vpn.Admin.Auth.{
  Answer, response, is_ok, LoginForm, Page, login, console, State, load, receive, type_password,
  go_to, submit, login_answer, reload, is_set, new_form,
}

-- Any use of the panel from a fresh page: the form, the answer to its request, the answers to the
-- requests of the console, another address, and the reload.
pub data Reach : State → Type 0 where
  start : (token : Option String) (href : String) → Reach (load token href)
  typed : {s : State} (text : String) → Reach s → Reach (type_password text s)
  submitted : {s : State} → Reach s → Reach (submit s)
  answered : {s : State} (a : Answer) → Reach s → Reach (login_answer a s)
  received : {s : State} (a : Answer) → Reach s → Reach (receive a s)
  gone : {s : State} (href : String) → Reach s → Reach (go_to href s)
  reloaded : {s : State} → Reach s → Reach (reload s)

abbrev sent_of : Page → Option String
sent_of console = none
sent_of (login f) = f.sent

record Inv (s : State) : Type 0 where
  signed_in : s.page ≡ console → (is_set s.token ≡ true) ⊎ (s.reload_due ≡ true)
  sent_set : (sent_of s.page ≡ none) ⊎ (is_set (sent_of s.page) ≡ true)

load-Inv : (token : Option String) (href : String) → Inv (load token href)
unfolding load
load-Inv token href = ground arith

receive-Inv : (a : Answer) (s : State) → Inv s → Inv (receive a s)
unfolding receive
receive-Inv a s v = ground arith

type_password-Inv : (text : String) (s : State) → Inv s → Inv (type_password text s)
unfolding type_password
type_password-Inv text s v = ground arith

submit-Inv : (s : State) → Inv s → Inv (submit s)
unfolding submit
submit-Inv s v = ground arith

login_answer-Inv : (a : Answer) (s : State) → Inv s → Inv (login_answer a s)
unfolding login_answer
login_answer-Inv a s v = ground arith

go_to-Inv : (href : String) (s : State) → Inv s → Inv (go_to href s)
go_to-Inv href s v = ground arith

reload-Inv : (s : State) → Inv s → Inv (reload s)
unfolding reload
reload-Inv s v = ground (arith, load-Inv s.token s.href)

Reach-Inv : {s : State} → Reach s → Inv s
Reach-Inv (start token href) = load-Inv token href
Reach-Inv (typed {s} text r) = type_password-Inv text s (Reach-Inv r)
Reach-Inv (submitted {s} r) = submit-Inv s (Reach-Inv r)
Reach-Inv (answered {s} a r) = login_answer-Inv a s (Reach-Inv r)
Reach-Inv (received {s} a r) = receive-Inv a s (Reach-Inv r)
Reach-Inv (gone {s} href r) = go_to-Inv href s (Reach-Inv r)
Reach-Inv (reloaded {s} r) = reload-Inv s (Reach-Inv r)

-- However the panel is used, when the console is shown, a token that is not empty is stored, or a
-- reload is due that leads to an empty login form.
pub console_needs_token :
    (s : State)
    → Reach s
    → s.page ≡ console
    → (is_set s.token ≡ true) ⊎ ((s.reload_due ≡ true) × ((reload s).page ≡ login new_form))
unfolding reload load
console_needs_token s r e = ground (arith, (Reach-Inv r).signed_in e)

-- A login request that the server answers with a success code
-- signs in with the password that was sent, whatever has been typed since.
pub login_answer_ok :
    (s : State) (f : LoginForm) (sent : String) (status : ℕ)
    → s.page ≡ login f
    → f.sent ≡ some sent
    → is_ok status ≡ true
    → login_answer (response status) s ≡ record s { token = some sent; page = console }
unfolding login_answer
login_answer_ok s f sent status e h k = ground arith

-- A password that the server refuses with 401, at an address without "login", is not reported:
-- the wrapper signs out and has the page reloaded, and the reload shows an empty form with no
-- error. With any other code that is no success the form reports it, and no reload is asked for.
pub login_answer_refused :
    (s : State) (f : LoginForm) (sent : String) (status : ℕ)
    → s.page ≡ login f
    → f.sent ≡ some sent
    → is_ok status ≡ false
    → includes_text s.href "login" ≡ false
    → ((status ≡ 401) × (reload (login_answer (response status) s) ≡ load none s.href))
      ⊎ ((status ≢ 401)
          × (login_answer (response status) s
              ≡ record s { page = login (record f { error = "Неверный пароль"; sent = none }) }))
unfolding login_answer reload
login_answer_refused s f sent status e h k l = ground arith
