-- ===== src/Admin/Auth.antt =====
-- Signing in: config.ts (the wrapped `fetch`), App.tsx and pages/Login.tsx. The page is reloaded
-- some time after `window.location.reload()`; until then its handlers go on.
pub mod Screen
pub mod Laws
pub mod Requests
use wow_vpn.Common.{
  ℕ, String, Bool, true, false, not, ◌&&◌, ◌||◌, Option, none, some, List, [], ◌∷◌, ◌==◌, leb,
  nat_eq, if◌then◌else◌, includes_text, or_else,
}

-- What a call of the browser's own `fetch` comes back with: an error, or a response's status.
pub data Answer : Type 0 where
  rejected : Answer
  response : ℕ → Answer

-- `response.ok`.
abbrev pub is_ok : ℕ → Bool
is_ok status = leb 200 status && leb status 299

pub record LoginForm : Type 0 where
  pub password : String
  pub error : String
  -- The password of the request that is under way; `loading` is that there is one.
  pub sent : Option String

abbrev pub new_form : LoginForm
new_form = record { password = ""; error = ""; sent = none }

pub data Page : Type 0 where
  login : LoginForm → Page
  console : Page

pub record State : Type 0 where
  -- localStorage's "adminToken".
  pub token : Option String
  -- `window.location.href`.
  pub href : String
  pub page : Page
  pub reload_due : Bool

abbrev pub is_set : Option String → Bool
is_set none = false
is_set (some t) = not (t == "")

abbrev pub has_sent : LoginForm → Bool
has_sent f = elim f.sent [ none ↦ false | some _ ↦ true ]

-- App.tsx on a fresh page: `!!localStorage.getItem("adminToken")`.
abbrev pub first_page : Option String → Page
first_page token = if is_set token then console else login new_form

unfoldable pub load : Option String → String → State
load token href = record { token = token; href = href; page = first_page token; reload_due = false }

-- The address changes on the page that is there: `navigate`, a link, the browser's history.
abbrev pub go_to : String → State → State
go_to href s = record s { href = href }

-- The wrapper after the response: a 401 signs out, unless the address holds "login".
unfoldable pub check_status : ℕ → State → State
check_status status s =
    if nat_eq status 401 && not (includes_text s.href "login")
    then record s { token = none; reload_due = true }
    else s

-- What the wrapper does to the answer of any request of the panel.
unfoldable pub receive : Answer → State → State
unfolding check_status
receive rejected s = s
receive (response status) s = check_status status s

-- The `disabled` of the form's button, which also stops the Enter key.
abbrev pub is_blocked : LoginForm → Bool
is_blocked f = has_sent f || f.password == ""

type_password_into : String → Page → Page
type_password_into typed (login f) = login (record f { password = typed })
type_password_into typed console = console

unfoldable pub type_password : String → State → State
unfolding type_password_into
type_password typed s = record s { page = type_password_into typed s.page }

submit_form : Page → Page
submit_form console = console
submit_form (login f) =
    if is_blocked f then login f else login (record f { error = ""; sent = some f.password })

-- handleSubmit, up to its `await`.
unfoldable pub submit : State → State
unfolding submit_form
submit s = record s { page = submit_form s.page }

-- handleSubmit after its `await`, for the password that was sent; the wrapper has seen the answer.
finish_login : Answer → LoginForm → String → State → State
finish_login rejected f sent s = record s {
  page = login (record f { error = "Ошибка соединения с сервером"; sent = none });
}
finish_login (response status) f sent s =
    if is_ok status
    then record s { token = some sent; page = console }
    else record s { page = login (record f { error = "Неверный пароль"; sent = none }) }

login_answer_for : Answer → Page → State → State
unfolding finish_login receive
login_answer_for a console s = s
login_answer_for a (login f) s = elim f.sent [
  | none ↦ s
  | some sent ↦ finish_login a f sent (receive a s)
]

unfoldable pub login_answer : Answer → State → State
unfolding login_answer_for
login_answer a s = login_answer_for a s.page s

-- The browser carries out the reload.
unfoldable pub reload : State → State
unfolding load
reload s = if s.reload_due then load s.token s.href else s
