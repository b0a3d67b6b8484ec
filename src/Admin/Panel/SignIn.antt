-- ===== src/Admin/Panel/SignIn.antt =====
-- What the steps of the sign-in leave as it is: the address and, without a reload, the console.
use wow_vpn.Common.{String, ◌≡◌, refl, arith}
use wow_vpn.Admin.Auth

-- The console does not turn into the form without a reload.
abbrev pub IsKept : Auth.Page → Auth.Page → Type 0
IsKept before now = before ≡ Auth.Page.console → now ≡ Auth.Page.console

pub login_answer-IsKept :
    (a : Auth.Answer) (s : Auth.State) → IsKept s.page (Auth.login_answer a s).page
unfolding Auth.login_answer
login_answer-IsKept a s e = ground (arith, e)

pub login_answer-href : (a : Auth.Answer) (s : Auth.State) → (Auth.login_answer a s).href ≡ s.href
unfolding Auth.login_answer
login_answer-href a s = ground arith

pub receive-page : (a : Auth.Answer) (s : Auth.State) → (Auth.receive a s).page ≡ s.page
unfolding Auth.receive
receive-page a s = ground arith

pub receive-href : (a : Auth.Answer) (s : Auth.State) → (Auth.receive a s).href ≡ s.href
unfolding Auth.receive
receive-href a s = ground arith

pub type_password-IsKept :
    (text : String) (s : Auth.State) → IsKept s.page (Auth.type_password text s).page
unfolding Auth.type_password
type_password-IsKept text s h = ground (arith, h)

pub type_password-href :
    (text : String) (s : Auth.State) → (Auth.type_password text s).href ≡ s.href
unfolding Auth.type_password
type_password-href text s = refl

pub submit-href : (s : Auth.State) → (Auth.submit s).href ≡ s.href
unfolding Auth.submit
submit-href s = refl

pub submit-IsKept : (s : Auth.State) → IsKept s.page (Auth.submit s).page
unfolding Auth.submit
submit-IsKept s h = ground (arith, h)
