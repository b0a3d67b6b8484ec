-- ===== src/Admin/Panel/Invariant.antt =====
-- Signing in and the console together: the invariant of Panel.antt's states, step by step.
use mathlib.Core.Path.{subst}
use wow_vpn.Common.{
  ℕ, String, ◌≡◌, refl, sym, ap, ◌∙◌, Bool, true, false, Option, some, List, [], ◌∷◌, ◌++◌, Memᴰ,
  arith, if◌then◌else◌,
}
use wow_vpn.Common.Number.{Number}
use wow_vpn.Admin.Auth
use wow_vpn.Admin.Auth.Laws
use wow_vpn.Admin.Console.{Mounted}
use wow_vpn.Admin.Console.Sessions
use wow_vpn.Admin.Console.Work.{Reply, work_of}
use wow_vpn.Admin.Console.Acts.{Act, IsOffered}
use wow_vpn.Admin.Console.Sessions.{Asked, Session, first_session, open_url, come, poll, act, crash}
use wow_vpn.Admin.Console.Sessions.Addressed.{act-none, crash-none}
use wow_vpn.Admin.Panel.SignIn.{
  IsKept, login_answer-IsKept, login_answer-href, receive-page, receive-href, type_password-IsKept,
  type_password-href, submit-href, submit-IsKept,
}
use wow_vpn.Admin.Panel.Rendering.{
  IsBare, rendered-Reach, rendered-IsBare, visited_on-Reach, visited_on-IsBare, rerendered-Reach,
  rerendered-IsBare,
}
use wow_vpn.Admin.Panel.{
  State, Site, href_at, load, visit, login_answer, answer, reload, Step, visited, typed, submitted,
  login_answered, acts, crashed, polled, answered, Reach, start, next, reloaded,
}

no_member : {k : ℕ} → Memᴰ k [] → ⊥
no_member among = elim among [ ]

not_asked {ℓ} : {A : Type ℓ} (before later : List A) (k : A) → [] ≡ before ++ k ∷ later → ⊥
not_asked [] later k e = ground (arith, e)
not_asked (j ∷ before) later k e = ground (arith, e)

module _ {num : Number} (site : Site) where
  -- The parts agree: the address of each, and no page of the console behind the form.
  pub record Inv (p : State num) : Type 0 where
    pub same_href : p.auth.href ≡ href_at site p.location
    pub bare : (f : Auth.LoginForm) → p.auth.page ≡ Auth.Page.login f → IsBare p.session
    pub signs_in : Auth.Laws.Reach p.auth
    pub shows : Sessions.Reach site.router p.session

  load-Inv : (token : Option String) (location : String) → Inv (load site token location)
  unfolding load Auth.load
  load-Inv token location = record {
    same_href = refl;
    bare = rendered-IsBare site (Auth.first_page token) location;
    signs_in = Auth.Laws.Reach.start token (href_at site location);
    shows = rendered-Reach site (Auth.first_page token) location;
  }

  visit-Inv : (url : String) (p : State num) → Inv p → Inv (visit site url p)
  unfolding visit
  visit-Inv url p v = record {
    same_href = refl;
    bare = λ f e. visited_on-IsBare site p.auth.page url p.session f e (v.bare f e);
    signs_in = Auth.Laws.Reach.gone (href_at site url) v.signs_in;
    shows = visited_on-Reach site p.auth.page url p.session v.shows;
  }

  login_answer-Inv : (a : Auth.Answer) (p : State num) → Inv p → Inv (login_answer site a p)
  unfolding login_answer
  login_answer-Inv a p v = record {
    same_href = login_answer-href a p.auth ∙ v.same_href;
    bare = λ f e.
        rerendered-IsBare site p.auth.page (Auth.login_answer a p.auth).page p.location p.session f
          (login_answer-IsKept a p.auth) e;
    signs_in = Auth.Laws.Reach.answered a v.signs_in;
    shows =
        rerendered-Reach site p.auth.page (Auth.login_answer a p.auth).page p.location p.session
          v.shows;
  }

  before-IsBare :
      (before now : Auth.Page) (s : Session num) (f : Auth.LoginForm)
      → IsKept before now
      → now ≡ Auth.Page.login f
      → ((g : Auth.LoginForm) → before ≡ Auth.Page.login g → IsBare s)
      → IsBare s
  before-IsBare (Auth.Page.login g) now s f keeps e bare = bare g refl
  before-IsBare Auth.Page.console now s f keeps e bare = ground (arith, e, keeps refl)

  -- A step of the form alone.
  form-Inv :
      (auth : Auth.State) (p : State num)
      → auth.href ≡ p.auth.href
      → IsKept p.auth.page auth.page
      → Auth.Laws.Reach auth
      → Inv p
      → Inv (record p { auth = auth })
  form-Inv auth p e keeps r v = record {
    same_href = e ∙ v.same_href;
    bare = λ f h. before-IsBare p.auth.page auth.page p.session f keeps h v.bare;
    signs_in = r;
    shows = v.shows;
  }

  acts-Inv :
      (u : Act num) (m : Mounted num) (p : State num)
      → p.session.mounted ≡ some m
      → IsOffered u m
      → Inv p
      → Inv (record p { session = act site.router.date_value u p.session })
  acts-Inv u m p e offered v = record {
    same_href = v.same_href;
    bare = λ f h.
        act-none site.router.date_value u p.session (ap (λ s. s.mounted) (v.bare f h)) ∙ v.bare f h;
    signs_in = v.signs_in;
    shows = Sessions.Reach.next v.shows (Sessions.Step.acts u m e offered);
  }

  crash-Inv : (p : State num) → Inv p → Inv (record p { session = crash p.session })
  unfolding crash
  crash-Inv p v = record {
    same_href = v.same_href;
    bare = λ f e. crash-none p.session (ap (λ s. s.mounted) (v.bare f e)) ∙ v.bare f e;
    signs_in = v.signs_in;
    shows = Sessions.Reach.next v.shows Sessions.Step.crashed;
  }

  polled-Inv :
      (p : State num) (k : ℕ)
      → Memᴰ k p.session.intervals
      → Inv p
      → Inv (record p { session = poll k p.session })
  polled-Inv p k among v = record {
    same_href = v.same_href;
    bare = λ f e. absurd (no_member (subst (λ s. Memᴰ k s.intervals) (v.bare f e) among));
    signs_in = v.signs_in;
    shows = Sessions.Reach.next v.shows (Sessions.Step.polled k among);
  }

  answer-Inv :
      (before later : List (Asked num)) (k : ℕ) (a : Auth.Answer) (r : Reply num) (p : State num)
      → p.session.asked ≡ before ++ (k, work_of r) ∷ later
      → Inv p
      → Inv (answer site before later k a r p)
  unfolding answer
  answer-Inv before later k a r p e v = record {
    same_href = receive-href a p.auth ∙ v.same_href;
    bare = λ f h. absurd (
        not_asked before later (k, work_of r)
          (sym (ap (λ s. s.asked) (v.bare f (sym (receive-page a p.auth) ∙ h))) ∙ e));
    signs_in = Auth.Laws.Reach.received a v.signs_in;
    shows = Sessions.Reach.next v.shows (Sessions.Step.answered before later k r e);
  }

  chosen-Inv : (b : Bool) (p q : State num) → Inv p → Inv q → Inv (if b then p else q)
  chosen-Inv true p q v w = v
  chosen-Inv false p q v w = w

  reload-Inv : (p : State num) → Inv p → Inv (reload site p)
  unfolding reload
  reload-Inv p v =
      chosen-Inv p.auth.reload_due (load site p.auth.token p.location) p
        (load-Inv p.auth.token p.location) v

  Step-Inv : (p q : State num) → Step site p q → Inv p → Inv q
  Step-Inv p q (visited url) v = visit-Inv url p v
  Step-Inv p q (typed text) v =
      form-Inv (Auth.type_password text p.auth) p (type_password-href text p.auth)
        (type_password-IsKept text p.auth) (Auth.Laws.Reach.typed text v.signs_in) v
  Step-Inv p q submitted v =
      form-Inv (Auth.submit p.auth) p (submit-href p.auth) (submit-IsKept p.auth)
        (Auth.Laws.Reach.submitted v.signs_in) v
  Step-Inv p q (login_answered a) v = login_answer-Inv a p v
  Step-Inv p q (acts u m e offered) v = acts-Inv u m p e offered v
  Step-Inv p q crashed v = crash-Inv p v
  Step-Inv p q (polled k among) v = polled-Inv p k among v
  Step-Inv p q (answered before later k a r e) v = answer-Inv before later k a r p e v

  pub Reach-Inv : (p : State num) → Reach site p → Inv p
  Reach-Inv p (start token location) = load-Inv token location
  Reach-Inv p (next {p = q} r step) = Step-Inv q p step (Reach-Inv q r)
  Reach-Inv p (reloaded {p = q} r) = reload-Inv q (Reach-Inv q r)
