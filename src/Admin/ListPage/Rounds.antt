-- ===== src/Admin/ListPage/Rounds.antt =====
-- A page that lists the server's records comes to rest when no one touches it.
use mathlib.Core.Path.{subst}
use wow_vpn.Common.{
  All, All-append, ℕ, zero, suc, ◌+◌, ◌≤◌, ◌≡◌, refl, ap, Bool, true, false, List, [], ◌∷◌, ◌++◌,
  arith,
}
use wow_vpn.Admin.ListPage.{
  ListPage, Restful, Reply, listed, done, World, serve_as, serve, Step, acted, served, received,
  Reach, opened, next,
}
use wow_vpn.Admin.ListPage.Settled.{settled}

module _ (page : ListPage) (restful : Restful page) where
  open page use {Item, State, Command, list_of, is_load, act, answered}
  open restful use {listed-ends, done-loads}

  -- How many more times the server or the page is at work: a load is served and received, a change
  -- also brings a load.
  abbrev pub work_for : Bool → ℕ
  work_for true = 2
  work_for false = 4

  abbrev pub work_asked : List Command → ℕ
  work_asked [] = 0
  work_asked (c ∷ cs) = work_for (is_load c) + work_asked cs

  abbrev pub work_replies : List (Command × Reply Item) → ℕ
  work_replies [] = 0
  work_replies ((c, listed xs) ∷ rest) = 1 + work_replies rest
  work_replies ((c, done) ∷ rest) = 3 + work_replies rest

  abbrev pub work_due : World page → ℕ
  work_due w = work_asked w.asked + work_replies w.replies

  -- A load is answered by a list, and a change is not.
  abbrev Fits : Command × Reply Item → Type 0
  Fits (c, listed xs) = is_load c ≡ true
  Fits (c, done) = is_load c ≡ false

  abbrev AllFit : World page → Type 0
  AllFit w = All Fits w.replies

  -- The server answers the oldest request; if there is none, the page takes the oldest answer.
  abbrev pub go_on :
      (Command → List Item → List Item)
      → List Command
      → List (Command × Reply Item)
      → World page
      → World page
  go_on change (c ∷ rest) replies w = record w {
    asked = rest;
    replies = w.replies ++ (c, (serve page change c w.records).1) ∷ [];
    records = (serve page change c w.records).0;
  }
  go_on change [] ((c, r) ∷ rest) w = record w {
    state = (answered c r w.state).0;
    asked = w.asked ++ (answered c r w.state).1;
    replies = rest;
  }
  go_on change [] [] w = w

  abbrev pub rounds : (Command → List Item → List Item) → ℕ → World page → World page
  rounds change zero w = w
  rounds change (suc n) w = rounds change n (go_on change w.asked w.replies w)

  work_asked-append : (xs ys : List Command) → work_asked (xs ++ ys) ≡ work_asked xs + work_asked ys
  work_asked-append [] ys = omega arith
  work_asked-append (x ∷ xs) ys = omega (arith, work_asked-append xs ys)

  work_replies-append :
      (xs ys : List (Command × Reply Item))
      → work_replies (xs ++ ys) ≡ work_replies xs + work_replies ys
  work_replies-append [] ys = omega arith
  work_replies-append ((c, listed zs) ∷ xs) ys = omega (arith, work_replies-append xs ys)
  work_replies-append ((c, done) ∷ xs) ys = omega (arith, work_replies-append xs ys)

  serve-work :
      (b : Bool) (change : Command → List Item → List Item) (c : Command) (xs : List Item)
      → 1 + work_replies ((c, (serve_as page b change c xs).1) ∷ []) ≡ work_for b
  serve-work true change c xs = refl
  serve-work false change c xs = refl

  serve-Fits :
      (b : Bool) (change : Command → List Item → List Item) (c : Command) (xs : List Item)
      → is_load c ≡ b
      → Fits (c, (serve_as page b change c xs).1)
  serve-Fits true change c xs e = e
  serve-Fits false change c xs e = e

  answered-work :
      (c : Command) (r : Reply Item) (s : State)
      → Fits (c, r)
      → 1 + work_asked (answered c r s).1 ≡ work_replies ((c, r) ∷ [])
  answered-work c (listed xs) s fits = rw (listed-ends c xs s fits) refl
  answered-work c done s fits =
      let (d, loads, starts) = done-loads c s fits in rw (starts, loads) refl

  Step-AllFit :
      (change : Command → List Item → List Item) (w v : World page)
      → Step page change w v
      → AllFit w
      → AllFit v
  Step-AllFit change w v (acted a) h = h
  Step-AllFit change w v (served c rest e) h =
      All-append Fits w.replies ((c, (serve page change c w.records).1) ∷ []) h
        (serve-Fits (is_load c) change c w.records refl, tt)
  Step-AllFit change w v (received c r rest e) h = (subst (All Fits) e h).1

  Reach-AllFit :
      (change : Command → List Item → List Item) (w : World page) → Reach page change w → AllFit w
  Reach-AllFit change w (opened s c xs) = tt
  Reach-AllFit change w (next {w = v} r step) =
      Step-AllFit change v w step (Reach-AllFit change v r)

  go_on-work :
      (change : Command → List Item → List Item) (asked : List Command)
      (replies : List (Command × Reply Item)) (w : World page) (n : ℕ)
      → w.asked ≡ asked
      → w.replies ≡ replies
      → AllFit w
      → work_due w ≤ 1 + n
      → work_due (go_on change asked replies w) ≤ n
  go_on-work change (c ∷ rest) replies w n e f fits h = omega (
    arith,
    h,
    ap work_asked e,
    serve-work (is_load c) change c w.records,
    work_replies-append w.replies ((c, (serve page change c w.records).1) ∷ []),
  )
  go_on-work change [] ((c, r) ∷ rest) w n e f fits h = omega (
    arith,
    h,
    ap work_replies f,
    work_replies-append ((c, r) ∷ []) rest,
    answered-work c r w.state (subst (All Fits) f fits).0,
    work_asked-append w.asked (answered c r w.state).1,
  )
  go_on-work change [] [] w n e f fits h = omega (arith, ap work_asked e, ap work_replies f)

  go_on-Reach :
      (change : Command → List Item → List Item) (asked : List Command)
      (replies : List (Command × Reply Item)) (w : World page)
      → w.asked ≡ asked
      → w.replies ≡ replies
      → Reach page change w
      → Reach page change (go_on change asked replies w)
  go_on-Reach change (c ∷ rest) replies w e f reach = next reach (served c rest e)
  go_on-Reach change [] ((c, r) ∷ rest) w e f reach = next reach (received c r rest f)
  go_on-Reach change [] [] w e f reach = reach

  work_for_positive : (b : Bool) → 1 ≤ work_for b
  work_for_positive b = ground arith

  none_asked : (cs : List Command) → work_asked cs ≤ 0 → cs ≡ []
  none_asked [] h = refl
  none_asked (c ∷ cs) h = absurd (omega (arith, work_for_positive (is_load c), h))

  none_under_way : (rs : List (Command × Reply Item)) → work_replies rs ≤ 0 → rs ≡ []
  none_under_way [] h = refl
  none_under_way ((c, listed xs) ∷ rs) h = absurd (omega (arith, h))
  none_under_way ((c, done) ∷ rs) h = absurd (omega (arith, h))

  rounds-rest :
      (change : Command → List Item → List Item) (n : ℕ) (w : World page)
      → Reach page change w
      → work_due w ≤ n
      → Reach page change (rounds change n w)
        × ((rounds change n w).asked ≡ [])
        × ((rounds change n w).replies ≡ [])
  rounds-rest change zero w reach h =
      (reach, none_asked w.asked (omega (arith, h)), none_under_way w.replies (omega (arith, h)))
  rounds-rest change (suc n) w reach h =
      rounds-rest change n (go_on change w.asked w.replies w)
        (go_on-Reach change w.asked w.replies w refl refl reach)
        (go_on-work change w.asked w.replies w n refl refl (Reach-AllFit change w reach)
          (omega (arith, h)))

  -- Whatever was clicked and typed before: when the server and the page do the work that is due, one
  -- piece after another, nothing is under way at its end, and the page lists the server's records.
  pub rounds-list_of :
      (change : Command → List Item → List Item) (w : World page)
      → Reach page change w
      → let v = rounds change (work_due w) w in
        (v.asked ≡ []) × (v.replies ≡ []) × (list_of v.state ≡ v.records)
  rounds-list_of change w reach =
      let v = rounds change (work_due w) w in
      let (reached, asked, replies) = rounds-rest change (work_due w) w reach (omega arith) in
      (asked, replies, settled page change v reached asked replies)
