-- ===== src/Admin/ListPage/Settled.antt =====
-- What a user of a page that lists the server's records relies on: once everything is answered, the
-- page shows what the server has.
use mathlib.Core.Path.{subst}
use wow_vpn.Common.{◌≡◌, refl, ◌≢◌, ◌∙◌, Bool, true, false, List, [], ◌∷◌, ◌++◌}
use wow_vpn.Admin.ListPage.{
  ListPage, Reply, listed, done, World, serve_as, serve, Step, acted, served, received, Reach,
  opened, next,
}

module _ (page : ListPage) where
  open page use {
    Item, State, Command, list_of, is_load, act, answered, list_of-act, list_of-listed, done-starts,
  }

  -- The last answer under way brings the server's records, or has the page ask for them.
  abbrev Brings : List Item → Command × Reply Item → Type 0
  Brings xs (c, listed ys) = (is_load c ≡ true) × (ys ≡ xs)
  Brings xs (c, done) = is_load c ≡ false

  Last : List Item → List (Command × Reply Item) → List Item → Type 0
  Last shows [] xs = shows ≡ xs
  Last shows (p ∷ []) xs = Brings xs p
  Last shows (p ∷ q ∷ ps) xs = Last shows (q ∷ ps) xs

  Due : List Item → List Command → List (Command × Reply Item) → List Item → Type 0
  Due shows [] replies xs = Last shows replies xs
  Due shows (_ ∷ _) replies xs = Unit

  abbrev IsDue : World page → Type 0
  IsDue w = Due (list_of w.state) w.asked w.replies w.records

  Last-append :
      (shows : List Item) (ps : List (Command × Reply Item)) (p : Command × Reply Item)
      (xs : List Item)
      → Brings xs p
      → Last shows (ps ++ p ∷ []) xs
  unfolding Last
  Last-append shows [] p xs h = h
  Last-append shows (q ∷ []) p xs h = h
  Last-append shows (q ∷ r ∷ ps) p xs h = Last-append shows (r ∷ ps) p xs h

  serve_as-Brings :
      (b : Bool) (change : Command → List Item → List Item) (c : Command) (xs : List Item)
      → is_load c ≡ b
      → Brings (serve_as page b change c xs).0 (c, (serve_as page b change c xs).1)
  serve_as-Brings true change c xs e = (e, refl)
  serve_as-Brings false change c xs e = e

  Due-append :
      (shows : List Item) (asked more : List Command) (replies : List (Command × Reply Item))
      (xs : List Item)
      → Due shows asked replies xs
      → Due shows (asked ++ more) replies xs
  unfolding Due
  Due-append shows [] [] replies xs h = h
  Due-append shows [] (c ∷ more) replies xs h = tt
  Due-append shows (c ∷ asked) more replies xs h = tt

  Due-nonempty :
      (shows : List Item) (asked : List Command) (replies : List (Command × Reply Item))
      (xs : List Item)
      → asked ≢ []
      → Due shows asked replies xs
  unfolding Due
  Due-nonempty shows [] replies xs h = absurd (h refl)
  Due-nonempty shows (c ∷ asked) replies xs h = tt

  -- With an answer still to come, what the page shows now does not matter.
  Last-any :
      (shows now : List Item) (p : Command × Reply Item) (ps : List (Command × Reply Item))
      (xs : List Item)
      → Last shows (p ∷ ps) xs
      → Last now (p ∷ ps) xs
  unfolding Last
  Last-any shows now p [] xs h = h
  Last-any shows now p (q ∷ ps) xs h = Last-any shows now q ps xs h

  serve-Due :
      (shows : List Item) (rest : List Command) (replies : List (Command × Reply Item))
      (p : Command × Reply Item) (xs : List Item)
      → Brings xs p
      → Due shows rest (replies ++ p ∷ []) xs
  unfolding Due
  serve-Due shows [] replies p xs h = Last-append shows replies p xs h
  serve-Due shows (c ∷ rest) replies p xs h = tt

  receive-Due :
      (s : State) (c : Command) (r : Reply Item) (asked : List Command)
      (rest : List (Command × Reply Item)) (xs : List Item)
      → Due (list_of s) asked ((c, r) ∷ rest) xs
      → Due (list_of (answered c r s).0) (asked ++ (answered c r s).1) rest xs
  unfolding Due Last
  receive-Due s c r (a ∷ asked) rest xs h = tt
  receive-Due s c r [] (q ∷ rest) xs h =
      Due-append _ [] (answered c r s).1 (q ∷ rest) xs
        (Last-any (list_of s) (list_of (answered c r s).0) q rest xs h)
  receive-Due s c (listed ys) [] [] xs (loads, e) =
      Due-append _ [] (answered c (listed ys) s).1 [] xs (list_of-listed c ys s loads ∙ e)
  receive-Due s c done [] [] xs changes = Due-nonempty _ _ [] xs (done-starts c s changes)

  Step-IsDue :
      (change : Command → List Item → List Item) (w v : World page)
      → Step page change w v
      → IsDue w
      → IsDue v
  Step-IsDue change w v (acted a) h =
      rw (list_of-act a w.state)
        (Due-append (list_of w.state) w.asked (act a w.state).1 w.replies w.records h)
  Step-IsDue change w v (served c rest e) h =
      serve-Due (list_of w.state) rest w.replies (c, (serve page change c w.records).1)
        (serve page change c w.records).0 (serve_as-Brings (is_load c) change c w.records refl)
  Step-IsDue change w v (received c r rest e) h =
      receive-Due w.state c r w.asked rest w.records
        (subst (λ rs. Due (list_of w.state) w.asked rs w.records) e h)

  Reach-IsDue :
      (change : Command → List Item → List Item) (w : World page) → Reach page change w → IsDue w
  unfolding Due
  Reach-IsDue change w (opened s c xs) = tt
  Reach-IsDue change w (next {w = v} r step) = Step-IsDue change v w step (Reach-IsDue change v r)

  -- With answers in the order of the requests, none of them failing, and no one else changing the
  -- server's records: when everything asked for has been answered, the page lists the records.
  pub settled :
      (change : Command → List Item → List Item) (w : World page)
      → Reach page change w
      → w.asked ≡ []
      → w.replies ≡ []
      → list_of w.state ≡ w.records
  unfolding Due Last
  settled change w r e f =
      subst (λ rs. Last (list_of w.state) rs w.records) f
        (subst (λ as_. Due (list_of w.state) as_ w.replies w.records) e (Reach-IsDue change w r))
