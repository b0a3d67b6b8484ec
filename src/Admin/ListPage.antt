-- ===== src/Admin/ListPage.antt =====
-- What the pages that list records of the server and change them have in common (pages/Users.tsx,
-- Groups.tsx, Nodes.tsx, Templates.tsx, ResponseRules.tsx), with a server that answers in order.
pub mod Settled
pub mod Rounds
use wow_vpn.Common.{sym, ◌∙◌, ◌≢◌, arith, ◌≡◌, Bool, true, false, List, [], ◌∷◌, ◌++◌}

-- The server's answer to a command: its list, or that a change is done.
pub data Reply (Item : Type 0) : Type 0 where
  listed : List Item → Reply Item
  done : Reply Item

-- A page of this kind. A command is a request with the rest of its handler; an action is a click
-- or an input.
pub record ListPage : Type 1 where
  pub Item : Type 0
  pub State : Type 0
  pub Command : Type 0
  pub Action : Type 0
  pub list_of : State → List Item
  pub is_load : Command → Bool
  pub act : Action → State → State × List Command
  pub answered : Command → Reply Item → State → State × List Command
  -- Only the answer of a load changes what the page lists, and a change that is done is followed by
  -- another command.
  pub list_of-act : (a : Action) (s : State) → list_of (act a s).0 ≡ list_of s
  pub list_of-listed :
      (c : Command) (xs : List Item) (s : State)
      → is_load c ≡ true
      → list_of (answered c (listed xs) s).0 ≡ xs
  pub done-starts : (c : Command) (s : State) → is_load c ≡ false → (answered c done s).1 ≢ []

-- A page that comes to rest: a load asks for no more, and a change for one load.
pub record Restful (page : ListPage) : Type 0 where
  pub listed-ends :
      (c : page.Command) (xs : List page.Item) (s : page.State)
      → page.is_load c ≡ true
      → (page.answered c (listed xs) s).1 ≡ []
  pub done-loads :
      (c : page.Command) (s : page.State)
      → page.is_load c ≡ false
      → (d : page.Command) × (page.is_load d ≡ true) × ((page.answered c done s).1 ≡ d ∷ [])

pub one-nonempty {ℓ} : {A : Type ℓ} {x : A} {xs : List A} → xs ≡ x ∷ [] → xs ≢ []
one-nonempty e f = ground (arith, sym e ∙ f)

module _ (page : ListPage) where
  open page use {Item, State, Command, Action, list_of, is_load, act, answered}

  -- The page, what it has asked for and the server has not yet seen, the server's answers under
  -- way, and the server's records. Requests and answers keep their order, and none fails.
  pub record World : Type 0 where
    pub state : State
    pub asked : List Command
    pub replies : List (Command × Reply Item)
    pub records : List Item

  -- The server's records after a command, and its reply; `change` is what a change does to them.
  abbrev pub serve_as :
      Bool → (Command → List Item → List Item) → Command → List Item → List Item × Reply Item
  serve_as true change c xs = (xs, listed xs)
  serve_as false change c xs = (change c xs, done)

  abbrev pub serve :
      (Command → List Item → List Item) → Command → List Item → List Item × Reply Item
  serve change c xs = serve_as (is_load c) change c xs

  pub data Step (change : Command → List Item → List Item) (w : World) : World → Type 0 where
    acted :
        (a : Action)
        → Step change w
            (record w { state = (act a w.state).0; asked = w.asked ++ (act a w.state).1 })
    served :
        (c : Command) (rest : List Command)
        → w.asked ≡ c ∷ rest
        → Step change w (record w {
          asked = rest;
          replies = w.replies ++ (c, (serve change c w.records).1) ∷ [];
          records = (serve change c w.records).0;
        })
    received :
        (c : Command) (r : Reply Item) (rest : List (Command × Reply Item))
        → w.replies ≡ (c, r) ∷ rest
        → Step change w (record w {
          state = (answered c r w.state).0;
          asked = w.asked ++ (answered c r w.state).1;
          replies = rest;
        })

  -- Any run from a page that has asked for the list.
  pub data Reach (change : Command → List Item → List Item) : World → Type 0 where
    opened :
        (s : State) (c : Command) (xs : List Item)
        → Reach change (record { state = s; asked = c ∷ []; replies = []; records = xs })
    next : {w v : World} → Reach change w → Step change w v → Reach change v
