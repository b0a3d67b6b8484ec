-- ===== src/Admin/Users/Selection.antt =====
-- pages/Users.tsx: what is selected after a checkbox, and after the checkbox of the table's head.
use wow_vpn.Common.{
  ℕ, sym, ap, ◌∙◌, length-map, ◌≡◌, refl, String, false, not, ◌||◌, ◌&&◌, List, [], ◌∷◌, ◌++◌, map,
  length, includes, without, ◌==◌, nat_eq, if◌then◌else◌, arith, eq_iff, ◌+◌, ◌≤◌, length-filter,
  Bool, true, Bool-cases, inl, inr,
}
use wow_vpn.Common.Number.{Number}
use wow_vpn.Admin.Users.Types.{State}
use wow_vpn.Admin.Users.Panel.{toggle_user_selection, toggle_select_all, displayed_users}

includes-append :
    (xs ys : List String) (j : String) → includes (xs ++ ys) j ≡ includes xs j || includes ys j
includes-append [] ys j = refl
includes-append (x ∷ xs) ys j = ground (arith, includes-append xs ys j)

includes-without :
    (id : String) (xs : List String) (j : String)
    → includes (without id xs) j ≡ not (id == j) && includes xs j
includes-without id [] j = ground arith
includes-without id (x ∷ xs) j =
    ground (arith, includes-without id xs j, eq_iff x id, eq_iff x j, eq_iff id j)

-- Each identifier stands once.
abbrev pub Distinct : List String → Type 0
Distinct [] = Unit
Distinct (x ∷ xs) = (includes xs x ≡ false) × Distinct xs

Distinct-without : (id : String) (xs : List String) → Distinct xs → Distinct (without id xs)
Distinct-without id [] h = tt
Distinct-without id (x ∷ xs) (e, h) =
    ground (arith, includes-without id xs x, Distinct-without id xs h, e)

tail_fresh :
    (x id : String) (xs : List String) → includes (x ∷ xs) id ≡ false → includes xs id ≡ false
tail_fresh x id xs e = ground (arith, e)

snoc_fresh :
    (x id : String) (xs : List String)
    → includes (x ∷ xs) id ≡ false
    → includes xs x ≡ false
    → includes (xs ++ id ∷ []) x ≡ false
snoc_fresh x id xs e f =
    rw (includes-append xs (id ∷ []) x) rw f (ground (arith, e, eq_iff id x, eq_iff x id))

Distinct-snoc :
    (xs : List String) (id : String)
    → includes xs id ≡ false
    → Distinct xs
    → Distinct (xs ++ id ∷ [])
Distinct-snoc [] id e h = (refl, tt)
Distinct-snoc (x ∷ xs) id e (f, h) =
    (snoc_fresh x id xs e f, Distinct-snoc xs id (tail_fresh x id xs e) h)

both_hold : (b c : Bool) → b && c ≡ true → (b ≡ true) × (c ≡ true)
both_hold b c h = ground (arith, h)

length-without :
    (x : String) (ys : List String) → includes ys x ≡ true → length (without x ys) + 1 ≤ length ys
length-without x [] e = ground (arith, e)
length-without x (y ∷ ys) e =
    ground (arith, e, length-without x ys, length-filter (λ z. not (z == x)) ys)

-- Whether each of the first is one of the second.
unfoldable pub includes_all : List String → List String → Bool
includes_all [] ys = true
includes_all (x ∷ xs) ys = includes ys x && includes_all xs ys

includes_all-without :
    (x : String) (xs ys : List String)
    → includes xs x ≡ false
    → includes_all xs ys ≡ true
    → includes_all xs (without x ys) ≡ true
unfolding includes_all
includes_all-without x [] ys e h = refl
includes_all-without x (z ∷ xs) ys e h =
    ground
      (arith, e, h, includes-without x ys z, includes_all-without x xs ys, eq_iff z x, eq_iff x z)

length-includes_all :
    (xs ys : List String) → Distinct xs → includes_all xs ys ≡ true → length xs ≤ length ys
unfolding includes_all
length-includes_all [] ys d h = omega arith
length-includes_all (x ∷ xs) ys (e, d) h =
    let (one, rest) = both_hold (includes ys x) (includes_all xs ys) h in
    omega (
      arith,
      length-without x ys one,
      length-includes_all xs (without x ys) d (includes_all-without x xs ys e rest),
    )

-- A list with no more room has every item of the other.
full :
    (xs ys zs : List String)
    → Distinct xs
    → includes_all xs ys ≡ true
    → length ys ≤ length xs
    → includes_all zs ys ≡ true
    → includes_all zs xs ≡ true
unfolding includes_all
full xs ys [] d h n k = refl
full xs ys (z ∷ zs) d h n k =
    let (one, rest) = both_hold (includes ys z) (includes_all zs ys) k in
    elim (Bool-cases (includes xs z)) [
      | inl e ↦ rw (e, full xs ys zs d h n rest) refl
      | inr e ↦ absurd (omega (arith, n, length-includes_all (z ∷ xs) ys (e, d) (rw (one, h) refl)))
    ]

includes_all-more :
    (y : String) (xs ys : List String) → includes_all xs ys ≡ true → includes_all xs (y ∷ ys) ≡ true
unfolding includes_all
includes_all-more y [] ys h = refl
includes_all-more y (x ∷ xs) ys h = ground (arith, h, includes_all-more y xs ys)

includes_all-itself : (xs : List String) → includes_all xs xs ≡ true
unfolding includes_all
includes_all-itself [] = refl
includes_all-itself (x ∷ xs) =
    ground (arith, eq_iff x x, includes_all-more x xs xs (includes_all-itself xs))

number_le : (m n : ℕ) → nat_eq m n ≡ true → n ≤ m
number_le m n h = ground (arith, h)

-- Of two lists without repetitions, one within the other, the numbers tell whether they have the
-- same items.
all_by_number :
    (xs ys : List String)
    → Distinct xs
    → Distinct ys
    → includes_all xs ys ≡ true
    → nat_eq (length xs) (length ys) ≡ includes_all ys xs
all_by_number xs ys d c h = elim (Bool-cases (includes_all ys xs)) [
  | inl e ↦ ground (arith, e, length-includes_all xs ys d h, length-includes_all ys xs c e)
  | inr e ↦ elim (Bool-cases (nat_eq (length xs) (length ys))) [
    | inl q ↦
        q ∙ sym (full xs ys ys d h (number_le (length xs) (length ys) q) (includes_all-itself ys))
    | inr q ↦ q ∙ sym e
  ]
]

chosen_by :
    (b : Bool) (ids : List String) (j : String)
    → includes (if b then [] else ids) j ≡ not b && includes ids j
chosen_by true ids j = refl
chosen_by false ids j = refl

module _ {num : Number} where
  -- A row's checkbox turns the selection of its own client over, and leaves every other as it is.
  pub includes-toggle_user_selection :
      (id j : String) (s : State num)
      → includes (toggle_user_selection id s).selected_users j
        ≡ (if id == j then not (includes s.selected_users j) else includes s.selected_users j)
  unfolding toggle_user_selection
  includes-toggle_user_selection id j s = ground (
    arith,
    includes-without id s.selected_users j,
    includes-append s.selected_users (id ∷ []) j,
    eq_iff id j,
  )

  -- A client that is selected once stays selected once, through every click on the checkbox of a row.
  pub toggle_user_selection-Distinct :
      (id : String) (s : State num)
      → Distinct s.selected_users
      → Distinct (toggle_user_selection id s).selected_users
  unfolding toggle_user_selection
  toggle_user_selection-Distinct id s h =
      ground (arith, Distinct-without id s.selected_users h, Distinct-snoc s.selected_users id)

  -- The selection is of clients that are displayed, each once.
  pub record IsOfDisplayed (s : State num) : Type 0 where
    pub once : Distinct s.selected_users
    pub displayed_once : Distinct (map (λ u. u.id) (displayed_users s))
    pub among : includes_all s.selected_users (map (λ u. u.id) (displayed_users s)) ≡ true

  selected_number :
      (s : State num)
      → IsOfDisplayed s
      → nat_eq (length s.selected_users) (length (displayed_users s))
        ≡ includes_all (map (λ u. u.id) (displayed_users s)) s.selected_users
  selected_number s v =
      ap (nat_eq (length s.selected_users)) (sym (length-map (λ u. u.id) (displayed_users s)))
      ∙ all_by_number s.selected_users (map (λ u. u.id) (displayed_users s)) v.once v.displayed_once
          v.among

  -- If each selected client is displayed, none is selected twice, and the displayed clients have
  -- different identifiers: a click on the checkbox of the head, which compares the numbers of
  -- the two, deselects all exactly if every displayed client was selected, and otherwise selects
  -- exactly the displayed clients.
  pub includes-toggle_select_all :
      (j : String) (s : State num)
      → IsOfDisplayed s
      → includes (toggle_select_all s).selected_users j
        ≡ not (includes_all (map (λ u. u.id) (displayed_users s)) s.selected_users)
          && includes (map (λ u. u.id) (displayed_users s)) j
  unfolding toggle_select_all
  includes-toggle_select_all j s v = rw (selected_number s v) (
      chosen_by (includes_all (map (λ u. u.id) (displayed_users s)) s.selected_users)
        (map (λ u. u.id) (displayed_users s)) j)
