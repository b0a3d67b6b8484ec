-- ===== src/View/Offers.antt =====
-- What holds of every message that a rendered tree offers, from its parts.
use wow_vpn.Common.{Bool, true, false, String, List, [], ◌∷◌, ◌++◌, map, All, All-append, All-split}
use wow_vpn.View.{Attr, Node, element, nodes, shown, own_clicks, clicks, clicks_all}

module _ {M : Type 0} (P : M → Type 0) where
  abbrev pub Offers : Node M → Type 0
  Offers x = All P (clicks x)

  abbrev pub EachOffers : List (Node M) → Type 0
  EachOffers xs = All P (clicks_all (nodes xs))

  pub Offers-element :
      (tag : String) (attrs : List (Attr M)) (xs : List (Node M))
      → All P (own_clicks attrs)
      → EachOffers xs
      → Offers (element tag attrs (nodes xs))
  Offers-element tag attrs xs own inner =
      All-append P (own_clicks attrs) (clicks_all (nodes xs)) own inner

  pub EachOffers-cons :
      (x : Node M) (xs : List (Node M)) → Offers x → EachOffers xs → EachOffers (x ∷ xs)
  EachOffers-cons x xs h k = All-append P (clicks x) (clicks_all (nodes xs)) h k

  pub EachOffers-append :
      (xs ys : List (Node M)) → EachOffers xs → EachOffers ys → EachOffers (xs ++ ys)
  EachOffers-append [] ys h k = k
  EachOffers-append (x ∷ xs) ys h k =
      let (here, later) = All-split P (clicks x) (clicks_all (nodes xs)) h in
      EachOffers-cons x (xs ++ ys) here (EachOffers-append xs ys later k)

  pub EachOffers-shown : (b : Bool) (xs : List (Node M)) → EachOffers xs → EachOffers (shown b xs)
  EachOffers-shown true xs h = h
  EachOffers-shown false xs h = tt

  pub EachOffers-map {ℓ} :
      {A : Type ℓ} (f : A → Node M) (xs : List A) → ((a : A) → Offers (f a)) → EachOffers (map f xs)
  EachOffers-map f [] h = tt
  EachOffers-map f (x ∷ xs) h = EachOffers-cons (f x) (map f xs) (h x) (EachOffers-map f xs h)
