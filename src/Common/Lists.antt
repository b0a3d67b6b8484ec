-- ===== src/Common/Lists.antt =====
-- Lists: lengths and membership tests on native numbers and texts, and a predicate on every item.
use Prim.Native.Nat.{ℕ, suc, ◌≤◌}
use Prim.Native.String.{String}
use mathlib.Core.Path.{◌≡◌, refl, ap, subst}
use mathlib.Core.Bool.{Bool, false, ◌||◌, not}
use mathlib.Core.List.{List, [], ◌∷◌, ◌++◌, Memᴰ, Permᴰ, map}
use native.Mathlib.Omega.{arith}
use wow_vpn.Common.Tests.{◌==◌, if◌then◌else◌}

module _ {ℓ} {A : Type ℓ} where
  abbrev pub length : List A → ℕ
  length [] = 0
  length (x ∷ xs) = suc (length xs)

  -- `Array.prototype.filter`.
  abbrev pub filter : (A → Bool) → List A → List A
  filter p [] = []
  filter p (x ∷ xs) = let rest = filter p xs in if p x then x ∷ rest else rest

  pub length-filter : (p : A → Bool) (xs : List A) → length (filter p xs) ≤ length xs
  length-filter p [] = omega arith
  length-filter p (x ∷ xs) = ground (arith, length-filter p xs)

pub length-map {ℓ κ} :
    {A : Type ℓ} {B : Type κ} (f : A → B) (xs : List A) → length (map f xs) ≡ length xs
length-map f [] = refl
length-map f (x ∷ xs) = ap suc (length-map f xs)

module _ {ℓ κ} {A : Type ℓ} (P : A → Type κ) where
  abbrev pub All : List A → Type κ
  All [] = Unit
  All (x ∷ xs) = P x × All xs

  pub All-append : (xs ys : List A) → All xs → All ys → All (xs ++ ys)
  All-append [] ys _ k = k
  All-append (x ∷ xs) ys (p, h) k = (p, All-append xs ys h k)

  pub All-mem : {a : A} {xs : List A} → Memᴰ a xs → All xs → P a
  All-mem (Memᴰ.head e) (p, _) = rw e p
  All-mem (Memᴰ.tail m) (_, h) = All-mem m h

module _ {ℓ κ} {A : Type ℓ} (P : A → Type κ) where
  pub All-perm : (xs ys : List A) → Permᴰ xs ys → All P xs → All P ys
  All-perm _ _ Permᴰ.nil h = h
  All-perm (x ∷ xs) (y ∷ ys) (Permᴰ.cons e d) (p, h) = (subst P e p, All-perm xs ys d h)
  All-perm (x ∷ z ∷ xs) (y ∷ w ∷ ys) (Permᴰ.swap e f) (p, (q, h)) = (subst P f q, (subst P e p, h))
  All-perm xs zs (Permᴰ.trans {l₂ = ys} d c) h = All-perm ys zs c (All-perm xs ys d h)

-- `Array.prototype.includes` on a list of identifiers.
abbrev pub includes : List String → String → Bool
includes [] id = false
includes (x ∷ xs) id = x == id || includes xs id

-- `xs.filter((x) => x !== id)`.
abbrev pub without : String → List String → List String
without id = filter (λ x. not (x == id))

module _ {ℓ κ} {A : Type ℓ} (P : A → Type κ) where
  pub All-split : (xs ys : List A) → All P (xs ++ ys) → All P xs × All P ys
  All-split [] ys h = (tt, h)
  All-split (x ∷ xs) ys (p, h) = let (k, l) = All-split xs ys h in ((p, k), l)
