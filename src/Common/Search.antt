-- ===== src/Common/Search.antt =====
-- `includes` of texts against its meaning, and membership in a filtered list.
use Prim.Native.String
use text.Mathlib.TextEquality.{starts_with_iff}
use text.Mathlib.TextPositions.{starts_with_of_prefix}
use text.Mathlib.TextLemmas.{nil-append, cons-append, append-eq-nil_iff}
use text.Mathlib.TextBridge.{IsPrefix}
use wow_vpn.Common.{
  ◌≡◌, refl, sym, ap, ◌∙◌, ◌⊎◌, inl, inr, String, Bool, true, false, List, [], ◌∷◌, Memᴰ, filter,
  Bool-cases, includes_text, starts_with, ◌||◌, eq_iff,
}

-- `t` stands somewhere in `s`.
abbrev pub Contains : String → String → Type 0
Contains s t = (u : String) × (v : String) × (s ≡ String.◌++◌ u (String.◌++◌ t v))

pub or_cases : (a b : Bool) → (a || b) ≡ true → (a ≡ true) ⊎ (b ≡ true)
or_cases true b h = inl refl
or_cases false b h = inr h

pub or_true_left : (a b : Bool) → a ≡ true → (a || b) ≡ true
or_true_left a b h = rw h

pub or_true : (a b : Bool) → b ≡ true → (a || b) ≡ true
or_true true b h = refl
or_true false b h = h

pub includes_text-Contains : (s t : String) → includes_text s t ≡ true → Contains s t
unfolding includes_text
includes_text-Contains String.[] t h = ("", "", rw ((eq_iff t "").0 h))
includes_text-Contains (String.◌∷◌ c s) t h =
    elim (or_cases (starts_with (String.◌∷◌ c s) t) (includes_text s t) h) [
      | inl p ↦
          let (v, e) = (starts_with_iff (String.◌∷◌ c s) t).0 p in
          ("", v, sym e ∙ sym (nil-append (String.◌++◌ t v)))
      | inr q ↦
          let (u, v, e) = includes_text-Contains s t q in
          (String.◌∷◌ c u, v, ap (String.◌∷◌ c) e ∙ sym (cons-append c u (String.◌++◌ t v)))
    ]

includes_text_of_prefix :
    (s t : String) → starts_with s t ≡ true → IsPrefix t s → includes_text s t ≡ true
unfolding includes_text
includes_text_of_prefix String.[] t h (v, e) = (eq_iff t "").1 (append-eq-nil_iff.0 e).0
includes_text_of_prefix (String.◌∷◌ c s) t h k = rw h

includes_text-append : (u t v : String) → includes_text (String.◌++◌ u (String.◌++◌ t v)) t ≡ true
unfolding includes_text
includes_text-append String.[] t v =
    rw nil-append
      (includes_text_of_prefix (String.◌++◌ t v) t (starts_with_of_prefix t _ (v, refl)) (v, refl))
includes_text-append (String.◌∷◌ c u) t v =
    rw cons-append (or_true _ _ (includes_text-append u t v))

pub includes_text_of_Contains : (s t : String) → Contains s t → includes_text s t ≡ true
includes_text_of_Contains s t (u, v, e) = rw e (includes_text-append u t v)

module _ {ℓ} {A : Type ℓ} (p : A → Bool) where
  pub mem_of_mem-filter : {a : A} (xs : List A) → Memᴰ a (filter p xs) → Memᴰ a xs × (p a ≡ true)
  mem_of_mem-filter [] m = elim m [ ]
  mem_of_mem-filter {a} (x ∷ xs) m = elim (Bool-cases (p x)) [
    | inl h ↦ at_head h (mem_of_mem-filter xs) (rw h at m)
    | inr h ↦ let (later, k) = mem_of_mem-filter xs (rw h at m) in (Memᴰ.tail later, k)
  ]
    where
      at_head :
          p x ≡ true
          → (Memᴰ a (filter p xs) → Memᴰ a xs × (p a ≡ true))
          → Memᴰ a (x ∷ filter p xs)
          → Memᴰ a (x ∷ xs) × (p a ≡ true)
      at_head h ih (Memᴰ.head e) = (Memᴰ.head e, rw e h)
      at_head h ih (Memᴰ.tail later) = (Memᴰ.tail (ih later).0, (ih later).1)

  pub mem-filter : {a : A} (xs : List A) → Memᴰ a xs → p a ≡ true → Memᴰ a (filter p xs)
  mem-filter [] m h = elim m [ ]
  mem-filter (x ∷ xs) (Memᴰ.head e) h = rw (← e, h) (Memᴰ.head refl)
  mem-filter (x ∷ xs) (Memᴰ.tail m) h = elim (Bool-cases (p x)) [
    | inl k ↦ rw k (Memᴰ.tail (mem-filter xs m h))
    | inr k ↦ rw k (mem-filter xs m h)
  ]
