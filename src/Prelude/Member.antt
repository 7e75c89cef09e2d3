-- ===== src/Prelude/Member.antt =====
-- Membership, "for all" and "no element twice" on lists, as predicates by recursion.
use mathlib.Core.Path.{◌≡◌, refl, ap, ◌∙◌}
use mathlib.Core.Logic.{◌⊎◌, inl, inr}
use mathlib.Core.Bool.{Bool, true}
use mathlib.Core.List.{List, [], ◌∷◌, ◌++◌, map}
use native.Mathlib.Omega.{arith}
use codesoul.Prelude.Tests.{Bool-cases}
use codesoul.Prelude.Lists.{filter}

module _ {A : Type 0} where
  abbrev pub In : A → List A → Type 0
  In a [] = ⊥
  In a (x ∷ xs) = (a ≡ x) ⊎ In a xs

  abbrev pub All : (A → Type 0) → List A → Type 0
  All P [] = Unit
  All P (x ∷ xs) = P x × All P xs

  abbrev pub Distinct : List A → Type 0
  Distinct [] = Unit
  Distinct (x ∷ xs) = (¬ In x xs) × Distinct xs

  pub In-append_left : (a : A) (xs ys : List A) → In a xs → In a (xs ++ ys)
  In-append_left a [] ys m = elim m [ ]
  In-append_left a (x ∷ xs) ys (inl e) = inl e
  In-append_left a (x ∷ xs) ys (inr m) = inr (In-append_left a xs ys m)

  pub In-append_right : (a : A) (xs ys : List A) → In a ys → In a (xs ++ ys)
  In-append_right a [] ys m = m
  In-append_right a (x ∷ xs) ys m = inr (In-append_right a xs ys m)

  pub In-append_cases : (a : A) (xs ys : List A) → In a (xs ++ ys) → In a xs ⊎ In a ys
  In-append_cases a [] ys m = inr m
  In-append_cases a (x ∷ xs) ys (inl e) = inl (inl e)
  In-append_cases a (x ∷ xs) ys (inr m) = elim (In-append_cases a xs ys m) [
    | inl l ↦ inl (inr l)
    | inr r ↦ inr r
  ]

  pub In-filter : (p : A → Bool) (a : A) (xs : List A) → In a xs → p a ≡ true → In a (filter p xs)
  In-filter p a [] m h = elim m [ ]
  In-filter p a (x ∷ xs) (inl e) h = ground (arith, ap p e)
  In-filter p a (x ∷ xs) (inr m) h = elim (Bool-cases (p x)) [
    | inl t ↦ rw t (inr (In-filter p a xs m h))
    | inr f ↦ rw f (In-filter p a xs m h)
  ]

  pub In_of_In-filter :
      (p : A → Bool) (a : A) (xs : List A) → In a (filter p xs) → In a xs × (p a ≡ true)
  In_of_In-filter p a [] m = absurd m
  In_of_In-filter p a (x ∷ xs) m = elim (Bool-cases (p x)) [
    | inl t ↦ pick t (In_of_In-filter p a xs) (rw t at m)
    | inr f ↦ let r = In_of_In-filter p a xs (rw f at m) in (inr r.0, r.1)
  ]
    where
      pick :
          p x ≡ true
          → (In a (filter p xs) → In a xs × (p a ≡ true))
          → (a ≡ x) ⊎ In a (filter p xs)
          → In a (x ∷ xs) × (p a ≡ true)
      pick t later (inl e) = (inl e, ap p e ∙ t)
      pick t later (inr n) = let r = later n in (inr r.0, r.1)

  pub In-All : (P : A → Type 0) (a : A) (xs : List A) → All P xs → In a xs → P a
  In-All P a [] h m = elim m [ ]
  In-All P a (x ∷ xs) h (inl e) = rw e h.0
  In-All P a (x ∷ xs) h (inr m) = In-All P a xs h.1 m

  pub All-append : (P : A → Type 0) (xs ys : List A) → All P xs → All P ys → All P (xs ++ ys)
  All-append P [] ys h k = k
  All-append P (x ∷ xs) ys h k = (h.0, All-append P xs ys h.1 k)

  pub All-of_In : (P : A → Type 0) (xs : List A) → ((a : A) → In a xs → P a) → All P xs
  All-of_In P [] h = tt
  All-of_In P (x ∷ xs) h = (h x (inl refl), All-of_In P xs (λ a m. h a (inr m)))

module _ {A B : Type 0} (f : A → B) where
  pub In-map : (a : A) (xs : List A) → In a xs → In (f a) (map f xs)
  In-map a [] m = elim m [ ]
  In-map a (x ∷ xs) (inl e) = inl (ap f e)
  In-map a (x ∷ xs) (inr m) = inr (In-map a xs m)

  pub In_of_In-map : (b : B) (xs : List A) → In b (map f xs) → (a : A) × In a xs × (b ≡ f a)
  In_of_In-map b [] m = elim m [ ]
  In_of_In-map b (x ∷ xs) (inl e) = (x, inl refl, e)
  In_of_In-map b (x ∷ xs) (inr m) = let (a, n, e) = In_of_In-map b xs m in (a, inr n, e)
