-- ===== src/Prelude/Select.antt =====
-- A list that is made of the elements of another one that satisfy a condition, in their order, said
-- without a test that computes.
use Prim.Native.Nat.{ℕ, suc}
use mathlib.Core.Path.{◌≡◌, refl}
use mathlib.Core.Logic.{◌↔◌, ◌⊎◌, inl, inr}
use mathlib.Core.Bool.{Bool, true, false, ◌&&◌}
use mathlib.Core.Option.{Option, none, some}
use mathlib.Core.List.{List, [], ◌∷◌, map}
use codesoul.Prelude.Tests.{Bool-cases}
use codesoul.Prelude.Lists.{take, filter}
use codesoul.Prelude.Collect.{effective_limit, collect, collect-eq-limited}

-- The second list has one element, related to it by `R`, for each element of the first that satisfies
-- `P`, and no other.
pub data Selects {A B : Type 0} (P : A → Type 0) (R : A → B → Type 0)
    : List A → List B → Type 0 where
  done : Selects P R [] []
  kept :
      {a : A} {b : B} {xs : List A} {ys : List B}
      → P a
      → R a b
      → Selects P R xs ys
      → Selects P R (a ∷ xs) (b ∷ ys)
  left_out :
      {a : A} {xs : List A} {ys : List B} → (¬ P a) → Selects P R xs ys → Selects P R (a ∷ xs) ys

abbrev pub Same : {A : Type 0} → A → A → Type 0
Same a b = b ≡ a

module _ {A : Type 0} (P : A → Type 0) (p : A → Bool) (decides : (a : A) → (p a ≡ true) ↔ P a) where
  pub map-filter-Selects :
      {B : Type 0} (R : A → B → Type 0) (f : A → B)
      → ((a : A) → R a (f a))
      → (xs : List A) → Selects P R xs (map f (filter p xs))
  map-filter-Selects R f r [] = done
  map-filter-Selects R f r (x ∷ xs) = elim (Bool-cases (p x)) [
    | inl t ↦ rw t (kept ((decides x).0 t) (r x) (map-filter-Selects R f r xs))
    | inr g ↦ rw g (left_out (λ h. cc ((decides x).1 h, g)) (map-filter-Selects R f r xs))
  ]

  pub filter-Selects : (xs : List A) → Selects P Same xs (filter p xs)
  filter-Selects [] = done
  filter-Selects (x ∷ xs) = elim (Bool-cases (p x)) [
    | inl t ↦ rw t (kept ((decides x).0 t) refl (filter-Selects xs))
    | inr g ↦ rw g (left_out (λ h. cc ((decides x).1 h, g)) (filter-Selects xs))
  ]

-- `out` is all of the list, where there is no limit or the limit 0, and else its first elements.
abbrev pub Cut : {A : Type 0} → Option ℕ → List A → List A → Type 0
Cut limit all out =
    ((limit ≡ none) ⊎ (limit ≡ some 0) → out ≡ all)
    × ((n : ℕ) → limit ≡ some (suc n) → out ≡ take (suc n) all)

module _ {A : Type 0} (P : A → Type 0) (p : A → Bool) (decides : (a : A) → (p a ≡ true) ↔ P a) where
  Cut-collect :
      (limit : Option ℕ) (xs : List A)
      → Cut limit (filter p xs) (collect p (effective_limit limit) [] xs)
  unfolding effective_limit
  Cut-collect limit xs = (
    (λ h. elim h [
      | inl e ↦ rw e (collect-eq-limited p none xs)
      | inr e ↦ rw e (collect-eq-limited p (some 0) xs)
    ]),
    λ n e. rw e (collect-eq-limited p (some (suc n)) xs),
  )

  -- The loop with its early exit returns the first elements that satisfy the condition.
  pub collect-Selects :
      (limit : Option ℕ) (xs : List A)
      → (all : List A) × Selects P Same xs all
        × Cut limit all (collect p (effective_limit limit) [] xs)
  collect-Selects limit xs = (filter p xs, filter-Selects P p decides xs, Cut-collect limit xs)

-- A test of two parts.
pub and_iff :
    {P Q : Type 0} (a b : Bool) → (a ≡ true) ↔ P → (b ≡ true) ↔ Q → ((a && b) ≡ true) ↔ (P × Q)
and_iff false b f g = ((λ e. absurd (cc e)), λ (p, q). absurd (cc (f.1 p)))
and_iff true b f g = ((λ e. (f.0 refl, g.0 e)), λ (p, q). g.1 q)
