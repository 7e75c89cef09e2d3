-- ===== src/Prelude/Sort.antt =====
-- `Array.prototype.sort`: a stable sort by a comparison, and the order of strings by their code
-- units, which it uses where it is given none.
use mathlib.Core.Path.{◌≡◌, refl, sym, ap, ◌∙◌, subst}
use mathlib.Core.Logic.{◌⊎◌, inl, inr}
use mathlib.Core.Bool.{Bool, true, false, ◌&&◌, ◌||◌}
use mathlib.Core.List.{List, [], ◌∷◌, map}
use codesoul.Prelude.Tests.{if◌then◌else◌, ltb, nat_eq, Bool-cases}
use codesoul.Prelude.Member.{In, All, Distinct, In-map, In_of_In-map}
use codesoul.Prelude.Texts.{Text}

-- `le a b` says that `a` need not come after `b`: the comparison is not positive.
module _ {A : Type 0} (le : A → A → Bool) where
  unfoldable pub insert_by : A → List A → List A
  insert_by x [] = x ∷ []
  insert_by x (y ∷ ys) = if le x y then x ∷ y ∷ ys else y ∷ insert_by x ys

  unfoldable pub sort_by : List A → List A
  unfolding insert_by
  sort_by [] = []
  sort_by (x ∷ xs) = insert_by x (sort_by xs)

  -- Every element comes before all that follow it.
  abbrev pub IsSorted : List A → Type 0
  IsSorted [] = Unit
  IsSorted (x ∷ xs) = All (λ y. le x y ≡ true) xs × IsSorted xs

  -- Sorting what is sorted changes nothing.
  pub sort_by_sorted : (xs : List A) → IsSorted xs → sort_by xs ≡ xs
  unfolding sort_by
  sort_by_sorted [] h = refl
  sort_by_sorted (x ∷ []) h = refl
  sort_by_sorted (x ∷ y ∷ ys) h = ap (insert_by x) (sort_by_sorted (y ∷ ys) h.1) ∙ rw h.0.0

  pub In-insert_by : (a x : A) (xs : List A) → In a (insert_by x xs) → (a ≡ x) ⊎ In a xs
  unfolding insert_by
  In-insert_by a x [] m = m
  In-insert_by a x (y ∷ ys) m = elim (Bool-cases (le x y)) [
    | inl t ↦ rw t at m
    | inr f ↦ swap (In-insert_by a x ys) (rw f at m)
  ]
    where
      swap :
          (In a (insert_by x ys) → (a ≡ x) ⊎ In a ys)
          → (a ≡ y) ⊎ In a (insert_by x ys)
          → (a ≡ x) ⊎ ((a ≡ y) ⊎ In a ys)
      swap later (inl e) = inr (inl e)
      swap later (inr n) = elim (later n) [ inl e ↦ inl e | inr o ↦ inr (inr o) ]

  insert_by-In : (a x : A) (xs : List A) → (a ≡ x) ⊎ In a xs → In a (insert_by x xs)
  unfolding insert_by
  insert_by-In a x [] m = m
  insert_by-In a x (y ∷ ys) m = elim (Bool-cases (le x y)) [
    | inl t ↦ rw t m
    | inr f ↦ rw f (swap (insert_by-In a x ys) m)
  ]
    where
      swap :
          ((a ≡ x) ⊎ In a ys → In a (insert_by x ys))
          → (a ≡ x) ⊎ ((a ≡ y) ⊎ In a ys)
          → (a ≡ y) ⊎ In a (insert_by x ys)
      swap later (inl e) = inr (later (inl e))
      swap later (inr (inl e)) = inl e
      swap later (inr (inr n)) = inr (later (inr n))

  -- Sorting keeps the elements.
  pub In_of_In-sort_by : (a : A) (xs : List A) → In a (sort_by xs) → In a xs
  unfolding sort_by
  In_of_In-sort_by a [] m = m
  In_of_In-sort_by a (x ∷ xs) m = elim (In-insert_by a x (sort_by xs) m) [
    | inl e ↦ inl e
    | inr n ↦ inr (In_of_In-sort_by a xs n)
  ]

  pub In-sort_by : (a : A) (xs : List A) → In a xs → In a (sort_by xs)
  unfolding sort_by
  In-sort_by a [] m = m
  In-sort_by a (x ∷ xs) (inl e) = insert_by-In a x (sort_by xs) (inl e)
  In-sort_by a (x ∷ xs) (inr m) = insert_by-In a x (sort_by xs) (inr (In-sort_by a xs m))

  module _ {B : Type 0} (f : A → B) where
    In-map-insert_by :
        (b : B) (x : A) (xs : List A) → In b (map f (insert_by x xs)) → (b ≡ f x) ⊎ In b (map f xs)
    In-map-insert_by b x xs m =
        let (a, n, e) = In_of_In-map f b (insert_by x xs) m in
        elim (In-insert_by a x xs n) [
          | inl h ↦ inl (e ∙ ap f h)
          | inr i ↦ inr (subst (λ z. In z (map f xs)) (sym e) (In-map f a xs i))
        ]

    Distinct-insert_by :
        (x : A) (xs : List A)
        → (¬ In (f x) (map f xs))
        → Distinct (map f xs)
        → Distinct (map f (insert_by x xs))
    unfolding insert_by
    Distinct-insert_by x [] n d = (n, d)
    Distinct-insert_by x (y ∷ ys) n d = elim (Bool-cases (le x y)) [
      | inl t ↦ rw t (n, d)
      | inr g ↦ rw g (
        (λ m. elim (In-map-insert_by (f y) x ys m) [ inl e ↦ n (inl (sym e)) | inr i ↦ d.0 i ]),
        Distinct-insert_by x ys (λ i. n (inr i)) d.1,
      )
    ]

    -- Sorting what has no two elements of one key leaves it so.
    pub Distinct-sort_by : (xs : List A) → Distinct (map f xs) → Distinct (map f (sort_by xs))
    unfolding sort_by
    Distinct-sort_by [] d = d
    Distinct-sort_by (x ∷ xs) d =
        Distinct-insert_by x (sort_by xs)
          (λ m.
            let (a, n, e) = In_of_In-map f (f x) (sort_by xs) m in
            d.0 (subst (λ z. In z (map f xs)) (sym e) (In-map f a xs (In_of_In-sort_by a xs n))))
          (Distinct-sort_by xs d.1)

-- The order of `<` on strings: by code units, a prefix first.
unfoldable pub text_le : Text → Text → Bool
text_le [] ys = true
text_le (x ∷ xs) [] = false
text_le (x ∷ xs) (y ∷ ys) = ltb x y || (nat_eq x y && text_le xs ys)

unfoldable pub sort : List Text → List Text
unfolding text_le sort_by
sort = sort_by text_le
