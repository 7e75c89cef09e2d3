-- ===== src/Prelude/Ordered.antt =====
-- Sorting by a comparison of scores: the result is in order and has the same elements.
use mathlib.Core.Path.{◌≡◌}
use mathlib.Core.Logic.{inl, inr}
use mathlib.Core.Bool.{Bool, true, false, not}
use mathlib.Core.List.{List, [], ◌∷◌, Perm}
use mathlib.Core.List.Perm
use codesoul.Prelude.Tests.{Bool-cases}
use codesoul.Prelude.Member.{All, In-All, All-of_In}
use codesoul.Prelude.Sort.{insert_by, sort_by, In-insert_by}

module _ {A : Type 0} (le : A → A → Bool) where
  insert_by-Perm : (x : A) (xs : List A) → Perm (insert_by le x xs) (x ∷ xs)
  unfolding insert_by
  insert_by-Perm x [] = Perm.refl (x ∷ [])
  insert_by-Perm x (y ∷ ys) = elim (Bool-cases (le x y)) [
    | inl t ↦ rw t (Perm.refl (x ∷ y ∷ ys))
    | inr f ↦ rw f (Perm.trans (Perm.cons y (insert_by-Perm x ys)) (Perm.swap x y ys))
  ]

  -- Sorting keeps the elements, each as many times as it is there.
  pub sort_by-Perm : (xs : List A) → Perm (sort_by le xs) xs
  unfolding sort_by
  sort_by-Perm [] = Perm.refl []
  sort_by-Perm (x ∷ xs) =
      Perm.trans (insert_by-Perm x (sort_by le xs)) (Perm.cons x (sort_by-Perm xs))

module _ {A Number : Type 0} (gt : Number → Number → Bool) (score : A → Number) where
  -- No element has a higher score than one in front of it.
  abbrev pub Descending : List A → Type 0
  Descending [] = Unit
  Descending (x ∷ xs) = All (λ y. gt (score y) (score x) ≡ false) xs × Descending xs

  module _ (below : (a b : Number) → gt a b ≡ true → gt b a ≡ false)
      (through : (a b c : Number) → gt b a ≡ false → gt c b ≡ false → gt c a ≡ false) where
    insert-Descending :
        (x : A) (xs : List A)
        → Descending xs
        → Descending (insert_by (λ a b. not (gt (score b) (score a))) x xs)
    unfolding insert_by
    insert-Descending x [] d = (tt, tt)
    insert-Descending x (y ∷ ys) d = elim (Bool-cases (gt (score y) (score x))) [
      | inr f ↦ rw f (
        (f, All-of_In _ ys (λ z i. through (score x) (score y) (score z) f (In-All _ z ys d.0 i))),
        d,
      )
      | inl t ↦ rw t (
        All-of_In _ _ (λ z i. elim (In-insert_by (λ a b. not (gt (score b) (score a))) z x ys i) [
          | inl e ↦ rw e (below (score y) (score x) t)
          | inr j ↦ In-All _ z ys d.0 j
        ]),
        insert-Descending x ys d.1,
      )
    ]

    -- Sorting by the scores, the highest first, puts the list in that order.
    pub sort_by-Descending :
        (xs : List A) → Descending (sort_by (λ a b. not (gt (score b) (score a))) xs)
    unfolding sort_by
    sort_by-Descending [] = tt
    sort_by-Descending (x ∷ xs) = insert-Descending x _ (sort_by-Descending xs)
