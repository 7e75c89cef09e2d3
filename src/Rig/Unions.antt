-- ===== src/Rig/Unions.antt =====
-- The union of two dependency lists, as the merge of two components computes it.
use codesoul.Prelude.{
  Text, ◌≡◌, ◌↔◌, true, List, [], ◌∷◌, ◌++◌, foldl, In, In-append_left, In-append_right,
  In-append_cases, ◌⊎◌, inl, inr, Bool-cases, sort, text_le, In-sort_by, In_of_In-sort_by,
}
use codesoul.JsMap.{JsSet, contains, add}
use codesoul.JsMap.Laws.{In_of_contains}
use codesoul.Rig.{dedupe}

In-add : (x y : Text) (s : JsSet) → In x (add y s) → In x s ⊎ (x ≡ y)
unfolding add
In-add x y s m = elim (Bool-cases (contains y s)) [
  | inl t ↦ inl (rw t at m)
  | inr f ↦ elim (In-append_cases x s (y ∷ []) (rw f at m)) [
    | inl l ↦ inl l
    | inr (inl e) ↦ inr e
    | inr (inr n) ↦ absurd n
  ]
]

add-In : (x y : Text) (s : JsSet) → In x s ⊎ (x ≡ y) → In x (add y s)
unfolding add
add-In x y s m = elim (Bool-cases (contains y s)) [
  | inl t ↦ rw t (there t m)
  | inr f ↦ rw f (appended m)
]
  where
    there : contains y s ≡ true → In x s ⊎ (x ≡ y) → In x s
    there t (inl n) = n
    there t (inr e) = rw e (In_of_contains y s t)

    appended : In x s ⊎ (x ≡ y) → In x (s ++ y ∷ [])
    appended (inl n) = In-append_left x s (y ∷ []) n
    appended (inr e) = In-append_right x s (y ∷ []) (inl e)

abbrev add_all : JsSet → List Text → JsSet
add_all = foldl (λ s x. add x s)

In-add_all : (x : Text) (s : JsSet) (l : List Text) → In x (add_all s l) → In x s ⊎ In x l
In-add_all x s [] m = inl m
In-add_all x s (y ∷ l) m = elim (In-add_all x (add y s) l m) [
  | inr n ↦ inr (inr n)
  | inl n ↦ elim (In-add x y s n) [ inl o ↦ inl o | inr e ↦ inr (inl e) ]
]

add_all-In : (x : Text) (s : JsSet) (l : List Text) → In x s ⊎ In x l → In x (add_all s l)
add_all-In x s [] (inl n) = n
add_all-In x s [] (inr n) = absurd n
add_all-In x s (y ∷ l) (inl n) = add_all-In x (add y s) l (inl (add-In x y s (inl n)))
add_all-In x s (y ∷ l) (inr (inl e)) = add_all-In x (add y s) l (inl (add-In x y s (inr e)))
add_all-In x s (y ∷ l) (inr (inr n)) = add_all-In x (add y s) l (inr n)

pub In-sort : (x : Text) (l : List Text) → In x (sort l) ↔ In x l
unfolding sort
In-sort x l = (In_of_In-sort_by text_le x l, In-sort_by text_le x l)

-- The union of two dependency lists, as the merge computes it.
pub In-union : (x : Text) (a b : List Text) → In x (sort (dedupe (a ++ b))) ↔ (In x a ⊎ In x b)
unfolding dedupe
In-union x a b = (
  (λ m. elim (In-add_all x [] (a ++ b) ((In-sort x (add_all [] (a ++ b))).0 m)) [
    | inl n ↦ absurd n
    | inr n ↦ In-append_cases x a b n
  ]),
  λ m. (In-sort x (add_all [] (a ++ b))).1 (add_all-In x [] (a ++ b) (inr (either m))),
)
  where
    either : In x a ⊎ In x b → In x (a ++ b)
    either (inl n) = In-append_left x a b n
    either (inr n) = In-append_right x a b n
