-- ===== src/JsMap/Laws.antt =====
-- The laws of `Map` and `Set`.
use codesoul.Prelude.{
  Text, ◌==◌, eq_iff, ◌≡◌, refl, sym, Bool, true, false, Option, none, some, [], ◌∷◌, ◌++◌, arith,
  if◌then◌else◌, In, ◌⊎◌, inl, inr, Bool-cases, ◌||◌,
}
use codesoul.JsMap.{JsMap, JsSet, get, has, set, values, contains}

abbrev pub is_some {ℓ} : {A : Type ℓ} → Option A → Bool
is_some none = false
is_some (some a) = true

module _ {V : Type 0} where
  -- A read after a write sees the value at the key that was written, and the old value elsewhere.
  pub get-set :
      (k j : Text) (v : V) (m : JsMap V) → get j (set k v m) ≡ (if k == j then some v else get j m)
  unfolding get set
  get-set k j v [] = refl
  get-set k j v ((i, w) ∷ m) = ground (arith, eq_iff k j, eq_iff i k, eq_iff i j, get-set k j v m)

  pub has-set : (k j : Text) (v : V) (m : JsMap V) → has j (set k v m) ≡ (k == j || has j m)
  unfolding has set
  has-set k j v [] = refl
  has-set k j v ((i, w) ∷ m) = ground (arith, eq_iff k j, eq_iff i k, eq_iff i j, has-set k j v m)

  pub get-eq-none : (k : Text) (m : JsMap V) → has k m ≡ false → get k m ≡ none
  unfolding get has
  get-eq-none k [] h = refl
  get-eq-none k ((j, v) ∷ m) h = ground (arith, get-eq-none k m)

  pub has_of_get : (k : Text) (m : JsMap V) (v : V) → get k m ≡ some v → has k m ≡ true
  unfolding get has
  has_of_get k [] v h = cc
  has_of_get k ((j, w) ∷ m) v h = ground (arith, has_of_get k m v)

  pub get_of_has : (k : Text) (m : JsMap V) → has k m ≡ true → (v : V) × (get k m ≡ some v)
  unfolding get has
  get_of_has k [] h = cc
  get_of_has k ((j, v) ∷ m) h = elim (Bool-cases (j == k)) [
    | inl t ↦ (v, rw t)
    | inr f ↦ rw f (get_of_has k m (rw f at h))
  ]

  -- What is read is among the values.
  pub In-values : (k : Text) (m : JsMap V) (v : V) → get k m ≡ some v → In v (values m)
  unfolding get
  In-values k [] v h = cc
  In-values k ((j, w) ∷ m) v h = elim (Bool-cases (j == k)) [
    | inl t ↦ inl (ground arith)
    | inr f ↦ inr (In-values k m v (ground arith))
  ]

  -- A value after a write is the new one, or was there before.
  pub In-values-set :
      (k : Text) (v : V) (m : JsMap V) (a : V)
      → In a (values (set k v m))
      → (a ≡ v) ⊎ In a (values m)
  unfolding set
  In-values-set k v [] a h = h
  In-values-set k v ((j, w) ∷ m) a h = elim (Bool-cases (j == k)) [
    | inl t ↦ replaced (rw t at h)
    | inr f ↦ kept (In-values-set k v m a) (rw f at h)
  ]
    where
      replaced : (a ≡ v) ⊎ In a (values m) → (a ≡ v) ⊎ ((a ≡ w) ⊎ In a (values m))
      replaced (inl e) = inl e
      replaced (inr n) = inr (inr n)

      kept :
          (In a (values (set k v m)) → (a ≡ v) ⊎ In a (values m))
          → (a ≡ w) ⊎ In a (values (set k v m))
          → (a ≡ v) ⊎ ((a ≡ w) ⊎ In a (values m))
      kept later (inl e) = inr (inl e)
      kept later (inr n) = elim (later n) [ inl f ↦ inl f | inr o ↦ inr (inr o) ]

  pub length-set_new :
      (k : Text) (v : V) (m : JsMap V) → has k m ≡ false → set k v m ≡ m ++ (k, v) ∷ []
  unfolding has set
  length-set_new k v [] h = refl
  length-set_new k v ((j, w) ∷ m) h = ground (arith, length-set_new k v m)

  pub has-eq-is_some : (k : Text) (m : JsMap V) → has k m ≡ is_some (get k m)
  unfolding get has
  has-eq-is_some k [] = refl
  has-eq-is_some k ((j, v) ∷ m) = ground (arith, has-eq-is_some k m)

pub contains-append :
    (k : Text) (s t : JsSet) → contains k (s ++ t) ≡ (contains k s || contains k t)
unfolding contains
contains-append k [] t = refl
contains-append k (j ∷ s) t = ground (arith, contains-append k s t)

pub In_of_contains : (k : Text) (s : JsSet) → contains k s ≡ true → In k s
unfolding contains
In_of_contains k [] h = cc
In_of_contains k (j ∷ s) h = elim (Bool-cases (j == k)) [
  | inl t ↦ inl (sym ((eq_iff j k).0 t))
  | inr f ↦ inr (In_of_contains k s (ground arith))
]

pub contains_of_In : (k : Text) (s : JsSet) → In k s → contains k s ≡ true
unfolding contains
contains_of_In k [] m = elim m [ ]
contains_of_In k (j ∷ s) (inl e) = ground (arith, eq_iff j k)
contains_of_In k (j ∷ s) (inr m) = ground (arith, contains_of_In k s m)
