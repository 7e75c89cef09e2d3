-- ===== src/JsMap/Keyed.antt =====
-- Maps whose keys are computed from their values, as every store of the program keeps them.
use codesoul.Prelude.{
  Text, ◌==◌, eq_iff, ◌≡◌, refl, sym, ap, ◌∙◌, some, [], ◌∷◌, map, arith, In, All, Distinct, ◌⊎◌,
  inl, inr, Bool-cases,
}
use mathlib.Core.Path.{subst, ap₂}
use codesoul.JsMap.{JsMap, get, set, keys, values}

module _ {V : Type 0} (key : V → Text) where
  -- No key occurs twice, and each is the key of its value.
  pub record Keyed (m : JsMap V) : Type 0 where
    pub own : All (λ e. e.0 ≡ key e.1) m
    pub distinct : Distinct (keys m)

  own-get :
      (k : Text) (m : JsMap V) (v : V) → All (λ e. e.0 ≡ key e.1) m → get k m ≡ some v → key v ≡ k
  unfolding get
  own-get k [] v h p = cc
  own-get k ((j, w) ∷ m) v h p = ground (arith, eq_iff j k, own-get k m v)

  -- What is read at a key has that key.
  pub Keyed-get : (k : Text) (m : JsMap V) (v : V) → Keyed m → get k m ≡ some v → key v ≡ k
  Keyed-get k m v h p = own-get k m v h.own p

  In-keys :
      (v : V) (m : JsMap V) → All (λ e. e.0 ≡ key e.1) m → In v (values m) → In (key v) (keys m)
  In-keys v [] h n = n
  In-keys v ((j, w) ∷ m) h (inl e) = inl (ap key e ∙ sym h.0)
  In-keys v ((j, w) ∷ m) h (inr n) = inr (In-keys v m h.1 n)

  get-key :
      (v : V) (m : JsMap V)
      → All (λ e. e.0 ≡ key e.1) m
      → Distinct (keys m)
      → In v (values m)
      → get (key v) m ≡ some v
  unfolding get
  get-key v [] h d n = elim n [ ]
  get-key v ((j, w) ∷ m) h d (inl e) = ground (arith, eq_iff j (key v), h.0, ap key e, e)
  get-key v ((j, w) ∷ m) h d (inr n) = elim (Bool-cases (j == key v)) [
    | inl y ↦ absurd (d.0 (rw ((eq_iff j (key v)).0 y) (In-keys v m h.1 n)))
    | inr f ↦ rw f (get-key v m h.1 d.1 n)
  ]

  -- Every value is read at its key.
  pub Keyed-In : (v : V) (m : JsMap V) → Keyed m → In v (values m) → get (key v) m ≡ some v
  Keyed-In v m h n = get-key v m h.own h.distinct n

  own-set :
      (v : V) (m : JsMap V)
      → All (λ e. e.0 ≡ key e.1) m
      → All (λ e. e.0 ≡ key e.1) (set (key v) v m)
  unfolding set
  own-set v [] h = (refl, tt)
  own-set v ((j, w) ∷ m) h = elim (Bool-cases (j == key v)) [
    | inl y ↦ rw y ((eq_iff j (key v)).0 y, h.1)
    | inr f ↦ rw f (h.0, own-set v m h.1)
  ]

  keys-set : (k j : Text) (v : V) (m : JsMap V) → In j (keys (set k v m)) → (j ≡ k) ⊎ In j (keys m)
  unfolding set
  keys-set k j v [] n = n
  keys-set k j v ((i, w) ∷ m) n = elim (Bool-cases (i == k)) [
    | inl y ↦ inr (rw y at n)
    | inr f ↦ later (keys-set k j v m) (rw f at n)
  ]
    where
      later :
          (In j (keys (set k v m)) → (j ≡ k) ⊎ In j (keys m))
          → (j ≡ i) ⊎ In j (keys (set k v m))
          → (j ≡ k) ⊎ ((j ≡ i) ⊎ In j (keys m))
      later rest (inl e) = inr (inl e)
      later rest (inr o) = elim (rest o) [ inl e ↦ inl e | inr p ↦ inr (inr p) ]

  distinct-set : (k : Text) (v : V) (m : JsMap V) → Distinct (keys m) → Distinct (keys (set k v m))
  unfolding set
  distinct-set k v [] d = ((λ n. n), tt)
  distinct-set k v ((i, w) ∷ m) d = elim (Bool-cases (i == k)) [
    | inl y ↦ rw y d
    | inr f ↦ rw f (
      (λ n. elim (keys-set k i v m n) [ inl e ↦ ground (arith, eq_iff i k) | inr o ↦ d.0 o ]),
      distinct-set k v m d.1,
    )
  ]

  -- A write under the value's own key keeps the map keyed.
  pub Keyed-set : (v : V) (m : JsMap V) → Keyed m → Keyed (set (key v) v m)
  Keyed-set v m h = record {
    own = own-set v m h.own;
    distinct = distinct-set (key v) v m h.distinct;
  }

  map-values : (m : JsMap V) → All (λ e. e.0 ≡ key e.1) m → map key (values m) ≡ keys m
  map-values [] h = refl
  map-values ((k, v) ∷ m) h = ap₂ ◌∷◌ (sym h.0) (map-values m h.1)

  -- No two values have the same key.
  pub Keyed-Distinct : (m : JsMap V) → Keyed m → Distinct (map key (values m))
  Keyed-Distinct m h = subst Distinct (sym (map-values m h.own)) h.distinct

  pub Keyed-empty : Keyed []
  Keyed-empty = record { own = tt; distinct = tt }
