-- ===== src/Sqlite/Rows.antt =====
-- A table whose rows have distinct keys, as the map from the keys to what the rows stand for.
use codesoul.Prelude.{
  Text, ◌==◌, eq_iff, ◌≡◌, refl, sym, ap, ◌∙◌, false, none, some, List, [], ◌∷◌, ◌++◌, map, arith,
  if◌then◌else◌, In, In-map, In-append_cases, Distinct, ◌⊎◌, inl, inr, Bool-cases,
}
use mathlib.Core.Path.{subst, ap₂}
use codesoul.JsMap.{JsMap, get, set}
use codesoul.Sqlite.{Engine}

module _ {Row V : Type 0} (key : Row → Text) (value : Row → V) where
  abbrev pub entries : List Row → JsMap V
  entries = map (λ r. (key r, value r))

  pub fresh :
      (k : Text) (rows : List Row)
      → get k (entries rows) ≡ none
      → (x : Row) → In x rows
      → (key x == k) ≡ false
  unfolding get
  fresh k [] p x i = elim i [ ]
  fresh k (r ∷ rows) p x (inl e) = rw e (ground arith)
  fresh k (r ∷ rows) p x (inr i) = fresh k rows (ground arith) x i

  pub found :
      (k : Text) (rows : List Row) (v : V)
      → get k (entries rows) ≡ some v
      → (x : Row) × In x rows × (key x ≡ k) × (value x ≡ v)
  unfolding get
  found k [] v p = cc
  found k (r ∷ rows) v p = elim (Bool-cases (key r == k)) [
    | inl t ↦ (r, inl refl, (eq_iff (key r) k).0 t, ground arith)
    | inr f ↦ let (x, i, e, w) = found k rows v (rw f at p) in (x, inr i, e, w)
  ]

  pub unique :
      (rows : List Row) (x y : Row)
      → Distinct (map key rows)
      → In x rows
      → In y rows
      → key x ≡ key y
      → x ≡ y
  unique [] x y d i j e = elim i [ ]
  unique (r ∷ rows) x y d (inl i) (inl j) e = i ∙ sym j
  unique (r ∷ rows) x y d (inl i) (inr j) e =
      absurd (d.0 (subst (λ k. In k (map key rows)) (sym e ∙ ap key i) (In-map key y rows j)))
  unique (r ∷ rows) x y d (inr i) (inl j) e =
      absurd (d.0 (subst (λ k. In k (map key rows)) (e ∙ ap key j) (In-map key x rows i)))
  unique (r ∷ rows) x y d (inr i) (inr j) e = unique rows x y d.1 i j e

  pub entries_new :
      (r : Row) (rows : List Row)
      → get (key r) (entries rows) ≡ none
      → entries (rows ++ r ∷ []) ≡ set (key r) (value r) (entries rows)
  unfolding get set
  entries_new r [] p = refl
  entries_new r (x ∷ rows) p = ground (arith, entries_new r rows)

  -- Rows changed under the key `k`.
  abbrev pub changed : Text → (Row → Row) → List Row → List Row
  changed k f = map (λ r. if key r == k then f r else r)

  pub changed_others :
      (k : Text) (f : Row → Row) (rows : List Row)
      → ((y : Row) → In y rows → (key y == k) ≡ false)
      → changed k f rows ≡ rows
  changed_others k f [] h = refl
  changed_others k f (r ∷ rows) h =
      rw (h r (inl refl)) (ap (λ l. r ∷ l) (changed_others k f rows (λ y i. h y (inr i))))

  others :
      (k : Text) (r : Row) (rows : List Row)
      → Distinct (map key (r ∷ rows))
      → key r ≡ k
      → (y : Row) → In y rows
      → (key y == k) ≡ false
  others k r rows d e y j = elim (Bool-cases (key y == k)) [
    | inl t ↦ absurd (
        d.0
          (subst (λ s. In s (map key rows)) ((eq_iff (key y) k).0 t ∙ sym e) (In-map key y rows j)))
    | inr f ↦ f
  ]

  pub entries_changed :
      (k : Text) (f : Row → Row) (rows : List Row) (x : Row)
      → Distinct (map key rows)
      → In x rows
      → key x ≡ k
      → key (f x) ≡ k
      → entries (changed k f rows) ≡ set k (value (f x)) (entries rows)
  unfolding set
  entries_changed k f [] x d i e g = elim i [ ]
  entries_changed k f (r ∷ rows) x d (inl i) e g =
      let er = ap key (sym i) ∙ e in
      rw ((eq_iff (key r) k).1 er) (
        ap₂ ◌∷◌
          (ap₂ (λ a b. (a, b)) (ap (λ q. key (f q)) (sym i) ∙ g ∙ sym er)
            (ap (λ q. value (f q)) (sym i)))
          (ap entries (changed_others k f rows (others k r rows d er))))
  entries_changed k f (r ∷ rows) x d (inr i) e g = elim (Bool-cases (key r == k)) [
    | inl t ↦ absurd (
        d.0 (
          subst (λ s. In s (map key rows)) (e ∙ sym ((eq_iff (key r) k).0 t))
            (In-map key x rows i)))
    | inr n ↦ rw n (ap (λ l. (key r, value r) ∷ l) (entries_changed k f rows x d.1 i e g))
  ]

  pub keys-changed :
      (k : Text) (f : Row → Row) (rows : List Row)
      → ((r : Row) → key r ≡ k → key (f r) ≡ k)
      → map key (changed k f rows) ≡ map key rows
  keys-changed k f [] h = refl
  keys-changed k f (r ∷ rows) h = elim (Bool-cases (key r == k)) [
    | inl t ↦
        let e = (eq_iff (key r) k).0 t in rw t (ap₂ ◌∷◌ (h r e ∙ sym e) (keys-changed k f rows h))
    | inr n ↦ rw n (ap (λ l. key r ∷ l) (keys-changed k f rows h))
  ]

  pub In-append_one : (rows : List Row) (r x : Row) → In x (rows ++ r ∷ []) → In x rows ⊎ (x ≡ r)
  In-append_one rows r x i = elim (In-append_cases x rows (r ∷ []) i) [
    | inl j ↦ inl j
    | inr (inl e) ↦ inr e
    | inr (inr z) ↦ elim z [ ]
  ]

  pub In_of_In-changed :
      (k : Text) (f : Row → Row) (rows : List Row) (y : Row)
      → In y (changed k f rows)
      → In y rows ⊎ ((x : Row) × In x rows × (key x ≡ k) × (y ≡ f x))
  In_of_In-changed k f [] y i = elim i [ ]
  In_of_In-changed k f (r ∷ rows) y (inl i) = elim (Bool-cases (key r == k)) [
    | inl t ↦ inr (r, inl refl, (eq_iff (key r) k).0 t, rw t at i)
    | inr n ↦ inl (inl (rw n at i))
  ]
  In_of_In-changed k f (r ∷ rows) y (inr i) = elim (In_of_In-changed k f rows y i) [
    | inl j ↦ inl (inr j)
    | inr (x, j, e, h) ↦ inr (x, inr j, e, h)
  ]

  pub In-changed :
      (k : Text) (f : Row → Row) (rows : List Row) (x : Row)
      → In x rows
      → key x ≡ k
      → In (f x) (changed k f rows)
  In-changed k f [] x i e = elim i [ ]
  In-changed k f (r ∷ rows) x (inl i) e =
      inl (rw ((eq_iff (key r) k).1 (ap key (sym i) ∙ e)) (ap f i))
  In-changed k f (r ∷ rows) x (inr i) e = inr (In-changed k f rows x i e)

  In_of_In-append :
      (k : Text) (r : Row) (rows : List Row)
      → In k (map key (rows ++ r ∷ []))
      → In k (map key rows) ⊎ (k ≡ key r)
  In_of_In-append k r [] (inl e) = inr e
  In_of_In-append k r [] (inr i) = elim i [ ]
  In_of_In-append k r (x ∷ rows) (inl e) = inl (inl e)
  In_of_In-append k r (x ∷ rows) (inr i) = elim (In_of_In-append k r rows i) [
    | inl j ↦ inl (inr j)
    | inr e ↦ inr e
  ]

  Distinct-append :
      (r : Row) (rows : List Row)
      → ((x : Row) → In x rows → (key x == key r) ≡ false)
      → Distinct (map key rows)
      → Distinct (map key (rows ++ r ∷ []))
  Distinct-append r [] h d = ((λ i. i), tt)
  Distinct-append r (x ∷ rows) h d = (
    λ i. elim (In_of_In-append (key x) r rows i) [
      | inl j ↦ d.0 j
      | inr e ↦ cc ((eq_iff (key x) (key r)).1 e, h x (inl refl))
    ],
    Distinct-append r rows (λ y j. h y (inr j)) d.1,
  )

  pub Distinct-append_new :
      (r : Row) (rows : List Row)
      → get (key r) (entries rows) ≡ none
      → Distinct (map key rows)
      → Distinct (map key (rows ++ r ∷ []))
  Distinct-append_new r rows p d = Distinct-append r rows (fresh (key r) rows p) d

  module _ (db : Engine) where
    pub get_row-found :
        (k : Text) (rows : List Row) (x : Row)
        → Distinct (map key rows)
        → In x rows
        → key x ≡ k
        → db.get_row Row (λ r. key r == k) rows ≡ some x
    get_row-found k rows x d i e =
        db.gets Row (λ r. key r == k) rows x i ((eq_iff (key x) k).1 e)
          (λ y j t. unique rows y x d j i ((eq_iff (key y) k).0 t ∙ sym e))

    pub get_row-missing :
        (k : Text) (rows : List Row)
        → get k (entries rows) ≡ none
        → db.get_row Row (λ r. key r == k) rows ≡ none
    get_row-missing k rows p = db.misses Row (λ r. key r == k) rows (fresh k rows p)
