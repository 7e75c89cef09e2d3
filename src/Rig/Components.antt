-- ===== src/Rig/Components.antt =====
-- The merge of components into a map that holds one with the id.
use codesoul.Prelude.{
  Text, ◌==◌, eq_iff, ◌≡◌, refl, sym, ap, ◌∙◌, ◌↔◌, false, some, List, [], ◌∷◌, ◌++◌, foldl, arith,
  if◌then◌else◌, In, ◌⊎◌, inl, inr, Bool-cases, Option-cases, sort,
}
use mathlib.Core.Path.{subst}
use codesoul.JsMap.{JsMap, get}
use codesoul.JsMap.Laws.{get-set}
use codesoul.Rig.{RigComponent, dedupe, merge_component}
use codesoul.Rig.Unions.{In-union}

-- A component of a list with the id `id` lists `d` among its dependencies.
abbrev pub Declares : Text → Text → List RigComponent → Type 0
Declares id d cs = (c : RigComponent) × In c cs × (c.id ≡ id) × In d c.depends_on

abbrev pub SameIdentity : RigComponent → RigComponent → Type 0
SameIdentity a b = (a.id ≡ b.id) × (a.name ≡ b.name) × (a.kind ≡ b.kind) × (a.path ≡ b.path)

pub differ : (a b : Text) → (a == b) ≡ false → a ≡ b → ⊥
differ a b f e = cc (f, (eq_iff a b).1 e)

-- What the merge makes of the component `x` that a map holds under `id`.
pub record Grown (id : Text) (x : RigComponent) (cs : List RigComponent) (y : RigComponent)
    : Type 0 where
  pub same : SameIdentity x y
  pub deps : (d : Text) → In d y.depends_on ↔ (In d x.depends_on ⊎ Declares id d cs)

abbrev pub components_merged : JsMap RigComponent → List RigComponent → JsMap RigComponent
components_merged = foldl merge_component

-- The component that `merge_component` leaves under an id that is there.
unfoldable pub unioned : RigComponent → RigComponent → RigComponent
unioned x c = record x { depends_on = sort (dedupe (x.depends_on ++ c.depends_on)) }

pub get-merge_component :
    (id : Text) (m : JsMap RigComponent) (c x : RigComponent)
    → get id m ≡ some x
    → get id (merge_component m c) ≡ (if c.id == id then some (unioned x c) else some x)
unfolding unioned merge_component
get-merge_component id m c x p = elim (Option-cases (get c.id m)) [
  | inl n ↦
      rw (n, merge_component)
        (ground
          (arith, get-set c.id id (record c { depends_on = sort c.depends_on }) m, eq_iff c.id id))
  | inr (z, q) ↦
      rw (q, merge_component) (ground (arith, get-set c.id id (unioned z c) m, eq_iff c.id id))
]

module _ (id d : Text) (c : RigComponent) (cs : List RigComponent) where
  pub Declares-later : Declares id d cs → Declares id d (c ∷ cs)
  Declares-later (b, m, e, n) = (b, inr m, e, n)

  pub Declares-cases : Declares id d (c ∷ cs) → ((c.id ≡ id) × In d c.depends_on) ⊎ Declares id d cs
  Declares-cases (b, inl p, e, n) =
      inl (ap (λ x. x.id) (sym p) ∙ e, subst (λ x. In d x.depends_on) p n)
  Declares-cases (b, inr m, e, n) = inr (b, m, e, n)

  grown_cases :
      (x : RigComponent)
      → c.id ≡ id
      → (In d (unioned x c).depends_on ⊎ Declares id d cs)
        ↔ (In d x.depends_on ⊎ Declares id d (c ∷ cs))
  unfolding unioned
  grown_cases x e = (to, from)
    where
      to :
          In d (sort (dedupe (x.depends_on ++ c.depends_on))) ⊎ Declares id d cs
          → In d x.depends_on ⊎ Declares id d (c ∷ cs)
      to (inl m) = elim ((In-union d x.depends_on c.depends_on).0 m) [
        | inl a ↦ inl a
        | inr b ↦ inr (c, inl refl, e, b)
      ]
      to (inr n) = inr (Declares-later n)

      from :
          In d x.depends_on ⊎ Declares id d (c ∷ cs)
          → In d (sort (dedupe (x.depends_on ++ c.depends_on))) ⊎ Declares id d cs
      from (inl m) = inl ((In-union d x.depends_on c.depends_on).1 (inl m))
      from (inr n) = elim (Declares-cases n) [
        | inl (_, m) ↦ inl ((In-union d x.depends_on c.depends_on).1 (inr m))
        | inr k ↦ inr k
      ]

  skipped_cases :
      (x : RigComponent)
      → (c.id ≡ id → ⊥)
      → (In d x.depends_on ⊎ Declares id d cs) ↔ (In d x.depends_on ⊎ Declares id d (c ∷ cs))
  skipped_cases x other = (to, from)
    where
      to : In d x.depends_on ⊎ Declares id d cs → In d x.depends_on ⊎ Declares id d (c ∷ cs)
      to (inl m) = inl m
      to (inr n) = inr (Declares-later n)

      from : In d x.depends_on ⊎ Declares id d (c ∷ cs) → In d x.depends_on ⊎ Declares id d cs
      from (inl m) = inl m
      from (inr n) = elim (Declares-cases n) [ inl (e, _) ↦ absurd (other e) | inr k ↦ inr k ]

pub iff_trans : {A B C : Type 0} → A ↔ B → B ↔ C → A ↔ C
iff_trans f g = ((λ a. g.0 (f.0 a)), λ c. f.1 (g.1 c))

pub grow :
    (id : Text) (cs : List RigComponent) (m : JsMap RigComponent) (x : RigComponent)
    → get id m ≡ some x
    → (y : RigComponent) × (get id (components_merged m cs) ≡ some y) × Grown id x cs y
unfolding unioned
grow id [] m x p = (
  x,
  p,
  record {
    same = (refl, refl, refl, refl);
    deps = λ d. ((λ n. inl n), λ n. elim n [ inl o ↦ o | inr (c, o, _, _) ↦ absurd o ]);
  },
)
grow id (c ∷ cs) m x p = elim (Bool-cases (c.id == id)) [
  | inl t ↦
      let (y, q, g) =
        grow id cs (merge_component m c) (unioned x c) (get-merge_component id m c x p ∙ rw t) in
      (
        y,
        q,
        record {
          same = g.same;
          deps = λ d. iff_trans (g.deps d) (grown_cases id d c cs x ((eq_iff c.id id).0 t));
        },
      )
  | inr f ↦
      let (y, q, g) = grow id cs (merge_component m c) x (get-merge_component id m c x p ∙ rw f) in
      (
        y,
        q,
        record {
          same = g.same;
          deps = λ d. iff_trans (g.deps d) (skipped_cases id d c cs x (λ e. differ c.id id f e));
        },
      )
]
