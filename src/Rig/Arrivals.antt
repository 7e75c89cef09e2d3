-- ===== src/Rig/Arrivals.antt =====
-- The merge of components into a map that does not hold the id.
use codesoul.Prelude.{
  Text, ◌==◌, eq_iff, ◌≡◌, refl, ◌∙◌, ◌↔◌, Option, none, some, List, [], ◌∷◌, ◌++◌, arith,
  if◌then◌else◌, In, ◌⊎◌, inl, inr, Bool-cases, Option-cases, find, sort,
}
use mathlib.Core.Path.{subst}
use codesoul.JsMap.{JsMap, get, set}
use codesoul.JsMap.Laws.{get-set}
use codesoul.JsMap.Keyed.{Keyed, Keyed-set, Keyed-get}
use codesoul.Rig.{RigComponent, dedupe, merge_component}
use codesoul.Rig.Unions.{In-sort}
use codesoul.Rig.Components.{
  Declares, SameIdentity, differ, components_merged, iff_trans, grow, Declares-later,
  Declares-cases,
}

-- What the merge holds under an id that the map did not hold before: the first component with it,
-- and the dependencies that any component with it lists.
pub record Merging (id : Text) (x : RigComponent) (cs : List RigComponent) (y : RigComponent)
    : Type 0 where
  pub same : SameIdentity x y
  pub deps : (d : Text) → In d y.depends_on ↔ Declares id d cs

pub get-merge_component-none :
    (id : Text) (m : JsMap RigComponent) (c : RigComponent)
    → get id m ≡ none
    → get id (merge_component m c)
      ≡ (if c.id == id then some (record c { depends_on = sort c.depends_on }) else none)
unfolding merge_component
get-merge_component-none id m c p = elim (Option-cases (get c.id m)) [
  | inl n ↦
      rw (n, merge_component)
        (get-set c.id id (record c { depends_on = sort c.depends_on }) m ∙ ground (arith, p))
  | inr (z, q) ↦
      rw (q, merge_component)
        (ground (
          arith,
          get-set c.id id (record z { depends_on = sort (dedupe (z.depends_on ++ c.depends_on)) })
              m,
          eq_iff c.id id,
        ))
]

first_cases :
    (id d : Text) (c : RigComponent) (cs : List RigComponent)
    → c.id ≡ id
    → (In d (sort c.depends_on) ⊎ Declares id d cs) ↔ Declares id d (c ∷ cs)
first_cases id d c cs e = (to, from)
  where
    to : In d (sort c.depends_on) ⊎ Declares id d cs → Declares id d (c ∷ cs)
    to (inl m) = (c, inl refl, e, (In-sort d c.depends_on).0 m)
    to (inr n) = Declares-later id d c cs n

    from : Declares id d (c ∷ cs) → In d (sort c.depends_on) ⊎ Declares id d cs
    from n = elim (Declares-cases id d c cs n) [
      | inl (_, m) ↦ inl ((In-sort d c.depends_on).1 m)
      | inr k ↦ inr k
    ]

later_cases :
    (id d : Text) (c : RigComponent) (cs : List RigComponent)
    → (c.id ≡ id → ⊥)
    → Declares id d cs ↔ Declares id d (c ∷ cs)
later_cases id d c cs other = (Declares-later id d c cs, from)
  where
    from : Declares id d (c ∷ cs) → Declares id d cs
    from n = elim (Declares-cases id d c cs n) [ inl (e, _) ↦ absurd (other e) | inr k ↦ k ]

abbrev pub with_id : Text → List RigComponent → Option RigComponent
with_id id = find (λ c. c.id == id)

pub arise :
    (id : Text) (cs : List RigComponent) (m : JsMap RigComponent) (x : RigComponent)
    → get id m ≡ none
    → with_id id cs ≡ some x
    → (y : RigComponent) × (get id (components_merged m cs) ≡ some y) × Merging id x cs y
arise id [] m x p h = cc
arise id (c ∷ cs) m x p h = elim (Bool-cases (c.id == id)) [
  | inl t ↦
      let found : c ≡ x = ground arith in
      let (y, q, g) =
        grow id cs (merge_component m c) (record c { depends_on = sort c.depends_on })
          (get-merge_component-none id m c p ∙ rw t) in
      (
        y,
        q,
        record {
          same = subst (λ z. SameIdentity z y) found g.same;
          deps = λ d. iff_trans (g.deps d) (first_cases id d c cs ((eq_iff c.id id).0 t));
        },
      )
  | inr f ↦
      let (y, q, g) =
        arise id cs (merge_component m c) x (get-merge_component-none id m c p ∙ rw f)
          (rw f at h) in
      (
        y,
        q,
        record {
          same = g.same;
          deps = λ d. iff_trans (g.deps d) (later_cases id d c cs (λ e. differ c.id id f e));
        },
      )
]

pub stay_absent :
    (id : Text) (cs : List RigComponent) (m : JsMap RigComponent)
    → get id m ≡ none
    → with_id id cs ≡ none
    → get id (components_merged m cs) ≡ none
stay_absent id [] m p h = p
stay_absent id (c ∷ cs) m p h =
    stay_absent id cs (merge_component m c) (get-merge_component-none id m c p ∙ ground arith)
      (ground arith)

pub Keyed-merge :
    (cs : List RigComponent) (m : JsMap RigComponent)
    → Keyed (λ (c : RigComponent). c.id) m
    → Keyed (λ (c : RigComponent). c.id) (components_merged m cs)
Keyed-merge [] m k = k
Keyed-merge (c ∷ cs) m k = Keyed-merge cs (merge_component m c) (one (get c.id m) refl)
  where
    one :
        (o : Option RigComponent)
        → get c.id m ≡ o
        → Keyed (λ (x : RigComponent). x.id) (merge_component m c)
    one none p =
        unfold merge_component in
        rw (p, merge_component)
          (Keyed-set (λ (x : RigComponent). x.id) (record c { depends_on = sort c.depends_on }) m k)
    one (some z) p =
        unfold merge_component in
        rw (p, merge_component)
          (subst
            (λ i.
              Keyed (λ (x : RigComponent). x.id)
                (set i (record z { depends_on = sort (dedupe (z.depends_on ++ c.depends_on)) }) m))
            (Keyed-get (λ (x : RigComponent). x.id) c.id m z k p)
            (Keyed-set (λ (x : RigComponent). x.id)
              (record z { depends_on = sort (dedupe (z.depends_on ++ c.depends_on)) }) m k))
