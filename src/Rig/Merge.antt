-- ===== src/Rig/Merge.antt =====
-- What the merge of architecture graphs holds.
use codesoul.Prelude.{
  Text, ◌≡◌, ◌≢◌, refl, sym, ap, ◌∙◌, ◌↔◌, Bool, none, some, List, [], ◌∷◌, ◌++◌, foldl, map, In,
  Distinct, Distinct-sort_by, In-sort_by, In_of_In-sort_by,
}
use mathlib.Core.List.{foldl-append}
use mathlib.Core.Path.{subst}
use codesoul.JsMap.{JsMap, get, values}
use codesoul.JsMap.Laws.{In-values}
use codesoul.JsMap.Keyed.{Keyed, Keyed-get, Keyed-In, Keyed-Distinct, Keyed-empty}
use codesoul.Rig.{
  RigComponent, RigGraph, Merged, merge_component, merge_graph, no_graph, merge_rig_graphs,
}
use codesoul.Rig.Components.{Declares, SameIdentity, components_merged}
use codesoul.Rig.Arrivals.{with_id, arise, stay_absent, Keyed-merge}

-- All components of the graphs, in the order in which the merge meets them.
unfoldable pub all_components : List RigGraph → List RigComponent
all_components [] = []
all_components (g ∷ gs) = g.components ++ all_components gs

components-merge_graphs :
    (gs : List RigGraph) (m : Merged)
    → (foldl merge_graph m gs).components ≡ components_merged m.components (all_components gs)
unfolding all_components merge_graph
components-merge_graphs [] m = refl
components-merge_graphs (g ∷ gs) m =
    components-merge_graphs gs (merge_graph m g)
    ∙ sym (foldl-append merge_component m.components g.components (all_components gs))

module _ (locale_le : Text → Text → Bool) (gs : List RigGraph) where
  abbrev id_le : RigComponent → RigComponent → Bool
  id_le a b = locale_le a.id b.id

  merged : JsMap RigComponent
  merged = components_merged [] (all_components gs)

  merged-Keyed : Keyed (λ (c : RigComponent). c.id) merged
  unfolding merged
  merged-Keyed = Keyed-merge (all_components gs) [] (Keyed-empty (λ (c : RigComponent). c.id))

  In-result :
      (c : RigComponent)
      → In c (merge_rig_graphs locale_le gs).components ↔ (get c.id merged ≡ some c)
  unfolding merge_rig_graphs merged
  In-result c =
      let e = components-merge_graphs gs no_graph in
      (
        (λ m.
            Keyed-In (λ (x : RigComponent). x.id) c merged merged-Keyed
              (subst (λ l. In c (values l)) e
                (In_of_In-sort_by id_le c (values (foldl merge_graph no_graph gs).components) m))),
        λ p.
            In-sort_by id_le c (values (foldl merge_graph no_graph gs).components)
              (subst (λ l. In c (values l)) (sym e) (In-values c.id merged c p)),
      )

  result-Distinct : Distinct (map (λ c. c.id) (merge_rig_graphs locale_le gs).components)
  unfolding merge_rig_graphs merged
  result-Distinct =
      let id : RigComponent → Text = λ c. c.id in
      let m = (foldl merge_graph no_graph gs).components in
      Distinct-sort_by id_le id (values m) (
        Keyed-Distinct id m
          (subst (Keyed id) (sym (components-merge_graphs gs no_graph)) merged-Keyed))

  -- An id that no component of any graph has is not in the merged graph.
  pub merge_components_absent :
      (id : Text) (c : RigComponent)
      → with_id id (all_components gs) ≡ none
      → In c (merge_rig_graphs locale_le gs).components
      → c.id ≢ id
  unfolding merged
  merge_components_absent id c h m e = cc (
    stay_absent id (all_components gs) [] (unfold get in refl) h,
    (In-result c).0 m,
    ap (λ k. get k merged) e,
  )

  -- The list of the components of the merged graph has no id twice. For an id that some component
  -- has, it holds one component, which is the first one with that id, in the order of the graphs, in
  -- name, kind and path, and depends on exactly what the components with that id depend on in any of
  -- the graphs.
  pub merge_components :
      (id : Text) (x : RigComponent)
      → with_id id (all_components gs) ≡ some x
      → Distinct (map (λ c. c.id) (merge_rig_graphs locale_le gs).components)
        × (y : RigComponent) × ((z : RigComponent)
            → (In z (merge_rig_graphs locale_le gs).components × (z.id ≡ id)) ↔ (z ≡ y))
        × SameIdentity x y
        × ((d : Text) → In d y.depends_on ↔ Declares id d (all_components gs))
  unfolding merged
  merge_components id x h =
      let (y, q, g) = arise id (all_components gs) [] x (unfold get in refl) h in
      let own : y.id ≡ id = Keyed-get (λ (c : RigComponent). c.id) id merged y merged-Keyed q in
      let there = (In-result y).1 (ap (λ k. get k merged) own ∙ q) in
      (
        result-Distinct,
        y,
        (λ z. (
          (λ (m, e). cc ((In-result z).0 m, ap (λ k. get k merged) e, q)),
          λ e. (
            subst (λ c. In c (merge_rig_graphs locale_le gs).components) (sym e) there,
            ap (λ c. c.id) e ∙ own,
          ),
        )),
        g.same,
        g.deps,
      )
