-- ===== src/Materialize/Links.antt =====
-- packages/indexer/src/rig-materialize.ts: the ends of the edges of a materialized graph.
use codesoul.Prelude.{
  Text, ◌==◌, ◌≡◌, refl, sym, ap, ◌∙◌, Bool, Option, none, some, List, [], ◌∷◌, ◌++◌, foldl, map,
  arith, In, In-append_left, In-append_right, In-append_cases, In-map, In_of_In-map, ◌⊎◌, inl, inr,
  Bool-cases, Option-cases,
}
use mathlib.Core.Path.{subst, ap₂}
use codesoul.JsMap.{JsMap, get, set}
use codesoul.JsMap.Laws.{get-set}
use codesoul.Core.Errors.{Result, ok, bind_ok, ok-injective}
use codesoul.Core.Zod.{Zod, parse-cases}
use codesoul.Core.Schema.{GraphNode, GraphEdge, is_graph_node, is_graph_edge}
use codesoul.Core.Enums.{NodeKind, depends_on, declared_by}
use codesoul.Rig.{RigComponent, RigGraph}
use codesoul.Materialize.{
  RigBatchMeta, RigBatchResult, map_results, truthy, parse_node, parse_edge, node_ids, resolve,
  component_node, rig_edge, dependency_edges, component_edges, owned_nodes, or_else, safe_path,
  paths, target_entry, test_entry, parse_owned, materialize_rig_graph,
}

-- A list of checks that pass returns the list itself.
map_results_same :
    {A : Type 0} (f : A → Result A) (l : List A) (r : List A)
    → ((a b : A) → f a ≡ ok b → b ≡ a)
    → map_results f l ≡ ok r
    → r ≡ l
unfolding map_results
map_results_same f [] r h p = ok-injective (sym p)
map_results_same f (a ∷ l) r h p =
    let (b, q, rest) = bind_ok (f a) _ p in
    let (bs, t, last) = bind_ok (map_results f l) _ rest in
    sym (ok-injective last) ∙ ap₂ ◌∷◌ (h a b q) (map_results_same f l bs h t)

parse_same :
    (zod : Zod) (A : Type 0) (check : A → Bool) (a b : A) → zod.parse A check a ≡ ok b → b ≡ a
parse_same zod A check a b p = elim (parse-cases zod A check a) [
  | inl (_, q) ↦ cc (p, q)
  | inr (_, _, q) ↦ cc (p, q)
]

truthy-some : (o : Option Text) (x : Text) → truthy o ≡ some x → o ≡ some x
unfolding truthy
truthy-some none x p = p
truthy-some (some []) x p = cc
truthy-some (some (c ∷ s)) x p = p

module _ (sha1 : Text → Text) (meta : RigBatchMeta) where
  abbrev id_step : JsMap Text → RigComponent → JsMap Text
  id_step m c = set c.id (component_node sha1 meta c).id m

  get-node_ids :
      (id x : Text) (cs : List RigComponent) (m : JsMap Text)
      → get id (foldl id_step m cs) ≡ some x
      → (get id m ≡ some x) ⊎ ((c : RigComponent) × In c cs × ((component_node sha1 meta c).id ≡ x))
  get-node_ids id x [] m p = inl p
  get-node_ids id x (c ∷ cs) m p = elim (get-node_ids id x cs (id_step m c) p) [
    | inr (d, n, e) ↦ inr (d, inr n, e)
    | inl q ↦ elim (Bool-cases (c.id == id)) [
      | inl t ↦ inr (c, inl refl, ground (arith, get-set c.id id (component_node sha1 meta c).id m))
      | inr f ↦ inl (ground (arith, get-set c.id id (component_node sha1 meta c).id m))
    ]
  ]

  resolved :
      (rig : RigGraph) (id x : Text)
      → resolve sha1 meta rig id ≡ some x
      → (c : RigComponent) × In c rig.components × ((component_node sha1 meta c).id ≡ x)
  unfolding resolve node_ids
  resolved rig id x p =
      elim (get-node_ids id x rig.components []
        (truthy-some (get id (foldl id_step [] rig.components)) x p)) [
          | inl q ↦ absurd (unfold get in cc q)
          | inr r ↦ r
        ]

  module _ (rig : RigGraph) where
    -- A node of a component of the graph has the id.
    abbrev IsComponentNode : Text → Type 0
    IsComponentNode x =
        (c : RigComponent) × In c rig.components × ((component_node sha1 meta c).id ≡ x)

    dependency_ends :
        (path src : Text) (deps : List Text) (e : GraphEdge)
        → In e (dependency_edges sha1 meta rig path src deps)
        → (e.src ≡ src) × IsComponentNode e.dst
    unfolding dependency_edges rig_edge
    dependency_ends path src [] e m = elim m [ ]
    dependency_ends path src (dep ∷ deps) e m = elim (Option-cases (resolve sha1 meta rig dep)) [
      | inl n ↦ dependency_ends path src deps e (rw (n, dependency_edges) at m)
      | inr (dst, p) ↦ first dst p (dependency_ends path src deps e) (rw (p, dependency_edges) at m)
    ]
      where
        first :
            (dst : Text)
            → resolve sha1 meta rig dep ≡ some dst
            → (In e (dependency_edges sha1 meta rig path src deps)
                → (e.src ≡ src) × IsComponentNode e.dst)
            → In e (
                rig_edge sha1 meta depends_on path src dst
                ∷ dependency_edges sha1 meta rig path src deps)
            → (e.src ≡ src) × IsComponentNode e.dst
        first dst p later (inl same) = (
          ap (λ x. x.src) same,
          subst IsComponentNode (sym (ap (λ x. x.dst) same)) (resolved rig dep dst p),
        )
        first dst p later (inr n) = later n

    component_ends :
        (cs : List RigComponent) (e : GraphEdge)
        → In e (component_edges sha1 meta rig cs)
        → IsComponentNode e.src × IsComponentNode e.dst
    unfolding component_edges
    component_ends [] e m = elim m [ ]
    component_ends (c ∷ cs) e m = elim (Option-cases (resolve sha1 meta rig c.id)) [
      | inl n ↦ component_ends cs e (rw (n, component_edges) at m)
      | inr (src, p) ↦
          split src p (component_ends cs e) (In-append_cases e _ _ (rw (p, component_edges) at m))
    ]
      where
        split :
            (src : Text)
            → resolve sha1 meta rig c.id ≡ some src
            → (In e (component_edges sha1 meta rig cs)
                → IsComponentNode e.src × IsComponentNode e.dst)
            → In e (
                dependency_edges sha1 meta rig
                  (or_else (safe_path c.path) (get c.id (paths sha1 meta rig.components)))
                  src
                  c.depends_on)
              ⊎ In e (component_edges sha1 meta rig cs)
            → IsComponentNode e.src × IsComponentNode e.dst
        split src p later (inl n) =
            let (same, dst) = dependency_ends _ src c.depends_on e n in
            (subst IsComponentNode (sym same) (resolved rig c.id src p), dst)
        split src p later (inr n) = later n

    owned_ends :
        (es : List (NodeKind × Text × Text × Text × Text)) (n : GraphNode) (e : GraphEdge)
        → In (n, e) (owned_nodes sha1 meta rig es)
        → (e.src ≡ n.id) × IsComponentNode e.dst
    unfolding owned_nodes rig_edge
    owned_ends [] n e m = elim m [ ]
    owned_ends ((kind, id, name, summary, owner) ∷ es) n e m =
        elim (Option-cases (resolve sha1 meta rig owner)) [
          | inl a ↦ owned_ends es n e (rw (a, owned_nodes) at m)
          | inr (parent, p) ↦ first parent _ _ p (owned_ends es n e) (rw (p, owned_nodes) at m)
        ]
      where
        first :
            (parent : Text) (path : Text) (node : GraphNode)
            → resolve sha1 meta rig owner ≡ some parent
            → (In (n, e) (owned_nodes sha1 meta rig es) → (e.src ≡ n.id) × IsComponentNode e.dst)
            → In
                (n, e)
                ((node, rig_edge sha1 meta declared_by path node.id parent)
                  ∷ owned_nodes sha1 meta rig es)
            → (e.src ≡ n.id) × IsComponentNode e.dst
        first parent path node p later (inl same) = (
          ap (λ x. x.1.src) same ∙ sym (ap (λ x. x.0.id) same),
          subst IsComponentNode (sym (ap (λ x. x.1.dst) same)) (resolved rig owner parent p),
        )
        first parent path node p later (inr o) = later o

parse_owned_same : (zod : Zod) (a b : GraphNode × GraphEdge) → parse_owned zod a ≡ ok b → b ≡ a
parse_owned_same zod (n, e) b p =
    let (n', pn, rest) = bind_ok (parse_node zod n) _ p in
    let (e', pe, last) = bind_ok (parse_edge zod e) _ rest in
    sym (ok-injective last)
    ∙ ap₂ (λ x y. (x, y)) (parse_same zod GraphNode is_graph_node n n' pn)
        (parse_same zod GraphEdge is_graph_edge e e' pe)

module _ (zod : Zod) (sha1 : Text → Text) (meta : RigBatchMeta) (rig : RigGraph)
    (r : RigBatchResult) where
  abbrev targets : List (GraphNode × GraphEdge)
  targets = owned_nodes sha1 meta rig (map target_entry rig.targets)

  abbrev tests : List (GraphNode × GraphEdge)
  tests = owned_nodes sha1 meta rig (map test_entry rig.tests)

  abbrev components : List GraphNode
  components = map (component_node sha1 meta) rig.components

  -- What the function returns, if it does not throw.
  materialized :
      materialize_rig_graph sha1 meta rig zod ≡ ok r
      → r ≡ record {
        nodes = components ++ (map (λ p. p.0) targets ++ map (λ p. p.0) tests);
        edges =
            component_edges sha1 meta rig rig.components
            ++ (map (λ p. p.1) targets ++ map (λ p. p.1) tests);
      }
  unfolding materialize_rig_graph
  materialized p =
      let (cs, pc, p₁) = bind_ok (map_results (parse_node zod) components) _ p in
      let (ds, pd, p₂) =
        bind_ok (map_results (parse_edge zod) (component_edges sha1 meta rig rig.components)) _
          p₁ in
      let (ts, pt, p₃) = bind_ok (map_results (parse_owned zod) targets) _ p₂ in
      let (us, pu, p₄) = bind_ok (map_results (parse_owned zod) tests) _ p₃ in
      let ec =
        map_results_same (parse_node zod) components cs (parse_same zod GraphNode is_graph_node)
          pc in
      let ed =
        map_results_same (parse_edge zod) (component_edges sha1 meta rig rig.components) ds
          (parse_same zod GraphEdge is_graph_edge) pd in
      let et = map_results_same (parse_owned zod) targets ts (parse_owned_same zod) pt in
      let eu = map_results_same (parse_owned zod) tests us (parse_owned_same zod) pu in
      sym (ok-injective p₄) ∙ (λ i. record {
        nodes = ec i ++ (map (λ p. p.0) (et i) ++ map (λ p. p.0) (eu i));
        edges = ed i ++ (map (λ p. p.1) (et i) ++ map (λ p. p.1) (eu i));
      })

  -- A node of the result has the id.
  abbrev pub HasNode : Text → Type 0
  HasNode x = (n : GraphNode) × In n r.nodes × (n.id ≡ x)

  -- Every edge of the result leads from a node of the result to a node of the result: no edge
  -- dangles, whatever dependencies and owners the architecture graph names.
  pub materialize_linked :
      (e : GraphEdge)
      → materialize_rig_graph sha1 meta rig zod ≡ ok r
      → In e r.edges
      → HasNode e.src × HasNode e.dst
  materialize_linked e p m =
      linked (In-append_cases e _ _ (subst (λ x. In e x.edges) (materialized p) m))
    where
      nodes_of : List GraphNode
      nodes_of = components ++ (map (λ p. p.0) targets ++ map (λ p. p.0) tests)

      in_result : (n : GraphNode) → In n nodes_of → HasNode n.id
      in_result n i = (n, subst (λ x. In n x.nodes) (sym (materialized p)) i, refl)

      has_component : (x : Text) → IsComponentNode sha1 meta rig x → HasNode x
      has_component x (c, i, same) = subst HasNode same (
          in_result (component_node sha1 meta c)
            (In-append_left _ components _ (In-map (component_node sha1 meta) c rig.components i)))

      owned :
          (es : List (NodeKind × Text × Text × Text × Text))
          → ((n : GraphNode) → In n (map (λ p. p.0) (owned_nodes sha1 meta rig es)) → In n nodes_of)
          → In e (map (λ p. p.1) (owned_nodes sha1 meta rig es))
          → HasNode e.src × HasNode e.dst
      owned es inside i =
          let ((n, e'), j, same) = In_of_In-map (λ p. p.1) e (owned_nodes sha1 meta rig es) i in
          let (src, dst) = owned_ends sha1 meta rig es n e' j in
          let here = in_result n (inside n (In-map (λ p. p.0) (n, e') _ j)) in
          (
            subst HasNode (sym src ∙ sym (ap (λ x. x.src) same)) here,
            subst HasNode (sym (ap (λ x. x.dst) same)) (has_component e'.dst dst),
          )

      linked :
          In e (component_edges sha1 meta rig rig.components)
            ⊎ In e (map (λ p. p.1) targets ++ map (λ p. p.1) tests)
          → HasNode e.src × HasNode e.dst
      linked (inl i) =
          let (src, dst) = component_ends sha1 meta rig rig.components e i in
          (has_component e.src src, has_component e.dst dst)
      linked (inr i) = elim (In-append_cases e (map (λ p. p.1) targets) _ i) [
        | inl j ↦
            owned (map target_entry rig.targets)
              (λ n k. In-append_right n components _ (In-append_left n _ _ k)) j
        | inr j ↦
            owned (map test_entry rig.tests)
              (λ n k.
                In-append_right n components _ (In-append_right n (map (λ p. p.0) targets) _ k))
              j
      ]
