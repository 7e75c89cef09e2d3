-- ===== src/Graph/Folds.antt =====
-- What the loop over the hits of a layer does to each variable of the traversal.
use codesoul.Prelude.{
  Text, ◌==◌, eq_iff, eq_refl, ◌≡◌, refl, sym, ap, ◌∙◌, true, ◌||◌, Option, none, some, List, [],
  ◌∷◌, ◌++◌, foldl, arith, if◌then◌else◌, In, ◌⊎◌, inl, inr, Bool-cases, Option-cases, append_assoc,
}
use mathlib.Core.Path.{subst}
use codesoul.JsMap.{JsMap, JsSet, get, has, values, contains}
use codesoul.JsMap.Laws.{get-set, contains-append, In-values-set, has-eq-is_some}
use codesoul.Core.Schema.{GraphNode, GraphEdge}
use codesoul.Graph.{GraphStore, Traversal, edge_key, reach, collect_node}

module _ (s : GraphStore) where
  abbrev pub reach_all : Traversal → List (Text × GraphEdge) → Traversal
  reach_all = foldl (reach s)

  contains-reach :
      (b : Text) (t : Traversal) (h : Text × GraphEdge)
      → contains b (reach s t h).visited ≡ (contains b t.visited || h.0 == b)
  unfolding reach contains
  contains-reach b t h = ground (arith, contains-append b t.visited (h.0 ∷ []), eq_iff h.0 b)

  pub visited_mono :
      (b : Text) (t : Traversal) (hs : List (Text × GraphEdge))
      → contains b t.visited ≡ true
      → contains b (reach_all t hs).visited ≡ true
  visited_mono b t [] p = p
  visited_mono b t (h ∷ hs) p =
      visited_mono b (reach s t h) hs (ground (arith, contains-reach b t h))

  pub visited_hit :
      (b : Text) (e : GraphEdge) (t : Traversal) (hs : List (Text × GraphEdge))
      → In (b, e) hs
      → contains b (reach_all t hs).visited ≡ true
  visited_hit b e t [] m = elim m [ ]
  visited_hit b e t (h ∷ hs) (inl p) =
      visited_mono b (reach s t h) hs
        (ground (arith, contains-reach b t h, ap (λ r. r.0) p, eq_refl b))
  visited_hit b e t (h ∷ hs) (inr m) = visited_hit b e (reach s t h) hs m

  pub visited-cases :
      (b : Text) (t : Traversal) (hs : List (Text × GraphEdge))
      → contains b (reach_all t hs).visited ≡ true
      → (contains b t.visited ≡ true) ⊎ ((e : GraphEdge) × In (b, e) hs)
  visited-cases b t [] p = inl p
  visited-cases b t (h ∷ hs) p = elim (visited-cases b (reach s t h) hs p) [
    | inr (e, m) ↦ inr (e, inr m)
    | inl q ↦ elim (Bool-cases (h.0 == b)) [
      | inl y ↦ inr (h.1, inl (ap (λ x. (x, h.1)) (sym ((eq_iff h.0 b).0 y))))
      | inr f ↦ inl (ground (arith, contains-reach b t h))
    ]
  ]

  frontier-reach :
      (v : JsSet) (t : Traversal) (h : Text × GraphEdge)
      → t.visited ≡ v ++ t.next_layer
      → (reach s t h).visited ≡ v ++ (reach s t h).next_layer
  unfolding reach
  frontier-reach v t h p = elim (Bool-cases (contains h.0 t.visited)) [
    | inl y ↦ rw y p
    | inr f ↦ rw f (ap (λ l. l ++ h.0 ∷ []) p ∙ append_assoc v t.next_layer (h.0 ∷ []))
  ]

  -- The next layer is what the loop has added to the visited set.
  pub frontier :
      (v : JsSet) (t : Traversal) (hs : List (Text × GraphEdge))
      → t.visited ≡ v ++ t.next_layer
      → (reach_all t hs).visited ≡ v ++ (reach_all t hs).next_layer
  frontier v t [] p = p
  frontier v t (h ∷ hs) p = frontier v (reach s t h) hs (frontier-reach v t h p)

  -- The collected nodes are the stored nodes among the visited ids.
  abbrev pub Covers : Traversal → Type 0
  Covers t = (b : Text) → get b t.nodes ≡ (if contains b t.visited then get b s.nodes else none)

  abbrev pub NodesKeyed : Type 0
  NodesKeyed = (b : Text) (n : GraphNode) → get b s.nodes ≡ some n → n.id ≡ b

  get-collect_node :
      NodesKeyed
      → (b other : Text) (nodes : JsMap GraphNode)
      → get b (collect_node (get other s.nodes) nodes)
        ≡ (if has b nodes then get b nodes else if other == b then get b s.nodes else none)
  unfolding collect_node
  get-collect_node keyed b other nodes = elim (Option-cases (get other s.nodes)) [
    | inl p ↦ rw (p, collect_node) (ground (arith, has-eq-is_some b nodes, eq_iff other b))
    | inr (n, p) ↦
        rw (p, collect_node)
          (ground (
            arith,
            keyed other n p,
            get-set n.id b n nodes,
            has-eq-is_some b nodes,
            has-eq-is_some n.id nodes,
            eq_iff other b,
            eq_iff n.id b,
          ))
  ]

  Covers-reach :
      NodesKeyed → (t : Traversal) (h : Text × GraphEdge) → Covers t → Covers (reach s t h)
  unfolding reach
  Covers-reach keyed t h c b = ground (
    arith,
    get-collect_node keyed b h.0 t.nodes,
    contains-reach b t h,
    has-eq-is_some b t.nodes,
    c b,
  )

  pub Covers-reach_all :
      NodesKeyed
      → (t : Traversal) (hs : List (Text × GraphEdge)) → Covers t
      → Covers (reach_all t hs)
  Covers-reach_all keyed t [] c = c
  Covers-reach_all keyed t (h ∷ hs) c =
      Covers-reach_all keyed (reach s t h) hs (Covers-reach keyed t h c)

  -- Every value of the collected nodes is the stored node of a visited id.
  abbrev pub NodesFound : Traversal → Type 0
  NodesFound t =
      (n : GraphNode)
      → In n (values t.nodes)
      → (get n.id s.nodes ≡ some n) × (contains n.id t.visited ≡ true)

  In-collect_node :
      (o : Option GraphNode) (nodes : JsMap GraphNode) (n : GraphNode)
      → In n (values (collect_node o nodes))
      → (o ≡ some n) ⊎ In n (values nodes)
  unfolding collect_node
  In-collect_node none nodes n m = inr m
  In-collect_node (some x) nodes n m = elim (Bool-cases (has x.id nodes)) [
    | inl y ↦ inr (rw y at m)
    | inr f ↦ elim (In-values-set x.id x nodes n (rw f at m)) [
      | inl e ↦ inl (ap some (sym e))
      | inr o ↦ inr o
    ]
  ]

  NodesFound-reach :
      NodesKeyed → (t : Traversal) (h : Text × GraphEdge) → NodesFound t → NodesFound (reach s t h)
  unfolding reach
  NodesFound-reach keyed t h f n m = elim (In-collect_node (get h.0 s.nodes) t.nodes n m) [
    | inl p ↦
        let same : n.id ≡ h.0 = keyed h.0 n p in
        (
          ap (λ k. get k s.nodes) same ∙ p,
          contains-reach n.id t h ∙ ground (arith, eq_iff h.0 n.id),
        )
    | inr o ↦ let r = f n o in (r.0, contains-reach n.id t h ∙ rw r.1)
  ]

  pub NodesFound-reach_all :
      NodesKeyed
      → (t : Traversal) (hs : List (Text × GraphEdge)) → NodesFound t
      → NodesFound (reach_all t hs)
  NodesFound-reach_all keyed t [] f = f
  NodesFound-reach_all keyed t (h ∷ hs) f =
      NodesFound-reach_all keyed (reach s t h) hs (NodesFound-reach keyed t h f)

  -- All collected edges have a property.
  abbrev pub EdgesAll : (GraphEdge → Type 0) → Traversal → Type 0
  EdgesAll P t = (e : GraphEdge) → In e (values t.edges) → P e

  pub EdgesAll-reach_all :
      (P : GraphEdge → Type 0) (t : Traversal) (hs : List (Text × GraphEdge))
      → ((h : Text × GraphEdge) → In h hs → P h.1)
      → EdgesAll P t
      → EdgesAll P (reach_all t hs)
  unfolding reach
  EdgesAll-reach_all P t [] new f = f
  EdgesAll-reach_all P t (h ∷ hs) new f =
      EdgesAll-reach_all P (reach s t h) hs (λ k m. new k (inr m))
        λ e m. elim (In-values-set (edge_key h.1) h.1 t.edges e m) [
          | inl p ↦ subst P (sym p) (new h (inl refl))
          | inr n ↦ f e n
        ]

  -- A stored edge is stored under its key.
  abbrev pub EdgesKeyed : Type 0
  EdgesKeyed = (e : GraphEdge) → In e (values s.edges) → get (edge_key e) s.edges ≡ some e

  -- Two stored edges with one key are one edge.
  same_edge :
      EdgesKeyed
      → (d e : GraphEdge) → In d (values s.edges)
      → In e (values s.edges)
      → edge_key d ≡ edge_key e
      → d ≡ e
  same_edge keyed d e m n p = cc (keyed d m, keyed e n, p)

  module _ (keyed : EdgesKeyed) (e : GraphEdge) (stored : In e (values s.edges)) where
    get_edge-reach :
        (t : Traversal) (h : Text × GraphEdge)
        → In h.1 (values s.edges)
        → get (edge_key e) t.edges ≡ some e
        → get (edge_key e) (reach s t h).edges ≡ some e
    unfolding reach
    get_edge-reach t h m p = elim (Bool-cases (edge_key h.1 == edge_key e)) [
      | inl y ↦
          get-set (edge_key h.1) (edge_key e) h.1 t.edges
          ∙ (rw y (ap some (same_edge keyed h.1 e m stored ((eq_iff _ _).0 y))))
      | inr f ↦ get-set (edge_key h.1) (edge_key e) h.1 t.edges ∙ (rw f p)
    ]

    pub get_edge_mono :
        (t : Traversal) (hs : List (Text × GraphEdge))
        → ((h : Text × GraphEdge) → In h hs → In h.1 (values s.edges))
        → get (edge_key e) t.edges ≡ some e
        → get (edge_key e) (reach_all t hs).edges ≡ some e
    get_edge_mono t [] all p = p
    get_edge_mono t (h ∷ hs) all p =
        get_edge_mono (reach s t h) hs (λ k m. all k (inr m))
          (get_edge-reach t h (all h (inl refl)) p)

    get_edge-reach_self :
        (t : Traversal) (h : Text × GraphEdge)
        → h.1 ≡ e
        → get (edge_key e) (reach s t h).edges ≡ some e
    unfolding reach
    get_edge-reach_self t h p =
        get-set (edge_key h.1) (edge_key e) h.1 t.edges
        ∙ ground (arith, ap edge_key p, eq_iff (edge_key h.1) (edge_key e), p)

    -- An edge that the loop meets is collected.
    pub get_edge_hit :
        (b : Text) (t : Traversal) (hs : List (Text × GraphEdge))
        → ((h : Text × GraphEdge) → In h hs → In h.1 (values s.edges))
        → In (b, e) hs
        → get (edge_key e) (reach_all t hs).edges ≡ some e
    get_edge_hit b t [] all m = elim m [ ]
    get_edge_hit b t (h ∷ hs) all (inl p) =
        get_edge_mono (reach s t h) hs (λ k m. all k (inr m))
          (get_edge-reach_self t h (sym (ap (λ x. x.1) p)))
    get_edge_hit b t (h ∷ hs) all (inr m) = get_edge_hit b (reach s t h) hs (λ k n. all k (inr n)) m
