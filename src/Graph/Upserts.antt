-- ===== src/Graph/Upserts.antt =====
-- packages/graph-store/src/mock.ts: the upserts and the maps that they write.
use codesoul.Prelude.{
  Text, ◌==◌, ◌≡◌, refl, ap, ◌∙◌, Bool, true, ◌&&◌, Option, some, List, [], ◌∷◌, if◌then◌else◌, inl,
  inr,
}
use codesoul.JsMap.{set}
use codesoul.JsMap.Laws.{get-set}
use codesoul.JsMap.Keyed.{Keyed, Keyed-set, Keyed-get, Keyed-In, Keyed-empty}
use codesoul.Core.Errors.{is_ok, Error, zod_error, ok, raise}
use codesoul.Core.Zod.{Zod, parse-cases}
use codesoul.Core.Schema.{GraphNode, GraphEdge, is_graph_node, is_graph_edge}
use codesoul.Graph.{GraphStore, empty_graph, edge_key, upsert_nodes, upsert_edges, get_node}
use codesoul.Graph.Folds.{NodesKeyed, EdgesKeyed}

pub record IsWellFormed (s : GraphStore) : Type 0 where
  pub nodes_keyed : Keyed (λ n. n.id) s.nodes
  pub edges_keyed : Keyed edge_key s.edges

pub IsWellFormed-NodesKeyed : (s : GraphStore) → IsWellFormed s → NodesKeyed s
IsWellFormed-NodesKeyed s w b n p = Keyed-get (λ (n : GraphNode). n.id) b s.nodes n w.nodes_keyed p

pub IsWellFormed-EdgesKeyed : (s : GraphStore) → IsWellFormed s → EdgesKeyed s
IsWellFormed-EdgesKeyed s w e m = Keyed-In edge_key e s.edges w.edges_keyed m

pub empty_graph-IsWellFormed : IsWellFormed empty_graph
empty_graph-IsWellFormed = record {
  nodes_keyed = Keyed-empty (λ (n : GraphNode). n.id);
  edges_keyed = Keyed-empty edge_key;
}

-- The nodes in front of the first that fails the schema, and whether none does.
unfoldable pub valid_prefix : List GraphNode → List GraphNode
valid_prefix [] = []
valid_prefix (n ∷ ns) = if is_graph_node n then n ∷ valid_prefix ns else []

unfoldable pub all_valid : List GraphNode → Bool
all_valid [] = true
all_valid (n ∷ ns) = is_graph_node n && all_valid ns

-- The last node of a list with an id, or else what there was before.
unfoldable pub latest : Text → List GraphNode → Option GraphNode → Option GraphNode
latest id [] before = before
latest id (n ∷ ns) before = latest id ns (if n.id == id then some n else before)

module _ (zod : Zod) where
  upsert_nodes_valid :
      (n : GraphNode) (ns : List GraphNode) (s : GraphStore)
      → zod.parse GraphNode is_graph_node n ≡ ok n
      → upsert_nodes zod (n ∷ ns) s ≡ upsert_nodes zod ns (record s { nodes = set n.id n s.nodes })
  unfolding upsert_nodes
  upsert_nodes_valid n ns s p = rw (p, upsert_nodes)

  upsert_nodes_invalid :
      (n : GraphNode) (ns : List GraphNode) (s : GraphStore) (e : Error)
      → zod.parse GraphNode is_graph_node n ≡ raise e
      → upsert_nodes zod (n ∷ ns) s ≡ (raise e, s)
  unfolding upsert_nodes
  upsert_nodes_invalid n ns s e p = rw (p, upsert_nodes)

  upsert_edges_valid :
      (e : GraphEdge) (es : List GraphEdge) (s : GraphStore)
      → zod.parse GraphEdge is_graph_edge e ≡ ok e
      → upsert_edges zod (e ∷ es) s
        ≡ upsert_edges zod es (record s { edges = set (edge_key e) e s.edges })
  unfolding upsert_edges
  upsert_edges_valid e es s p = rw (p, upsert_edges)

  upsert_edges_invalid :
      (e : GraphEdge) (es : List GraphEdge) (s : GraphStore) (error : Error)
      → zod.parse GraphEdge is_graph_edge e ≡ raise error
      → upsert_edges zod (e ∷ es) s ≡ (raise error, s)
  unfolding upsert_edges
  upsert_edges_invalid e es s error p = rw (p, upsert_edges)

  -- `upsertNodes` is fulfilled exactly if all nodes satisfy the schema. In either case the nodes in
  -- front of the first that does not are stored, the last one with an id winning; every other id
  -- reads as before, and the edges are untouched.
  pub upsert_nodes_stored :
      (ns : List GraphNode) (s : GraphStore)
      → (is_ok (upsert_nodes zod ns s).0 ≡ all_valid ns)
        × ((id : Text)
            → get_node id (upsert_nodes zod ns s).1 ≡ latest id (valid_prefix ns) (get_node id s))
        × ((upsert_nodes zod ns s).1.edges ≡ s.edges)
  unfolding all_valid valid_prefix latest get_node
  upsert_nodes_stored [] s = unfold upsert_nodes in (refl, (λ id. refl), refl)
  upsert_nodes_stored (n ∷ ns) s = elim (parse-cases zod GraphNode is_graph_node n) [
    | inl (v, p) ↦
        let (a, b, c) = upsert_nodes_stored ns (record s { nodes = set n.id n s.nodes }) in
        rw (upsert_nodes_valid n ns s p, v)
          (a, (λ id. b id ∙ ap (latest id (valid_prefix ns)) (get-set n.id id n s.nodes)), c)
    | inr (e, f, p) ↦ rw (upsert_nodes_invalid n ns s (zod_error e) p, f) (refl, (λ id. refl), refl)
  ]

  -- `upsertNodes`, fulfilled or rejected, keeps both maps of a well-formed store keyed by their values
  -- and free of duplicates.
  pub upsert_nodes-IsWellFormed :
      (ns : List GraphNode) (s : GraphStore)
      → IsWellFormed s
      → IsWellFormed (upsert_nodes zod ns s).1
  upsert_nodes-IsWellFormed [] s w = unfold upsert_nodes in w
  upsert_nodes-IsWellFormed (n ∷ ns) s w = elim (parse-cases zod GraphNode is_graph_node n) [
    | inl (v, p) ↦ rw (upsert_nodes_valid n ns s p) (
        upsert_nodes-IsWellFormed ns (record s { nodes = set n.id n s.nodes })
          (record {
            nodes_keyed = Keyed-set (λ (m : GraphNode). m.id) n s.nodes w.nodes_keyed;
            edges_keyed = w.edges_keyed;
          }))
    | inr (e, f, p) ↦ rw (upsert_nodes_invalid n ns s (zod_error e) p) w
  ]

  -- `upsertEdges`, fulfilled or rejected, keeps both maps of a well-formed store keyed by their values
  -- and free of duplicates.
  pub upsert_edges-IsWellFormed :
      (es : List GraphEdge) (s : GraphStore)
      → IsWellFormed s
      → IsWellFormed (upsert_edges zod es s).1
  upsert_edges-IsWellFormed [] s w = unfold upsert_edges in w
  upsert_edges-IsWellFormed (e ∷ es) s w = elim (parse-cases zod GraphEdge is_graph_edge e) [
    | inl (v, p) ↦ rw (upsert_edges_valid e es s p) (
        upsert_edges-IsWellFormed es (record s { edges = set (edge_key e) e s.edges })
          (record {
            nodes_keyed = w.nodes_keyed;
            edges_keyed = Keyed-set edge_key e s.edges w.edges_keyed;
          }))
    | inr (m, f, p) ↦ rw (upsert_edges_invalid e es s (zod_error m) p) w
  ]
