-- ===== src/Graph.antt =====
-- packages/graph-store/src/store.ts and mock.ts: the in-memory graph store.
pub mod Hits
pub mod Folds
pub mod Rounds
pub mod Neighbors
pub mod Keys
pub mod Upserts
pub mod Filters
pub mod Listing
use codesoul.Prelude.{
  ℕ, zero, suc, ◌-◌, Text, codes, ◌==◌, starts_with, ends_with, Bool, true, false, not, ◌&&◌, ◌||◌,
  Option, none, some, List, [], ◌∷◌, ◌++◌, foldl, filter, is_empty, length, effective_limit,
  reached, collect, if◌then◌else◌,
}
use codesoul.JsMap.{JsMap, JsSet, get, has, set, values, contains, add}
use codesoul.Core.Errors.{Result, ok, raise}
use codesoul.Core.Zod.{Zod}
use codesoul.Core.Enums.{EdgeType, NodeKind, edge_type_name, edge_type_eq, node_kind_eq}
use codesoul.Core.Schema.{GraphNode, GraphEdge, is_graph_node, is_graph_edge}

pub data Direction : Type 0 where
  outgoing incoming both : Direction

pub record TraversalOptions : Type 0 where
  pub depth : ℕ
  pub edge_types : Option (List EdgeType)
  pub direction : Option Direction
  pub limit : Option ℕ

pub record ListNodesOptions : Type 0 where
  pub kind : Option NodeKind
  pub path_prefix : Option Text
  pub repo_id : Option Text
  pub index_run_id : Option Text
  pub limit : Option ℕ

pub record ListEdgesOptions : Type 0 where
  pub type : Option EdgeType
  pub repo_id : Option Text
  pub index_run_id : Option Text
  pub limit : Option ℕ

pub record GraphStore : Type 0 where
  pub nodes : JsMap GraphNode
  pub edges : JsMap GraphEdge

pub record GraphQueryResult : Type 0 where
  pub nodes : List GraphNode
  pub edges : List GraphEdge

abbrev pub empty_graph : GraphStore
empty_graph = record { nodes = []; edges = [] }

-- The key `${e.src}|${e.type}|${e.dst}`.
unfoldable pub edge_key : GraphEdge → Text
edge_key e = e.src ++ (codes "|" ++ (edge_type_name e.type ++ (codes "|" ++ e.dst)))

module _ (zod : Zod) where
  -- A record that fails its schema ends the loop; what stood before it stays stored.
  unfoldable pub upsert_nodes : List GraphNode → GraphStore → Result (Unit {0}) × GraphStore
  upsert_nodes [] s = (ok tt, s)
  upsert_nodes (raw ∷ rest) s = elim (zod.parse GraphNode is_graph_node raw) [
    | raise e ↦ (raise e, s)
    | ok n ↦ upsert_nodes rest (record s { nodes = set n.id n s.nodes })
  ]

  unfoldable pub upsert_edges : List GraphEdge → GraphStore → Result (Unit {0}) × GraphStore
  upsert_edges [] s = (ok tt, s)
  upsert_edges (raw ∷ rest) s = elim (zod.parse GraphEdge is_graph_edge raw) [
    | raise e ↦ (raise e, s)
    | ok n ↦ upsert_edges rest (record s { edges = set (edge_key n) n s.edges })
  ]

unfoldable pub get_node : Text → GraphStore → Option GraphNode
get_node id s = get id s.nodes

-- `options.direction ?? "both"`
unfoldable pub direction_or_both : Option Direction → Direction
direction_or_both none = both
direction_or_both (some d) = d

abbrev pub follows_out : Direction → Bool
follows_out incoming = false
follows_out _ = true

abbrev pub follows_in : Direction → Bool
follows_in outgoing = false
follows_in _ = true

-- The other end of an edge seen from a node, in the direction of the traversal.
unfoldable pub other_end : Direction → Text → GraphEdge → Option Text
other_end d id e =
    if follows_out d && e.src == id
    then some e.dst
    else if follows_in d && e.dst == id
    then some e.src
    else none

unfoldable pub has_type : List EdgeType → EdgeType → Bool
has_type [] t = false
has_type (a ∷ l) t = edge_type_eq a t || has_type l t

-- The test on the set `allowed`, which is `null` if no edge type is given.
unfoldable pub is_allowed : Option (List EdgeType) → EdgeType → Bool
unfolding has_type edge_type_eq
is_allowed none t = true
is_allowed (some []) t = true
is_allowed (some (a ∷ l)) t = has_type (a ∷ l) t

-- The variables of the traversal.
pub record Traversal : Type 0 where
  pub nodes : JsMap GraphNode
  pub edges : JsMap GraphEdge
  pub visited : JsSet
  pub next_layer : List Text

-- `if (node && !collectedNodes.has(node.id)) collectedNodes.set(node.id, node)`
unfoldable pub collect_node : Option GraphNode → JsMap GraphNode → JsMap GraphNode
collect_node none nodes = nodes
collect_node (some node) nodes = if has node.id nodes then nodes else set node.id node nodes

-- `collectedNodes` with the start node, if it is stored.
unfoldable pub seed_nodes : Option GraphNode → JsMap GraphNode
seed_nodes none = []
seed_nodes (some start) = (start.id, start) ∷ []

module _ (s : GraphStore) where
  -- The body of the inner loop behind `if (other === null) continue`.
  unfoldable pub reach : Traversal → Text × GraphEdge → Traversal
  reach t (other, e) = record {
    nodes = collect_node (get other s.nodes) t.nodes;
    edges = set (edge_key e) e t.edges;
    visited = if contains other t.visited then t.visited else t.visited ++ other ∷ [];
    next_layer = if contains other t.visited then t.next_layer else t.next_layer ++ other ∷ [];
  }

  module _ (options : TraversalOptions) where
    -- What the inner loop does with an edge: skip it, or reach its other end.
    unfoldable pub hit : Text → GraphEdge → Option (Text × GraphEdge)
    unfolding is_allowed other_end direction_or_both
    hit id e =
        if is_allowed options.edge_types e.type
        then (elim (other_end (direction_or_both options.direction) id e) [
          | none ↦ none
          | some other ↦ some (other, e)
        ])
        else none

    unfoldable pub visit_edge : Text → Traversal → GraphEdge → Traversal
    visit_edge id t e = elim (hit id e) [ none ↦ t | some h ↦ reach t h ]

    unfoldable pub visit_node : Traversal → Text → Traversal
    visit_node t id = foldl (visit_edge id) t (values s.edges)

    unfoldable pub visit_layer : List Text → Traversal → Traversal
    visit_layer layer t = foldl visit_node (record t { next_layer = [] }) layer

    -- The loop over the depth: `seeds` is 1 if the start node is stored, and 0 otherwise.
    unfoldable pub traverse : ℕ → ℕ → List Text → Traversal → Traversal
    traverse zero seeds layer t = t
    traverse (suc d) seeds layer t =
        let u = visit_layer layer t in
        let deeper = traverse d seeds u.next_layer u in
        if reached (effective_limit options.limit) (length u.nodes - seeds)
        then u
        else if is_empty u.next_layer
        then u
        else deeper

  unfoldable pub start_traversal : Text → Traversal
  unfolding seed_nodes
  start_traversal id = record {
    nodes = seed_nodes (get id s.nodes);
    edges = [];
    visited = id ∷ [];
    next_layer = [];
  }

  unfoldable pub neighbors : Text → TraversalOptions → GraphQueryResult
  neighbors id options =
      let t =
        traverse options options.depth (length (seed_nodes (get id s.nodes))) (id ∷ [])
          (start_traversal id) in
      record { nodes = values t.nodes; edges = values t.edges }

-- `n.qualifiedName === name || n.qualifiedName.endsWith("::" + name)`
unfoldable pub has_qualified_name : Text → GraphNode → Bool
unfolding ends_with
has_qualified_name name n =
    n.qualified_name == name || ends_with n.qualified_name (codes "::" ++ name)

unfoldable pub find_by_qualified_name : Text → GraphStore → List GraphNode
unfolding has_qualified_name
find_by_qualified_name name s = filter (has_qualified_name name) (values s.nodes)

-- `options.x && n.x !== options.x`: an absent filter and an empty string pass everything.
unfoldable pub passes : Option Text → Text → Bool
passes none x = true
passes (some []) x = true
passes (some (c ∷ wanted)) x = x == (c ∷ wanted)

unfoldable pub is_listed_node : ListNodesOptions → GraphNode → Bool
unfolding passes starts_with node_kind_eq
is_listed_node o n =
    (elim o.kind [ none ↦ true | some k ↦ node_kind_eq n.kind k ])
    && (elim o.path_prefix [ none ↦ true | some p ↦ starts_with n.path p ])
    && passes o.repo_id n.repo_id
    && passes o.index_run_id n.index_run_id

unfoldable pub list_nodes : ListNodesOptions → GraphStore → List GraphNode
unfolding is_listed_node collect effective_limit
list_nodes o s = collect (is_listed_node o) (effective_limit o.limit) [] (values s.nodes)

unfoldable pub is_listed_edge : ListEdgesOptions → GraphEdge → Bool
unfolding passes edge_type_eq
is_listed_edge o e =
    (elim o.type [ none ↦ true | some t ↦ edge_type_eq e.type t ])
    && passes o.repo_id e.repo_id
    && passes o.index_run_id e.index_run_id

unfoldable pub list_edges : ListEdgesOptions → GraphStore → List GraphEdge
unfolding is_listed_edge collect effective_limit
list_edges o s = collect (is_listed_edge o) (effective_limit o.limit) [] (values s.edges)
