-- ===== src/Graph/Listing.antt =====
-- What `listNodes` and `listEdges` return.
use codesoul.Prelude.{
  Text, eq_iff, starts_with, ◌≡◌, ◌↔◌, ap, true, some, List, Selects, Same, Cut, collect-Selects,
  and_iff,
}
use codesoul.JsMap.{values}
use codesoul.Core.Enums.{
  EdgeType, NodeKind, node_kind_eq, edge_type_eq, node_kind_name, edge_type_name,
  node_kind_name-injective, edge_type_name-injective,
}
use codesoul.Core.Schema.{GraphNode, GraphEdge}
use codesoul.Graph.{
  GraphStore, ListNodesOptions, ListEdgesOptions, is_listed_node, is_listed_edge, list_nodes,
  list_edges,
}
use codesoul.Graph.Filters.{Asked, Extends, passes_iff, starts_with_iff, optional_iff}

-- What the options ask of a node: the kind, the start of its path, its repository and its run.
abbrev pub NodeAsked : ListNodesOptions → GraphNode → Type 0
NodeAsked o n =
    ((k : NodeKind) → o.kind ≡ some k → n.kind ≡ k)
    × ((p : Text) → o.path_prefix ≡ some p → Extends n.path p)
    × Asked o.repo_id n.repo_id
    × Asked o.index_run_id n.index_run_id

-- What the options ask of an edge: its type, its repository and its run.
abbrev pub EdgeAsked : ListEdgesOptions → GraphEdge → Type 0
EdgeAsked o e =
    ((t : EdgeType) → o.type ≡ some t → e.type ≡ t)
    × Asked o.repo_id e.repo_id
    × Asked o.index_run_id e.index_run_id

node_kind_eq_iff : (a b : NodeKind) → (node_kind_eq a b ≡ true) ↔ (a ≡ b)
unfolding node_kind_eq
node_kind_eq_iff a b = (
  (λ t. node_kind_name-injective a b ((eq_iff (node_kind_name a) (node_kind_name b)).0 t)),
  λ e. (eq_iff (node_kind_name a) (node_kind_name b)).1 (ap node_kind_name e),
)

edge_type_eq_iff : (a b : EdgeType) → (edge_type_eq a b ≡ true) ↔ (a ≡ b)
unfolding edge_type_eq
edge_type_eq_iff a b = (
  (λ t. edge_type_name-injective a b ((eq_iff (edge_type_name a) (edge_type_name b)).0 t)),
  λ e. (eq_iff (edge_type_name a) (edge_type_name b)).1 (ap edge_type_name e),
)

is_listed_node_iff :
    (o : ListNodesOptions) (n : GraphNode) → (is_listed_node o n ≡ true) ↔ NodeAsked o n
unfolding is_listed_node
is_listed_node_iff o n =
    let kind =
      optional_iff o.kind (node_kind_eq n.kind) (λ k. n.kind ≡ k)
        (λ k. node_kind_eq_iff n.kind k) in
    let path =
      optional_iff o.path_prefix (starts_with n.path) (Extends n.path)
        (λ p. starts_with_iff n.path p) in
    let all =
      and_iff _ _ (and_iff _ _ (and_iff _ _ kind path) (passes_iff o.repo_id n.repo_id))
        (passes_iff o.index_run_id n.index_run_id) in
    ((λ t. let (((k, p), r), i) = all.0 t in (k, p, r, i)), λ (k, p, r, i). all.1 (((k, p), r), i))

is_listed_edge_iff :
    (o : ListEdgesOptions) (e : GraphEdge) → (is_listed_edge o e ≡ true) ↔ EdgeAsked o e
unfolding is_listed_edge
is_listed_edge_iff o e =
    let type =
      optional_iff o.type (edge_type_eq e.type) (λ t. e.type ≡ t)
        (λ t. edge_type_eq_iff e.type t) in
    let all =
      and_iff _ _ (and_iff _ _ type (passes_iff o.repo_id e.repo_id))
        (passes_iff o.index_run_id e.index_run_id) in
    ((λ t. let ((k, r), i) = all.0 t in (k, r, i)), λ (k, r, i). all.1 ((k, r), i))

-- `listNodes` returns the stored nodes that have the kind, the start of the path, the repository and
-- the run that the options ask for, and `listEdges` the stored edges that have the type, the
-- repository and the run, in the order in which they were stored, each as many times as it is stored.
-- With a limit above 0 it returns the first ones, as many as the limit, and with no limit or the limit
-- 0 all of them. An option that is absent asks for nothing, nor does an empty repository or run.
pub list_nodes-list_edges :
    (nodes : ListNodesOptions) (edges : ListEdgesOptions) (s : GraphStore)
    → ((all : List GraphNode) × Selects (NodeAsked nodes) Same (values s.nodes) all
        × Cut nodes.limit all (list_nodes nodes s))
      × ((all : List GraphEdge) × Selects (EdgeAsked edges) Same (values s.edges) all
          × Cut edges.limit all (list_edges edges s))
unfolding list_nodes list_edges
list_nodes-list_edges nodes edges s = (
  collect-Selects (NodeAsked nodes) (is_listed_node nodes) (is_listed_node_iff nodes) nodes.limit
      (values s.nodes),
  collect-Selects (EdgeAsked edges) (is_listed_edge edges) (is_listed_edge_iff edges) edges.limit
      (values s.edges),
)
