-- ===== src/Tests/Graph.antt =====
-- Tests of the graph store.
use codesoul.Prelude.{
  ℕ, ◌-◌, ◌≤◌, Text, codes, ◌≡◌, ◌⊎◌, refl, true, some, none, List, Selects, Same, Cut, [], ◌∷◌,
  effective_limit, reached, length,
}
use codesoul.JsMap.{get, values}
use codesoul.Core.Ids.{is_sym_id, is_content_hash}
use codesoul.Core.Errors.{is_ok}
use codesoul.Core.Enums.{calls}
use codesoul.Core.Schema.{GraphNode, GraphEdge, is_graph_edge, is_meta}
use codesoul.Graph.{
  GraphStore, empty_graph, TraversalOptions, both, upsert_nodes, get_node, neighbors, list_nodes,
  list_edges, ListNodesOptions, ListEdgesOptions, seed_nodes,
}
use codesoul.Graph.Rounds.{Within}
use codesoul.Graph.Neighbors.{IsBall, neighbors-IsBall}
use codesoul.Graph.Keys.{edge_key-injective}
use codesoul.Graph.Upserts.{
  IsWellFormed, IsWellFormed-NodesKeyed, IsWellFormed-EdgesKeyed, empty_graph-IsWellFormed,
  upsert_nodes_stored, upsert_nodes-IsWellFormed, upsert_edges-IsWellFormed, all_valid,
  valid_prefix, latest,
}
use codesoul.Graph.Listing.{NodeAsked, EdgeAsked, list_nodes-list_edges}
use codesoul.Tests.Samples.{zod_of_checks, sym_a, sym_b, node_a, node_b, edge_ab, two_nodes}

abbrev with_nodes : GraphStore
with_nodes = (upsert_nodes zod_of_checks (node_a ∷ node_b ∷ []) empty_graph).1

nodes-IsWellFormed : IsWellFormed with_nodes
nodes-IsWellFormed =
    upsert_nodes-IsWellFormed zod_of_checks (node_a ∷ node_b ∷ []) empty_graph
      empty_graph-IsWellFormed

two_nodes-IsWellFormed : IsWellFormed two_nodes
two_nodes-IsWellFormed =
    upsert_edges-IsWellFormed zod_of_checks (edge_ab ∷ []) with_nodes nodes-IsWellFormed

upsert_nodes_stored_example :
    (is_ok (upsert_nodes zod_of_checks (node_a ∷ node_b ∷ []) empty_graph).0
      ≡ all_valid (node_a ∷ node_b ∷ []))
    × ((id : Text)
        → get_node id with_nodes
          ≡ latest id (valid_prefix (node_a ∷ node_b ∷ [])) (get_node id empty_graph))
    × (with_nodes.edges ≡ [])
upsert_nodes_stored_example = upsert_nodes_stored zod_of_checks (node_a ∷ node_b ∷ []) empty_graph

abbrev one_hop : TraversalOptions
one_hop = record {
  depth = 1;
  edge_types = some (calls ∷ []);
  direction = some both;
  limit = some 5;
}

neighbors-IsBall_example :
    (k : ℕ) × (k ≤ 1)
    × IsBall two_nodes sym_a one_hop k (neighbors two_nodes sym_a one_hop)
    × ((k ≡ 1)
        ⊎ ((reached (effective_limit (some 5)) (
                length (neighbors two_nodes sym_a one_hop).nodes
                - length (seed_nodes (get sym_a two_nodes.nodes)))
              ≡ true)
            ⊎ ((n : ℕ) (b : Text)
                → Within two_nodes one_hop sym_a n b
                → Within two_nodes one_hop sym_a k b)))
neighbors-IsBall_example =
    neighbors-IsBall two_nodes sym_a one_hop
      (IsWellFormed-NodesKeyed two_nodes two_nodes-IsWellFormed)
      (IsWellFormed-EdgesKeyed two_nodes two_nodes-IsWellFormed)

edge-valid : is_graph_edge edge_ab ≡ true
unfolding is_graph_edge is_meta is_sym_id is_content_hash
edge-valid = refl

edge_key-injective_example : (sym_a ≡ sym_a) × (calls ≡ calls) × (sym_b ≡ sym_b)
edge_key-injective_example = edge_key-injective edge_ab edge_ab edge-valid edge-valid refl

abbrev listed_nodes : ListNodesOptions
listed_nodes = record {
  kind = none;
  path_prefix = some (codes "a");
  repo_id = some [];
  index_run_id = none;
  limit = some 1;
}

abbrev listed_edges : ListEdgesOptions
listed_edges = record { type = some calls; repo_id = none; index_run_id = none; limit = some 0 }

list_nodes-list_edges_example :
    ((all : List GraphNode) × Selects (NodeAsked listed_nodes) Same (values two_nodes.nodes) all
      × Cut (some 1) all (list_nodes listed_nodes two_nodes))
    × ((all : List GraphEdge) × Selects (EdgeAsked listed_edges) Same (values two_nodes.edges) all
        × Cut (some 0) all (list_edges listed_edges two_nodes))
list_nodes-list_edges_example = list_nodes-list_edges listed_nodes listed_edges two_nodes
