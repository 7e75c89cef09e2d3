-- ===== src/Tests/Rig.antt =====
-- Tests of the merge of architecture graphs and of its materialization.
use codesoul.Prelude.{
  Text, codes, ◌==◌, ◌≡◌, ◌↔◌, refl, some, none, List, [], ◌∷◌, map, In, Distinct, inl, text_le,
  sort_by, sort, insert_by,
}
use codesoul.JsMap.{get, set}
use codesoul.Core.Errors.{ok, raise}
use codesoul.Rig.{
  RigComponent, RigGraph, package_kind, build_kind, merge_rig_graphs, merge_component, merge_graph,
}
use codesoul.Rig.Components.{Declares, SameIdentity}
use codesoul.Rig.Arrivals.{with_id}
use codesoul.Rig.Merge.{all_components, merge_components}
use codesoul.Materialize.{
  RigBatchMeta, RigBatchResult, materialize_rig_graph, map_results, owned_nodes, component_edges,
  dependency_edges, resolve, truthy, node_ids, paths, component_node, rig_node, rig_edge,
  target_entry, test_entry, component_summary, safe_path, component_kind_name, target_kind_name,
  join_comma,
}
use codesoul.Materialize.Links.{HasNode, materialize_linked}
use codesoul.Core.Schema.{GraphEdge, is_graph_node, is_graph_edge, is_meta, is_evidence}
use codesoul.Core.Ids.{is_sym_id, is_content_hash, stable_id, content_id, edge_content_hash}
use codesoul.Core.Normalize.{normalize_signature, normalize_body}
use codesoul.Core.Enums.{node_kind_name, edge_type_name}
use codesoul.Tests.Samples.{zod_of_checks, hex_a, edge_ab}

abbrev component : Text → List Text → RigComponent
component id deps = record {
  id = id;
  name = id;
  kind = package_kind;
  path = codes "p";
  depends_on = deps;
}

abbrev graph_of : List RigComponent → RigGraph
graph_of cs = record {
  extractor = codes "package-json";
  extractor_version = codes "1";
  components = cs;
  targets =
      record { id = codes "t"; component_id = codes "a"; name = codes "build"; kind = build_kind }
      ∷ [];
  tests = [];
  version = 1;
}

abbrev graphs : List RigGraph
graphs =
    graph_of (component (codes "a") (codes "b" ∷ []) ∷ component (codes "b") [] ∷ [])
    ∷ graph_of (component (codes "a") (codes "c" ∷ []) ∷ [])
    ∷ []

abbrev first_a : RigComponent
first_a = component (codes "a") (codes "b" ∷ [])

first-a : with_id (codes "a") (all_components graphs) ≡ some first_a
unfolding all_components ◌==◌
first-a = refl

none-z : with_id (codes "z") (all_components graphs) ≡ none
unfolding all_components ◌==◌
none-z = refl

merge_components_example :
    Distinct (map (λ c. c.id) (merge_rig_graphs text_le graphs).components)
    × (y : RigComponent) × ((z : RigComponent)
        → (In z (merge_rig_graphs text_le graphs).components × (z.id ≡ codes "a")) ↔ (z ≡ y))
    × SameIdentity first_a y
    × ((d : Text) → In d y.depends_on ↔ Declares (codes "a") d (all_components graphs))
merge_components_example = merge_components text_le graphs (codes "a") first_a first-a

abbrev alone : List RigGraph
alone = graph_of (first_a ∷ []) ∷ []

alone-none : with_id (codes "z") (all_components alone) ≡ none
unfolding all_components ◌==◌
alone-none = refl

first_a-In : In first_a (merge_rig_graphs text_le alone).components
unfolding merge_rig_graphs merge_graph merge_component sort_by sort insert_by get set
first_a-In = inl refl

abbrev batch_meta : RigBatchMeta
batch_meta = record { repo_id = codes "repo"; index_run_id = codes "run"; batch_id = codes "batch" }

abbrev linked_result : RigBatchResult
linked_result =
    elim (materialize_rig_graph (λ s. hex_a) batch_meta (graph_of (first_a ∷ [])) zod_of_checks) [
      | ok r ↦ r
      | raise e ↦ record { nodes = []; edges = [] }
    ]

abbrev linked_edge : GraphEdge
linked_edge = elim linked_result.edges [ [] ↦ edge_ab | e ∷ es ↦ e ]

materialize-eq :
    materialize_rig_graph (λ s. hex_a) batch_meta (graph_of (first_a ∷ [])) zod_of_checks
    ≡ ok linked_result
unfolding materialize_rig_graph map_results owned_nodes component_edges dependency_edges resolve
    truthy node_ids paths component_node rig_node rig_edge target_entry test_entry component_summary
    safe_path component_kind_name target_kind_name join_comma get set ◌==◌ is_graph_node
    is_graph_edge is_meta is_evidence is_sym_id is_content_hash stable_id content_id
    edge_content_hash normalize_signature normalize_body sort sort_by insert_by node_kind_name
    edge_type_name
materialize-eq = refl

linked_edge-In : In linked_edge linked_result.edges
unfolding materialize_rig_graph map_results owned_nodes component_edges dependency_edges resolve
    truthy node_ids paths component_node rig_node rig_edge target_entry test_entry component_summary
    safe_path component_kind_name target_kind_name join_comma get set ◌==◌ is_graph_node
    is_graph_edge is_meta is_evidence is_sym_id is_content_hash stable_id content_id
    edge_content_hash normalize_signature normalize_body sort sort_by insert_by node_kind_name
    edge_type_name
linked_edge-In = inl refl

materialize_linked_example :
    HasNode zod_of_checks
      (λ s. hex_a)
      batch_meta
      (graph_of (first_a ∷ []))
      linked_result
      linked_edge.src
    × HasNode zod_of_checks
        (λ s. hex_a)
        batch_meta
        (graph_of (first_a ∷ []))
        linked_result
        linked_edge.dst
materialize_linked_example =
    materialize_linked zod_of_checks (λ s. hex_a) batch_meta (graph_of (first_a ∷ [])) linked_result
      linked_edge materialize-eq linked_edge-In
