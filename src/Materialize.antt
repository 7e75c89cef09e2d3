-- ===== src/Materialize.antt =====
-- packages/indexer/src/rig-materialize.ts: an architecture graph as nodes and edges of the graph
-- store.
pub mod Links
use codesoul.Prelude.{
  ℕ, Text, codes, Bool, true, false, Option, none, some, List, [], ◌∷◌, ◌++◌, foldl, map, sort,
  if◌then◌else◌,
}
use codesoul.JsMap.{JsMap, get, set}
use codesoul.Core.Errors.{Result, ok, raise, ◌>>=◌}
use codesoul.Core.Zod.{Zod}
use codesoul.Core.Ids.{stable_id, content_id, edge_content_hash}
use codesoul.Core.Normalize.{normalize_signature, normalize_body}
use codesoul.Core.Enums.{
  EdgeType, depends_on, declared_by, edge_type_name, NodeKind, rig_component, rig_target, rig_test,
  node_kind_name, unknown,
}
use codesoul.Core.Schema.{
  GraphNode, GraphEdge, PersistedMeta, is_graph_node, is_graph_edge, schema_version,
}
use codesoul.Rig.{
  RigComponent, RigTarget, RigTest, RigGraph, ComponentKind, package_kind, workspace_kind, app_kind,
  library_kind, binary_kind, TargetKind, build_kind, run_kind, publish_kind,
}

pub record RigBatchMeta : Type 0 where
  pub repo_id : Text
  pub index_run_id : Text
  pub batch_id : Text

pub record RigBatchResult : Type 0 where
  pub nodes : List GraphNode
  pub edges : List GraphEdge

-- An empty path stands for the root.
unfoldable pub safe_path : Text → Text
safe_path [] = codes "."
safe_path (c ∷ p) = c ∷ p

unfoldable pub component_kind_name : ComponentKind → Text
component_kind_name package_kind = codes "package"
component_kind_name workspace_kind = codes "workspace"
component_kind_name app_kind = codes "app"
component_kind_name library_kind = codes "library"
component_kind_name binary_kind = codes "binary"

unfoldable pub target_kind_name : TargetKind → Text
target_kind_name build_kind = codes "build"
target_kind_name run_kind = codes "run"
target_kind_name publish_kind = codes "publish"

-- `l.join(",")`
unfoldable pub join_comma : List Text → Text
join_comma [] = []
join_comma (a ∷ []) = a
join_comma (a ∷ b ∷ l) = a ++ (codes "," ++ join_comma (b ∷ l))

-- A step that may throw for each element, and the list of the results.
unfoldable pub map_results : {A B : Type 0} → (A → Result B) → List A → Result (List B)
map_results f [] = ok []
map_results f (a ∷ l) = do b ← f a; bs ← map_results f l; ok (b ∷ bs)

-- `if (!id) continue` on an entry of a map: an absent id and the empty one are skipped.
unfoldable pub truthy : Option Text → Option Text
truthy none = none
truthy (some []) = none
truthy (some (c ∷ s)) = some (c ∷ s)

-- `map.get(k) ?? other`
abbrev pub or_else : Text → Option Text → Text
or_else other none = other
or_else other (some x) = x

module _ (zod : Zod) where
  abbrev pub parse_node : GraphNode → Result GraphNode
  parse_node = zod.parse GraphNode is_graph_node

  abbrev pub parse_edge : GraphEdge → Result GraphEdge
  parse_edge = zod.parse GraphEdge is_graph_edge

  abbrev pub parse_owned : GraphNode × GraphEdge → Result (GraphNode × GraphEdge)
  parse_owned (n, e) = do n' ← parse_node n; e' ← parse_edge e; ok (n', e')

-- An entity that a component owns: the kind of its node, its id, its name, its summary and the id of
-- the component.
unfoldable pub target_entry : RigTarget → NodeKind × Text × Text × Text × Text
target_entry t = (
  rig_target,
  t.id,
  t.name,
  target_kind_name t.kind ++ (codes "|" ++ t.component_id),
  t.component_id,
)

unfoldable pub test_entry : RigTest → NodeKind × Text × Text × Text × Text
test_entry t = (
  rig_test,
  t.id,
  t.name,
  or_else [] t.framework ++ (codes "|" ++ t.component_id),
  t.component_id,
)

module _ (sha1 : Text → Text) (meta : RigBatchMeta) where
  -- The node of an entity with the given kind, path, id, name and summary.
  unfoldable pub rig_node : NodeKind → Text → Text → Text → Text → GraphNode
  rig_node kind path id name summary = record {
    meta = record {
      repo_id = meta.repo_id;
      index_run_id = meta.index_run_id;
      batch_id = meta.batch_id;
      source_path = path;
      content_hash = content_id sha1 (record {
        normalized_signature = normalize_signature name;
        normalized_body = normalize_body summary;
      });
      version = schema_version;
    };
    id = stable_id sha1 (record {
      repo_id = meta.repo_id;
      relative_path = path;
      symbol_kind = node_kind_name kind;
      qualified_name = id;
    });
    path = path;
    kind = kind;
    language = unknown;
    qualified_name = id;
    signature = name;
    evidence = record { start_line = 1; end_line = 1 };
  }

  unfoldable pub rig_edge : EdgeType → Text → Text → Text → GraphEdge
  rig_edge type path src dst = record {
    meta = record {
      repo_id = meta.repo_id;
      index_run_id = meta.index_run_id;
      batch_id = meta.batch_id;
      source_path = path;
      content_hash =
          edge_content_hash sha1 (record { src = src; type = edge_type_name type; dst = dst });
      version = schema_version;
    };
    src = src;
    dst = dst;
    type = type;
    attributes = none;
  }

  -- `${c.kind}|${compPath}|${[...c.dependsOn].sort().join(",")}`
  unfoldable pub component_summary : RigComponent → Text
  component_summary c =
      component_kind_name c.kind
      ++ (codes "|" ++ (safe_path c.path ++ (codes "|" ++ join_comma (sort c.depends_on))))

  unfoldable pub component_node : RigComponent → GraphNode
  component_node c = rig_node rig_component (safe_path c.path) c.id c.name (component_summary c)

  -- The maps `componentNodeIdById` and `componentPathById`.
  unfoldable pub node_ids : List RigComponent → JsMap Text
  node_ids = foldl (λ m c. set c.id (component_node c).id m) []

  unfoldable pub paths : List RigComponent → JsMap Text
  paths = foldl (λ m c. set c.id (safe_path c.path) m) []

  module _ (rig : RigGraph) where
    -- The node id of the component with an id, if it can be resolved in this graph.
    unfoldable pub resolve : Text → Option Text
    resolve id = truthy (get id (node_ids rig.components))

    -- The loop over `c.dependsOn`.
    unfoldable pub dependency_edges : Text → Text → List Text → List GraphEdge
    dependency_edges path src [] = []
    dependency_edges path src (dep ∷ deps) = elim (resolve dep) [
      | none ↦ dependency_edges path src deps
      | some dst ↦ rig_edge depends_on path src dst ∷ dependency_edges path src deps
    ]

    unfoldable pub component_edges : List RigComponent → List GraphEdge
    component_edges [] = []
    component_edges (c ∷ cs) = elim (resolve c.id) [
      | none ↦ component_edges cs
      | some src ↦
          dependency_edges (or_else (safe_path c.path) (get c.id (paths rig.components))) src
            c.depends_on
          ++ component_edges cs
    ]

    -- The loop over the targets, and that over the tests: each entry of `owned` is the kind of the
    -- node, its id, its name, its summary and the id of the component that owns it.
    unfoldable pub owned_nodes :
        List (NodeKind × Text × Text × Text × Text) → List (GraphNode × GraphEdge)
    owned_nodes [] = []
    owned_nodes ((kind, id, name, summary, owner) ∷ rest) = elim (resolve owner) [
      | none ↦ owned_nodes rest
      | some parent ↦
          let path = or_else (codes ".") (get owner (paths rig.components)) in
          let node = rig_node kind path id name summary in
          (node, rig_edge declared_by path node.id parent) ∷ owned_nodes rest
    ]

    -- Every node and edge passes its schema before it is pushed; the first that fails ends the
    -- function with the error of the schema.
    unfoldable pub materialize_rig_graph : Zod → Result RigBatchResult
    materialize_rig_graph zod = do
      components ← map_results (parse_node zod) (map component_node rig.components)
      dependencies ← map_results (parse_edge zod) (component_edges rig.components)
      targets ← map_results (parse_owned zod) (owned_nodes (map target_entry rig.targets))
      tests ← map_results (parse_owned zod) (owned_nodes (map test_entry rig.tests))
      ok (record {
        nodes = components ++ (map (λ p. p.0) targets ++ map (λ p. p.0) tests);
        edges = dependencies ++ (map (λ p. p.1) targets ++ map (λ p. p.1) tests);
      })
