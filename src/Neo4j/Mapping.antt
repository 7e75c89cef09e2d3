-- ===== src/Neo4j/Mapping.antt =====
-- packages/graph-store-neo4j/src/cypher-mapping.ts: nodes and edges as flat bags of properties.
pub mod Laws
use codesoul.Prelude.{
  ℕ, Text, codes, ◌==◌, ◌≡◌, Bool, true, false, ◌&&◌, not, is_empty, Option, none, some, List, [],
  ◌∷◌, map, foldl, if◌then◌else◌,
}
use codesoul.JsMap.{JsMap, set}
use codesoul.Core.Errors.{Result, ok, raise, ◌>>=◌}
use codesoul.Core.Zod.{Zod}
use codesoul.Core.Enums.{
  EdgeType, contains, calls, imports, implements, extends, defined_in, depends_on, declared_by,
  NodeKind, file_kind, module_kind, class_kind, function_kind, method_kind, import_kind, block_kind,
  rig_component, rig_target, rig_test, Language, typescript, javascript, python, markdown, unknown,
  node_kind_name, language_name, edge_type_name, edge_type_eq,
}
use codesoul.Core.Schema.{
  Attribute, number_attribute, GraphNode, GraphEdge, is_graph_node, is_graph_edge,
}

-- `EDGE_TYPES`, the options of the enumeration.
abbrev pub edge_types : List EdgeType
edge_types =
    contains ∷ calls ∷ imports ∷ implements ∷ extends ∷ defined_in ∷ depends_on ∷ declared_by ∷ []

abbrev node_kinds : List NodeKind
node_kinds =
    file_kind ∷ module_kind ∷ class_kind ∷ function_kind ∷ method_kind ∷ import_kind ∷ block_kind
    ∷ rig_component ∷ rig_target ∷ rig_test ∷ []

abbrev languages : List Language
languages = typescript ∷ javascript ∷ python ∷ markdown ∷ unknown ∷ []

-- The first of the values with a name.
abbrev pub named : {A : Type 0} → (A → Text) → Text → List A → Option A
named name s [] = none
named name s (a ∷ l) = if name a == s then some a else named name s l

-- The member of an enumeration that a text names.
unfoldable pub read_edge_type : Text → Option EdgeType
read_edge_type s = named edge_type_name s edge_types

unfoldable pub read_node_kind : Text → Option NodeKind
read_node_kind s = named node_kind_name s node_kinds

unfoldable pub read_language : Text → Option Language
read_language s = named language_name s languages

pub record NodeProps : Type 0 where
  pub id : Text
  pub content_hash : Text
  pub repo_id : Text
  pub index_run_id : Text
  pub batch_id : Text
  pub source_path : Text
  pub version : ℕ
  pub path : Text
  pub kind : Text
  pub language : Text
  pub qualified_name : Text
  pub signature : Text
  pub evidence_start_line : ℕ
  pub evidence_end_line : ℕ

pub record EdgeProps : Type 0 where
  pub content_hash : Text
  pub repo_id : Text
  pub index_run_id : Text
  pub batch_id : Text
  pub source_path : Text
  pub version : ℕ
  pub attr_json : Option Text

unfoldable pub to_node_props : GraphNode → NodeProps
to_node_props n = record {
  id = n.id;
  content_hash = n.content_hash;
  repo_id = n.repo_id;
  index_run_id = n.index_run_id;
  batch_id = n.batch_id;
  source_path = n.source_path;
  version = n.version;
  path = n.path;
  kind = node_kind_name n.kind;
  language = language_name n.language;
  qualified_name = n.qualified_name;
  signature = n.signature;
  evidence_start_line = n.evidence.start_line;
  evidence_end_line = n.evidence.end_line;
}

-- The object that `fromNodeProps` parses, for the kind and the language that its texts name.
unfoldable pub node_of : NodeProps → NodeKind → Language → GraphNode
node_of p kind language = record {
  meta = record {
    repo_id = p.repo_id;
    index_run_id = p.index_run_id;
    batch_id = p.batch_id;
    source_path = p.source_path;
    content_hash = p.content_hash;
    version = 1;
  };
  id = p.id;
  path = p.path;
  kind = kind;
  language = language;
  qualified_name = p.qualified_name;
  signature = p.signature;
  evidence = record { start_line = p.evidence_start_line; end_line = p.evidence_end_line };
}

-- A bag of properties as the node that it describes, if its kind and its language are known.
unfoldable pub described : NodeProps → Option GraphNode
unfolding read_node_kind read_language
described p = elim (read_node_kind p.kind) [
  | none ↦ none
  | some kind ↦ elim (read_language p.language) [
    | none ↦ none
    | some language ↦ some (node_of p kind language)
  ]
]

-- The schema on the object that `fromNodeProps` builds.
unfoldable pub is_described : Option GraphNode → Bool
is_described none = false
is_described (some n) = is_graph_node n

-- What a parse returns: the object, of which the schema has made sure that it is a node.
abbrev pub parsed_node : Option GraphNode → GraphNode → GraphNode
parsed_node none default = default
parsed_node (some n) default = n

unfoldable pub from_node_props : Zod → NodeProps → Result GraphNode
unfolding described
from_node_props zod p = do
  parsed ← zod.parse (Option GraphNode) is_described (described p)
  ok (parsed_node parsed (node_of p file_kind unknown))

-- Whether every number among the values, by its printed form, is finite.
abbrev pub finite_numbers : (Text → Bool) → List (Text × Attribute) → Bool
finite_numbers is_finite [] = true
finite_numbers is_finite ((k, number_attribute n) ∷ a) = is_finite n && finite_numbers is_finite a
finite_numbers is_finite ((k, v) ∷ a) = finite_numbers is_finite a

-- `JSON`, on the attributes of an edge: `stringify` prints an object, and `entries` is
-- `Object.entries(JSON.parse(raw))`, where a value that is no scalar is `none`. What is printed of an
-- object whose numbers are all finite is read back as its entries.
pub record Json : Type 1 where
  pub stringify : List (Text × Attribute) → Text
  pub entries : Text → Result (List (Text × Option Attribute))
  pub is_finite : Text → Bool
  pub printed : (a : List (Text × Attribute)) → is_empty (stringify a) ≡ false
  pub reads :
      (a : List (Text × Attribute))
      → finite_numbers is_finite a ≡ true
      → entries (stringify a) ≡ ok (map (λ e. (e.0, some e.1)) a)

module _ (json : Json) where
  unfoldable pub to_edge_props : GraphEdge → EdgeProps
  to_edge_props e = record {
    content_hash = e.content_hash;
    repo_id = e.repo_id;
    index_run_id = e.index_run_id;
    batch_id = e.batch_id;
    source_path = e.source_path;
    version = e.version;
    attr_json = elim e.attributes [ none ↦ none | some a ↦ some (json.stringify a) ];
  }

  -- `if (typeof v === "string" || ...) out[k] = v`; to set `__proto__` to a scalar has no effect.
  unfoldable pub keep_scalar : JsMap Attribute → Text × Option Attribute → JsMap Attribute
  keep_scalar out (k, none) = out
  keep_scalar out (k, some v) = if k == codes "__proto__" then out else set k v out

  -- `if (Object.keys(out).length > 0) attributes = out`
  abbrev pub unless_empty : JsMap Attribute → Option (List (Text × Attribute))
  unless_empty [] = none
  unless_empty (e ∷ out) = some (e ∷ out)

  unfoldable pub read_attributes : Option Text → Option (List (Text × Attribute))
  unfolding keep_scalar
  read_attributes none = none
  read_attributes (some []) = none
  read_attributes (some (c ∷ raw)) = elim (json.entries (c ∷ raw)) [
    | raise _ ↦ none
    | ok parsed ↦ unless_empty (foldl keep_scalar [] parsed)
  ]

  unfoldable pub edge_of : EdgeProps → Text → Text → EdgeType → GraphEdge
  unfolding read_attributes
  edge_of p src dst type = record {
    meta = record {
      repo_id = p.repo_id;
      index_run_id = p.index_run_id;
      batch_id = p.batch_id;
      source_path = p.source_path;
      content_hash = p.content_hash;
      version = 1;
    };
    src = src;
    dst = dst;
    type = type;
    attributes = read_attributes p.attr_json;
  }

  unfoldable pub from_edge_props : Zod → EdgeProps → Text → Text → EdgeType → Result GraphEdge
  unfolding edge_of
  from_edge_props zod p src dst type = zod.parse GraphEdge is_graph_edge (edge_of p src dst type)
