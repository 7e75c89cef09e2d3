-- ===== src/Neo4j.antt =====
-- packages/graph-store-neo4j/src/neo4j-store.ts: the graph store behind Neo4j. The database and its
-- driver are a parameter, seen by the properties of the nodes and the relationships.
pub mod Mapping
pub mod Represents
pub mod Queries
pub mod Layers
pub mod Records
pub mod Neighbors
pub mod Writes
use codesoul.Prelude.{
  ℕ, zero, suc, ◌-◌, Text, codes, ◌==◌, starts_with, ends_with, ◌≡◌, Bool, true, false, not, ◌&&◌,
  ◌||◌, Option, none, some, List, [], ◌∷◌, ◌++◌, map, foldl, filter, In, ◌↔◌, ◌⊎◌, is_empty, length,
  effective_limit, reached, limited, if◌then◌else◌,
}
use codesoul.JsMap.{JsMap, get, has, set, values, contains, add}
use codesoul.Core.Errors.{Result, ok, raise, ◌>>=◌}
use codesoul.Core.Zod.{Zod}
use codesoul.Core.Enums.{EdgeType, calls, NodeKind, edge_type_name, node_kind_name}
use codesoul.Core.Schema.{GraphNode, GraphEdge, is_graph_node, is_graph_edge}
use codesoul.Graph.{
  Direction, outgoing, incoming, both, follows_out, follows_in, TraversalOptions, ListNodesOptions,
  ListEdgesOptions, GraphQueryResult, Traversal, edge_key, direction_or_both, is_allowed,
  seed_nodes, passes,
}
use codesoul.Neo4j.Mapping.{
  NodeProps, EdgeProps, Json, edge_types, read_edge_type, to_node_props, from_node_props,
  to_edge_props, from_edge_props, edge_of,
}

pub record LayerRecord : Type 0 where
  pub src_id : Text
  pub dst_id : Text
  pub rel_type : Text
  pub rel_props : EdgeProps
  pub other_props : NodeProps

-- What the pattern of a layer query binds: the id of a node of the layer, `startNode(r).id`, the type
-- and the properties of the relationship `r`, and the properties of the node at its other end.
pub record PathMatch : Type 0 where
  pub start_id : Text
  pub from_id : Text
  pub rel_type : Text
  pub rel_props : EdgeProps
  pub other : NodeProps

abbrev pub record_between : Text → Text → PathMatch → LayerRecord
record_between src dst m = record {
  src_id = src;
  dst_id = dst;
  rel_type = m.rel_type;
  rel_props = m.rel_props;
  other_props = m.other;
}

-- The `RETURN` of the three layer queries.
unfoldable pub returned : Direction → PathMatch → LayerRecord
returned outgoing m = record_between m.start_id m.other.id m
returned incoming m = record_between m.other.id m.start_id m
returned both m =
    record_between (if m.from_id == m.start_id then m.start_id else m.other.id)
      (if m.from_id == m.start_id then m.other.id else m.start_id) m

-- A row of the result of `listEdges`.
pub record Relation : Type 0 where
  pub src_id : Text
  pub dst_id : Text
  pub rel_type : Text
  pub rel_props : EdgeProps

-- An edge to be merged: its ends, and its properties.
pub record EdgeRow : Type 0 where
  pub src : Text
  pub dst : Text
  pub props : EdgeProps

-- The properties of the last row with an id, or the old ones.
abbrev pub last_with_id : Text → List NodeProps → Option NodeProps → Option NodeProps
last_with_id id [] old = old
last_with_id id (p ∷ ps) old = last_with_id id ps (if p.id == id then some p else old)

abbrev pub last_between : Text → Text → List EdgeRow → Option EdgeProps → Option EdgeProps
last_between a b [] old = old
last_between a b (r ∷ rs) old =
    last_between a b rs (if (r.src == a) && (r.dst == b) then some r.props else old)

-- The database, by what the documentation of Cypher says of the statements that the store runs. A
-- graph has at most one `:Symbol` node with an id, and at most one relationship of a type from a node
-- to a node, since the store writes both with `MERGE` only. `MATCH` finds all that fits, in any order.
pub record Driver : Type 1 where
  pub Graph : Type 0
  pub symbol : Graph → Text → Option NodeProps
  pub relation : Graph → Text → Text → Text → Option EdgeProps
  pub run : Text → Graph → Result Graph
  pub merge_symbols : List NodeProps → Graph → Graph
  pub merge_relations : Text → List EdgeRow → Graph → Graph
  pub match_symbol : Text → Graph → List NodeProps
  pub match_paths : Direction → List Text → Graph → List PathMatch
  pub match_symbols : (NodeProps → Bool) → Option ℕ → Graph → List NodeProps
  pub match_relations : Option Text → (EdgeProps → Bool) → Option ℕ → Graph → List Relation
  pub keyed : (g : Graph) (id : Text) (p : NodeProps) → symbol g id ≡ some p → p.id ≡ id
  pub has_ends :
      (g : Graph) (a t b : Text) (p : EdgeProps)
      → relation g a t b ≡ some p
      → ((q : NodeProps) × (symbol g a ≡ some q)) × ((q : NodeProps) × (symbol g b ≡ some q))
  pub finds :
      (g : Graph) (id : Text) (p : NodeProps) → symbol g id ≡ some p → match_symbol id g ≡ p ∷ []
  pub misses : (g : Graph) (id : Text) → symbol g id ≡ none → match_symbol id g ≡ []
  pub merges_symbols :
      (g : Graph) (ps : List NodeProps) (id : Text)
      → symbol (merge_symbols ps g) id ≡ last_with_id id ps (symbol g id)
  pub keeps_relations :
      (g : Graph) (ps : List NodeProps) (a t b : Text)
      → relation (merge_symbols ps g) a t b ≡ relation g a t b
  -- `MATCH` with the arrow out, in or without a head from the nodes with the given ids.
  pub paths :
      (g : Graph) (d : Direction) (ids : List Text) (m : PathMatch)
      → In m (match_paths d ids g) ↔ (
          In m.start_id ids
          × (symbol g m.other.id ≡ some m.other)
          × (((follows_out d ≡ true)
                × (m.from_id ≡ m.start_id)
                × (relation g m.start_id m.rel_type m.other.id ≡ some m.rel_props))
              ⊎ ((follows_in d ≡ true)
                  × (m.from_id ≡ m.other.id)
                  × (relation g m.other.id m.rel_type m.start_id ≡ some m.rel_props))))

-- `NEO4J_MIGRATIONS`
abbrev pub neo4j_migrations : List Text
neo4j_migrations =
    codes "CREATE CONSTRAINT symbol_id IF NOT EXISTS FOR (s:Symbol) REQUIRE s.id IS UNIQUE"
    ∷ codes "CREATE INDEX symbol_path IF NOT EXISTS FOR (s:Symbol) ON (s.path)"
    ∷ codes "CREATE INDEX symbol_repo IF NOT EXISTS FOR (s:Symbol) ON (s.repoId)"
    ∷ codes "CREATE INDEX symbol_run IF NOT EXISTS FOR (s:Symbol) ON (s.indexRunId)"
    ∷ codes "CREATE INDEX symbol_kind IF NOT EXISTS FOR (s:Symbol) ON (s.kind)"
    ∷ codes "CREATE INDEX symbol_qname IF NOT EXISTS FOR (s:Symbol) ON (s.qualifiedName)"
    ∷ []

module _ {A B : Type 0} (f : A → Result B) where
  -- `xs.map(f)`, where `f` may throw.
  unfoldable pub map_or_raise : List A → Result (List B)
  map_or_raise [] = ok []
  map_or_raise (x ∷ xs) = do y ← f x; ys ← map_or_raise xs; ok (y ∷ ys)

-- `byType.get(e.type) ?? []`
abbrev group_or_empty : Option (List GraphEdge) → List GraphEdge
group_or_empty none = []
group_or_empty (some list) = list

-- The groups `byType` of `upsertEdges`, in the order of the first edge of each type.
unfoldable pub push_edge : JsMap (List GraphEdge) → GraphEdge → JsMap (List GraphEdge)
push_edge by_type e =
    set (edge_type_name e.type) (group_or_empty (get (edge_type_name e.type) by_type) ++ e ∷ [])
      by_type

-- What the inner loop of `neighbors` does with a record of an allowed type.
unfoldable pub add_found : GraphNode → GraphEdge → Traversal → Traversal
unfolding edge_key
add_found other e t = record {
  nodes = if has other.id t.nodes then t.nodes else set other.id other t.nodes;
  edges = if has (edge_key e) t.edges then t.edges else set (edge_key e) e t.edges;
  visited = if contains other.id t.visited then t.visited else t.visited ++ other.id ∷ [];
  next_layer = if contains other.id t.visited then t.next_layer else t.next_layer ++ other.id ∷ [];
}

-- The `WHERE` of `listNodes`, from the options that are given.
unfoldable pub where_node : ListNodesOptions → NodeProps → Bool
unfolding passes starts_with
where_node o p =
    (elim o.kind [ none ↦ true | some k ↦ p.kind == node_kind_name k ])
    && (elim o.path_prefix [ none ↦ true | some prefix ↦ starts_with p.path prefix ])
    && passes o.repo_id p.repo_id
    && passes o.index_run_id p.index_run_id

-- The relationship type in the pattern of `listEdges`, if one is asked for.
abbrev pub type_filter : Option EdgeType → Option Text
type_filter none = none
type_filter (some type) = some (edge_type_name type)

unfoldable pub where_edge : ListEdgesOptions → EdgeProps → Bool
unfolding passes
where_edge o p = passes o.repo_id p.repo_id && passes o.index_run_id p.index_run_id

-- `collectedNodes` with the start node, if it is there.
abbrev pub start_nodes : Text → Option GraphNode → JsMap GraphNode
start_nodes id none = []
start_nodes id (some start) = (id, start) ∷ []

module _ (driver : Driver) where
  -- The object with its database: what `migrationPromise` has settled with, once it is there.
  pub record Store : Type 0 where
    pub graph : driver.Graph
    pub migration : Option (Result (Unit {0}))

  unfoldable pub run_statements : List Text → driver.Graph → Result (Unit {0}) × driver.Graph
  run_statements [] g = (ok tt, g)
  run_statements (statement ∷ rest) g = elim (driver.run statement g) [
    | raise e ↦ (raise e, g)
    | ok after ↦ run_statements rest after
  ]

  unfoldable pub run_migrations : driver.Graph → Result (Unit {0}) × driver.Graph
  unfolding run_statements
  run_migrations g = run_statements neo4j_migrations g

  unfoldable pub ensure_migrated : Bool → Store → Result (Unit {0}) × Store
  unfolding run_migrations
  ensure_migrated false s = (ok tt, s)
  ensure_migrated true s = elim s.migration [
    | some settled ↦ (settled, s)
    | none ↦
        let (settled, after) = run_migrations s.graph in
        (settled, record { graph = after; migration = some settled })
  ]

  module _ (json : Json) (zod : Zod) where
    unfoldable pub merge_nodes : List GraphNode → Store → Result (Unit {0}) × Store
    unfolding map_or_raise
    merge_nodes nodes s = elim (map_or_raise (zod.parse GraphNode is_graph_node) nodes) [
      | raise e ↦ (raise e, s)
      | ok validated ↦
          (ok tt, record s { graph = driver.merge_symbols (map to_node_props validated) s.graph })
    ]

    unfoldable pub upsert_nodes_neo4j : Bool → List GraphNode → Store → Result (Unit {0}) × Store
    unfolding ensure_migrated merge_nodes
    upsert_nodes_neo4j auto_migrate [] s = (ok tt, s)
    upsert_nodes_neo4j auto_migrate (n ∷ nodes) s =
        let (migrated, after) = ensure_migrated auto_migrate s in
        elim migrated [ raise e ↦ (raise e, after) | ok _ ↦ merge_nodes (n ∷ nodes) after ]

    unfoldable pub edge_row : GraphEdge → EdgeRow
    edge_row e = record { src = e.src; dst = e.dst; props = to_edge_props json e }

    -- The loop over `byType`; `EDGE_TYPES.includes(type)` holds of every type.
    unfoldable pub merge_groups : JsMap (List GraphEdge) → driver.Graph → driver.Graph
    unfolding edge_row read_edge_type
    merge_groups [] g = g
    merge_groups ((type, list) ∷ groups) g = elim (read_edge_type type) [
      | none ↦ merge_groups groups g
      | some _ ↦ merge_groups groups (driver.merge_relations type (map edge_row list) g)
    ]

    unfoldable pub merge_edges : List GraphEdge → Store → Result (Unit {0}) × Store
    unfolding map_or_raise push_edge merge_groups
    merge_edges edges s = elim (map_or_raise (zod.parse GraphEdge is_graph_edge) edges) [
      | raise e ↦ (raise e, s)
      | ok validated ↦
          (ok tt, record s { graph = merge_groups (foldl push_edge [] validated) s.graph })
    ]

    unfoldable pub upsert_edges_neo4j : Bool → List GraphEdge → Store → Result (Unit {0}) × Store
    unfolding ensure_migrated merge_edges
    upsert_edges_neo4j auto_migrate [] s = (ok tt, s)
    upsert_edges_neo4j auto_migrate (e ∷ edges) s =
        let (migrated, after) = ensure_migrated auto_migrate s in
        elim migrated [
          | raise thrown ↦ (raise thrown, after)
          | ok _ ↦ merge_edges (e ∷ edges) after
        ]

    module _ (g : driver.Graph) where
      unfoldable pub get_node_neo4j : Text → Result (Option GraphNode)
      get_node_neo4j id = elim (driver.match_symbol id g) [
        | [] ↦ ok none
        | p ∷ _ ↦ do n ← from_node_props zod p; ok (some n)
      ]

      unfoldable pub find_by_qualified_name_neo4j : Text → Result (List GraphNode)
      unfolding map_or_raise ends_with
      find_by_qualified_name_neo4j name = map_or_raise (from_node_props zod) (
          driver.match_symbols
            (λ p. p.qualified_name == name || ends_with p.qualified_name (codes "::" ++ name)) none
            g)

      module _ (options : TraversalOptions) where
        unfoldable pub add_record : Traversal → LayerRecord → Result Traversal
        unfolding add_found read_edge_type
        add_record t r = elim (read_edge_type r.rel_type) [
          | none ↦ ok t
          | some type ↦
              if is_allowed options.edge_types type
              then (do
                other ← from_node_props zod r.other_props
                e ← from_edge_props json zod r.rel_props r.src_id r.dst_id type
                ok (add_found other e t))
              else ok t
        ]

        unfoldable pub add_records : List LayerRecord → Traversal → Result Traversal
        unfolding add_record
        add_records [] t = ok t
        add_records (r ∷ rs) t = do u ← add_record t r; add_records rs u

        unfoldable pub query_layer : List Text → List LayerRecord
        unfolding returned
        query_layer layer =
            let d = direction_or_both options.direction in
            map (returned d) (driver.match_paths d layer g)

        -- The loop over the depth: `seeds` is 1 if the start node is there, and 0 otherwise.
        unfoldable pub traverse_layers : ℕ → ℕ → List Text → Traversal → Result Traversal
        unfolding add_records query_layer
        traverse_layers zero seeds layer t = ok t
        traverse_layers (suc d) seeds [] t = ok t
        traverse_layers (suc d) seeds (id ∷ layer) t = do
          u ← add_records (query_layer (id ∷ layer)) (record t { next_layer = [] })
          let deeper = traverse_layers d seeds u.next_layer u
          if reached (effective_limit options.limit) (length u.nodes - seeds) then ok u else deeper

        unfoldable pub neighbors_neo4j : Text → Result GraphQueryResult
        unfolding get_node_neo4j traverse_layers
        neighbors_neo4j id = do
          start ← get_node_neo4j id
          let nodes = start_nodes id start
          t ←
              traverse_layers options.depth (length nodes) (id ∷ [])
                (record { nodes = nodes; edges = []; visited = id ∷ []; next_layer = [] })
          ok (record { nodes = values t.nodes; edges = values t.edges })

      unfoldable pub list_nodes_neo4j : ListNodesOptions → Result (List GraphNode)
      unfolding map_or_raise where_node effective_limit
      list_nodes_neo4j o =
          map_or_raise (from_node_props zod)
            (driver.match_symbols (where_node o) (effective_limit o.limit) g)

      -- A row as an edge; the schema refuses a type that is none of its own.
      unfoldable pub edge_of_relation : Relation → Result GraphEdge
      unfolding read_edge_type
      edge_of_relation r = elim (read_edge_type r.rel_type) [
        | some type ↦ from_edge_props json zod r.rel_props r.src_id r.dst_id type
        | none ↦ zod.parse GraphEdge (λ _. false) (edge_of json r.rel_props r.src_id r.dst_id calls)
      ]

      unfoldable pub list_edges_neo4j : ListEdgesOptions → Result (List GraphEdge)
      unfolding map_or_raise where_edge edge_of_relation effective_limit
      list_edges_neo4j o =
          map_or_raise edge_of_relation
            (driver.match_relations (type_filter o.type) (where_edge o) (effective_limit o.limit) g)
