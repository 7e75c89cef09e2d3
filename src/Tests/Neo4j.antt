-- ===== src/Tests/Neo4j.antt =====
-- Tests of the Neo4j graph store.
use codesoul.Prelude.{
  ℕ, ◌-◌, ◌≤◌, Text, codes, ◌==◌, eq_refl, ◌≡◌, refl, sym, ap, ◌∙◌, true, false, none, some, [],
  ◌∷◌, ◌↔◌, In, inl, inr, ◌⊎◌, Bool-cases, reached, effective_limit, length, if◌then◌else◌,
}
use mathlib.Core.Path.{subst}
use codesoul.JsMap.{get}
use codesoul.JsMap.Laws.{In-values}
use codesoul.Core.Errors.{Error, Result, is_ok, ok, raise, plain_error}
use codesoul.Core.Enums.{edge_type_name, calls}
use codesoul.Core.Ids.{is_sym_id, is_content_hash}
use codesoul.Core.Schema.{
  GraphNode, GraphEdge, is_graph_node, is_graph_edge, is_meta, is_evidence, string_attribute,
  number_attribute,
}
use codesoul.Graph.{GraphStore, GraphQueryResult, TraversalOptions, both, edge_key, upsert_nodes}
use codesoul.Graph.Rounds.{Within}
use codesoul.Graph.Neighbors.{IsBall, seeds}
use codesoul.Graph.Upserts.{all_valid}
use codesoul.Neo4j.Queries.{IsFound, query_layer-IsFound}
use codesoul.Neo4j.{
  Store, LayerRecord, query_layer, neighbors_neo4j, upsert_nodes_neo4j, run_migrations,
  ensure_migrated,
}
use codesoul.Neo4j.Mapping.{from_node_props, to_node_props, from_edge_props, to_edge_props}
use codesoul.Neo4j.Mapping.Laws.{
  IsPlain, from_node_props-to_node_props, from_edge_props-to_edge_props, as_read,
}
use codesoul.Neo4j.Represents.{Represents, props_of}
use codesoul.Neo4j.Neighbors.{neighbors_neo4j-IsBall}
use codesoul.Neo4j.Writes.{
  upsert_nodes_neo4j-Represents, upsert_nodes_neo4j_rejected, failed_migration, Write, of_nodes,
  of_edges, write,
}
use codesoul.Tests.Samples.{zod_of_checks, node_with, sym_a, sym_b, edge_ab}
use codesoul.Tests.Symbols.{
  Symbols, json_of_tests, driver_of_symbols, relation_cases, relation_call,
}

abbrev node_a : GraphNode
node_a = node_with sym_a (codes "a")

abbrev node_b : GraphNode
node_b = node_with sym_b (codes "b")

valid_a : is_graph_node node_a ≡ true
unfolding is_graph_node is_meta is_evidence is_sym_id is_content_hash
valid_a = refl

valid_b : is_graph_node node_b ≡ true
unfolding is_graph_node is_meta is_evidence is_sym_id is_content_hash
valid_b = refl

valid_ab : is_graph_edge edge_ab ≡ true
unfolding is_graph_edge is_meta is_sym_id is_content_hash
valid_ab = refl

from_node_props-to_node_props_example :
    from_node_props zod_of_checks (to_node_props node_a) ≡ ok node_a
from_node_props-to_node_props_example = from_node_props-to_node_props zod_of_checks node_a valid_a

abbrev attributed : GraphEdge
attributed = record edge_ab {
  attributes =
      some ((codes "k", string_attribute (codes "v")) ∷ ([], number_attribute (codes "1")) ∷ []);
}

from_edge_props-to_edge_props_example :
    from_edge_props json_of_tests zod_of_checks
      (to_edge_props json_of_tests attributed)
      sym_a
      sym_b
      calls
    ≡ ok (record attributed { attributes = as_read attributed.attributes })
from_edge_props-to_edge_props_example =
    from_edge_props-to_edge_props json_of_tests zod_of_checks attributed
      (unfold is_graph_edge in valid_ab)
      ((λ i. elim i [ inl e ↦ cc e | inr z ↦ z ], ((λ i. i), tt)), refl)

abbrev two_symbols : Symbols
two_symbols = record {
  symbols = to_node_props node_a ∷ to_node_props node_b ∷ [];
  linked = true;
  ends = λ l.
      unfold to_node_props ◌==◌ in ((to_node_props node_a, refl), (to_node_props node_b, refl));
}

abbrev two_nodes : GraphStore
unfolding edge_key
two_nodes = record {
  nodes = (sym_a, node_a) ∷ (sym_b, node_b) ∷ [];
  edges = (edge_key edge_ab, edge_ab) ∷ [];
}

by_id :
    (n m : GraphNode) (id : Text)
    → (if n.id == id
        then some (to_node_props n)
        else if m.id == id
        then some (to_node_props m)
        else none)
      ≡ props_of (if n.id == id then some n else if m.id == id then some m else none)
by_id n m id = elim (Bool-cases (n.id == id)) [
  | inl t ↦ rw t
  | inr f ↦ rw f (elim (Bool-cases (m.id == id)) [ inl t ↦ rw t | inr g ↦ rw g ])
]

stored_valid : (n : GraphNode) → In n (node_a ∷ node_b ∷ []) → is_graph_node n ≡ true
stored_valid n (inl e) = ap is_graph_node e ∙ valid_a
stored_valid n (inr (inl e)) = ap is_graph_node e ∙ valid_b
stored_valid n (inr (inr z)) = elim z [ ]

get_only : (e : GraphEdge) → get (edge_key e) ((edge_key e, e) ∷ []) ≡ some e
unfolding get
get_only e = rw (eq_refl (edge_key e))

two_nodes-Represents : Represents driver_of_symbols json_of_tests two_symbols two_nodes
unfolding two_nodes
two_nodes-Represents = record {
  nodes = λ id. unfold get to_node_props in by_id node_a node_b id;
  valid_nodes = λ id n p. stored_valid n (In-values id two_nodes.nodes n p);
  edges_in = λ e i. elim i [
    | inl q ↦
        subst
          (λ x.
            driver_of_symbols.relation two_symbols x.src (edge_type_name x.type) x.dst
            ≡ some (to_edge_props json_of_tests x))
          (sym q) (relation_call two_symbols refl)
    | inr z ↦ elim z [ ]
  ];
  edges_of = λ a t b p h.
      let (_, ea, et, eb, ep) = relation_cases two_symbols a t b p h in
      (edge_ab, inl refl, sym ea, sym et, sym eb, ep);
  valid_edges = λ e i. elim i [
    | inl q ↦
        subst
          (λ x.
            (is_graph_edge x ≡ true)
            × IsPlain json_of_tests x.attributes
            × (as_read x.attributes ≡ x.attributes))
          (sym q) (valid_ab, tt, refl)
    | inr z ↦ elim z [ ]
  ];
  edges_keyed = λ e i. elim i [
    | inl q ↦ subst (λ x. get (edge_key x) two_nodes.edges ≡ some x) (sym q) (get_only edge_ab)
    | inr z ↦ elim z [ ]
  ];
}

abbrev around : TraversalOptions
around = record { depth = 2; edge_types = none; direction = some both; limit = some 5 }

neighbors_neo4j-IsBall_example :
    (r : GraphQueryResult) × (neighbors_neo4j driver_of_symbols json_of_tests zod_of_checks
        two_symbols around sym_a
      ≡ ok r)
    × (k : ℕ) × (k ≤ 2)
    × IsBall two_nodes sym_a around k r
    × ((k ≡ 2)
        ⊎ ((reached (effective_limit (some 5)) (length r.nodes - seeds two_nodes sym_a around)
              ≡ true)
            ⊎ ((n : ℕ) (b : Text)
                → Within two_nodes around sym_a n b
                → Within two_nodes around sym_a k b)))
neighbors_neo4j-IsBall_example =
    neighbors_neo4j-IsBall driver_of_symbols json_of_tests zod_of_checks two_symbols two_nodes
      two_nodes-Represents around sym_a

-- The record of the call from a to b, seen from b.
abbrev call_from_b : LayerRecord
call_from_b = record {
  src_id = sym_a;
  dst_id = sym_b;
  rel_type = edge_type_name calls;
  rel_props = to_edge_props json_of_tests edge_ab;
  other_props = to_node_props node_a;
}

query_layer-IsFound_example :
    In call_from_b
      (query_layer driver_of_symbols json_of_tests zod_of_checks two_symbols around (sym_b ∷ []))
    ↔ IsFound driver_of_symbols json_of_tests zod_of_checks two_symbols around
        (sym_b ∷ [])
        call_from_b
query_layer-IsFound_example =
    query_layer-IsFound driver_of_symbols json_of_tests zod_of_checks two_symbols around
      (sym_b ∷ []) call_from_b

abbrev fresh_store : Store driver_of_symbols
fresh_store = record { graph = two_symbols; migration = none }

abbrev renamed_a : GraphNode
renamed_a = node_with sym_a (codes "renamed")

renamed_valid : all_valid (renamed_a ∷ []) ≡ true
unfolding all_valid is_graph_node is_meta is_evidence is_sym_id is_content_hash
renamed_valid = refl

upsert_nodes_neo4j-Represents_example :
    ((upsert_nodes_neo4j driver_of_symbols json_of_tests zod_of_checks false
        (renamed_a ∷ [])
        fresh_store).0
      ≡ ok tt)
    × (is_ok (upsert_nodes zod_of_checks (renamed_a ∷ []) two_nodes).0 ≡ true)
    × Represents driver_of_symbols json_of_tests
        (upsert_nodes_neo4j driver_of_symbols json_of_tests zod_of_checks false
          (renamed_a ∷ [])
          fresh_store).1.graph
        (upsert_nodes zod_of_checks (renamed_a ∷ []) two_nodes).1
upsert_nodes_neo4j-Represents_example =
    upsert_nodes_neo4j-Represents driver_of_symbols json_of_tests zod_of_checks (renamed_a ∷ [])
      fresh_store two_nodes two_nodes-Represents renamed_valid

abbrev nameless : GraphNode
nameless = node_with sym_b []

nameless_invalid : all_valid (node_a ∷ nameless ∷ []) ≡ false
unfolding all_valid is_graph_node is_meta is_evidence is_sym_id is_content_hash
nameless_invalid = refl

upsert_nodes_neo4j_rejected_example :
    (e : Error) × (upsert_nodes_neo4j driver_of_symbols json_of_tests zod_of_checks true
        (node_a ∷ nameless ∷ [])
        fresh_store
      ≡ (raise e, (ensure_migrated driver_of_symbols true fresh_store).1))
    × (true ≡ false → (ensure_migrated driver_of_symbols true fresh_store).1 ≡ fresh_store)
upsert_nodes_neo4j_rejected_example =
    upsert_nodes_neo4j_rejected driver_of_symbols json_of_tests zod_of_checks true
      (node_a ∷ nameless ∷ []) fresh_store nameless_invalid

abbrev refusal : Error
refusal = plain_error (codes "no permission")

migrations_refused : (run_migrations driver_of_symbols two_symbols).0 ≡ raise refusal
unfolding run_migrations
migrations_refused = refl

abbrev first_write : Write
first_write = of_nodes node_a []

abbrev edge_write : Write
edge_write = of_edges edge_ab []

abbrev write_of : Write → Store driver_of_symbols → Result (Unit {0}) × Store driver_of_symbols
write_of = write driver_of_symbols json_of_tests zod_of_checks

failed_migration_example :
    ((write_of first_write fresh_store).0 ≡ raise refusal)
    × ((write_of first_write fresh_store).1.graph
        ≡ (run_migrations driver_of_symbols two_symbols).1)
    × (write_of first_write (write_of edge_write (write_of first_write fresh_store).1).1
        ≡ (raise refusal, (write_of first_write fresh_store).1))
failed_migration_example =
    failed_migration driver_of_symbols json_of_tests zod_of_checks fresh_store refusal first_write
      (edge_write ∷ []) first_write refl migrations_refused
