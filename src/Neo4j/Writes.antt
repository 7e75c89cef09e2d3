-- ===== src/Neo4j/Writes.antt =====
-- What the writes of the Neo4j store leave.
use codesoul.Prelude.{
  Text, ◌==◌, ◌≡◌, refl, sym, ap, ◌∙◌, Bool, true, false, Option, none, some, List, [], ◌∷◌, map,
  ◌⊎◌, Bool-cases, inl, inr, arith, if◌then◌else◌,
}
use mathlib.Core.Path.{subst}
use codesoul.JsMap.{get}
use codesoul.Core.Errors.{Error, Result, ok, raise, zod_error, is_ok, Result-cases}
use codesoul.Core.Zod.{Zod, parse-cases}
use codesoul.Core.Schema.{GraphNode, GraphEdge, is_graph_node}
use codesoul.Graph.{GraphStore, upsert_nodes, get_node}
use codesoul.Graph.Upserts.{all_valid, valid_prefix, latest, upsert_nodes_stored}
use codesoul.Neo4j.{
  Driver, Store, last_with_id, map_or_raise, ensure_migrated, run_migrations, merge_nodes,
  upsert_nodes_neo4j, upsert_edges_neo4j,
}
use codesoul.Neo4j.Mapping.{Json, to_node_props}
use codesoul.Neo4j.Represents.{Represents, props_of}

-- The validation of all nodes passes them on, or throws.
validated :
    (zod : Zod) (ns : List GraphNode)
    → ((all_valid ns ≡ true) × (map_or_raise (zod.parse GraphNode is_graph_node) ns ≡ ok ns))
      ⊎ ((e : Error) × (all_valid ns ≡ false)
          × (map_or_raise (zod.parse GraphNode is_graph_node) ns ≡ raise e))
unfolding map_or_raise all_valid
validated zod [] = inl (refl, refl)
validated zod (n ∷ ns) = elim (parse-cases zod GraphNode is_graph_node n) [
  | inr (e, f, p) ↦ inr (zod_error e, rw f, rw p)
  | inl (t, p) ↦ elim (validated zod ns) [
    | inl (a, q) ↦ inl (rw (t, a), rw p (rw q))
    | inr (e, a, q) ↦ inr (e, rw (t, a), rw p (rw q))
  ]
]

valid_prefix-all : (ns : List GraphNode) → all_valid ns ≡ true → valid_prefix ns ≡ ns
unfolding valid_prefix all_valid
valid_prefix-all [] h = refl
valid_prefix-all (n ∷ ns) h = ground (arith, valid_prefix-all ns)

last_with_id-latest :
    (id : Text) (ns : List GraphNode) (o : Option GraphNode)
    → last_with_id id (map to_node_props ns) (props_of o) ≡ props_of (latest id ns o)
unfolding latest to_node_props
last_with_id-latest id [] o = refl
last_with_id-latest id (n ∷ ns) o =
    ap (last_with_id id (map to_node_props ns)) (chosen (Bool-cases (n.id == id)))
    ∙ last_with_id-latest id ns (if n.id == id then some n else o)
  where
    chosen :
        (n.id == id ≡ true) ⊎ (n.id == id ≡ false)
        → (if n.id == id then some (to_node_props n) else props_of o)
          ≡ props_of (if n.id == id then some n else o)
    chosen (inl t) = rw t
    chosen (inr f) = rw f

latest_valid :
    (id : Text) (ns : List GraphNode) (o : Option GraphNode) (n : GraphNode)
    → all_valid ns ≡ true
    → ((m : GraphNode) → o ≡ some m → is_graph_node m ≡ true)
    → latest id ns o ≡ some n
    → is_graph_node n ≡ true
unfolding latest all_valid
latest_valid id [] o n a h e = h n e
latest_valid id (x ∷ ns) o n a h e = elim (Bool-cases (x.id == id)) [
  | inl t ↦ latest_valid id ns (some x) n (ground arith) (λ m q. cc (q, valid_head)) (rw t at e)
  | inr f ↦ latest_valid id ns o n (ground arith) h (rw f at e)
]
  where
    valid_head : is_graph_node x ≡ true
    valid_head = ground arith

module _ (driver : Driver) (json : Json) (zod : Zod) (ns : List GraphNode) (store : Store driver)
    (s : GraphStore) where
  merge_nodes-Represents :
      Represents driver json store.graph s
      → all_valid ns ≡ true
      → Represents driver json
          (driver.merge_symbols (map to_node_props ns) store.graph)
          (upsert_nodes zod ns s).1
  unfolding get_node
  merge_nodes-Represents rep a =
      let (_, reads, same) = upsert_nodes_stored zod ns s in
      let after : (id : Text)
          → get id (upsert_nodes zod ns s).1.nodes ≡ latest id ns (get id s.nodes) =
        λ id. reads id ∙ ap (λ l. latest id l (get id s.nodes)) (valid_prefix-all ns a) in
      let g = driver.merge_symbols (map to_node_props ns) store.graph in
      subst
        (λ es.
          Represents driver json g (record { nodes = (upsert_nodes zod ns s).1.nodes; edges = es }))
        (sym same)
        (record {
          nodes = λ id.
              driver.merges_symbols store.graph (map to_node_props ns) id
              ∙ ap (last_with_id id (map to_node_props ns)) (rep.nodes id)
              ∙ last_with_id-latest id ns (get id s.nodes)
              ∙ ap props_of (sym (after id));
          valid_nodes = λ id n p.
              latest_valid id ns (get id s.nodes) n a (rep.valid_nodes id) (sym (after id) ∙ p);
          edges_in = λ e i.
              driver.keeps_relations store.graph (map to_node_props ns) _ _ _ ∙ rep.edges_in e i;
          edges_of = λ x t y p r.
              rep.edges_of x t y p
                (sym (driver.keeps_relations store.graph (map to_node_props ns) x t y) ∙ r);
          valid_edges = rep.valid_edges;
          edges_keyed = rep.edges_keyed;
        })

-- `upsertNodes` without migrations, on a database that stands for the state of the in-memory store: if
-- every node satisfies the schema, both are fulfilled, and the database stands for the new state.
pub upsert_nodes_neo4j-Represents :
    (driver : Driver) (json : Json) (zod : Zod) (ns : List GraphNode) (store : Store driver)
    (s : GraphStore)
    → Represents driver json store.graph s
    → all_valid ns ≡ true
    → ((upsert_nodes_neo4j driver json zod false ns store).0 ≡ ok tt)
      × (is_ok (upsert_nodes zod ns s).0 ≡ true)
      × Represents driver json
          (upsert_nodes_neo4j driver json zod false ns store).1.graph
          (upsert_nodes zod ns s).1
unfolding upsert_nodes_neo4j ensure_migrated merge_nodes
upsert_nodes_neo4j-Represents driver json zod [] store s rep a =
    unfold upsert_nodes in (refl, refl, rep)
upsert_nodes_neo4j-Represents driver json zod (n ∷ ns) store s rep a =
    elim (validated zod (n ∷ ns)) [
      | inl (_, q) ↦
          rw (q, merge_nodes)
            (
              refl,
              (upsert_nodes_stored zod (n ∷ ns) s).0 ∙ a,
              merge_nodes-Represents driver json zod (n ∷ ns) store s rep a,
            )
      | inr (e, f, q) ↦ absurd (cc (a, f))
    ]

unmigrated :
    (driver : Driver) (auto_migrate : Bool) (store : Store driver)
    → auto_migrate ≡ false
    → (ensure_migrated driver auto_migrate store).1 ≡ store
unfolding ensure_migrated
unmigrated driver auto_migrate store h = rw h

-- If a node fails the schema, `upsertNodes` is rejected and merges no node, not even one in front of it:
-- the store is then as the migrations leave it, which `upsertNodes` runs first, and without
-- migrations it is unchanged.
pub upsert_nodes_neo4j_rejected :
    (driver : Driver) (json : Json) (zod : Zod) (auto_migrate : Bool) (ns : List GraphNode)
    (store : Store driver)
    → all_valid ns ≡ false
    → (e : Error) × (upsert_nodes_neo4j driver json zod auto_migrate ns store
        ≡ (raise e, (ensure_migrated driver auto_migrate store).1))
      × (auto_migrate ≡ false → (ensure_migrated driver auto_migrate store).1 ≡ store)
unfolding upsert_nodes_neo4j merge_nodes
upsert_nodes_neo4j_rejected driver json zod auto [] store f = unfold all_valid in cc f
upsert_nodes_neo4j_rejected driver json zod auto (n ∷ ns) store f = elim (validated zod (n ∷ ns)) [
  | inl (a, q) ↦ absurd (cc (a, f))
  | inr (e, _, q) ↦ elim (Result-cases (ensure_migrated driver auto store).0) [
    | inl (u, p) ↦
        let settled : ensure_migrated driver auto store
            ≡ (ok u, (ensure_migrated driver auto store).1) =
          ap (λ r. (r, (ensure_migrated driver auto store).1)) p in
        (e, rw (settled, upsert_nodes_neo4j) (rw (q, merge_nodes)), unmigrated driver auto store)
    | inr (x, p) ↦
        let settled : ensure_migrated driver auto store
            ≡ (raise x, (ensure_migrated driver auto store).1) =
          ap (λ r. (r, (ensure_migrated driver auto store).1)) p in
        (x, rw (settled, upsert_nodes_neo4j), unmigrated driver auto store)
  ]
]

module _ (driver : Driver) (store : Store driver) (error : Error) where
  -- The store with the refused migrations.
  abbrev refused : Store driver
  refused = record { graph = (run_migrations driver store.graph).1; migration = some (raise error) }

  ensure_migrated-refused :
      store.migration ≡ none
      → (run_migrations driver store.graph).0 ≡ raise error
      → ensure_migrated driver true store ≡ (raise error, refused)
  unfolding ensure_migrated
  ensure_migrated-refused q r = rw (q, ensure_migrated) (rw r)

-- A call of `upsertNodes` or of `upsertEdges` with something to write.
pub data Write : Type 0 where
  of_nodes : GraphNode → List GraphNode → Write
  of_edges : GraphEdge → List GraphEdge → Write

module _ (driver : Driver) (json : Json) (zod : Zod) where
  -- The call, with migrations.
  abbrev pub write : Write → Store driver → Result (Unit {0}) × Store driver
  write (of_nodes n ns) store = upsert_nodes_neo4j driver json zod true (n ∷ ns) store
  write (of_edges e es) store = upsert_edges_neo4j driver json zod true (e ∷ es) store

  -- The store after a series of calls.
  abbrev pub writes : List Write → Store driver → Store driver
  writes [] store = store
  writes (w ∷ ws) store = writes ws (write w store).1

  write-refused :
      (w : Write) (store after : Store driver) (error : Error)
      → ensure_migrated driver true store ≡ (raise error, after)
      → write w store ≡ (raise error, after)
  unfolding upsert_nodes_neo4j upsert_edges_neo4j
  write-refused (of_nodes n ns) store after error q =
      rw (q, upsert_nodes_neo4j) (ap (λ p. (raise error, p.1)) q)
  write-refused (of_edges e es) store after error q =
      rw (q, upsert_edges_neo4j) (ap (λ p. (raise error, p.1)) q)

  writes-refused :
      (ws : List Write) (store : Store driver) (error : Error)
      → ensure_migrated driver true store ≡ (raise error, store)
      → writes ws store ≡ store
  writes-refused [] store error q = refl
  writes-refused (w ∷ ws) store error q =
      ap (λ p. writes ws p.1) (write-refused w store store error q)
      ∙ writes-refused ws store error q

  -- If the migrations of the first write that is not empty are refused, that write is rejected with
  -- their error, and so is every later one that is not empty, of nodes or of edges, whatever such
  -- writes came before it. Each leaves the database as the first one left it: the migrations are not
  -- run again.
  pub failed_migration :
      (store : Store driver) (error : Error) (first : Write) (between : List Write) (later : Write)
      → store.migration ≡ none
      → (run_migrations driver store.graph).0 ≡ raise error
      → ((write first store).0 ≡ raise error)
        × ((write first store).1.graph ≡ (run_migrations driver store.graph).1)
        × (write later (writes between (write first store).1)
            ≡ (raise error, (write first store).1))
  failed_migration store error first between later q r =
      let left = refused driver store error in
      let e =
        write-refused first store left error (ensure_migrated-refused driver store error q r) in
      let again : ensure_migrated driver true left ≡ (raise error, left) =
        unfold ensure_migrated in refl in
      (
        ap (λ p. p.0) e,
        ap (λ p. p.1.graph) e,
        subst (λ s. write later (writes between s) ≡ (raise error, s)) (sym (ap (λ p. p.1) e))
            (ap (write later) (writes-refused between left error again)
              ∙ write-refused later left left error again),
      )
