-- ===== src/Neo4j/Neighbors.antt =====
-- What `neighbors` of the Neo4j store returns: a ball, as that of the in-memory store.
use codesoul.Prelude.{
  ℕ, zero, suc, ◌+◌, ◌-◌, ◌≤◌, Text, ◌≡◌, refl, sym, ap, ◌∙◌, true, Option, none, some, List, [],
  ◌∷◌, foldl, arith, ◌⊎◌, inl, inr, Bool-cases, reached, effective_limit, length,
}
use mathlib.Core.Path.{subst}
use codesoul.JsMap.{get, values}
use codesoul.Core.Errors.{ok}
use codesoul.Core.Zod.{Zod}
use codesoul.Core.Schema.{GraphNode}
use codesoul.Graph.{
  GraphStore, TraversalOptions, GraphQueryResult, Traversal, seed_nodes, start_traversal, reach,
}
use codesoul.Graph.Rounds.{Within, Round, Round-reach_all}
use codesoul.Graph.Rounds.Loop.{Traversed, Stopped, Round-start}
use codesoul.Graph.Neighbors.{IsBall, Traversed-IsBall, seeds}
use codesoul.Neo4j.{
  Driver, start_nodes, get_node_neo4j, query_layer, traverse_layers, neighbors_neo4j,
}
use codesoul.Neo4j.Mapping.{Json, to_node_props}
use codesoul.Neo4j.Mapping.Laws.{from_node_props-to_node_props}
use codesoul.Neo4j.Represents.{Represents, nodes_keyed, props_of}
use codesoul.Neo4j.Layers.{EdgesKept, add_records-Added}
use codesoul.Neo4j.Records.{layer-Reads, Added-Hits}

module _ (driver : Driver) (json : Json) (zod : Zod) (g : driver.Graph) (s : GraphStore)
    (rep : Represents driver json g s) (options : TraversalOptions) (start : Text) where
  TraversedAt : ℕ → ℕ → Traversal → Type 0
  TraversedAt last n t =
      (k : ℕ) × (layer : List Text) × (k ≤ last)
      × Round s options start k layer t
      × Stopped s options start k last n layer t

  -- The loop is fulfilled, and ends with a ball and a reason to stop.
  traverse_layers-Traversed :
      (d n r : ℕ) (layer : List Text) (t : Traversal)
      → EdgesKept s t
      → Round s options start r layer t
      → (u : Traversal) × (traverse_layers driver json zod g options d n layer t ≡ ok u)
        × Traversed s options start r d n u
  unfolding traverse_layers TraversedAt
  traverse_layers-Traversed zero n r layer t k h =
      (t, refl, (r, layer, omega arith, h, inl (omega arith)))
  traverse_layers-Traversed (suc d) n r [] t k h =
      (t, refl, (r, [], omega arith, h, inr (inr refl)))
  traverse_layers-Traversed (suc d) n r (id ∷ layer) t k h =
      let x =
        add_records-Added driver json zod g s rep options (id ∷ layer)
          (query_layer driver json zod g options (id ∷ layer)) (record t { next_layer = [] })
          (layer-Reads driver json zod g s rep options (id ∷ layer)) k in
      let u = foldl (reach s) (record t { next_layer = [] }) x.hs in
      let h' : Round s options start (suc r) u.next_layer u =
        Round-reach_all s options start (nodes_keyed driver json g s zod rep) rep.edges_keyed r
          (id ∷ layer) t x.hs
          (Added-Hits driver json zod g s rep options (id ∷ layer) (record t { next_layer = [] }) x)
          h in
      let shift : suc r + d ≡ r + suc d = omega arith in
      elim (Bool-cases (reached (effective_limit options.limit) (length u.nodes - n))) [
        | inl full ↦
            (u, rw x.added (rw full), (suc r, u.next_layer, omega arith, h', inr (inl full)))
        | inr room ↦
            let (v, p, f) = traverse_layers-Traversed d n (suc r) u.next_layer u x.kept h' in
            (v, rw x.added (rw room p), subst (λ last. TraversedAt last n v) shift f)
      ]

  get_node-seed :
      (o : Option GraphNode) → get start s.nodes ≡ o → get_node_neo4j driver json zod g start ≡ ok o
  unfolding get_node_neo4j
  get_node-seed none p =
      rw (driver.misses g start (rep.nodes start ∙ ap props_of p), get_node_neo4j)
  get_node-seed (some n) p =
      rw (driver.finds g start (to_node_props n) (rep.nodes start ∙ ap props_of p), get_node_neo4j)
        (rw (from_node_props-to_node_props zod n (rep.valid_nodes start n p)))

  start_nodes-eq-seed_nodes :
      (o : Option GraphNode) → get start s.nodes ≡ o → start_nodes start o ≡ seed_nodes o
  unfolding seed_nodes
  start_nodes-eq-seed_nodes none p = refl
  start_nodes-eq-seed_nodes (some n) p =
      ap (λ i. (i, n) ∷ []) (sym (nodes_keyed driver json g s zod rep start n p))

  -- On a database that stands for the state of an in-memory store, `neighbors` is fulfilled, and
  -- returns a whole ball of that store around the start, of a radius at most the depth: the depth
  -- itself, or the limit was reached, or all that can be reached at all is in the ball.
  pub neighbors_neo4j-IsBall :
      (r : GraphQueryResult) × (neighbors_neo4j driver json zod g options start ≡ ok r)
      × (k : ℕ) × (k ≤ options.depth)
      × IsBall s start options k r
      × ((k ≡ options.depth)
          ⊎ ((reached (effective_limit options.limit) (length r.nodes - seeds s start options)
                ≡ true)
              ⊎ ((n : ℕ) (b : Text) → Within s options start n b → Within s options start k b)))
  unfolding neighbors_neo4j start_traversal
  neighbors_neo4j-IsBall =
      let (u, p, f) =
        traverse_layers-Traversed options.depth (seeds s start options) 0 (start ∷ [])
          (start_traversal s start) (λ k d q. unfold get in cc q)
          (Round-start s options start (nodes_keyed driver json g s zod rep)) in
      let (k, le, ball, stop) =
        Traversed-IsBall s start options (nodes_keyed driver json g s zod rep) rep.edges_keyed u
          f in
      (
        record { nodes = values u.nodes; edges = values u.edges },
        rw (get_node-seed (get start s.nodes) refl)
            (rw (start_nodes-eq-seed_nodes (get start s.nodes) refl) (rw p)),
        k,
        le,
        ball,
        stop,
      )
