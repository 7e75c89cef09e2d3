-- ===== src/Graph/Neighbors.antt =====
-- What `neighbors` returns.
use codesoul.Prelude.{
  ℕ, ◌-◌, ◌≤◌, ◌<◌, Text, ◌≡◌, refl, ◌∙◌, ◌↔◌, true, false, none, some, List, [], ◌∷◌, ◌+◌, arith,
  In, ◌⊎◌, inl, inr, reached, effective_limit, length, length-map,
}
use mathlib.Core.Path.{subst}
use codesoul.JsMap.{get, values}
use codesoul.JsMap.Laws.{In-values}
use codesoul.Core.Schema.{GraphNode, GraphEdge}
use codesoul.Graph.{
  GraphStore, TraversalOptions, GraphQueryResult, Traversal, edge_key, start_traversal, seed_nodes,
  neighbors,
}
use codesoul.Graph.Folds.{NodesKeyed, EdgesKeyed}
use codesoul.Graph.Rounds.{Leads, Within, Between, Round}
use codesoul.Graph.Rounds.Loop.{traverse-Traversed, Round-start, saturated, Stopped, Traversed}

reached-none : (n : ℕ) → reached none n ≡ false
unfolding reached
reached-none n = refl

module _ (s : GraphStore) (start : Text) (options : TraversalOptions) where
  -- The number of seeds that the limit does not count: 1 if the start node is stored.
  abbrev pub seeds : ℕ
  seeds = length (seed_nodes (get start s.nodes))

  abbrev found : GraphQueryResult
  found = neighbors s start options

  -- The result is the ball of radius `k`: exactly its stored nodes; only edges that lead from one
  -- of its nodes to another; and every edge that leads on from a node in its inside.
  pub record IsBall (k : ℕ) (r : GraphQueryResult) : Type 0 where
    pub nodes :
        (n : GraphNode)
        → In n r.nodes ↔ ((get n.id s.nodes ≡ some n) × Within s options start k n.id)
    pub edges : (e : GraphEdge) → In e r.edges → Between s options start k e
    pub all_edges :
        (j : ℕ) (a b : Text) (e : GraphEdge)
        → j < k
        → Within s options start j a
        → Leads s options a e b
        → In e r.edges

  module _ (keyed : NodesKeyed s) (edges_keyed : EdgesKeyed s) where
    Round-IsBall :
        (k : ℕ) (layer : List Text) (t : Traversal)
        → Round s options start k layer t
        → IsBall k (record { nodes = values t.nodes; edges = values t.edges })
    Round-IsBall k layer t h = record {
      nodes = λ n. (
        λ m. let f = h.nodes_found n m in (f.0, h.sound n.id f.1),
        λ (p, w). In-values n.id t.nodes n (h.covers n.id ∙ (rw (h.complete n.id w) p)),
      );
      edges = h.edges_found;
      all_edges = λ j a b e lt w l. In-values (edge_key e) t.edges e (h.done j a lt w e b l).1;
    }

    why-Stopped :
        (k : ℕ) (layer : List Text) (t : Traversal)
        → Round s options start k layer t
        → Stopped s options start k (0 + options.depth) seeds layer t
        → (k ≡ options.depth)
          ⊎ ((reached (effective_limit options.limit) (length (values t.nodes) - seeds) ≡ true)
              ⊎ ((n : ℕ) (b : Text) → Within s options start n b → Within s options start k b))
    why-Stopped k layer t h (inl e) = inl (omega arith)
    why-Stopped k layer t h (inr (inl full)) = inr (inl (rw (length-map t.nodes (λ e. e.1)) full))
    why-Stopped k layer t h (inr (inr empty)) = inr (
        inr (λ n b w.
          h.sound b (
            saturated s options start k t (subst (λ l. Round s options start k l t) empty h) n b
              w)))

    -- The ball that a traversal ends with, and why it stopped there.
    pub Traversed-IsBall :
        (t : Traversal)
        → Traversed s options start 0 options.depth seeds t
        → (k : ℕ) × (k ≤ options.depth)
          × IsBall k (record { nodes = values t.nodes; edges = values t.edges })
          × ((k ≡ options.depth)
              ⊎ ((reached (effective_limit options.limit) (length (values t.nodes) - seeds) ≡ true)
                  ⊎ ((n : ℕ) (b : Text) → Within s options start n b → Within s options start k b)))
    Traversed-IsBall t (k, layer, le, h, stop) =
        (k, omega arith, Round-IsBall k layer t h, why-Stopped k layer t h stop)

    -- Whatever the limit, `neighbors` returns a whole ball around the start, of some radius at
    -- most the depth: no layer is cut. The radius is the depth, or the nodes found besides the
    -- start have reached the limit, or the ball holds everything that can be reached at all.
    pub neighbors-IsBall :
        (k : ℕ) × (k ≤ options.depth)
        × IsBall k found
        × ((k ≡ options.depth)
            ⊎ ((reached (effective_limit options.limit) (length found.nodes - seeds) ≡ true)
                ⊎ ((n : ℕ) (b : Text) → Within s options start n b → Within s options start k b)))
    unfolding neighbors
    neighbors-IsBall = Traversed-IsBall _ (
        traverse-Traversed s options start keyed edges_keyed options.depth seeds 0 (start ∷ [])
          (start_traversal s start) (Round-start s options start keyed))
