-- ===== src/Graph/Rounds/Loop.antt =====
-- The loop over the depth ends with the ball of some radius visited, and with a reason to stop.
use codesoul.Prelude.{
  ℕ, zero, suc, ◌+◌, ◌-◌, ◌≤◌, Text, eq_iff, ◌≡◌, refl, sym, ap, ◌∙◌, true, none, some, List, [],
  ◌∷◌, arith, if◌then◌else◌, In, ◌⊎◌, is_empty, reached, effective_limit, length, inl, inr,
  Bool-cases, Option-cases,
}
use codesoul.JsMap.{get, values, contains}
use codesoul.JsMap.Laws.{In_of_contains, contains_of_In}
use codesoul.Core.Schema.{GraphNode}
use codesoul.Graph.{
  GraphStore, TraversalOptions, Traversal, visit_layer, traverse, start_traversal, seed_nodes,
}
use codesoul.Graph.Folds.{NodesKeyed, EdgesKeyed}
use codesoul.Graph.Rounds.{Within, Round, Round-visit_layer, Within-mono}

no_elements : (l : List Text) → is_empty l ≡ true → l ≡ []
no_elements [] p = refl
no_elements (x ∷ l) p = cc

module _ (s : GraphStore) (options : TraversalOptions) (start : Text) where
  -- Why the loop stopped: at the depth, at the limit, or because no edge leads out of the ball.
  abbrev pub Stopped : ℕ → ℕ → ℕ → List Text → Traversal → Type 0
  Stopped k last seeds layer t =
      (k ≡ last)
      ⊎ ((reached (effective_limit options.limit) (length t.nodes - seeds) ≡ true) ⊎ (layer ≡ []))

  abbrev pub Traversed : ℕ → ℕ → ℕ → Traversal → Type 0
  Traversed r d seeds t =
      (k : ℕ) × (layer : List Text) × (k ≤ r + d)
      × Round s options start k layer t
      × Stopped k (r + d) seeds layer t

  module _ (keyed : NodesKeyed s) (edges_keyed : EdgesKeyed s) where
    pub traverse-Traversed :
        (d seeds r : ℕ) (layer : List Text) (t : Traversal)
        → Round s options start r layer t
        → Traversed r d seeds (traverse s options d seeds layer t)
    unfolding traverse
    traverse-Traversed zero seeds r layer t h = (r, layer, omega arith, h, inl (omega arith))
    traverse-Traversed (suc d) seeds r layer t h =
        let u = visit_layer s options layer t in
        let g : Round s options start (suc r) u.next_layer u =
          Round-visit_layer s options start keyed edges_keyed r layer t h in
        elim (Bool-cases (reached (effective_limit options.limit) (length u.nodes - seeds))) [
          | inl full ↦ rw full (suc r, u.next_layer, omega arith, g, inr (inl full))
          | inr room ↦ elim (Bool-cases (is_empty u.next_layer)) [
            | inl last ↦
                rw (room, last)
                  (suc r, u.next_layer, omega arith, g, inr (inr (no_elements u.next_layer last)))
            | inr more ↦
                let rest = traverse-Traversed d seeds (suc r) u.next_layer u g in
                let shift : suc r + d ≡ r + suc d = omega arith in
                rw (room, more) (rw shift at rest)
          ]
        ]

  only : (b : Text) → In b (start ∷ []) → b ≡ start
  only b (inl e) = e
  only b (inr m) = absurd m

  get-seed_nodes :
      NodesKeyed s
      → (b : Text)
      → get b (seed_nodes (get start s.nodes))
        ≡ (if contains b (start ∷ []) then get b s.nodes else none)
  unfolding seed_nodes get contains
  get-seed_nodes keyed b = elim (Option-cases (get start s.nodes)) [
    | inl p ↦ rw (p, seed_nodes) (ground (arith, eq_iff start b))
    | inr (n, p) ↦
        rw (p, seed_nodes) (ground (arith, keyed start n p, eq_iff start b, eq_iff n.id b))
  ]

  In-seed_nodes :
      (n : GraphNode) → In n (values (seed_nodes (get start s.nodes))) → get start s.nodes ≡ some n
  unfolding seed_nodes
  In-seed_nodes n m = elim (Option-cases (get start s.nodes)) [
    | inl p ↦ absurd (rw (p, seed_nodes) at m)
    | inr (x, p) ↦ p ∙ ap some (sym (first x (rw (p, seed_nodes) at m)))
  ]
    where
      first : (x : GraphNode) → In n (x ∷ []) → n ≡ x
      first x (inl e) = e
      first x (inr o) = absurd o

  seed_found :
      NodesKeyed s
      → (n : GraphNode) → get start s.nodes ≡ some n
      → (get n.id s.nodes ≡ some n) × (contains n.id (start ∷ []) ≡ true)
  seed_found keyed n p =
      let same : n.id ≡ start = keyed start n p in
      (ap (λ k. get k s.nodes) same ∙ p, contains_of_In n.id (start ∷ []) (inl same))

  pub Round-start : NodesKeyed s → Round s options start 0 (start ∷ []) (start_traversal s start)
  unfolding start_traversal
  Round-start keyed = record {
    sound = λ b p. only b (In_of_contains b (start ∷ []) p);
    complete = λ b w. contains_of_In b (start ∷ []) (inl w);
    layer_visited = λ b m. contains_of_In b (start ∷ []) m;
    closed = λ a p. inl (In_of_contains a (start ∷ []) p);
    covers = get-seed_nodes keyed;
    nodes_found = λ n m. seed_found keyed n (In-seed_nodes n m);
    edges_found = λ e m. absurd m;
    done = λ j a lt. absurd (omega arith);
  }

  -- Where no edge leads out of the ball, it is the whole component.
  pub saturated :
      (k : ℕ) (t : Traversal)
      → Round s options start k [] t
      → (n : ℕ) (b : Text) → Within s options start n b
      → contains b t.visited ≡ true
  saturated k t h zero b w = h.complete b (Within-mono s options start 0 k b (omega arith) w)
  saturated k t h (suc n) b (inl w) = saturated k t h n b w
  saturated k t h (suc n) b (inr (a, e, w, l)) = elim (h.closed a (saturated k t h n a w)) [
    | inl m ↦ absurd m
    | inr d ↦ (d e b l).0
  ]
