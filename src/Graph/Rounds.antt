-- ===== src/Graph/Rounds.antt =====
-- What holds of the traversal after `r` layers: it has visited the ball of radius `r`.
pub mod Loop
use codesoul.Prelude.{
  ℕ, zero, suc, ◌+◌, ◌-◌, ◌≤◌, ◌<◌, Text, ◌==◌, eq_iff, eq_refl, ◌≡◌, refl, sym, ap, ◌∙◌, Bool,
  true, false, ◌||◌, Option, none, some, List, [], ◌∷◌, ◌++◌, foldl, arith, if◌then◌else◌, In, All,
  ◌⊎◌, is_empty, reached, effective_limit, length, inl, inr, Bool-cases, Option-cases, append_assoc,
  append-nil,
}
use native.Mathlib.Decide.{dec_le}
use codesoul.JsMap.{JsMap, JsSet, get, has, set, values, contains}
use codesoul.JsMap.Laws.{contains-append, In_of_contains, contains_of_In}
use codesoul.Core.Schema.{GraphNode, GraphEdge}
use codesoul.Graph.{
  GraphStore, TraversalOptions, Traversal, edge_key, hit, visit_layer, traverse, start_traversal,
  seed_nodes,
}
use codesoul.Graph.Hits.{layer_hits, visit_layer-eq-reach, In-layer_hits, In_of_In-layer_hits}
use codesoul.Graph.Folds.{
  reach_all, visited_mono, visited_hit, visited-cases, frontier, Covers, NodesKeyed,
  Covers-reach_all, NodesFound, NodesFound-reach_all, EdgesKeyed, EdgesAll, EdgesAll-reach_all,
  get_edge_mono, get_edge_hit,
}

module _ (s : GraphStore) (options : TraversalOptions) where
  -- An edge of the store that the options allow leads from `a` to `b` by the edge `e`.
  abbrev pub Leads : Text → GraphEdge → Text → Type 0
  Leads a e b = In e (values s.edges) × (hit s options a e ≡ some (b, e))

  -- The hits of a layer, in any order: what an allowed edge leads to from a node of the layer.
  pub record Hits (layer : List Text) (hs : List (Text × GraphEdge)) : Type 0 where
    pub all : (a b : Text) (e : GraphEdge) → In a layer → Leads a e b → In (b, e) hs
    pub only : (b : Text) (e : GraphEdge) → In (b, e) hs → (a : Text) × In a layer × Leads a e b

  module _ (start : Text) where
    -- `b` is at most `r` edges from the start.
    abbrev pub Within : ℕ → Text → Type 0
    Within zero b = b ≡ start
    Within (suc r) b = Within r b ⊎ ((a : Text) × (e : GraphEdge) × Within r a × Leads a e b)

    pub Within-mono : (k n : ℕ) (b : Text) → k ≤ n → Within k b → Within n b
    Within-mono zero zero b h w = w
    Within-mono (suc k) zero b h w = absurd (omega arith)
    Within-mono k (suc n) b h w = elim (dec_le k n) [
      | yes le ↦ inl (Within-mono k n b le w)
      | no gt ↦ let e : k ≡ suc n = omega arith in rw e at w
    ]

    -- All that an edge leads to from `a` is visited, and the edge collected.
    abbrev pub IsDone : Text → Traversal → Type 0
    IsDone a t =
        (e : GraphEdge) (b : Text)
        → Leads a e b
        → (contains b t.visited ≡ true) × (get (edge_key e) t.edges ≡ some e)

    -- The edge leads from one node of the ball of radius `r` to another.
    abbrev pub Between : ℕ → GraphEdge → Type 0
    Between r e = (a : Text) × (b : Text) × Within r a × Within r b × Leads a e b

    pub record Round (r : ℕ) (layer : List Text) (t : Traversal) : Type 0 where
      pub sound : (b : Text) → contains b t.visited ≡ true → Within r b
      pub complete : (b : Text) → Within r b → contains b t.visited ≡ true
      pub layer_visited : (b : Text) → In b layer → contains b t.visited ≡ true
      pub closed : (a : Text) → contains a t.visited ≡ true → In a layer ⊎ IsDone a t
      pub done : (j : ℕ) (a : Text) → j < r → Within j a → IsDone a t
      pub covers : Covers s t
      pub nodes_found : NodesFound s t
      pub edges_found : EdgesAll s (Between r) t

    module _ (keyed : NodesKeyed s) (edges_keyed : EdgesKeyed s) (r : ℕ) (layer : List Text)
        (t : Traversal) (h : Round r layer t) (hs : List (Text × GraphEdge))
        (of_layer : Hits layer hs) where
      all_stored : (k : Text × GraphEdge) → In k hs → In k.1 (values s.edges)
      all_stored (b, e) m = (of_layer.only b e m).2.0

      before : Traversal
      before = record t { next_layer = [] }

      after : Traversal
      unfolding before
      after = reach_all s before hs

      -- What was visited is visited still.
      grows : (b : Text) → contains b t.visited ≡ true → contains b after.visited ≡ true
      unfolding after
      grows b p = visited_mono s b before hs p

      after_done : (a : Text) → In a layer → IsDone a after
      unfolding after
      after_done a m e b (stored, p) =
          let n = of_layer.all a b e m (stored, p) in
          (
            visited_hit s b e before hs n,
            get_edge_hit s edges_keyed e stored b before hs all_stored n,
          )

      done_after : (a : Text) → IsDone a t → IsDone a after
      unfolding after
      done_after a d e b l =
          let (p, q) = d e b l in
          (visited_mono s b before hs p, get_edge_mono s edges_keyed e l.0 before hs all_stored q)

      frontier_after : after.visited ≡ t.visited ++ after.next_layer
      unfolding after
      frontier_after = frontier s t.visited before hs (sym (append-nil t.visited))

      sound_after : (b : Text) → contains b after.visited ≡ true → Within (suc r) b
      unfolding after
      sound_after b p = elim (visited-cases s b before hs p) [
        | inl q ↦ inl (h.sound b q)
        | inr (e, m) ↦
            let (a, n, (stored, q)) = of_layer.only b e m in
            inr (a, e, h.sound a (h.layer_visited a n), (stored, q))
      ]

      complete_after : (b : Text) → Within (suc r) b → contains b after.visited ≡ true
      complete_after b (inl w) = grows b (h.complete b w)
      complete_after b (inr (a, e, w, l)) = elim (h.closed a (h.complete a w)) [
        | inl m ↦ (after_done a m e b l).0
        | inr d ↦ (done_after a d e b l).0
      ]

      old_done : (a : Text) → contains a t.visited ≡ true → IsDone a after
      old_done a y = elim (h.closed a y) [ inl m ↦ after_done a m | inr d ↦ done_after a d ]

      closed_after :
          (a : Text) → contains a after.visited ≡ true → In a after.next_layer ⊎ IsDone a after
      closed_after a p = elim (Bool-cases (contains a t.visited)) [
        | inl y ↦ inr (old_done a y)
        | inr f ↦ inl (
            In_of_contains a after.next_layer (
              ground (
                arith,
                ap (contains a) frontier_after,
                contains-append a t.visited after.next_layer,
              )))
      ]

      between : (k : Text × GraphEdge) → In k hs → Between (suc r) k.1
      between (b, e) m =
          let (a, n, (stored, q)) = of_layer.only b e m in
          let w = h.sound a (h.layer_visited a n) in
          (a, b, inl w, inr (a, e, w, (stored, q)), (stored, q))

      widen : (e : GraphEdge) → Between r e → Between (suc r) e
      widen e (a, b, v, w, l) = (a, b, inl v, inl w, l)

      Round-after : Round (suc r) after.next_layer after
      Round-after = record {
        sound = sound_after;
        complete = complete_after;
        layer_visited = λ b m.
            ap (contains b) frontier_after
            ∙ ground (
              arith,
              contains-append b t.visited after.next_layer,
              contains_of_In b after.next_layer m,
            );
        closed = closed_after;
        done = λ j a lt w. old_done a (h.complete a (Within-mono j r a (omega arith) w));
        covers = unfold after in Covers-reach_all s keyed before hs h.covers;
        nodes_found = unfold after in NodesFound-reach_all s keyed before hs h.nodes_found;
        edges_found =
            unfold after in
            EdgesAll-reach_all s (Between (suc r)) before hs between
              (λ e m. widen e (h.edges_found e m));
      }

    -- A loop over the hits of the layer widens the ball by one.
    pub Round-reach_all :
        NodesKeyed s
        → EdgesKeyed s
        → (r : ℕ) (layer : List Text) (t : Traversal) (hs : List (Text × GraphEdge)) → Hits layer hs
        → Round r layer t
        → Round
            (suc r)
            (reach_all s (record t { next_layer = [] }) hs).next_layer
            (reach_all s (record t { next_layer = [] }) hs)
    unfolding after before
    Round-reach_all keyed edges_keyed r layer t hs of_layer h =
        Round-after keyed edges_keyed r layer t h hs of_layer

    layer_hits-Hits : (layer : List Text) → Hits layer (layer_hits s options layer)
    layer_hits-Hits layer = record {
      all = λ a b e m l. In-layer_hits s options a b e layer m l.0 l.1;
      only = λ b e m.
          let (a, n, stored, q) = In_of_In-layer_hits s options b e layer m in (a, n, (stored, q));
    }

    -- One more layer widens the ball by one.
    pub Round-visit_layer :
        NodesKeyed s
        → EdgesKeyed s
        → (r : ℕ) (layer : List Text) (t : Traversal) → Round r layer t
        → Round (suc r) (visit_layer s options layer t).next_layer (visit_layer s options layer t)
    Round-visit_layer keyed edges_keyed r layer t h = rw (visit_layer-eq-reach s options layer t) (
        Round-reach_all keyed edges_keyed r layer t (layer_hits s options layer)
          (layer_hits-Hits layer) h)
