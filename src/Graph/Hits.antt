-- ===== src/Graph/Hits.antt =====
-- One layer of the traversal as a single loop over the ends that its edges reach.
use codesoul.Prelude.{
  Text, ◌≡◌, refl, sym, ap, ◌∙◌, none, some, List, [], ◌∷◌, ◌++◌, foldl, arith, In, In-append_left,
  In-append_right, In-append_cases, ◌⊎◌, inl, inr, Option-cases,
}
use mathlib.Core.List.{foldl-append}
use codesoul.JsMap.{values}
use codesoul.Core.Schema.{GraphEdge}
use codesoul.Graph.{
  GraphStore, TraversalOptions, Traversal, hit, reach, visit_edge, visit_node, visit_layer,
}

module _ (s : GraphStore) (options : TraversalOptions) where
  -- The ends that the edges of a list reach from a node, each with its edge.
  pub hits : Text → List GraphEdge → List (Text × GraphEdge)
  hits id [] = []
  hits id (e ∷ es) = elim (hit s options id e) [ none ↦ hits id es | some h ↦ h ∷ hits id es ]

  pub layer_hits : List Text → List (Text × GraphEdge)
  unfolding hits
  layer_hits [] = []
  layer_hits (id ∷ layer) = hits id (values s.edges) ++ layer_hits layer

  hits_miss :
      (id : Text) (e : GraphEdge) (es : List GraphEdge)
      → hit s options id e ≡ none
      → hits id (e ∷ es) ≡ hits id es
  unfolding hits
  hits_miss id e es n = rw (n, hits)

  hits-hit :
      (id : Text) (e : GraphEdge) (es : List GraphEdge) (h : Text × GraphEdge)
      → hit s options id e ≡ some h
      → hits id (e ∷ es) ≡ h ∷ hits id es
  unfolding hits
  hits-hit id e es h p = rw (p, hits)

  visit_edge_miss :
      (id : Text) (t : Traversal) (e : GraphEdge)
      → hit s options id e ≡ none
      → visit_edge s options id t e ≡ t
  unfolding visit_edge
  visit_edge_miss id t e n = rw (n, visit_edge)

  visit_edge-hit :
      (id : Text) (t : Traversal) (e : GraphEdge) (h : Text × GraphEdge)
      → hit s options id e ≡ some h
      → visit_edge s options id t e ≡ reach s t h
  unfolding visit_edge
  visit_edge-hit id t e h p = rw (p, visit_edge)

  visit_edges-eq-reach :
      (id : Text) (t : Traversal) (es : List GraphEdge)
      → foldl (visit_edge s options id) t es ≡ foldl (reach s) t (hits id es)
  unfolding hits
  visit_edges-eq-reach id t [] = refl
  visit_edges-eq-reach id t (e ∷ es) = elim (Option-cases (hit s options id e)) [
    | inl n ↦
        ap (λ u. foldl (visit_edge s options id) u es) (visit_edge_miss id t e n)
        ∙ (visit_edges-eq-reach id t es ∙ ap (foldl (reach s) t) (sym (hits_miss id e es n)))
    | inr (h, p) ↦
        ap (λ u. foldl (visit_edge s options id) u es) (visit_edge-hit id t e h p)
        ∙ (visit_edges-eq-reach id (reach s t h) es
            ∙ ap (foldl (reach s) t) (sym (hits-hit id e es h p)))
  ]

  visit_nodes-eq-reach :
      (layer : List Text) (t : Traversal)
      → foldl (visit_node s options) t layer ≡ foldl (reach s) t (layer_hits layer)
  unfolding layer_hits visit_node
  visit_nodes-eq-reach [] t = refl
  visit_nodes-eq-reach (id ∷ layer) t =
      ap (λ u. foldl (visit_node s options) u layer) (visit_edges-eq-reach id t (values s.edges))
      ∙ visit_nodes-eq-reach layer (foldl (reach s) t (hits id (values s.edges)))
      ∙ sym (foldl-append (reach s) t (hits id (values s.edges)) (layer_hits layer))

  hit_edge :
      (id : Text) (e : GraphEdge) (h : Text × GraphEdge) → hit s options id e ≡ some h → h.1 ≡ e
  unfolding hit
  hit_edge id e h p = ground arith

  -- The hits of a layer are the allowed edges at its nodes, each with its other end.
  pub In-hits :
      (id b : Text) (e : GraphEdge) (es : List GraphEdge)
      → In e es
      → hit s options id e ≡ some (b, e)
      → In (b, e) (hits id es)
  In-hits id b e [] m p = elim m [ ]
  In-hits id b e (d ∷ es) (inl same) p =
      rw (hits-hit id d es (b, e) (ap (hit s options id) (sym same) ∙ p)) (inl refl)
  In-hits id b e (d ∷ es) (inr m) p = elim (Option-cases (hit s options id d)) [
    | inl n ↦ rw (hits_miss id d es n) (In-hits id b e es m p)
    | inr (h, q) ↦ rw (hits-hit id d es h q) (inr (In-hits id b e es m p))
  ]

  pub In_of_In-hits :
      (id b : Text) (e : GraphEdge) (es : List GraphEdge)
      → In (b, e) (hits id es)
      → In e es × (hit s options id e ≡ some (b, e))
  In_of_In-hits id b e [] m = absurd (unfold hits in m)
  In_of_In-hits id b e (d ∷ es) m = elim (Option-cases (hit s options id d)) [
    | inl n ↦ let r = In_of_In-hits id b e es (rw (hits_miss id d es n) at m) in (inr r.0, r.1)
    | inr (h, q) ↦ first h q (In_of_In-hits id b e es) (rw (hits-hit id d es h q) at m)
  ]
    where
      -- `hit` returns the edge that it is given.
      first :
          (h : Text × GraphEdge)
          → hit s options id d ≡ some h
          → (In (b, e) (hits id es) → In e es × (hit s options id e ≡ some (b, e)))
          → ((b, e) ≡ h) ⊎ In (b, e) (hits id es)
          → In e (d ∷ es) × (hit s options id e ≡ some (b, e))
      first h q later (inl same) =
          let edge = hit_edge id d h q in
          let here : e ≡ d = ap (λ r. r.1) same ∙ edge in
          (inl here, ap (hit s options id) here ∙ q ∙ ap some (sym same))
      first h q later (inr m) = let r = later m in (inr r.0, r.1)

  pub visit_layer-eq-reach :
      (layer : List Text) (t : Traversal)
      → visit_layer s options layer t
        ≡ foldl (reach s) (record t { next_layer = [] }) (layer_hits layer)
  unfolding visit_layer
  visit_layer-eq-reach layer t = visit_nodes-eq-reach layer (record t { next_layer = [] })

  pub In-layer_hits :
      (a b : Text) (e : GraphEdge) (layer : List Text)
      → In a layer
      → In e (values s.edges)
      → hit s options a e ≡ some (b, e)
      → In (b, e) (layer_hits layer)
  unfolding layer_hits
  In-layer_hits a b e [] m n p = elim m [ ]
  In-layer_hits a b e (id ∷ layer) (inl same) n p =
      In-append_left _ (hits id (values s.edges)) (layer_hits layer)
        (In-hits id b e (values s.edges) n (ap (λ x. hit s options x e) (sym same) ∙ p))
  In-layer_hits a b e (id ∷ layer) (inr m) n p =
      In-append_right _ (hits id (values s.edges)) (layer_hits layer)
        (In-layer_hits a b e layer m n p)

  pub In_of_In-layer_hits :
      (b : Text) (e : GraphEdge) (layer : List Text)
      → In (b, e) (layer_hits layer)
      → (a : Text) × In a layer × In e (values s.edges) × (hit s options a e ≡ some (b, e))
  unfolding layer_hits
  In_of_In-layer_hits b e [] m = elim m [ ]
  In_of_In-layer_hits b e (id ∷ layer) m =
      elim (In-append_cases _ (hits id (values s.edges)) (layer_hits layer) m) [
        | inl l ↦ let r = In_of_In-hits id b e (values s.edges) l in (id, inl refl, r.0, r.1)
        | inr r ↦ let (a, n, o, p) = In_of_In-layer_hits b e layer r in (a, inr n, o, p)
      ]
