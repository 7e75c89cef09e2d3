-- ===== src/Neo4j/Layers.antt =====
-- One layer of the traversal over a Neo4j database: its records are the hits of the layer.
use codesoul.Prelude.{
  Text, ◌==◌, eq_iff, ◌≡◌, refl, sym, ap, ◌∙◌, true, false, some, List, [], ◌∷◌, ◌++◌, foldl, In,
  Bool-cases, inl, inr, arith, if◌then◌else◌,
}
use mathlib.Core.Path.{subst, ap₂}
use codesoul.JsMap.{JsMap, get, has, set, values, contains}
use codesoul.JsMap.Laws.{get-set, get_of_has}
use codesoul.Core.Errors.{ok}
use codesoul.Core.Zod.{Zod}
use codesoul.Core.Enums.{edge_type_name}
use codesoul.Core.Schema.{GraphNode, GraphEdge}
use codesoul.Graph.{
  GraphStore, TraversalOptions, Traversal, edge_key, reach, collect_node, is_allowed,
}
use codesoul.Graph.Rounds.{Leads}
use codesoul.Neo4j.{Driver, LayerRecord, add_found, add_record, add_records}
use codesoul.Neo4j.Mapping.{Json, read_edge_type, to_node_props, from_node_props, from_edge_props}
use codesoul.Neo4j.Mapping.Laws.{read_edge_type-edge_type_name}
use codesoul.Neo4j.Represents.{Represents}

set_same : {V : Type 0} (k : Text) (v : V) (m : JsMap V) → get k m ≡ some v → set k v m ≡ m
unfolding get set
set_same k v [] p = cc
set_same k v ((j, w) ∷ m) p = elim (Bool-cases (j == k)) [
  | inl t ↦ rw t (ap (λ x. (j, x) ∷ m) (ground arith))
  | inr f ↦ rw f (ap (λ l. (j, w) ∷ l) (set_same k v m (ground arith)))
]

module _ (s : GraphStore) where
  -- Every collected edge is the stored edge of its key.
  abbrev pub EdgesKept : Traversal → Type 0
  EdgesKept t = (k : Text) (d : GraphEdge) → get k t.edges ≡ some d → get k s.edges ≡ some d

  EdgesKept-reach :
      (t : Traversal) (b : Text) (e : GraphEdge)
      → get (edge_key e) s.edges ≡ some e
      → EdgesKept t
      → EdgesKept (reach s t (b, e))
  unfolding reach
  EdgesKept-reach t b e p h k d q =
      ground (arith, get-set (edge_key e) k e t.edges, eq_iff (edge_key e) k, p, h k d)

  -- Adding a stored node and a stored edge is what the in-memory traversal does with them.
  add_found-eq-reach :
      (t : Traversal) (n : GraphNode) (e : GraphEdge)
      → get n.id s.nodes ≡ some n
      → get (edge_key e) s.edges ≡ some e
      → EdgesKept t
      → add_found n e t ≡ reach s t (n.id, e)
  unfolding add_found reach
  add_found-eq-reach t n e p q h =
      ap₂ {A = JsMap GraphNode} {B = JsMap GraphEdge}
        (λ ns es. record {
          nodes = ns;
          edges = es;
          visited = if contains n.id t.visited then t.visited else t.visited ++ n.id ∷ [];
          next_layer = if contains n.id t.visited then t.next_layer else t.next_layer ++ n.id ∷ [];
        })
        (rw p (unfold collect_node in refl))
        (elim (Bool-cases (has (edge_key e) t.edges)) [
          | inr f ↦ rw f
          | inl y ↦
              let (d, r) = get_of_has (edge_key e) t.edges y in
              let same : d ≡ e = cc (h (edge_key e) d r, q) in
              rw y (sym (set_same (edge_key e) e t.edges (r ∙ ap some same)))
        ])

module _ (driver : Driver) (json : Json) (zod : Zod) (g : driver.Graph) (s : GraphStore)
    (rep : Represents driver json g s) (options : TraversalOptions) where
  -- A record that is read as the stored edge `e` with the stored node `n` at its other end.
  pub record Reads (layer : List Text) (r : LayerRecord) : Type 0 where
    pub e : GraphEdge
    pub n : GraphNode
    pub stored : In e (values s.edges)
    pub ends : (e.src ≡ r.src_id) × (e.dst ≡ r.dst_id)
    pub type : r.rel_type ≡ edge_type_name e.type
    pub node : get n.id s.nodes ≡ some n
    pub props : r.other_props ≡ to_node_props n
    pub read_node : from_node_props zod r.other_props ≡ ok n
    pub read_edge : from_edge_props json zod r.rel_props r.src_id r.dst_id e.type ≡ ok e
    pub leads :
        is_allowed options.edge_types e.type ≡ true
        → (a : Text) × In a layer × Leads s options a e n.id

  -- What the loop over the records adds.
  add_record_allowed :
      (layer : List Text) (r : LayerRecord) (t : Traversal) (x : Reads layer r)
      → is_allowed options.edge_types x.e.type ≡ true
      → EdgesKept s t
      → add_record driver json zod g options t r ≡ ok (reach s t (x.n.id, x.e))
  unfolding add_record
  add_record_allowed layer r t x a k =
      rw (ap read_edge_type x.type ∙ read_edge_type-edge_type_name x.e.type, add_record)
        (rw a (
          rw x.read_node (
            rw x.read_edge
              (ap ok (add_found-eq-reach s t x.n x.e x.node (rep.edges_keyed x.e x.stored) k)))))

  add_record_skipped :
      (layer : List Text) (r : LayerRecord) (t : Traversal) (x : Reads layer r)
      → is_allowed options.edge_types x.e.type ≡ false
      → add_record driver json zod g options t r ≡ ok t
  unfolding add_record
  add_record_skipped layer r t x a =
      rw (ap read_edge_type x.type ∙ read_edge_type-edge_type_name x.e.type, add_record) (rw a)

  module _ (layer : List Text) where
    -- The records as a list of hits: what the loop adds, and where each hit comes from.
    pub record Added (rs : List LayerRecord) (t : Traversal) : Type 0 where
      pub hs : List (Text × GraphEdge)
      pub added : add_records driver json zod g options rs t ≡ ok (foldl (reach s) t hs)
      pub kept : EdgesKept s (foldl (reach s) t hs)
      pub only :
          (b : Text) (e : GraphEdge)
          → In (b, e) hs
          → (a : Text) × In a layer × Leads s options a e b
      pub all :
          (r : LayerRecord)
          → In r rs
          → (x : Reads layer r) × (is_allowed options.edge_types x.e.type ≡ true
              → In (x.n.id, x.e) hs)

    pub add_records-Added :
        (rs : List LayerRecord) (t : Traversal)
        → ((r : LayerRecord) → In r rs → Reads layer r)
        → EdgesKept s t
        → Added rs t
    unfolding add_records
    add_records-Added [] t reads k = record {
      hs = [];
      added = refl;
      kept = k;
      only = λ b e i. elim i [ ];
      all = λ r i. elim i [ ];
    }
    add_records-Added (r ∷ rs) t reads k =
        let x = reads r (inl refl) in
        elim (Bool-cases (is_allowed options.edge_types x.e.type)) [
          | inl a ↦
              let h : Text × GraphEdge = (x.n.id, x.e) in
              let rest =
                add_records-Added rs (reach s t h) (λ q i. reads q (inr i))
                  (EdgesKept-reach s t x.n.id x.e (rep.edges_keyed x.e x.stored) k) in
              record {
                hs = h ∷ rest.hs;
                added = rw (add_record_allowed layer r t x a k) rest.added;
                kept = rest.kept;
                only = λ b e i. elim i [
                  | inl p ↦
                      subst (λ k. (z : Text) × In z layer × Leads s options z k.1 k.0) (sym p)
                        (x.leads a)
                  | inr j ↦ rest.only b e j
                ];
                all = λ q i. elim i [
                  | inl p ↦
                      subst
                        (λ y.
                          (z : Reads layer y) × (is_allowed options.edge_types z.e.type ≡ true
                            → In (z.n.id, z.e) (h ∷ rest.hs)))
                        (sym p) (x, λ v. inl refl)
                  | inr j ↦ let (y, f) = rest.all q j in (y, λ v. inr (f v))
                ];
              }
          | inr a ↦
              let rest = add_records-Added rs t (λ q i. reads q (inr i)) k in
              record {
                hs = rest.hs;
                added = rw (add_record_skipped layer r t x a) rest.added;
                kept = rest.kept;
                only = rest.only;
                all = λ q i. elim i [
                  | inl p ↦
                      subst
                        (λ y.
                          (z : Reads layer y) × (is_allowed options.edge_types z.e.type ≡ true
                            → In (z.n.id, z.e) rest.hs))
                        (sym p) (x, λ v. absurd (cc (v, a)))
                  | inr j ↦ rest.all q j
                ];
              }
        ]
