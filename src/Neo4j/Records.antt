-- ===== src/Neo4j/Records.antt =====
-- What `MATCH` finds around a layer: every record is read, and the records are the hits of the layer.
use codesoul.Prelude.{
  Text, ◌==◌, eq_iff, eq_refl, ◌≡◌, sym, ap, ◌∙◌, true, ◌&&◌, some, List, In, Bool-cases, ◌⊎◌, inl,
  inr, arith,
}
use mathlib.Core.Path.{subst, ap₂}
use codesoul.JsMap.{get, values}
use codesoul.Core.Errors.{ok}
use codesoul.Core.Zod.{Zod}
use codesoul.Core.Enums.{edge_type_name}
use codesoul.Core.Schema.{GraphNode, GraphEdge}
use codesoul.Graph.{
  GraphStore, TraversalOptions, Traversal, edge_key, hit, is_allowed, other_end, direction_or_both,
  follows_out, follows_in,
}
use codesoul.Graph.Rounds.{Leads, Hits}
use codesoul.Neo4j.{Driver, LayerRecord, query_layer}
use codesoul.Neo4j.Mapping.{EdgeProps, Json, to_node_props, to_edge_props, from_edge_props}
use codesoul.Neo4j.Queries.{query_layer-IsFound}
use codesoul.Neo4j.Layers.{Reads, Added}
use codesoul.Neo4j.Represents.{Represents, nodes_keyed, read_symbol, read_edge}

module _ (driver : Driver) (json : Json) (zod : Zod) (g : driver.Graph) (s : GraphStore)
    (rep : Represents driver json g s) (options : TraversalOptions) where
  module _ (layer : List Text) where
    -- The ends of a record, seen from the node of the layer.
    hit_out :
        (e : GraphEdge)
        → follows_out (direction_or_both options.direction) ≡ true
        → is_allowed options.edge_types e.type ≡ true
        → hit s options e.src e ≡ some (e.dst, e)
    unfolding hit other_end
    hit_out e d a = rw (a, d, eq_refl e.src)

    hit_in :
        (e : GraphEdge)
        → follows_in (direction_or_both options.direction) ≡ true
        → is_allowed options.edge_types e.type ≡ true
        → hit s options e.dst e ≡ some (e.src, e)
    unfolding hit other_end
    hit_in e d a = ground (arith, eq_iff e.src e.dst, eq_refl e.dst)

    read_at :
        (e : GraphEdge)
        → In e (values s.edges)
        → (p : EdgeProps) (a b : Text) → e.src ≡ a
        → e.dst ≡ b
        → p ≡ to_edge_props json e
        → from_edge_props json zod p a b e.type ≡ ok e
    read_at e stored p a b ea eb q =
        ap (λ x. from_edge_props json zod x a b e.type) q
        ∙ ap₂ (λ x y. from_edge_props json zod (to_edge_props json e) x y e.type) (sym ea) (sym eb)
        ∙ read_edge driver json g s zod rep e stored

    -- Every record of the layer is read.
    pub layer-Reads :
        (r : LayerRecord)
        → In r (query_layer driver json zod g options layer)
        → Reads driver json zod g s rep options layer r
    unfolding query_layer
    layer-Reads r i =
        let (rel, found) = (query_layer-IsFound driver json zod g options layer r).0 i in
        let (e, stored, a, t, b, q) = rep.edges_of r.src_id r.rel_type r.dst_id r.rel_props rel in
        elim found [
          | inl (d, m, sym_b) ↦
              let (n, node, props, read) =
                read_symbol driver json g s zod rep r.dst_id r.other_props sym_b in
              let id = nodes_keyed driver json g s zod rep r.dst_id n node in
              record {
                e = e;
                n = n;
                stored = stored;
                ends = (a, b);
                type = sym t;
                node = ap (λ x. get x s.nodes) id ∙ node;
                props = props;
                read_node = read;
                read_edge = read_at e stored r.rel_props r.src_id r.dst_id a b q;
                leads = λ v. (
                  e.src,
                  subst (λ x. In x layer) (sym a) m,
                  (stored, hit_out e d v ∙ ap (λ x. some (x, e)) (b ∙ sym id)),
                );
              }
          | inr (d, m, sym_a) ↦
              let (n, node, props, read) =
                read_symbol driver json g s zod rep r.src_id r.other_props sym_a in
              let id = nodes_keyed driver json g s zod rep r.src_id n node in
              record {
                e = e;
                n = n;
                stored = stored;
                ends = (a, b);
                type = sym t;
                node = ap (λ x. get x s.nodes) id ∙ node;
                props = props;
                read_node = read;
                read_edge = read_at e stored r.rel_props r.src_id r.dst_id a b q;
                leads = λ v. (
                  e.dst,
                  subst (λ x. In x layer) (sym b) m,
                  (stored, hit_in e d v ∙ ap (λ x. some (x, e)) (a ∙ sym id)),
                );
              }
        ]

    hit-cases :
        (a b : Text) (e : GraphEdge)
        → hit s options a e ≡ some (b, e)
        → (is_allowed options.edge_types e.type ≡ true)
          × (((follows_out (direction_or_both options.direction) ≡ true)
                × (e.src ≡ a)
                × (e.dst ≡ b))
              ⊎ ((follows_in (direction_or_both options.direction) ≡ true)
                  × (e.dst ≡ a)
                  × (e.src ≡ b)))
    unfolding hit other_end
    hit-cases a b e h = (
      ground arith,
      elim (Bool-cases (follows_out (direction_or_both options.direction) && e.src == a)) [
        | inl t ↦ inl (ground arith, (eq_iff e.src a).0 (ground arith), ground arith)
        | inr f ↦ inr (ground arith, (eq_iff e.dst a).0 (ground arith), ground arith)
      ],
    )

    -- The record of an edge at a node of the layer, seen from there.
    abbrev record_of : GraphEdge → GraphNode → LayerRecord
    record_of e n = record {
      src_id = e.src;
      dst_id = e.dst;
      rel_type = edge_type_name e.type;
      rel_props = to_edge_props json e;
      other_props = to_node_props n;
    }

    -- An edge that leads on from the layer leads to a stored node, and has a record.
    record-In :
        (a b : Text) (e : GraphEdge)
        → In a layer
        → Leads s options a e b
        → (n : GraphNode) × (n.id ≡ b)
          × In (record_of e n) (query_layer driver json zod g options layer)
          × (is_allowed options.edge_types e.type ≡ true)
    unfolding query_layer
    record-In a b e m (stored, h) =
        let (allowed, where_found) = hit-cases a b e h in
        let rel = rep.edges_in e stored in
        let ((p, at_src), (q, at_dst)) =
          driver.has_ends g e.src (edge_type_name e.type) e.dst (to_edge_props json e) rel in
        elim where_found [
          | inl (d, ea, eb) ↦
              let (n, node, props, _) = read_symbol driver json g s zod rep e.dst q at_dst in
              (
                n,
                nodes_keyed driver json g s zod rep e.dst n node ∙ eb,
                (query_layer-IsFound driver json zod g options layer (record_of e n)).1
                    (rel, inl (d, subst (λ x. In x layer) (sym ea) m, at_dst ∙ ap some props)),
                allowed,
              )
          | inr (d, ea, eb) ↦
              let (n, node, props, _) = read_symbol driver json g s zod rep e.src p at_src in
              (
                n,
                nodes_keyed driver json g s zod rep e.src n node ∙ eb,
                (query_layer-IsFound driver json zod g options layer (record_of e n)).1
                    (rel, inr (d, subst (λ x. In x layer) (sym ea) m, at_src ∙ ap some props)),
                allowed,
              )
        ]

    -- Two stored edges with the same ends and types are one edge.
    same_edge :
        (d e : GraphEdge)
        → In d (values s.edges)
        → In e (values s.edges)
        → (d.src ≡ e.src) × (d.dst ≡ e.dst)
        → edge_type_name d.type ≡ edge_type_name e.type
        → d ≡ e
    same_edge d e i j (p, q) t =
        let key : edge_key d ≡ edge_key e = unfold edge_key in cc (p, q, t) in
        cc (rep.edges_keyed d i, rep.edges_keyed e j, key)

    -- The hits of the records are the hits of the layer.
    pub Added-Hits :
        (t : Traversal)
        (x : Added driver json zod g s rep options layer
          (query_layer driver json zod g options layer)
          t)
        → Hits s options layer x.hs
    Added-Hits t x = record {
      all = λ a b e m l.
          let (n, at, i, allowed) = record-In a b e m l in
          let (y, f) = x.all (record_of e n) i in
          let same = same_edge y.e e y.stored l.0 y.ends (sym y.type) in
          let id : n.id ≡ y.n.id = unfold to_node_props in ap (λ p. p.id) y.props in
          subst (λ k. In k x.hs) (ap₂ {A = Text} {B = GraphEdge} (λ i d. (i, d)) (sym id ∙ at) same)
            (f (ap (λ d. is_allowed options.edge_types d.type) same ∙ allowed));
      only = x.only;
    }
