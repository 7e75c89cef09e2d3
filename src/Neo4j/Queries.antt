-- ===== src/Neo4j/Queries.antt =====
-- The records that the query of a layer returns.
use codesoul.Prelude.{
  Text, ◌==◌, eq_iff, ◌≡◌, ◌↔◌, ◌⊎◌, refl, sym, ap, ◌∙◌, true, some, List, In, In-map, In_of_In-map,
  Bool-cases, inl, inr,
}
use mathlib.Core.Path.{subst, ap₂}
use codesoul.Core.Zod.{Zod}
use codesoul.Graph.{
  Direction, outgoing, incoming, both, follows_out, follows_in, TraversalOptions, direction_or_both,
}
use codesoul.Neo4j.{Driver, LayerRecord, PathMatch, returned, record_between, query_layer}
use codesoul.Neo4j.Mapping.{Json}

-- A relationship away from the node of the layer: the record leads from there to the other end.
returned-out :
    (d : Direction) (m : PathMatch)
    → follows_out d ≡ true
    → m.from_id ≡ m.start_id
    → returned d m ≡ record_between m.start_id m.other.id m
unfolding returned
returned-out outgoing m f e = refl
returned-out incoming m f e = cc f
returned-out both m f e = rw ((eq_iff m.from_id m.start_id).1 e)

-- A relationship towards it: the record leads from the other end to the node of the layer.
returned-in :
    (d : Direction) (m : PathMatch)
    → follows_in d ≡ true
    → m.from_id ≡ m.other.id
    → returned d m ≡ record_between m.other.id m.start_id m
unfolding returned
returned-in outgoing m f e = cc f
returned-in incoming m f e = refl
returned-in both m f e = elim (Bool-cases (m.from_id == m.start_id)) [
  | inr n ↦ rw n
  | inl t ↦
      let same : m.start_id ≡ m.other.id = sym ((eq_iff m.from_id m.start_id).0 t) ∙ e in
      rw t (ap₂ {A = Text} {B = Text} (λ a b. record_between a b m) same (sym same))
]

module _ (driver : Driver) (json : Json) (zod : Zod) (g : driver.Graph) (options : TraversalOptions)
    (layer : List Text) where
  abbrev toward : Direction
  toward = direction_or_both options.direction

  -- A record is that of a relationship from a node of the layer to a node, or, in the other
  -- direction, from a node to one of the layer.
  abbrev pub IsFound : LayerRecord → Type 0
  IsFound r =
      (driver.relation g r.src_id r.rel_type r.dst_id ≡ some r.rel_props)
      × (((follows_out toward ≡ true)
            × In r.src_id layer
            × (driver.symbol g r.dst_id ≡ some r.other_props))
          ⊎ ((follows_in toward ≡ true)
              × In r.dst_id layer
              × (driver.symbol g r.src_id ≡ some r.other_props)))

  IsFound-of_In : (r : LayerRecord) → In r (query_layer driver json zod g options layer) → IsFound r
  unfolding query_layer
  IsFound-of_In r i =
      let (m, j, e) = In_of_In-map (returned toward) r (driver.match_paths toward layer g) i in
      let (start, at, way) = (driver.paths g toward layer m).0 j in
      elim way [
        | inl (f, from, rel) ↦
            subst IsFound (sym (e ∙ returned-out toward m f from)) (rel, inl (f, start, at))
        | inr (f, from, rel) ↦
            subst IsFound (sym (e ∙ returned-in toward m f from)) (rel, inr (f, start, at))
      ]

  match_at : LayerRecord → Text → PathMatch
  match_at r start = record {
    start_id = start;
    from_id = r.src_id;
    rel_type = r.rel_type;
    rel_props = r.rel_props;
    other = r.other_props;
  }

  In-of_IsFound : (r : LayerRecord) → IsFound r → In r (query_layer driver json zod g options layer)
  unfolding query_layer match_at
  In-of_IsFound r (rel, inl (f, start, at)) =
      let own = driver.keyed g r.dst_id r.other_props at in
      let m = match_at r r.src_id in
      let j = (driver.paths g toward layer m).1 (
        start,
        ap (driver.symbol g) own ∙ at,
        inl (f, refl, ap (driver.relation g r.src_id r.rel_type) own ∙ rel),
      ) in
      subst (λ x. In x (query_layer driver json zod g options layer))
        (returned-out toward m f refl ∙ ap {A = Text} (λ b. record_between r.src_id b m) own)
        (In-map (returned toward) m (driver.match_paths toward layer g) j)
  In-of_IsFound r (rel, inr (f, start, at)) =
      let own = driver.keyed g r.src_id r.other_props at in
      let m = match_at r r.dst_id in
      let j = (driver.paths g toward layer m).1 (
        start,
        ap (driver.symbol g) own ∙ at,
        inr (f, sym own, ap {A = Text} (λ a. driver.relation g a r.rel_type r.dst_id) own ∙ rel),
      ) in
      subst (λ x. In x (query_layer driver json zod g options layer))
        (returned-in toward m f (sym own) ∙ ap {A = Text} (λ a. record_between a r.dst_id m) own)
        (In-map (returned toward) m (driver.match_paths toward layer g) j)

  -- The query of a layer returns a record exactly if the database has a relationship of its type and its
  -- properties from its source to its destination, and either the direction is `out` or `both`, the
  -- source is in the layer and the node of the record is the destination, or the direction is `in` or
  -- `both`, the destination is in the layer and the node of the record is the source.
  pub query_layer-IsFound :
      (r : LayerRecord) → In r (query_layer driver json zod g options layer) ↔ IsFound r
  query_layer-IsFound r = (IsFound-of_In r, In-of_IsFound r)
