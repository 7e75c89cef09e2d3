-- ===== src/Neo4j/Represents.antt =====
-- When a Neo4j database stands for the state of the in-memory graph store, and what is read of its
-- nodes and relationships then.
use codesoul.Prelude.{Text, ◌≡◌, ap, ◌∙◌, true, Option, none, some, In, Option-cases, inl, inr}
use codesoul.JsMap.{get, values}
use codesoul.Core.Errors.{ok}
use codesoul.Core.Zod.{Zod}
use codesoul.Core.Enums.{edge_type_name}
use codesoul.Core.Schema.{GraphNode, GraphEdge, is_graph_node, is_graph_edge}
use codesoul.Graph.{GraphStore}
use codesoul.Graph.Folds.{NodesKeyed, EdgesKeyed}
use codesoul.Neo4j.{Driver}
use codesoul.Neo4j.Mapping.{
  NodeProps, EdgeProps, Json, to_node_props, from_node_props, to_edge_props, from_edge_props,
}
use codesoul.Neo4j.Mapping.Laws.{
  from_node_props-to_node_props, from_edge_props-to_edge_props, IsPlain, as_read,
}

abbrev pub props_of : Option GraphNode → Option NodeProps
props_of none = none
props_of (some n) = some (to_node_props n)

module _ (driver : Driver) (json : Json) (g : driver.Graph) (s : GraphStore) where
  -- The symbols are the stored nodes, the relationships are the stored edges, and all of them satisfy
  -- their schemas.
  pub record Represents : Type 0 where
    pub nodes : (id : Text) → driver.symbol g id ≡ props_of (get id s.nodes)
    pub valid_nodes : (id : Text) (n : GraphNode) → get id s.nodes ≡ some n → is_graph_node n ≡ true
    pub edges_in :
        (e : GraphEdge)
        → In e (values s.edges)
        → driver.relation g e.src (edge_type_name e.type) e.dst ≡ some (to_edge_props json e)
    pub edges_of :
        (a t b : Text) (p : EdgeProps)
        → driver.relation g a t b ≡ some p
        → (e : GraphEdge) × In e (values s.edges)
          × (e.src ≡ a)
          × (edge_type_name e.type ≡ t)
          × (e.dst ≡ b)
          × (p ≡ to_edge_props json e)
    pub valid_edges :
        (e : GraphEdge)
        → In e (values s.edges)
        → (is_graph_edge e ≡ true)
          × IsPlain json e.attributes
          × (as_read e.attributes ≡ e.attributes)
    pub edges_keyed : EdgesKeyed s

  module _ (zod : Zod) (rep : Represents) where
    pub nodes_keyed : NodesKeyed s
    nodes_keyed id n p =
        unfold to_node_props in driver.keyed g id (to_node_props n) (rep.nodes id ∙ ap props_of p)

    -- A symbol is read as a stored node.
    pub read_symbol :
        (id : Text) (p : NodeProps)
        → driver.symbol g id ≡ some p
        → (n : GraphNode) × (get id s.nodes ≡ some n)
          × (p ≡ to_node_props n)
          × (from_node_props zod p ≡ ok n)
    read_symbol id p h = elim (Option-cases (get id s.nodes)) [
      | inl e ↦ cc (rep.nodes id, e, h)
      | inr (n, e) ↦
          let q : p ≡ to_node_props n = cc (rep.nodes id, e, h) in
          (
            n,
            e,
            q,
            ap (from_node_props zod) q
                ∙ from_node_props-to_node_props zod n (rep.valid_nodes id n e),
          )
    ]

    -- The properties of a stored edge are read as the edge.
    pub read_edge :
        (e : GraphEdge)
        → In e (values s.edges)
        → from_edge_props json zod (to_edge_props json e) e.src e.dst e.type ≡ ok e
    read_edge e i =
        let (v, plain, full) = rep.valid_edges e i in
        from_edge_props-to_edge_props json zod e v plain
        ∙ ap (λ a. ok (record e { attributes = a })) full
