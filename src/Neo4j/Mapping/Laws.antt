-- ===== src/Neo4j/Mapping/Laws.antt =====
-- packages/graph-store-neo4j/src/cypher-mapping.ts: what comes back of a node and of an edge.
use codesoul.Prelude.{
  ℕ, Text, codes, Bool, not, filter, ◌==◌, eq_iff, ◌≡◌, refl, sym, ap, ◌∙◌, true, false, is_empty,
  Option, none, some, List, [], ◌∷◌, ◌++◌, map, foldl, append-nil, append_assoc, ◌||◌, arith, In,
  Distinct, inl, inr, Bool-cases,
}
use mathlib.Core.Path.{ap₂, subst}
use codesoul.JsMap.{JsMap, has, set, keys}
use codesoul.JsMap.Laws.{length-set_new}
use codesoul.Core.Errors.{ok, ◌>>=◌}
use codesoul.Core.Zod.{Zod}
use codesoul.Core.Enums.{
  EdgeType, contains, calls, imports, implements, extends, defined_in, depends_on, declared_by,
  NodeKind, file_kind, module_kind, class_kind, function_kind, method_kind, import_kind, block_kind,
  rig_component, rig_target, rig_test, Language, typescript, javascript, python, markdown, unknown,
  node_kind_name, language_name, edge_type_name,
}
use codesoul.Core.Schema.{Attribute, GraphNode, GraphEdge, is_graph_node, is_graph_edge, is_meta}
use codesoul.Neo4j.Mapping.{
  read_edge_type, read_node_kind, read_language, to_node_props, node_of, described, is_described,
  parsed_node, from_node_props, Json, finite_numbers, to_edge_props, keep_scalar, unless_empty,
  read_attributes, edge_of, from_edge_props,
}

pub read_node_kind-node_kind_name : (k : NodeKind) → read_node_kind (node_kind_name k) ≡ some k
unfolding read_node_kind node_kind_name ◌==◌
read_node_kind-node_kind_name file_kind = refl
read_node_kind-node_kind_name module_kind = refl
read_node_kind-node_kind_name class_kind = refl
read_node_kind-node_kind_name function_kind = refl
read_node_kind-node_kind_name method_kind = refl
read_node_kind-node_kind_name import_kind = refl
read_node_kind-node_kind_name block_kind = refl
read_node_kind-node_kind_name rig_component = refl
read_node_kind-node_kind_name rig_target = refl
read_node_kind-node_kind_name rig_test = refl

pub read_language-language_name : (l : Language) → read_language (language_name l) ≡ some l
unfolding read_language language_name ◌==◌
read_language-language_name typescript = refl
read_language-language_name javascript = refl
read_language-language_name python = refl
read_language-language_name markdown = refl
read_language-language_name unknown = refl

pub read_edge_type-edge_type_name : (t : EdgeType) → read_edge_type (edge_type_name t) ≡ some t
unfolding read_edge_type edge_type_name ◌==◌
read_edge_type-edge_type_name contains = refl
read_edge_type-edge_type_name calls = refl
read_edge_type-edge_type_name imports = refl
read_edge_type-edge_type_name implements = refl
read_edge_type-edge_type_name extends = refl
read_edge_type-edge_type_name defined_in = refl
read_edge_type-edge_type_name depends_on = refl
read_edge_type-edge_type_name declared_by = refl

version_of_node : (n : GraphNode) → is_graph_node n ≡ true → n.version ≡ 1
unfolding is_graph_node is_meta
version_of_node n h = ground arith

version_of_edge : (e : GraphEdge) → is_graph_edge e ≡ true → e.version ≡ 1
unfolding is_graph_edge is_meta
version_of_edge e h = ground arith

described-to_node_props :
    (n : GraphNode) → is_graph_node n ≡ true → described (to_node_props n) ≡ some n
unfolding described to_node_props node_of
described-to_node_props n h =
    rw (read_node_kind-node_kind_name n.kind, described)
      (rw (read_language-language_name n.language, described)
        (ap (λ v. some (record n { meta = record n.meta { version = v } }))
          (sym (version_of_node n h))))

-- A node that satisfies its schema is read back from its properties unchanged.
pub from_node_props-to_node_props :
    (zod : Zod) (n : GraphNode)
    → is_graph_node n ≡ true
    → from_node_props zod (to_node_props n) ≡ ok n
unfolding from_node_props
from_node_props-to_node_props zod n h =
    parsed (described (to_node_props n)) (described-to_node_props n h)
  where
    parsed :
        (o : Option GraphNode)
        → o ≡ some n
        → (do
          found ← zod.parse (Option GraphNode) is_described o
          ok (parsed_node found (node_of (to_node_props n) file_kind unknown)))
          ≡ ok n
    parsed o e =
        rw e (rw (zod.accepts (Option GraphNode) is_described (some n) (unfold is_described in h)))

has-append_one :
    (j k : Text) (v : Attribute) (out : JsMap Attribute)
    → has j (out ++ (k, v) ∷ []) ≡ (has j out || k == j)
unfolding has
has-append_one j k v [] = ground arith
has-append_one j k v ((i, w) ∷ out) = ground (arith, has-append_one j k v out)

-- Every key but `__proto__`.
abbrev pub is_kept : Text × Attribute → Bool
is_kept e = not (e.0 == codes "__proto__")

keep_scalar-dropped :
    (json : Json) (k : Text) (v : Attribute) (out : JsMap Attribute)
    → (k == codes "__proto__") ≡ true
    → keep_scalar json out (k, some v) ≡ out
unfolding keep_scalar
keep_scalar-dropped json k v out t = rw t

keep_scalar-set :
    (json : Json) (k : Text) (v : Attribute) (out : JsMap Attribute)
    → (k == codes "__proto__") ≡ false
    → keep_scalar json out (k, some v) ≡ set k v out
unfolding keep_scalar
keep_scalar-set json k v out f = rw f

-- The loop over the entries keeps them, in their order and but for one, if their keys are distinct.
keep_scalar_all :
    (json : Json) (out a : JsMap Attribute)
    → ((k : Text) → In k (keys a) → has k out ≡ false)
    → Distinct (keys a)
    → foldl (keep_scalar json) out (map (λ e. (e.0, some e.1)) a) ≡ out ++ filter is_kept a
unfolding keep_scalar
keep_scalar_all json out [] new d = sym (append-nil out)
keep_scalar_all json out ((k, v) ∷ a) new d = elim (Bool-cases (k == codes "__proto__")) [
  | inl t ↦
      ap (λ o. foldl (keep_scalar json) o rest) (keep_scalar-dropped json k v out t)
      ∙ rw t (keep_scalar_all json out a (λ j i. new j (inr i)) d.1)
  | inr f ↦
      ap (λ o. foldl (keep_scalar json) o rest)
        (keep_scalar-set json k v out f ∙ length-set_new k v out (new k (inl refl)))
      ∙ keep_scalar_all json (out ++ (k, v) ∷ []) a
          (λ j i. has-append_one j k v out ∙ rw (new j (inr i)) (other j i)) d.1
      ∙ append_assoc out ((k, v) ∷ []) (filter is_kept a)
      ∙ rw f refl
]
  where
    rest : List (Text × Option Attribute)
    rest = map (λ e. (e.0, some e.1)) a

    other : (j : Text) → In j (keys a) → (k == j) ≡ false
    other j i = elim (Bool-cases (k == j)) [
      | inl t ↦ absurd (d.0 (subst (λ x. In x (keys a)) (sym ((eq_iff k j).0 t)) i))
      | inr f ↦ f
    ]

-- The attributes, an empty object left out.
abbrev pub without_empty : Option (List (Text × Attribute)) → Option (List (Text × Attribute))
without_empty none = none
without_empty (some []) = none
without_empty (some (e ∷ a)) = some (e ∷ a)

-- The attributes as they come back: without the key `__proto__`, and absent if no other is left.
abbrev pub as_read : Option (List (Text × Attribute)) → Option (List (Text × Attribute))
as_read none = none
as_read (some a) = without_empty (some (filter is_kept a))

-- Attributes as an object has them: no key twice, and every number finite.
abbrev pub IsPlain : Json → Option (List (Text × Attribute)) → Type 0
IsPlain json none = Unit
IsPlain json (some a) = Distinct (keys a) × (finite_numbers json.is_finite a ≡ true)

read_attributes_raw :
    (json : Json) (raw : Text) (l : List (Text × Option Attribute))
    → is_empty raw ≡ false
    → json.entries raw ≡ ok l
    → read_attributes json (some raw) ≡ unless_empty json (foldl (keep_scalar json) [] l)
unfolding read_attributes
read_attributes_raw json [] l e p = cc e
read_attributes_raw json (c ∷ raw) l e p = rw (p, read_attributes)

read_attributes-stringify :
    (json : Json) (a : List (Text × Attribute))
    → IsPlain json (some a)
    → read_attributes json (some (json.stringify a)) ≡ unless_empty json (filter is_kept a)
read_attributes-stringify json a (d, f) =
    read_attributes_raw json (json.stringify a) (map (λ e. (e.0, some e.1)) a) (json.printed a)
      (json.reads a f)
    ∙ ap (unless_empty json) (keep_scalar_all json [] a (λ k i. unfold has in refl) d)

unless_empty-eq :
    (json : Json) (a : List (Text × Attribute)) → unless_empty json a ≡ without_empty (some a)
unless_empty-eq json [] = refl
unless_empty-eq json (e ∷ a) = refl

read_back :
    (json : Json) (a : Option (List (Text × Attribute)))
    → IsPlain json a
    → read_attributes json (elim a [ none ↦ none | some l ↦ some (json.stringify l) ]) ≡ as_read a
read_back json none plain = unfold read_attributes in refl
read_back json (some l) plain =
    read_attributes-stringify json l plain ∙ unless_empty-eq json (filter is_kept l)

-- An edge that satisfies its schema is read back from its properties, its ends and its type
-- unchanged, and its attributes too, but for an empty object, which is left out, and for the key
-- `__proto__`, which is dropped.
pub from_edge_props-to_edge_props :
    (json : Json) (zod : Zod) (e : GraphEdge)
    → is_graph_edge e ≡ true
    → IsPlain json e.attributes
    → from_edge_props json zod (to_edge_props json e) e.src e.dst e.type
      ≡ ok (record e { attributes = as_read e.attributes })
unfolding from_edge_props edge_of to_edge_props
from_edge_props-to_edge_props json zod e h plain =
    ap (zod.parse GraphEdge is_graph_edge) (
      ap₂ {A = ℕ} {B = Option (List (Text × Attribute))}
        (λ v a. record e { meta = record e.meta { version = v }; attributes = a })
        (sym (version_of_edge e h)) (read_back json e.attributes plain))
    ∙ zod.accepts GraphEdge is_graph_edge (record e { attributes = as_read e.attributes })
        (unfold is_graph_edge in h)
