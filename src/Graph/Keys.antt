-- ===== src/Graph/Keys.antt =====
-- The key of an edge determines the edge's identity: its source, type and destination.
use codesoul.Prelude.{
  ℕ, zero, suc, ◌+◌, Text, codes, ◌≡◌, refl, ap, true, [], ◌∷◌, ◌++◌, drop, length, length-append,
  arith,
}
use codesoul.Core.Ids.{is_sym_id, is_hex_text, matches_prefixed}
use codesoul.Core.Enums.{edge_type_name, edge_type_name-injective}
use codesoul.Core.Schema.{GraphEdge, is_graph_edge}
use codesoul.Graph.{edge_key}

append-injective : (a b x y : Text) → length a ≡ length b → a ++ x ≡ b ++ y → (a ≡ b) × (x ≡ y)
append-injective [] [] x y h e = (refl, e)
append-injective [] (d ∷ b) x y h e = absurd (omega arith)
append-injective (c ∷ a) [] x y h e = absurd (omega arith)
append-injective (c ∷ a) (d ∷ b) x y h e =
    let (p, q) = append-injective a b x y (omega arith) (ap (drop 1) e) in (cc (e, p), q)

length-is_hex_text : (n : ℕ) (s : Text) → is_hex_text n s ≡ true → length s ≡ n
unfolding is_hex_text
length-is_hex_text zero [] h = refl
length-is_hex_text zero (c ∷ s) h = cc
length-is_hex_text (suc n) [] h = cc
length-is_hex_text (suc n) (c ∷ s) h = ap suc (length-is_hex_text n s (ground arith))

length-matches_prefixed :
    (p : Text) (n : ℕ) (s : Text) → matches_prefixed p n s ≡ true → length s ≡ length p + n
unfolding matches_prefixed
length-matches_prefixed [] n s h = omega (arith, length-is_hex_text n s h)
length-matches_prefixed (c ∷ p) n [] h = cc
length-matches_prefixed (c ∷ p) n (d ∷ s) h =
    omega (arith, length-matches_prefixed p n s (ground arith))

length-is_sym_id : (s : Text) → is_sym_id s ≡ true → length s ≡ 44
unfolding is_sym_id
length-is_sym_id s h = length-matches_prefixed (codes "sym_") 40 s h

module _ (e : GraphEdge) (h : is_graph_edge e ≡ true) where
  length-src : length e.src ≡ 44
  length-src = length-is_sym_id e.src (unfold is_graph_edge in ground arith)

  length-dst : length e.dst ≡ 44
  length-dst = length-is_sym_id e.dst (unfold is_graph_edge in ground arith)

-- What follows the source in the key.
tail_of : GraphEdge → Text
tail_of e = codes "|" ++ (edge_type_name e.type ++ (codes "|" ++ e.dst))

-- The destinations being as long as each other, so are the types.
same_length :
    (d e : GraphEdge)
    → is_graph_edge d ≡ true
    → is_graph_edge e ≡ true
    → edge_type_name d.type ++ (codes "|" ++ d.dst) ≡ edge_type_name e.type ++ (codes "|" ++ e.dst)
    → length (edge_type_name d.type) ≡ length (edge_type_name e.type)
same_length d e h k p = omega (
  arith,
  ap length p,
  length-append {0} (edge_type_name d.type) (codes "|" ++ d.dst),
  length-append {0} (edge_type_name e.type) (codes "|" ++ e.dst),
  length-dst d h,
  length-dst e k,
)

-- Two edges that satisfy the schema share a key only if source, type and destination agree, so
-- `upsertEdges` replaces an edge only by one between the same nodes with the same type.
pub edge_key-injective :
    (d e : GraphEdge)
    → is_graph_edge d ≡ true
    → is_graph_edge e ≡ true
    → edge_key d ≡ edge_key e
    → (d.src ≡ e.src) × (d.type ≡ e.type) × (d.dst ≡ e.dst)
unfolding edge_key tail_of
edge_key-injective d e h k p =
    let (src, rest) =
      append-injective d.src e.src (tail_of d) (tail_of e)
        (omega (arith, length-src d h, length-src e k)) p in
    let names : edge_type_name d.type ++ (codes "|" ++ d.dst)
        ≡ edge_type_name e.type ++ (codes "|" ++ e.dst) =
      ap (drop 1) rest in
    let (type, end) =
      append-injective (edge_type_name d.type) (edge_type_name e.type) (codes "|" ++ d.dst)
        (codes "|" ++ e.dst) (same_length d e h k names) names in
    (src, edge_type_name-injective d.type e.type type, ap (drop 1) end)
