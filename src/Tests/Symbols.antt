-- ===== src/Tests/Symbols.antt =====
-- A driver over a database of symbols that knows one relationship, and a `JSON` of attributes.
use codesoul.Prelude.{
  ℕ, zero, suc, Text, codes, ◌==◌, eq_iff, eq_refl, ◌≡◌, refl, sym, ap, ◌∙◌, Bool, true, false,
  ◌&&◌, Option, none, some, List, [], ◌∷◌, ◌++◌, append-nil, append_assoc, find, map, filter,
  limited, In, In-append_left, In-append_right, In-append_cases, ◌⊎◌, inl, inr, Bool-cases, arith,
  if◌then◌else◌,
}
use codesoul.JsMap.{contains}
use codesoul.JsMap.Laws.{In_of_contains, contains_of_In}
use codesoul.Core.Errors.{ok, raise, plain_error}
use codesoul.Core.Enums.{edge_type_name, calls}
use codesoul.Core.Schema.{Attribute, string_attribute, number_attribute, boolean_attribute}
use mathlib.Core.Path.{ap₂, subst}
use codesoul.Graph.{Direction, follows_out, follows_in}
use codesoul.Neo4j.{Driver, PathMatch, last_with_id}
use codesoul.Neo4j.Mapping.{NodeProps, EdgeProps, Json, to_edge_props}
use codesoul.Tests.Samples.{edge_ab, sym_a, sym_b}

abbrev has_id : Text → NodeProps → Bool
has_id id p = p.id == id

first : (p q : NodeProps) → some q ≡ some p → p ≡ q
first p q h = cc h

pub find_keyed :
    (id : Text) (ps : List NodeProps) (p : NodeProps) → find (has_id id) ps ≡ some p → p.id ≡ id
find_keyed id [] p h = cc h
find_keyed id (q ∷ ps) p h = elim (Bool-cases (q.id == id)) [
  | inl t ↦ ap {A = NodeProps} (λ x. x.id) (first p q (rw t at h)) ∙ (eq_iff q.id id).0 t
  | inr f ↦ find_keyed id ps p (rw f at h)
]

-- A graph of symbols; whether the edge from a to b is there, between symbols that are.
pub record Symbols : Type 0 where
  pub symbols : List NodeProps
  pub linked : Bool
  pub ends :
      linked ≡ true
      → ((q : NodeProps) × (find (has_id sym_a) symbols ≡ some q))
        × ((q : NodeProps) × (find (has_id sym_b) symbols ≡ some q))

abbrev merge_into : List NodeProps → List NodeProps → List NodeProps
merge_into [] old = old
merge_into (p ∷ ps) old = merge_into ps (p ∷ old)

pub find-merge_into :
    (id : Text) (ps old : List NodeProps)
    → find (has_id id) (merge_into ps old) ≡ last_with_id id ps (find (has_id id) old)
find-merge_into id [] old = refl
find-merge_into id (p ∷ ps) old = find-merge_into id ps (p ∷ old)

pub last_with_id-some :
    (id : Text) (ps : List NodeProps) (o : Option NodeProps)
    → ((q : NodeProps) × (o ≡ some q))
    → (q : NodeProps) × (last_with_id id ps o ≡ some q)
last_with_id-some id [] o h = h
last_with_id-some id (p ∷ ps) o (q, e) =
    last_with_id-some id ps _
      (elim (Bool-cases (p.id == id)) [ inl t ↦ (p, rw t) | inr f ↦ (q, rw f e) ])

abbrev shifted : Text → Text
shifted [] = []
shifted (c ∷ t) = suc (suc (suc c)) ∷ shifted t

abbrev tag_of : Attribute → ℕ
tag_of (string_attribute t) = 0
tag_of (number_attribute t) = 1
tag_of (boolean_attribute b) = 2

abbrev text_of : Attribute → Text
text_of (string_attribute t) = t
text_of (number_attribute t) = t
text_of (boolean_attribute true) = 0 ∷ []
text_of (boolean_attribute false) = []

abbrev attribute_of : ℕ → Text → Attribute
attribute_of zero t = string_attribute t
attribute_of (suc zero) t = number_attribute t
attribute_of (suc (suc n)) [] = boolean_attribute false
attribute_of (suc (suc n)) (c ∷ t) = boolean_attribute true

attribute_of-tag_of : (v : Attribute) → attribute_of (tag_of v) (text_of v) ≡ v
attribute_of-tag_of (string_attribute t) = refl
attribute_of-tag_of (number_attribute t) = refl
attribute_of-tag_of (boolean_attribute true) = refl
attribute_of-tag_of (boolean_attribute false) = refl

-- A format of entries: the key, a tag, the value and an end mark; the characters lie above the tags.
abbrev print : List (Text × Attribute) → Text
print [] = []
print ((k, v) ∷ a) = shifted k ++ (tag_of v ∷ (shifted (text_of v) ++ (0 ∷ print a)))

pub data Reader : Type 0 where
  in_key : Text → Reader
  in_value : Text → ℕ → Text → Reader

abbrev read : Reader → Text → List (Text × Option Attribute)
read s [] = []
read (in_key k) (suc (suc (suc c)) ∷ t) = read (in_key (k ++ c ∷ [])) t
read (in_key k) (tag ∷ t) = read (in_value k tag []) t
read (in_value k tag v) (zero ∷ t) = (k, some (attribute_of tag v)) ∷ read (in_key []) t
read (in_value k tag v) (suc (suc (suc c)) ∷ t) = read (in_value k tag (v ++ c ∷ [])) t
read (in_value k tag v) (_ ∷ t) = []

read_key : (k l t : Text) → read (in_key k) (shifted l ++ t) ≡ read (in_key (k ++ l)) t
read_key k [] t = ap (λ x. read (in_key x) t) (sym (append-nil k))
read_key k (c ∷ l) t =
    read_key (k ++ c ∷ []) l t ∙ ap (λ x. read (in_key x) t) (append_assoc k (c ∷ []) l)

read_value :
    (k v l t : Text) (tag : ℕ)
    → read (in_value k tag v) (shifted l ++ t) ≡ read (in_value k tag (v ++ l)) t
read_value k v [] t tag = ap (λ x. read (in_value k tag x) t) (sym (append-nil v))
read_value k v (c ∷ l) t tag =
    read_value k (v ++ c ∷ []) l t tag
    ∙ ap (λ x. read (in_value k tag x) t) (append_assoc v (c ∷ []) l)

read_tag :
    (k t : Text) (v : Attribute)
    → read (in_key k) (tag_of v ∷ t) ≡ read (in_value k (tag_of v) []) t
read_tag k t (string_attribute x) = refl
read_tag k t (number_attribute x) = refl
read_tag k t (boolean_attribute x) = refl

pub read-print :
    (a : List (Text × Attribute)) → read (in_key []) (print a) ≡ map (λ e. (e.0, some e.1)) a
read-print [] = refl
read-print ((k, v) ∷ a) =
    read_key [] k (tag_of v ∷ (shifted (text_of v) ++ (0 ∷ print a)))
    ∙ read_tag k (shifted (text_of v) ++ (0 ∷ print a)) v
    ∙ read_value k [] (text_of v) (0 ∷ print a) (tag_of v)
    ∙ ap₂ (λ x l. (k, some x) ∷ l) (attribute_of-tag_of v) (read-print a)

abbrev entries_of : Text → List (Text × Option Attribute)
entries_of [] = []
entries_of (c ∷ t) = read (in_key []) t

abbrev pub json_of_tests : Json
json_of_tests = record {
  stringify = λ a. 0 ∷ print a;
  entries = λ t. ok (entries_of t);
  is_finite = λ t. true;
  printed = λ a. refl;
  reads = λ a h. ap ok (read-print a);
}

abbrev symbol : Symbols → Text → Option NodeProps
symbol g id = find (has_id id) g.symbols

abbrev pub call_props : EdgeProps
call_props = to_edge_props json_of_tests edge_ab

abbrev is_call : Text → Text → Text → Bool
is_call a t b = (a == sym_a) && ((t == edge_type_name calls) && (b == sym_b))

abbrev pub relation : Symbols → Text → Text → Text → Option EdgeProps
relation g a t b = if g.linked && is_call a t b then some call_props else none

-- What `relation` finds is the one relationship.
pub relation_cases :
    (g : Symbols) (a t b : Text) (p : EdgeProps)
    → relation g a t b ≡ some p
    → (g.linked ≡ true) × (a ≡ sym_a) × (t ≡ edge_type_name calls) × (b ≡ sym_b) × (p ≡ call_props)
relation_cases g a t b p h = elim (Bool-cases (g.linked && is_call a t b)) [
  | inr f ↦ cc (rw f at h)
  | inl y ↦ (
    ground arith,
    (eq_iff a sym_a).0 (ground arith),
    (eq_iff t (edge_type_name calls)).0 (ground arith),
    (eq_iff b sym_b).0 (ground arith),
    cc (rw y at h),
  )
]

pub relation_call :
    (g : Symbols)
    → g.linked ≡ true
    → relation g sym_a (edge_type_name calls) sym_b ≡ some call_props
relation_call g h =
    rw h (rw (eq_refl sym_a) (rw (eq_refl (edge_type_name calls)) (rw (eq_refl sym_b))))

abbrev pub merge : List NodeProps → Symbols → Symbols
merge ps g = record {
  symbols = merge_into ps g.symbols;
  linked = g.linked;
  ends = λ l.
      let (a, b) = g.ends l in
      (
        subst (λ o. (q : NodeProps) × (o ≡ some q)) (sym (find-merge_into sym_a ps g.symbols))
            (last_with_id-some sym_a ps (symbol g sym_a) a),
        subst (λ o. (q : NodeProps) × (o ≡ some q)) (sym (find-merge_into sym_b ps g.symbols))
            (last_with_id-some sym_b ps (symbol g sym_b) b),
      );
}

abbrev call_match : Text → NodeProps → PathMatch
call_match start other = record {
  start_id = start;
  from_id = sym_a;
  rel_type = edge_type_name calls;
  rel_props = call_props;
  other = other;
}

-- The call, seen from one of its ends, if the test holds and the other end is there.
abbrev match_if : Bool → Text → Option NodeProps → List PathMatch
match_if false start o = []
match_if true start none = []
match_if true start (some p) = call_match start p ∷ []

abbrev paths_of : Direction → List Text → Symbols → List PathMatch
paths_of d ids g =
    match_if (g.linked && (follows_out d && contains sym_a ids)) sym_a (symbol g sym_b)
    ++ match_if (g.linked && (follows_in d && contains sym_b ids)) sym_b (symbol g sym_a)

In_of_In-match_if :
    (c : Bool) (start : Text) (o : Option NodeProps) (m : PathMatch)
    → In m (match_if c start o)
    → (c ≡ true) × (p : NodeProps) × (o ≡ some p) × (m ≡ call_match start p)
In_of_In-match_if false start o m i = elim i [ ]
In_of_In-match_if true start none m i = elim i [ ]
In_of_In-match_if true start (some p) m (inl e) = (refl, p, refl, e)
In_of_In-match_if true start (some p) m (inr i) = elim i [ ]

In-match_if :
    (c : Bool) (start : Text) (o : Option NodeProps) (p : NodeProps)
    → c ≡ true
    → o ≡ some p
    → In (call_match start p) (match_if c start o)
In-match_if c start o p h e = rw (h, e) (inl refl)

abbrev Matched : Direction → List Text → Symbols → PathMatch → Type 0
Matched d ids g m =
    In m.start_id ids
    × (symbol g m.other.id ≡ some m.other)
    × (((follows_out d ≡ true)
          × (m.from_id ≡ m.start_id)
          × (relation g m.start_id m.rel_type m.other.id ≡ some m.rel_props))
        ⊎ ((follows_in d ≡ true)
            × (m.from_id ≡ m.other.id)
            × (relation g m.other.id m.rel_type m.start_id ≡ some m.rel_props)))

pub paths_of_only :
    (d : Direction) (ids : List Text) (g : Symbols) (m : PathMatch)
    → In m (paths_of d ids g)
    → Matched d ids g m
paths_of_only d ids g m i =
    elim (In-append_cases m
      (match_if (g.linked && (follows_out d && contains sym_a ids)) sym_a (symbol g sym_b))
      (match_if (g.linked && (follows_in d && contains sym_b ids)) sym_b (symbol g sym_a)) i) [
        | inl j ↦
            let (c, p, o, e) = In_of_In-match_if _ sym_a (symbol g sym_b) m j in
            let own = find_keyed sym_b g.symbols p o in
            subst (Matched d ids g) (sym e) (
              In_of_contains sym_a ids (ground arith),
              ap (symbol g) own ∙ o,
              inl (
                ground arith,
                refl,
                ap (relation g sym_a (edge_type_name calls)) own ∙ relation_call g (ground arith),
              ),
            )
        | inr j ↦
            let (c, p, o, e) = In_of_In-match_if _ sym_b (symbol g sym_a) m j in
            let own = find_keyed sym_a g.symbols p o in
            subst (Matched d ids g) (sym e) (
              In_of_contains sym_b ids (ground arith),
              ap (symbol g) own ∙ o,
              inr (
                ground arith,
                sym own,
                ap {A = Text} (λ a. relation g a (edge_type_name calls) sym_b) own
                    ∙ relation_call g (ground arith),
              ),
            )
      ]

is_call_match :
    (m : PathMatch) (start : Text)
    → m.start_id ≡ start
    → m.from_id ≡ sym_a
    → m.rel_type ≡ edge_type_name calls
    → m.rel_props ≡ call_props
    → m ≡ call_match start m.other
is_call_match m start s a t p =
    ap₂ {A = Text} {B = Text} (λ x y. record m { start_id = x; from_id = y }) s a
    ∙ ap₂ {A = Text} {B = EdgeProps}
        (λ x y. record m { start_id = start; from_id = sym_a; rel_type = x; rel_props = y }) t p

pub paths_of_all :
    (d : Direction) (ids : List Text) (g : Symbols) (m : PathMatch)
    → Matched d ids g m
    → In m (paths_of d ids g)
paths_of_all d ids g m (i, at, way) =
    let outs =
      match_if (g.linked && (follows_out d && contains sym_a ids)) sym_a (symbol g sym_b) in
    let ins = match_if (g.linked && (follows_in d && contains sym_b ids)) sym_b (symbol g sym_a) in
    elim way [
      | inl (out, from, rel) ↦
          let (linked, a, t, b, p) =
            relation_cases g m.start_id m.rel_type m.other.id m.rel_props rel in
          let test : (g.linked && (follows_out d && contains sym_a ids)) ≡ true =
            rw (linked, out, contains_of_In sym_a ids (subst (λ x. In x ids) a i)) in
          In-append_left m outs ins (
            subst (λ x. In x outs) (sym (is_call_match m sym_a a (from ∙ a) t p))
              (In-match_if _ sym_a (symbol g sym_b) m.other test (ap (symbol g) (sym b) ∙ at)))
      | inr (back, from, rel) ↦
          let (linked, a, t, b, p) =
            relation_cases g m.other.id m.rel_type m.start_id m.rel_props rel in
          let test : (g.linked && (follows_in d && contains sym_b ids)) ≡ true =
            rw (linked, back, contains_of_In sym_b ids (subst (λ x. In x ids) b i)) in
          In-append_right m outs ins (
            subst (λ x. In x ins) (sym (is_call_match m sym_b b (from ∙ a) t p))
              (In-match_if _ sym_b (symbol g sym_a) m.other test (ap (symbol g) (sym a) ∙ at)))
    ]

abbrev list_of : Option NodeProps → List NodeProps
list_of none = []
list_of (some p) = p ∷ []

abbrev pub driver_of_symbols : Driver
driver_of_symbols = record {
  Graph = Symbols;
  symbol = symbol;
  relation = relation;
  run = λ statement g. raise (plain_error (codes "no permission"));
  merge_symbols = merge;
  merge_relations = λ type rows g. g;
  match_symbol = λ id g. list_of (symbol g id);
  match_paths = paths_of;
  match_symbols = λ p limit g. limited limit (filter p g.symbols);
  match_relations = λ type p limit g. [];
  keyed = λ g id p h. find_keyed id g.symbols p h;
  has_ends = λ g a t b p h.
      let (linked, ea, et, eb, _) = relation_cases g a t b p h in
      let (x, y) = g.ends linked in
      (
        subst (λ i. (q : NodeProps) × (symbol g i ≡ some q)) (sym ea) x,
        subst (λ i. (q : NodeProps) × (symbol g i ≡ some q)) (sym eb) y,
      );
  finds = λ g id p h. ap list_of h;
  misses = λ g id h. ap list_of h;
  merges_symbols = λ g ps id. find-merge_into id ps g.symbols;
  keeps_relations = λ g ps a t b. refl;
  paths = λ g d ids m. (paths_of_only d ids g m, paths_of_all d ids g m);
}
