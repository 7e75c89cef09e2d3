-- ===== src/Retrieval.antt =====
-- packages/retrieval/src/pipeline.ts and packages/core/src/schema/retrieval.ts: the retrieval
-- pipeline over the interfaces of the stores, the embedder, the reranker and the source provider.
pub mod Merge
pub mod Bundle
use codesoul.Prelude.{
  ℕ, Text, codes, ◌==◌, leb, nat_eq, Bool, true, false, not, ◌&&◌, ◌||◌, Option, none, some, List,
  [], ◌∷◌, ◌++◌, map, foldl, take, filter, sort_by, if◌then◌else◌,
}
use codesoul.JsMap.{JsMap, JsSet, get, set, values, contains, add}
use codesoul.Core.Errors.{Result, ok, raise, ◌>>=◌}
use codesoul.Core.Normalize.{is_space}
use codesoul.Core.Enums.{PayloadKind}
use codesoul.Core.Schema.{GraphNode}
use codesoul.Embedder.{EmbedInput, query_input, EmbeddingResult, Embedder}
use codesoul.Graph.{Direction, both, TraversalOptions, GraphQueryResult}

-- The floating-point numbers of the scores: `1`, `a > b` and `Math.max(0, a * 0.8)`.
pub record Scores : Type 1 where
  pub Number : Type 0
  pub one : Number
  pub gt : Number → Number → Bool
  pub spread : Number → Number

abbrev pub exact_symbol_hits : ℕ
exact_symbol_hits = 20

abbrev pub semantic_hits : ℕ
semantic_hits = 30

abbrev pub graph_expanded_hits : ℕ
graph_expanded_hits = 30

abbrev pub rerank_input : ℕ
rerank_input = 60

abbrev pub final_snippets : ℕ
final_snippets = 10

abbrev pub context_budget_total : ℕ
context_budget_total = 8000

pub data CandidateSource : Type 0 where
  exact semantic graph : CandidateSource

pub record Candidate (Number : Type 0) : Type 0 where
  pub node_id : Text
  pub source : CandidateSource
  pub score : Number
  pub evidence_path : Text
  pub evidence_lines : ℕ × ℕ

pub record RankedCandidate (Number : Type 0) : Type 0 where
  pub candidate : Candidate Number
  pub open candidate use *
  pub rerank_score : Number

pub record VectorSearchFilter : Type 0 where
  pub repo_id : Option Text
  pub index_run_id : Option Text
  pub payload_kind : Option PayloadKind

pub record VectorSearchHit (Number : Type 0) : Type 0 where
  pub node_id : Text
  pub score : Number
  pub payload_kind : PayloadKind

-- The operations of the interfaces that the pipeline calls; each may throw. `decimal` is the
-- decimal numeral of a number in a template string.
pub record RetrievalDeps (Number : Type 0) : Type 0 where
  pub find_by_qualified_name : Text → Result (List GraphNode)
  pub get_node : Text → Result (Option GraphNode)
  pub neighbors : Text → TraversalOptions → Result GraphQueryResult
  pub search : List Number → ℕ → Option VectorSearchFilter → Result (List (VectorSearchHit Number))
  pub embedder : Embedder Number
  pub rerank : Text → List (Candidate Number) → Result (List (RankedCandidate Number))
  pub read_range : Text → ℕ × ℕ → Result Text
  pub decimal : ℕ → Text

pub record RetrievalInput : Type 0 where
  pub query : Text
  pub limit : Option ℕ
  pub filter_by : Option VectorSearchFilter

pub record Snippet : Type 0 where
  pub node_id : Text
  pub path : Text
  pub lines : ℕ × ℕ
  pub text : Text

pub record ContextBundle : Type 0 where
  pub query : Text
  pub snippets : List Snippet
  pub citations : List Text
  pub total : ℕ
  pub used : ℕ

-- `query.split(/\s+/)`: `word` is the word that is being read, and `in_run` tells that the unit
-- before is in the run of white space that ended it.
unfoldable pub split_words : Bool → Text → Text → List Text
split_words in_run word [] = word ∷ []
split_words in_run word (c ∷ s) =
    let inside = split_words false (word ++ c ∷ []) s in
    let again = split_words true word s in
    let ended = split_words true [] s in
    if is_space c then (if in_run then again else word ∷ ended) else inside

-- `[A-Za-z_]` and `\w`
abbrev pub is_letter : ℕ → Bool
is_letter c = (leb 65 c && leb c 90) || (leb 97 c && leb c 122) || nat_eq c 95

abbrev pub is_word_unit : ℕ → Bool
is_word_unit c = is_letter c || (leb 48 c && leb c 57)

abbrev pub all_units : (ℕ → Bool) → Text → Bool
all_units p [] = true
all_units p (c ∷ s) = p c && all_units p s

-- `/^[A-Za-z_][\w]*$/`
unfoldable pub is_identifier : Text → Bool
is_identifier [] = false
is_identifier (c ∷ s) = is_letter c && all_units is_word_unit s

unfoldable pub identifiers : Text → List Text
identifiers query = filter is_identifier (split_words false [] query)

unfoldable pub candidate_of :
    {Number : Type 0} → CandidateSource → Number → GraphNode → Candidate Number
candidate_of source score n = record {
  node_id = n.id;
  source = source;
  score = score;
  evidence_path = n.path;
  evidence_lines = (n.evidence.start_line, n.evidence.end_line);
}

module _ (scores : Scores) where
  -- The loop of the merge: a candidate replaces the one with its id only if its score is higher.
  unfoldable pub merge_candidate :
      JsMap (Candidate scores.Number) → Candidate scores.Number → JsMap (Candidate scores.Number)
  merge_candidate merged c = elim (get c.node_id merged) [
    | none ↦ set c.node_id c merged
    | some existing ↦ if scores.gt c.score existing.score then set c.node_id c merged else merged
  ]

  unfoldable pub merge_candidates : List (Candidate scores.Number) → JsMap (Candidate scores.Number)
  merge_candidates = foldl merge_candidate []

  -- The inner loop of the expansion, over the neighbours of `c`: the set `seenForExpansion` and the
  -- candidates pushed so far.
  unfoldable pub expand_nodes :
      Candidate scores.Number
      → List GraphNode
      → JsSet × List (Candidate scores.Number)
      → JsSet × List (Candidate scores.Number)
  expand_nodes c [] st = st
  expand_nodes c (n ∷ ns) (seen, out) =
      let skipped = expand_nodes c ns (seen, out) in
      let pushed =
        expand_nodes c ns
          (add n.id seen, out ++ candidate_of graph (scores.spread c.score) n ∷ []) in
      if n.id == c.node_id then skipped else if contains n.id seen then skipped else pushed

  -- `ranked.sort((a, b) => b.rerankScore - a.rerankScore)`
  abbrev pub ranks_before : RankedCandidate scores.Number → RankedCandidate scores.Number → Bool
  ranks_before a b = not (scores.gt b.rerank_score a.rerank_score)

  module _ (deps : RetrievalDeps scores.Number) where
    unfoldable pub exact_candidates : List Text → Result (List (Candidate scores.Number))
    exact_candidates [] = ok []
    exact_candidates (ident ∷ rest) = do
      matches ← deps.find_by_qualified_name ident
      more ← exact_candidates rest
      ok (map (candidate_of exact scores.one) (take exact_symbol_hits matches) ++ more)

    unfoldable pub hit_candidates :
        List (VectorSearchHit scores.Number) → Result (List (Candidate scores.Number))
    hit_candidates [] = ok []
    hit_candidates (hit ∷ rest) = do
      found ← deps.get_node hit.node_id
      more ← hit_candidates rest
      elim found [
        | none ↦ ok more
        | some n ↦ ok (record (candidate_of semantic hit.score n) { node_id = hit.node_id } ∷ more)
      ]

    unfoldable pub semantic_candidates : RetrievalInput → Result (List (Candidate scores.Number))
    semantic_candidates input = do
      embeddings ← deps.embedder.embed (query_input (codes "default") input.query ∷ [])
      elim embeddings [
        | [] ↦ ok []
        | e ∷ rest ↦ deps.search e.vector semantic_hits input.filter_by >>= hit_candidates
      ]

    abbrev pub one_hop : TraversalOptions
    one_hop = record {
      depth = 1;
      edge_types = none;
      direction = some both;
      limit = some graph_expanded_hits;
    }

    -- The outer loop of the expansion.
    unfoldable pub expand :
        List (Candidate scores.Number)
        → JsSet × List (Candidate scores.Number)
        → Result (JsSet × List (Candidate scores.Number))
    expand [] st = ok st
    expand (c ∷ cs) st = do
      expanded ← deps.neighbors c.node_id one_hop
      expand cs (expand_nodes c expanded.nodes st)

    unfoldable pub read_snippets : List (RankedCandidate scores.Number) → Result (List Snippet)
    read_snippets [] = ok []
    read_snippets (c ∷ cs) = do
      text ← deps.read_range c.evidence_path c.evidence_lines
      more ← read_snippets cs
      ok (
          record {
            node_id = c.node_id;
            path = c.evidence_path;
            lines = c.evidence_lines;
            text = text;
          }
          ∷ more)

    -- `${path}:${start}-${end}`
    abbrev pub cite : Text → ℕ × ℕ → Text
    cite path (start, last) =
        path ++ (codes ":" ++ (deps.decimal start ++ (codes "-" ++ deps.decimal last)))

    -- Steps 2 to 5: what is handed to the reranker.
    unfoldable pub gather : RetrievalInput → Result (List (Candidate scores.Number))
    gather input = do
      exacts ← exact_candidates (identifiers input.query)
      semantics ← semantic_candidates input
      let base = exacts ++ semantics
      (_, graphs) ← expand base (foldl (λ s c. add c.node_id s) [] base, [])
      ok (take rerank_input (values (merge_candidates (base ++ graphs))))

    abbrev pub limit_of : RetrievalInput → ℕ
    limit_of input = elim input.limit [ none ↦ final_snippets | some n ↦ n ]

    unfoldable pub retrieve : RetrievalInput → Result ContextBundle
    retrieve input = do
      candidates ← gather input
      ranked ← deps.rerank input.query candidates
      let final = take (limit_of input) (sort_by ranks_before ranked)
      snippets ← read_snippets final
      ok (record {
        query = input.query;
        snippets = snippets;
        citations = map (λ c. cite c.evidence_path c.evidence_lines) final;
        total = context_budget_total;
        used = 0;
      })
