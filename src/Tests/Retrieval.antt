-- ===== src/Tests/Retrieval.antt =====
-- Tests of the retrieval pipeline.
use codesoul.Prelude.{
  ℕ, ◌*◌, ◌/◌, ◌≤◌, codes, ltb, ◌≡◌, ◌↔◌, refl, true, false, some, none, List, [], ◌∷◌, map, take,
  length, In, All, Perm, Descending, Distinct, sort_by, insert_by, inl, inr, arith, ◌==◌,
}
use codesoul.JsMap.{values, get, set, add, contains}
use codesoul.Core.Errors.{ok, raise}
use codesoul.Retrieval.{
  Scores, Candidate, RankedCandidate, RetrievalDeps, RetrievalInput, ContextBundle, exact, semantic,
  candidate_of, merge_candidates, merge_candidate, gather, retrieve, read_snippets,
  exact_candidates, semantic_candidates, hit_candidates, identifiers, split_words, is_identifier,
  expand, expand_nodes,
}
use codesoul.Core.Normalize.{is_space}
use codesoul.Retrieval.Merge.{IsOrder, IsTotalOrder, merge_candidates_best}
use codesoul.Retrieval.Bundle.{
  gather_distinct, retrieve_bundle, quoted, ranked_place, citation, IsLimit,
}
use codesoul.Tests.Samples.{node_a, node_b}

-- Scores in percent.
abbrev percents : Scores
percents = record { Number = ℕ; one = 100; gt = λ a b. ltb b a; spread = λ a. a * 8 / 10 }

percents-IsOrder : IsOrder percents
percents-IsOrder = record { same = λ a. ground arith; below = λ a b c p q. ground arith }

abbrev weaker : Candidate ℕ
weaker = candidate_of semantic 80 node_a

abbrev two : List (Candidate ℕ)
two = candidate_of exact 100 node_a ∷ weaker ∷ []

merge_candidates_best_example :
    Distinct (map (λ x. x.node_id) (values (merge_candidates percents two)))
    × (y : Candidate ℕ) × In y two
    × ((z : Candidate ℕ)
        → (In z (values (merge_candidates percents two)) × (z.node_id ≡ weaker.node_id)) ↔ (z ≡ y))
    × ((d : Candidate ℕ) → In d two → d.node_id ≡ weaker.node_id → ltb y.score d.score ≡ false)
merge_candidates_best_example =
    merge_candidates_best percents two weaker percents-IsOrder (inr (inl refl))

-- A graph of two nodes, no vectors, and a reranker that keeps the scores.
abbrev small : RetrievalDeps ℕ
small = record {
  find_by_qualified_name = λ name. ok (node_a ∷ []);
  get_node = λ id. ok none;
  neighbors = λ id options. ok (record { nodes = node_a ∷ node_b ∷ []; edges = [] });
  search = λ vector limit filter. ok [];
  embedder = record {
    model_id = codes "mock";
    model_revision = codes "0";
    dimension = 1024;
    embed = λ inputs. ok [];
  };
  rerank = λ query cs. ok (map (λ c. record { candidate = c; rerank_score = c.score }) cs);
  read_range = λ path lines. ok (codes "text");
  decimal = λ n. codes "1";
}

abbrev question : RetrievalInput
question = record { query = codes "f"; limit = some 1; filter_by = none }

abbrev gathered : List (Candidate ℕ)
gathered = elim (gather percents small question) [ ok cs ↦ cs | raise e ↦ [] ]

gather-eq : gather percents small question ≡ ok gathered
unfolding gather exact_candidates semantic_candidates hit_candidates identifiers split_words
    is_identifier is_space expand expand_nodes merge_candidates merge_candidate candidate_of get set
    add contains ◌==◌
gather-eq = refl

gather_distinct_example : (length gathered ≤ 60) × Distinct (map (λ c. c.node_id) gathered)
gather_distinct_example = gather_distinct percents small question gathered gather-eq

abbrev empty_bundle : ContextBundle
empty_bundle = record { query = []; snippets = []; citations = []; total = 0; used = 0 }

abbrev bundle : ContextBundle
bundle = elim (retrieve percents small question) [ ok b ↦ b | raise e ↦ empty_bundle ]

retrieve-eq : retrieve percents small question ≡ ok bundle
unfolding retrieve read_snippets gather exact_candidates semantic_candidates hit_candidates
    identifiers split_words is_identifier is_space expand expand_nodes merge_candidates
    merge_candidate candidate_of get set add contains ◌==◌ sort_by insert_by
retrieve-eq = refl

percents-IsTotalOrder : IsTotalOrder percents
percents-IsTotalOrder = record { below = λ a b. below a b; through = λ a b c. through a b c }
  where
    below : (a b : ℕ) → ltb b a ≡ true → ltb a b ≡ false
    below a b t = ground arith

    through : (a b c : ℕ) → ltb a b ≡ false → ltb b c ≡ false → ltb a c ≡ false
    through a b c f g = ground arith

retrieve_bundle_example :
    (cs : List (Candidate ℕ)) × (ranked best : List (RankedCandidate ℕ)) × (n : ℕ) × (gather
        percents small question
      ≡ ok cs)
    × (small.rerank question.query cs ≡ ok ranked)
    × Perm best ranked
    × Descending percents.gt (λ c. c.rerank_score) best
    × IsLimit percents small question n
    × (map (quoted percents small question) bundle.snippets
        ≡ map (ranked_place percents small question) (take n best))
    × All (λ s. small.read_range s.path s.lines ≡ ok s.text) bundle.snippets
    × (bundle.citations
        ≡ map (λ s. citation percents small question s.path s.lines) bundle.snippets)
retrieve_bundle_example =
    retrieve_bundle percents small question bundle percents-IsTotalOrder retrieve-eq
