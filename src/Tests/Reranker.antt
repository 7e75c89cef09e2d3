-- ===== src/Tests/Reranker.antt =====
-- Tests of the HTTP reranker and of the fallback around it.
use codesoul.Prelude.{
  ℕ, Text, codes, ◌==◌, ◌≡◌, refl, sym, ap, true, Option, some, none, List, [], ◌∷◌, map, inr,
}
use codesoul.Core.Errors.{Result, ok}
use codesoul.Embedder.Http.{Response, responded, timed_out}
use codesoul.Retrieval.{Candidate, RankedCandidate, exact, semantic, candidate_of}
use codesoul.Reranker.{mock_reranker, fallback_reranker}
use codesoul.Reranker.Http.{
  RerankPlatform, HttpReranker, HttpRerankResponse, read_texts, rerank_receive, rerank_validate,
  check_scores, rank, http_rerank, http_reranker,
}
use codesoul.Reranker.Answers.{http_rerank-candidates}
use codesoul.Reranker.Failover.{failover_always}
use codesoul.Tests.Samples.{node_a, node_b}

abbrev cs : List (Candidate ℕ)
cs = candidate_of {Number = ℕ} exact 100 node_a ∷ candidate_of {Number = ℕ} semantic 80 node_b ∷ []

abbrev answer : HttpRerankResponse ℕ
answer = record { model_id = codes "m"; model_revision = codes "0"; scores = 3 ∷ 7 ∷ [] }

abbrev healthy : Response Text
healthy = record { is_ok = true; status = 200; status_text = codes "OK"; json = inr (codes "{}") }

abbrev server : RerankPlatform ℕ
server = record {
  Json = Text;
  read_range = λ path lines. ok (codes "text");
  fetch = λ url headers timeout request. responded healthy;
  safe_parse = λ raw. inr answer;
  decimal = λ n. codes "0";
}

-- A server that never answers.
abbrev silent : RerankPlatform ℕ
silent = record {
  Json = Text;
  read_range = λ path lines. ok (codes "text");
  fetch = λ url headers timeout request. timed_out;
  safe_parse = λ raw. inr answer;
  decimal = λ n. codes "0";
}

abbrev adapter : HttpReranker
adapter = record {
  model_id = codes "m";
  model_revision = codes "0";
  url = codes "http://localhost";
  timeout_ms = 30000;
  headers = [];
}

abbrev ranked : List (RankedCandidate ℕ)
ranked = rank server adapter cs (3 ∷ 7 ∷ [])

rerank-eq : http_rerank server adapter (codes "q") cs (some 100) ≡ ok ranked
unfolding http_rerank read_texts rerank_receive rerank_validate check_scores ◌==◌
rerank-eq = refl

http_rerank-candidates_example : map (λ r. r.candidate) ranked ≡ cs
http_rerank-candidates_example =
    http_rerank-candidates server adapter (codes "q") cs (some 100) ranked rerank-eq

-- A hook that writes its message to a log.
abbrev quiet : Text → Result (Unit {0})
quiet m = ok tt

failover_always_example :
    (out : List (RankedCandidate ℕ)) × ((fallback_reranker
          (http_reranker silent adapter)
          mock_reranker
          (some quiet)).rerank
        (codes "q")
        cs
        none
      ≡ ok out)
    × (map (λ x. x.candidate) out ≡ cs)
failover_always_example =
    failover_always silent adapter (λ path lines. (codes "text", refl)) (some quiet) (codes "q") cs
      none (λ f e m. sym (ap (λ o. called o m) e))
  where
    called : Option (Text → Result (Unit {0})) → Text → Result (Unit {0})
    called none m = ok tt
    called (some f) m = f m
