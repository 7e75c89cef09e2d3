-- ===== src/Reranker.antt =====
-- packages/reranker/src/reranker.ts and mock.ts, packages/reranker-http/src/fallback-reranker.ts.
pub mod Http
pub mod Answers
pub mod Failover
use codesoul.Prelude.{ℕ, Text, codes, Option, none, some, List, map}
use codesoul.Core.Errors.{Result, ok}
use codesoul.Embedder.{or_fallback}
use codesoul.Retrieval.{Candidate, RankedCandidate}

-- The options hold the timeout alone.
pub record Reranker (Number : Type 0) : Type 0 where
  pub model_id : Text
  pub model_revision : Text
  pub rerank : Text → List (Candidate Number) → Option ℕ → Result (List (RankedCandidate Number))

unfoldable pub mock_reranker : {Number : Type 0} → Reranker Number
mock_reranker = record {
  model_id = codes "mock-reranker";
  model_revision = codes "0";
  rerank = λ query cs timeout. ok (map (λ c. record { candidate = c; rerank_score = c.score }) cs);
}

-- The options are not forwarded to the fallback.
unfoldable pub fallback_reranker :
    {Number : Type 0}
    → Reranker Number
    → Reranker Number
    → Option (Text → Result (Unit {0}))
    → Reranker Number
fallback_reranker primary fallback on_fallback = record {
  model_id = primary.model_id;
  model_revision = primary.model_revision;
  rerank = λ query cs timeout.
      or_fallback on_fallback (fallback.rerank query cs none) (primary.rerank query cs timeout);
}
