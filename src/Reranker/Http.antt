-- ===== src/Reranker/Http.antt =====
-- packages/reranker-http/src/http-reranker.ts: the reranker behind an HTTP endpoint.
use codesoul.Prelude.{
  ℕ, Text, codes, ◌==◌, nat_eq, not, ◌||◌, Option, none, some, List, [], ◌∷◌, ◌++◌, length,
  if◌then◌else◌, ◌⊎◌, inl, inr,
}
use codesoul.Core.Errors.{adapter_unavailable_error, Result, ok, raise, ◌>>=◌}
use codesoul.Embedder.Http.{Fetched, responded, timed_out, rejected}
use codesoul.Retrieval.{Candidate, RankedCandidate}
use codesoul.Reranker.{Reranker}

pub record HttpRerankRequest : Type 0 where
  pub model_id : Text
  pub model_revision : Text
  pub query : Text
  pub candidates : List (Text × Text)

pub record HttpRerankResponse (Number : Type 0) : Type 0 where
  pub model_id : Text
  pub model_revision : Text
  pub scores : List Number

-- The code that the adapter calls: the source provider, `fetch` with the headers and the timeout,
-- the schema of the response, and the decimal numerals.
pub record RerankPlatform (Number : Type 0) : Type 1 where
  pub Json : Type 0
  pub read_range : Text → ℕ × ℕ → Result Text
  pub fetch : Text → List (Text × Text) → ℕ → HttpRerankRequest → Fetched Json
  pub safe_parse : Json → Text ⊎ HttpRerankResponse Number
  pub decimal : ℕ → Text

pub record HttpReranker : Type 0 where
  pub model_id : Text
  pub model_revision : Text
  pub url : Text
  pub timeout_ms : ℕ
  pub headers : List (Text × Text)

abbrev unavailable : {A : Type 0} → Text → Result A
unavailable m = raise (adapter_unavailable_error m)

module _ {Number : Type 0} (platform : RerankPlatform Number) (this : HttpReranker) where
  -- The texts of the candidates, each beside the id of its node.
  unfoldable pub read_texts : List (Candidate Number) → Result (List (Text × Text))
  read_texts [] = ok []
  read_texts (c ∷ cs) = do
    text ← platform.read_range c.evidence_path c.evidence_lines
    more ← read_texts cs
    ok ((c.node_id, text) ∷ more)

  unfoldable pub rerank_request : Text → List (Text × Text) → HttpRerankRequest
  rerank_request query texts = record {
    model_id = this.model_id;
    model_revision = this.model_revision;
    query = query;
    candidates = texts;
  }

  -- `options?.timeoutMs ?? this.timeoutMs`
  abbrev pub timeout_of : Option ℕ → ℕ
  timeout_of none = this.timeout_ms
  timeout_of (some ms) = ms

  unfoldable pub rerank_receive : ℕ → Fetched platform.Json → Result platform.Json
  rerank_receive timeout timed_out =
      unavailable (codes "reranker timed out after " ++ (platform.decimal timeout ++ codes "ms"))
  rerank_receive timeout (rejected m) = unavailable (codes "reranker request failed: " ++ m)
  rerank_receive timeout (responded r) =
      if not r.is_ok
      then unavailable (
          codes "reranker returned " ++ (platform.decimal r.status ++ (codes " " ++ r.status_text)))
      else (elim r.json [
        | inl m ↦ unavailable (codes "reranker returned invalid JSON: " ++ m)
        | inr raw ↦ ok raw
      ])

  unfoldable pub rerank_validate : platform.Json → Result (HttpRerankResponse Number)
  rerank_validate raw = elim (platform.safe_parse raw) [
    | inl m ↦ unavailable (codes "reranker response failed schema validation: " ++ m)
    | inr answer ↦ ok answer
  ]

  -- The identity of the server, and the number of its scores.
  unfoldable pub check_scores :
      List (Candidate Number) → HttpRerankResponse Number → Result (Unit {0})
  check_scores cs answer =
      if not (answer.model_id == this.model_id)
        || not (answer.model_revision == this.model_revision)
      then unavailable (
          codes "reranker identity mismatch: expected "
          ++ (this.model_id
              ++ (codes "@"
                  ++ (this.model_revision
                      ++ (codes ", got "
                          ++ (answer.model_id ++ (codes "@" ++ answer.model_revision)))))))
      else if not (nat_eq (length answer.scores) (length cs))
      then unavailable (
          codes "reranker returned "
          ++ (platform.decimal (length answer.scores)
              ++ (codes " scores for " ++ (platform.decimal (length cs) ++ codes " candidates"))))
      else ok tt

  unfoldable pub rank : List (Candidate Number) → List Number → List (RankedCandidate Number)
  rank [] scores = []
  rank (c ∷ cs) [] = rank cs []
  rank (c ∷ cs) (score ∷ scores) = record { candidate = c; rerank_score = score } ∷ rank cs scores

  unfoldable pub http_rerank :
      Text → List (Candidate Number) → Option ℕ → Result (List (RankedCandidate Number))
  http_rerank query [] timeout = ok []
  http_rerank query (c ∷ cs) timeout = do
    texts ← read_texts (c ∷ cs)
    raw ←
        rerank_receive (timeout_of timeout)
          (platform.fetch this.url this.headers (timeout_of timeout) (rerank_request query texts))
    answer ← rerank_validate raw
    _ ← check_scores (c ∷ cs) answer
    ok (rank (c ∷ cs) answer.scores)

  unfoldable pub http_reranker : Reranker Number
  http_reranker = record {
    model_id = this.model_id;
    model_revision = this.model_revision;
    rerank = http_rerank;
  }
