-- ===== src/Embedder/Http.antt =====
-- packages/embedder-http/src/http-embedder.ts: the embedder behind an HTTP endpoint.
pub mod Answers
pub mod Failures
use codesoul.Prelude.{
  ℕ, suc, ◌+◌, Text, codes, ◌==◌, nat_eq, Bool, true, false, not, ◌||◌, List, [], ◌∷◌, ◌++◌, map,
  length, if◌then◌else◌, Option, none, some, ◌⊎◌, inl, inr,
}
use codesoul.Core.Errors.{
  Error, adapter_unavailable_error, embedding_compatibility_error, Result, ok, raise, ◌>>=◌,
}
use codesoul.Core.Schema.{embedding_dim}
use codesoul.Embedder.{
  EmbedInput, node_input, query_input, node_kind, query_kind, EmbeddingResult, Embedder,
}

pub record HttpEmbedRequest : Type 0 where
  pub model_id : Text
  pub model_revision : Text
  pub dimension : ℕ
  pub inputs : List EmbedInput

pub record HttpEmbedResponse (Number : Type 0) : Type 0 where
  pub model_id : Text
  pub model_revision : Text
  pub dimension : ℕ
  pub embeddings : List (List Number)

-- A response of `fetch`; its body is a JSON value or the message of the error that reading it
-- throws.
pub record Response (Json : Type 0) : Type 0 where
  pub is_ok : Bool
  pub status : ℕ
  pub status_text : Text
  pub json : Text ⊎ Json

-- What `await fetch` comes to: a response, a rejection after the timer has aborted the request, or
-- any other rejection with its message.
pub data Fetched (Json : Type 0) : Type 0 where
  responded : Response Json → Fetched Json
  timed_out : Fetched Json
  rejected : Text → Fetched Json

-- The code that the adapter calls: `fetch` with the serialised request, the schema of the response
-- (an error message or the value), and the decimal numerals of `String(n)`.
pub record Platform (Number : Type 0) : Type 1 where
  pub Json : Type 0
  pub fetch : Text → List (Text × Text) → HttpEmbedRequest → Fetched Json
  pub safe_parse : Json → Text ⊎ HttpEmbedResponse Number
  pub decimal : ℕ → Text

pub record HttpEmbedder : Type 0 where
  pub model_id : Text
  pub model_revision : Text
  pub url : Text
  pub timeout_ms : ℕ
  pub headers : List (Text × Text)

module _ {Number : Type 0} (platform : Platform Number) (this : HttpEmbedder) where
  unfoldable pub request : List EmbedInput → HttpEmbedRequest
  request inputs = record {
    model_id = this.model_id;
    model_revision = this.model_revision;
    dimension = embedding_dim;
    inputs = inputs;
  }

  -- The call of `fetch`, the status and the body.
  unfoldable pub receive : Fetched platform.Json → Result platform.Json
  receive timed_out = raise (
      adapter_unavailable_error
        (codes "embedder timed out after " ++ (platform.decimal this.timeout_ms ++ codes "ms")))
  receive (rejected m) = raise (adapter_unavailable_error (codes "embedder request failed: " ++ m))
  receive (responded r) =
      if r.is_ok
      then (elim r.json [
        | inl m ↦ raise (adapter_unavailable_error (codes "embedder returned invalid JSON: " ++ m))
        | inr raw ↦ ok raw
      ])
      else raise (
          adapter_unavailable_error (
            codes "embedder returned "
            ++ (platform.decimal r.status ++ (codes " " ++ r.status_text))))

  unfoldable pub validate : platform.Json → Result (HttpEmbedResponse Number)
  validate raw = elim (platform.safe_parse raw) [
    | inl m ↦
        raise
          (adapter_unavailable_error (codes "embedder response failed schema validation: " ++ m))
    | inr answer ↦ ok answer
  ]

  abbrev pub identity_message : HttpEmbedResponse Number → Text
  identity_message answer =
      codes "embedder identity mismatch: expected "
      ++ (this.model_id
          ++ (codes "@"
              ++ (this.model_revision
                  ++ (codes ", got "
                      ++ (answer.model_id ++ (codes "@" ++ answer.model_revision))))))

  -- The identity and the dimension of the server, and the number of its embeddings.
  unfoldable pub check_identity : List EmbedInput → HttpEmbedResponse Number → Result (Unit {0})
  check_identity inputs answer =
      if not (answer.model_id == this.model_id)
        || not (answer.model_revision == this.model_revision)
      then raise (embedding_compatibility_error (identity_message answer))
      else if not (nat_eq answer.dimension embedding_dim)
      then raise (
          embedding_compatibility_error (
            codes "embedder dimension mismatch: expected "
            ++ (platform.decimal embedding_dim
                ++ (codes ", got " ++ platform.decimal answer.dimension))))
      else if not (nat_eq (length answer.embeddings) (length inputs))
      then raise (
          adapter_unavailable_error (
            codes "embedder returned "
            ++ (platform.decimal (length answer.embeddings)
                ++ (codes " embeddings for "
                    ++ (platform.decimal (length inputs) ++ codes " inputs")))))
      else ok tt

  unfoldable pub result_of : EmbedInput → List Number → EmbeddingResult Number
  result_of (node_input id hash kind text) v = record {
    input_kind = node_kind;
    node_id = some id;
    query_id = none;
    vector = v;
    embedding_model = this.model_id;
    embedding_revision = this.model_revision;
    embedding_dim = embedding_dim;
  }
  result_of (query_input id text) v = record {
    input_kind = query_kind;
    node_id = none;
    query_id = some id;
    vector = v;
    embedding_model = this.model_id;
    embedding_revision = this.model_revision;
    embedding_dim = embedding_dim;
  }

  -- The loop over the inputs from the index `i` on.
  unfoldable pub results :
      ℕ → List EmbedInput → List (List Number) → Result (List (EmbeddingResult Number))
  results i [] vs = ok []
  results i (x ∷ xs) [] = results (suc i) xs []
  results i (x ∷ xs) (v ∷ vs) =
      let rest = results (suc i) xs vs in
      if not (nat_eq (length v) embedding_dim)
      then raise (
          embedding_compatibility_error (
            codes "embedder vector length mismatch at index "
            ++ (platform.decimal i
                ++ (codes ": expected "
                    ++ (platform.decimal embedding_dim
                        ++ (codes ", got " ++ platform.decimal (length v)))))))
      else (rest >>= λ out. ok (result_of x v ∷ out))

  unfoldable pub http_embed : List EmbedInput → Result (List (EmbeddingResult Number))
  http_embed [] = ok []
  http_embed (x ∷ xs) = do
    raw ← receive (platform.fetch this.url this.headers (request (x ∷ xs)))
    answer ← validate raw
    _ ← check_identity (x ∷ xs) answer
    results 0 (x ∷ xs) answer.embeddings

  unfoldable pub http_embedder : Embedder Number
  http_embedder = record {
    model_id = this.model_id;
    model_revision = this.model_revision;
    dimension = embedding_dim;
    embed = http_embed;
  }
