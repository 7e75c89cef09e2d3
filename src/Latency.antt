-- ===== src/Latency.antt =====
-- packages/embedder-http/src/latency-logging-embedder.ts and
-- packages/reranker-http/src/latency-logging-reranker.ts: the wrappers that log every call. The lines
-- that were logged are part of the result; `now n` is the n-th reading of the clock in the call, and a
-- duration is kept as the two readings whose difference it is.
pub mod Transparent
use codesoul.Prelude.{ℕ, Text, codes, ◌≡◌, refl, Option, none, some, List, [], ◌∷◌, length}
use codesoul.Core.Errors.{Error, Result, message, ok, raise}
use codesoul.Embedder.{Embedder, EmbedInput, EmbeddingResult}
use codesoul.Reranker.{Reranker}
use codesoul.Retrieval.{Candidate, RankedCandidate}

pub data Level : Type 0 where
  info_level warn_level : Level

-- The object and the message of a line; a call that is rejected has no count of results.
pub record LogLine : Type 0 where
  pub level : Level
  pub adapter : Text
  pub model_id : Text
  pub model_revision : Text
  pub input_count : ℕ
  pub result_count : Option ℕ
  pub started_at : ℕ
  pub read_at : ℕ
  pub err : Option Text
  pub msg : Text

-- What a line of the logger does: it may throw.
abbrev pub Logger : Type 0
Logger = LogLine → Result (Unit {0})

module _ {A : Type 0} (logger : Logger) (failure : ℕ → Error → LogLine) where
  -- The `catch` block: the line, and the error again.
  unfoldable pub rethrow : ℕ → Error → List LogLine → Result A × List LogLine
  rethrow reading thrown lines = elim (logger (failure reading thrown)) [
    | raise e ↦ (raise e, failure reading thrown ∷ lines)
    | ok _ ↦ (raise thrown, failure reading thrown ∷ lines)
  ]

  -- The `try` block, whose logging is inside it, with the lines of the call, the last one first.
  unfoldable pub logged : (A → LogLine) → Result A → Result A × List LogLine
  unfolding rethrow
  logged success (raise thrown) = rethrow 1 thrown []
  logged success (ok result) = elim (logger (success result)) [
    | raise thrown ↦ rethrow 2 thrown (success result ∷ [])
    | ok _ ↦ (ok result, success result ∷ [])
  ]

module _ {Number : Type 0} (logger : Logger) (now : ℕ → ℕ) where
  unfoldable pub embed_line :
      Embedder Number → ℕ → Level → ℕ → Option ℕ → Option Text → Text → LogLine
  embed_line inner inputs level reading results err msg = record {
    level = level;
    adapter = codes "embedder";
    model_id = inner.model_id;
    model_revision = inner.model_revision;
    input_count = inputs;
    result_count = results;
    started_at = now 0;
    read_at = now reading;
    err = err;
    msg = msg;
  }

  abbrev pub embed_failed : Embedder Number → ℕ → ℕ → Error → LogLine
  embed_failed inner inputs reading e =
      embed_line inner inputs warn_level reading none (some (message e))
        (codes "embedder.embed.failed")

  abbrev pub embed_done : Embedder Number → ℕ → List (EmbeddingResult Number) → LogLine
  embed_done inner inputs result =
      embed_line inner inputs info_level 1 (some (length result)) none (codes "embedder.embed")

  unfoldable pub embed_logged :
      Embedder Number → List EmbedInput → Result (List (EmbeddingResult Number)) × List LogLine
  unfolding logged embed_line
  embed_logged inner inputs =
      logged logger (embed_failed inner (length inputs)) (embed_done inner (length inputs))
        (inner.embed inputs)

  unfoldable pub rerank_line : Reranker Number → ℕ → Level → ℕ → Option Text → Text → LogLine
  rerank_line inner candidates level reading err msg = record {
    level = level;
    adapter = codes "reranker";
    model_id = inner.model_id;
    model_revision = inner.model_revision;
    input_count = candidates;
    result_count = none;
    started_at = now 0;
    read_at = now reading;
    err = err;
    msg = msg;
  }

  abbrev pub rerank_failed : Reranker Number → ℕ → ℕ → Error → LogLine
  rerank_failed inner candidates reading e =
      rerank_line inner candidates warn_level reading (some (message e))
        (codes "reranker.rerank.failed")

  abbrev pub rerank_done : Reranker Number → ℕ → List (RankedCandidate Number) → LogLine
  rerank_done inner candidates result =
      rerank_line inner candidates info_level 1 none (codes "reranker.rerank")

  unfoldable pub rerank_logged :
      Reranker Number
      → Text
      → List (Candidate Number)
      → Option ℕ
      → Result (List (RankedCandidate Number)) × List LogLine
  unfolding logged rerank_line
  rerank_logged inner query candidates timeout =
      logged logger (rerank_failed inner (length candidates))
        (rerank_done inner (length candidates)) (inner.rerank query candidates timeout)
