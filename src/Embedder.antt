-- ===== src/Embedder.antt =====
-- packages/embedder/src/embedder.ts, the inputs and results of packages/core/src/schema/embed.ts and
-- packages/embedder-http/src/fallback-embedder.ts.
pub mod Http
pub mod Failover
use codesoul.Prelude.{ℕ, Text, Option, none, some, List}
use codesoul.Core.Errors.{
  Error, adapter_unavailable_error, embedding_compatibility_error, Result, ok, raise, ◌>>=◌,
}
use codesoul.Core.Enums.{PayloadKind}

pub data EmbedInput : Type 0 where
  node_input : (node_id content_hash : Text) → PayloadKind → (text : Text) → EmbedInput
  query_input : (query_id text : Text) → EmbedInput

pub data InputKind : Type 0 where
  node_kind query_kind : InputKind

-- `Number` stands for the finite floating-point numbers of a vector.
pub record EmbeddingResult (Number : Type 0) : Type 0 where
  pub input_kind : InputKind
  pub node_id : Option Text
  pub query_id : Option Text
  pub vector : List Number
  pub embedding_model : Text
  pub embedding_revision : Text
  pub embedding_dim : ℕ

pub record Embedder (Number : Type 0) : Type 0 where
  pub model_id : Text
  pub model_revision : Text
  pub dimension : ℕ
  pub embed : List EmbedInput → Result (List (EmbeddingResult Number))

-- `this.onFallback?.(err)`: the hook, if there is one, may throw.
unfoldable pub call_hook : Option (Text → Result (Unit {0})) → Text → Result (Unit {0})
call_hook none m = ok tt
call_hook (some hook) m = hook m

-- The `try` around the primary: only an adapter that is unavailable hands over to the fallback.
unfoldable pub or_fallback :
    {A : Type 0} → Option (Text → Result (Unit {0})) → Result A → Result A → Result A
or_fallback hook fallback (raise (adapter_unavailable_error m)) =
    (call_hook hook m >>= λ _. fallback)
or_fallback hook fallback r = r

-- The wrapper of a primary embedder and a fallback, with the identity of the primary.
unfoldable pub fallback_embedder :
    {Number : Type 0}
    → Embedder Number
    → Embedder Number
    → Option (Text → Result (Unit {0}))
    → Embedder Number
fallback_embedder primary fallback on_fallback = record {
  model_id = primary.model_id;
  model_revision = primary.model_revision;
  dimension = primary.dimension;
  embed = λ inputs. or_fallback on_fallback (fallback.embed inputs) (primary.embed inputs);
}
