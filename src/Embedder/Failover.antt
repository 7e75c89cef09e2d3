-- ===== src/Embedder/Failover.antt =====
-- The fallback wrapper around the HTTP embedder: which failures it hides, and which it does not.
use codesoul.Prelude.{
  Text, ◌≡◌, ◌≢◌, refl, ap, true, List, ◌∷◌, Option, none, some, ◌⊎◌, inl, inr, Option-cases,
}
use codesoul.Core.Errors.{
  Error, adapter_unavailable_error, embedding_compatibility_error, Result, ok, raise, ◌>>=◌,
  Result-cases,
}
use codesoul.Embedder.{
  EmbedInput, EmbeddingResult, Embedder, call_hook, or_fallback, fallback_embedder,
}
use codesoul.Embedder.Http.{
  HttpEmbedResponse, HttpEmbedder, Platform, Response, responded, request, identity_message,
  http_embed, http_embedder,
}
use codesoul.Embedder.Http.Failures.{is_adapter_error, http_embed_error, http_embed_mismatch}

module _ {Number : Type 0} (platform : Platform Number) (this : HttpEmbedder)
    (fallback : Embedder Number) (hook : Option (Text → Result (Unit {0}))) where
  abbrev wrapped : Embedder Number
  wrapped = fallback_embedder (http_embedder platform this) fallback hook

  -- What the wrapper returns (`w`) for what the HTTP embedder returns (`p`): the same result; the
  -- same error of compatibility; or, for an adapter that is unavailable, what the fallback gives, if
  -- there is no hook or the hook returns, and the error that the hook throws, if it throws one.
  abbrev pub Outcome :
      List EmbedInput
      → Result (List (EmbeddingResult Number))
      → Result (List (EmbeddingResult Number))
      → Type 0
  Outcome inputs p w =
      ((out : List (EmbeddingResult Number)) × (p ≡ ok out) × (w ≡ ok out))
      ⊎ ((m : Text) × (p ≡ raise (embedding_compatibility_error m))
          × (w ≡ raise (embedding_compatibility_error m)))
      ⊎ ((m : Text) × (p ≡ raise (adapter_unavailable_error m))
          × ((hook ≡ none) ⊎ ((h : Text → Result (Unit {0})) × (hook ≡ some h) × (h m ≡ ok tt)))
          × (w ≡ fallback.embed inputs))
      ⊎ ((m : Text) × (h : Text → Result (Unit {0})) × (thrown : Error) × (p
            ≡ raise (adapter_unavailable_error m))
          × (hook ≡ some h)
          × (h m ≡ raise thrown)
          × (w ≡ raise thrown))

  recovered :
      (inputs : List EmbedInput) (m : Text)
      → Outcome inputs
          (raise (adapter_unavailable_error m))
          (call_hook hook m >>= λ _. fallback.embed inputs)
  unfolding call_hook
  recovered inputs m = elim (Option-cases hook) [
    | inl p ↦ inr (inr (inl (m, refl, inl p, rw p)))
    | inr (h, p) ↦ elim (Result-cases (h m)) [
      | inl (_, q) ↦ inr (inr (inl (m, refl, inr (h, p, q), rw (p, q))))
      | inr (e, q) ↦ inr (inr (inr (m, h, e, refl, p, q, rw (p, q))))
    ]
  ]

  outcome :
      (inputs : List EmbedInput) (p : Result (List (EmbeddingResult Number)))
      → ((e : Error) → p ≡ raise e → is_adapter_error e ≡ true)
      → Outcome inputs p (or_fallback hook (fallback.embed inputs) p)
  unfolding or_fallback
  outcome inputs (ok out) h = inl (out, refl, refl)
  outcome inputs (raise (embedding_compatibility_error m)) h = inr (inl (m, refl, refl))
  outcome inputs (raise (adapter_unavailable_error m)) h = recovered inputs m
  outcome inputs (raise e) h = absurd (cc (h e refl))

  -- A call of the wrapper comes to one of four outcomes: the result of the HTTP embedder, if it gives
  -- one; its error, if the server is incompatible, whatever the fallback would return; and if it is
  -- unavailable, what the fallback gives, unless the hook throws, whose error is then the outcome.
  pub failover-Outcome :
      (inputs : List EmbedInput)
      → Outcome inputs (http_embed platform this inputs) (wrapped.embed inputs)
  unfolding fallback_embedder http_embedder
  failover-Outcome inputs =
      outcome inputs (http_embed platform this inputs) (http_embed_error platform this inputs)

  -- A server that answers for another model ends in the compatibility error, whatever the fallback
  -- is: the vectors of two models are never mixed by falling back.
  pub failover_mismatch :
      (x : EmbedInput) (xs : List EmbedInput) (r : Response platform.Json) (raw : platform.Json)
      (answer : HttpEmbedResponse Number)
      → platform.fetch this.url this.headers (request platform this (x ∷ xs)) ≡ responded r
      → r.is_ok ≡ true
      → r.json ≡ inr raw
      → platform.safe_parse raw ≡ inr answer
      → (answer.model_id ≢ this.model_id) ⊎ (answer.model_revision ≢ this.model_revision)
      → wrapped.embed (x ∷ xs)
        ≡ raise (embedding_compatibility_error (identity_message platform this answer))
  unfolding fallback_embedder http_embedder or_fallback
  failover_mismatch x xs r raw answer f o j p d =
      ap (or_fallback hook (fallback.embed (x ∷ xs)))
        (http_embed_mismatch platform this x xs r raw answer f o j p d)
