-- ===== src/Embedder/Http/Failures.antt =====
-- The errors that the HTTP embedder raises.
use codesoul.Prelude.{
  ℕ, suc, ◌==◌, eq_iff, nat_eq, Bool, true, false, not, ◌||◌, List, [], ◌∷◌, length, ◌⊎◌, inl, inr,
  ◌↔◌, ◌≡◌, ◌≢◌, refl, arith, Bool-cases, Sum-cases,
}
use codesoul.Core.Errors.{
  Error, adapter_unavailable_error, embedding_compatibility_error, raise, bind_raise,
}
use codesoul.Core.Schema.{embedding_dim}
use codesoul.Embedder.{EmbedInput}
use codesoul.Embedder.Http.{
  HttpEmbedResponse, HttpEmbedder, Platform, Fetched, responded, timed_out, rejected, Response,
  request, receive, validate, check_identity, identity_message, results, http_embed,
}

-- The two classes of errors by which the adapter reports a failure.
abbrev pub is_adapter_error : Error → Bool
is_adapter_error (adapter_unavailable_error m) = true
is_adapter_error (embedding_compatibility_error m) = true
is_adapter_error _ = false

module _ {Number : Type 0} (platform : Platform Number) (this : HttpEmbedder) where
  check_identity_error :
      (inputs : List EmbedInput) (answer : HttpEmbedResponse Number) (e : Error)
      → check_identity platform this inputs answer ≡ raise e
      → is_adapter_error e ≡ true
  unfolding check_identity
  check_identity_error inputs answer e p = ground arith

  results_error :
      (i : ℕ) (xs : List EmbedInput) (vs : List (List Number)) (e : Error)
      → results platform this i xs vs ≡ raise e
      → is_adapter_error e ≡ true
  unfolding results
  results_error i [] vs e p = cc
  results_error i (x ∷ xs) [] e p = results_error (suc i) xs [] e p
  results_error i (x ∷ xs) (v ∷ vs) e p = elim (Bool-cases (nat_eq (length v) embedding_dim)) [
    | inr f ↦ cc (rw f at p)
    | inl t ↦ elim (bind_raise (results platform this (suc i) xs vs) _ (rw t at p)) [
      | inl q ↦ results_error (suc i) xs vs e q
      | inr (out, q, r) ↦ cc
    ]
  ]

  receive_error :
      (f : Fetched platform.Json) (e : Error)
      → receive platform this f ≡ raise e
      → is_adapter_error e ≡ true
  unfolding receive
  receive_error (responded r) e p = elim (Bool-cases r.is_ok) [
    | inr f ↦ cc (rw f at p)
    | inl t ↦ elim (Sum-cases r.json) [
      | inl (m, q) ↦ cc (rw (t, q) at p)
      | inr (raw, q) ↦ absurd (cc (rw (t, q) at p))
    ]
  ]
  receive_error timed_out e p = cc
  receive_error (rejected m) e p = cc

  validate_error :
      (raw : platform.Json) (e : Error)
      → validate platform this raw ≡ raise e
      → is_adapter_error e ≡ true
  unfolding validate
  validate_error raw e p = elim (Sum-cases (platform.safe_parse raw)) [
    | inl (m, q) ↦ cc (rw (q, validate) at p)
    | inr (a, q) ↦ absurd (cc (rw (q, validate) at p))
  ]

  pub http_embed_error :
      (inputs : List EmbedInput) (e : Error)
      → http_embed platform this inputs ≡ raise e
      → is_adapter_error e ≡ true
  unfolding http_embed
  http_embed_error [] e p = cc
  http_embed_error (x ∷ xs) e p = elim (bind_raise (receive platform this _) _ p) [
    | inl q ↦ receive_error _ e q
    | inr (raw, p₁, q₁) ↦ elim (bind_raise (validate platform this raw) _ q₁) [
      | inl q ↦ validate_error raw e q
      | inr (answer, p₂, q₂) ↦
          elim (bind_raise (check_identity platform this (x ∷ xs) answer) _ q₂) [
            | inl q ↦ check_identity_error (x ∷ xs) answer e q
            | inr (u, p₃, q₃) ↦ results_error 0 (x ∷ xs) answer.embeddings e q₃
          ]
    ]
  ]

  mismatched :
      (inputs : List EmbedInput) (answer : HttpEmbedResponse Number)
      → (answer.model_id ≢ this.model_id) ⊎ (answer.model_revision ≢ this.model_revision)
      → check_identity platform this inputs answer
        ≡ raise (embedding_compatibility_error (identity_message platform this answer))
  unfolding check_identity
  mismatched inputs answer d =
      rw
        (differs (eq_iff answer.model_id this.model_id)
          (eq_iff answer.model_revision this.model_revision) d)
        refl
    where
      differs :
          ((answer.model_id == this.model_id) ≡ true ↔ (answer.model_id ≡ this.model_id))
          → ((answer.model_revision == this.model_revision) ≡ true
              ↔ (answer.model_revision ≡ this.model_revision))
          → (answer.model_id ≢ this.model_id) ⊎ (answer.model_revision ≢ this.model_revision)
          → (not (answer.model_id == this.model_id)
              || not (answer.model_revision == this.model_revision))
            ≡ true
      differs i j h = ground arith

  -- The server is healthy and its response parses, but it is on another model.
  pub http_embed_mismatch :
      (x : EmbedInput) (xs : List EmbedInput) (r : Response platform.Json) (raw : platform.Json)
      (answer : HttpEmbedResponse Number)
      → platform.fetch this.url this.headers (request platform this (x ∷ xs)) ≡ responded r
      → r.is_ok ≡ true
      → r.json ≡ inr raw
      → platform.safe_parse raw ≡ inr answer
      → (answer.model_id ≢ this.model_id) ⊎ (answer.model_revision ≢ this.model_revision)
      → http_embed platform this (x ∷ xs)
        ≡ raise (embedding_compatibility_error (identity_message platform this answer))
  unfolding http_embed receive validate check_identity
  http_embed_mismatch x xs r raw answer f o j p d =
      rw (f, receive) (rw (o, j) (rw (p, validate) (rw (mismatched (x ∷ xs) answer d) refl)))
