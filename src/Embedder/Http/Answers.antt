-- ===== src/Embedder/Http/Answers.antt =====
-- What the HTTP embedder returns, and the errors it raises.
use codesoul.Prelude.{
  ℕ, suc, eq_iff, nat_eq, List, [], ◌∷◌, length, none, some, inl, inr, ◌≡◌, refl, ap, ◌∙◌, arith,
  Bool-cases,
}
use mathlib.Core.Path.{subst}
use codesoul.Core.Errors.{ok, bind_ok, ok-injective}
use codesoul.Core.Schema.{embedding_dim}
use codesoul.Embedder.{EmbedInput, node_input, query_input, node_kind, query_kind, EmbeddingResult}
use codesoul.Embedder.Http.{
  HttpEmbedResponse, HttpEmbedder, Platform, receive, validate, check_identity, result_of, results,
  http_embed,
}

-- The result names the input that it is for.
unfoldable pub IsFor : {Number : Type 0} → EmbedInput → EmbeddingResult Number → Type 0
IsFor (node_input id hash kind text) r =
    (r.input_kind ≡ node_kind) × (r.node_id ≡ some id) × (r.query_id ≡ none)
IsFor (query_input id text) r =
    (r.input_kind ≡ query_kind) × (r.node_id ≡ none) × (r.query_id ≡ some id)

module _ {Number : Type 0} (platform : Platform Number) (this : HttpEmbedder) where
  -- The results answer the inputs one by one, each with the identity of the adapter and a vector of
  -- its dimension.
  unfoldable pub Answered : List EmbedInput → List (EmbeddingResult Number) → Type 0
  Answered [] [] = Unit {0}
  Answered [] (r ∷ rs) = ⊥
  Answered (x ∷ xs) [] = ⊥
  Answered (x ∷ xs) (r ∷ rs) =
      IsFor x r
      × (r.embedding_model ≡ this.model_id)
      × (r.embedding_revision ≡ this.model_revision)
      × (r.embedding_dim ≡ embedding_dim)
      × (length r.vector ≡ embedding_dim)
      × Answered xs rs

  result_of-IsFor : (x : EmbedInput) (v : List Number) → IsFor x (result_of platform this x v)
  unfolding result_of IsFor
  result_of-IsFor (node_input id hash kind text) v = (refl, refl, refl)
  result_of-IsFor (query_input id text) v = (refl, refl, refl)

  result_of_tags :
      (x : EmbedInput) (v : List Number)
      → ((result_of platform this x v).embedding_model ≡ this.model_id)
        × ((result_of platform this x v).embedding_revision ≡ this.model_revision)
        × ((result_of platform this x v).embedding_dim ≡ embedding_dim)
        × ((result_of platform this x v).vector ≡ v)
  unfolding result_of
  result_of_tags (node_input id hash kind text) v = (refl, refl, refl, refl)
  result_of_tags (query_input id text) v = (refl, refl, refl, refl)

  pub counted :
      (inputs : List EmbedInput) (answer : HttpEmbedResponse Number)
      → check_identity platform this inputs answer ≡ ok tt
      → (answer.model_id ≡ this.model_id)
        × (answer.model_revision ≡ this.model_revision)
        × (answer.dimension ≡ embedding_dim)
        × (length answer.embeddings ≡ length inputs)
  unfolding check_identity
  counted inputs answer p = ground (
    arith,
    eq_iff answer.model_id this.model_id,
    eq_iff answer.model_revision this.model_revision,
  )

  results-Answered :
      (i : ℕ) (xs : List EmbedInput) (vs : List (List Number)) (out : List (EmbeddingResult Number))
      → length vs ≡ length xs
      → results platform this i xs vs ≡ ok out
      → Answered xs out
  unfolding results Answered
  results-Answered i [] vs [] n p = tt
  results-Answered i [] vs (r ∷ rs) n p = absurd (cc p)
  results-Answered i (x ∷ xs) [] out n p = absurd (ground (arith, n))
  results-Answered i (x ∷ xs) (v ∷ vs) out n p =
      elim (Bool-cases (nat_eq (length v) embedding_dim)) [
        | inr f ↦ absurd (cc (rw f at p))
        | inl t ↦
            step (λ rest. results-Answered (suc i) xs vs rest (ground (arith, n)))
              (bind_ok (results platform this (suc i) xs vs) _ (rw t at p))
      ]
    where
      step :
          ((rest : List (EmbeddingResult Number))
            → results platform this (suc i) xs vs ≡ ok rest
            → Answered xs rest)
          → (rest : List (EmbeddingResult Number)) × (results platform this (suc i) xs vs ≡ ok rest)
            × (ok (result_of platform this x v ∷ rest) ≡ ok out)
          → Answered (x ∷ xs) out
      step later (rest, q, e) =
          let (model, revision, dim, vector) = result_of_tags x v in
          subst (Answered (x ∷ xs)) (ok-injective e) (
            result_of-IsFor x v,
            model,
            revision,
            dim,
            ap length vector ∙ ground arith,
            later rest q,
          )

  -- For inputs that are not empty, a result that is not an error has one vector for each input, in
  -- the order of the inputs, under the input's own kind and id, with the model, the revision and
  -- the dimension of the adapter, and of that length.
  pub http_embed-Answered :
      (inputs : List EmbedInput) (out : List (EmbeddingResult Number))
      → http_embed platform this inputs ≡ ok out
      → Answered inputs out
  unfolding http_embed Answered
  http_embed-Answered [] [] p = tt
  http_embed-Answered [] (r ∷ rs) p = absurd (cc p)
  http_embed-Answered (x ∷ xs) out p =
      let (raw, p₁, q₁) = bind_ok (receive platform this _) _ p in
      let (answer, p₂, q₂) = bind_ok (validate platform this raw) _ q₁ in
      let (u, p₃, q₃) = bind_ok (check_identity platform this (x ∷ xs) answer) _ q₂ in
      results-Answered 0 (x ∷ xs) answer.embeddings out (counted (x ∷ xs) answer p₃).3 q₃
