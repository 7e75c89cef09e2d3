-- ===== src/Reranker/Answers.antt =====
-- What the HTTP reranker returns.
use codesoul.Prelude.{ℕ, Text, Option, List, [], ◌∷◌, map, length, ◌≡◌, refl, sym, ap, ◌∙◌, arith}
use codesoul.Core.Errors.{ok, bind_ok, ok-injective}
use codesoul.Retrieval.{Candidate, RankedCandidate}
use codesoul.Reranker.Http.{
  RerankPlatform, HttpReranker, HttpRerankResponse, read_texts, rerank_receive, rerank_validate,
  check_scores, rank, http_rerank,
}

module _ {Number : Type 0} (platform : RerankPlatform Number) (this : HttpReranker) where
  rank-candidates :
      (cs : List (Candidate Number)) (scores : List Number)
      → length scores ≡ length cs
      → (map (λ r. r.candidate) (rank platform this cs scores) ≡ cs)
        × (map (λ r. r.rerank_score) (rank platform this cs scores) ≡ scores)
  unfolding rank
  rank-candidates [] [] n = (refl, refl)
  rank-candidates [] (s ∷ scores) n = absurd (ground (arith, n))
  rank-candidates (c ∷ cs) [] n = absurd (ground (arith, n))
  rank-candidates (c ∷ cs) (s ∷ scores) n =
      let (a, b) = rank-candidates cs scores (ground (arith, n)) in
      (ap (λ l. c ∷ l) a, ap (λ l. s ∷ l) b)

  checked :
      (cs : List (Candidate Number)) (answer : HttpRerankResponse Number)
      → check_scores platform this cs answer ≡ ok tt
      → length answer.scores ≡ length cs
  unfolding check_scores
  checked cs answer p = ground arith

  -- A result of the HTTP reranker has the candidates that it was given, all of them and in their
  -- order: the server can only attach a score to each.
  pub http_rerank-candidates :
      (query : Text) (cs : List (Candidate Number)) (timeout : Option ℕ)
      (out : List (RankedCandidate Number))
      → http_rerank platform this query cs timeout ≡ ok out
      → map (λ r. r.candidate) out ≡ cs
  unfolding http_rerank
  http_rerank-candidates query [] timeout out p = ap (map (λ r. r.candidate)) (ok-injective (sym p))
  http_rerank-candidates query (c ∷ cs) timeout out p =
      let (texts, p₀, q₀) = bind_ok (read_texts platform this (c ∷ cs)) _ p in
      let (raw, p₁, q₁) = bind_ok (rerank_receive platform this _ _) _ q₀ in
      let (answer, p₂, q₂) = bind_ok (rerank_validate platform this raw) _ q₁ in
      let (u, p₃, q₃) = bind_ok (check_scores platform this (c ∷ cs) answer) _ q₂ in
      ap (map (λ r. r.candidate)) (sym (ok-injective q₃))
      ∙ (rank-candidates (c ∷ cs) answer.scores (checked (c ∷ cs) answer p₃)).0
