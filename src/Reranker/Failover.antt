-- ===== src/Reranker/Failover.antt =====
-- packages/reranker-http/src/fallback-reranker.ts: the wrapper around the HTTP reranker, with the mock as
-- the fallback.
use codesoul.Prelude.{
  ℕ, Text, Bool, true, false, Option, none, some, List, [], ◌∷◌, map, ◌≡◌, refl, ap, arith, inl,
  inr, Bool-cases, Sum-cases,
}
use codesoul.Core.Errors.{Error, adapter_unavailable_error, Result, ok, raise, bind_raise}
use codesoul.Embedder.{call_hook, or_fallback}
use codesoul.Embedder.Http.{Fetched, responded, timed_out, rejected}
use codesoul.Retrieval.{Candidate, RankedCandidate}
use codesoul.Reranker.{mock_reranker, fallback_reranker}
use codesoul.Reranker.Http.{
  RerankPlatform, HttpReranker, HttpRerankResponse, read_texts, rerank_receive, rerank_validate,
  check_scores, http_rerank, http_reranker,
}
use codesoul.Reranker.Answers.{http_rerank-candidates}

abbrev is_unavailable : Error → Bool
is_unavailable (adapter_unavailable_error m) = true
is_unavailable _ = false

map-candidate :
    {Number : Type 0} (cs : List (Candidate Number))
    → map
        (λ (r : RankedCandidate Number). r.candidate)
        (map (λ c. record { candidate = c; rerank_score = c.score }) cs)
      ≡ cs
map-candidate [] = refl
map-candidate (c ∷ cs) = ap (λ l. c ∷ l) (map-candidate cs)

-- The hook `onFallback`, if there is one, does not throw.
abbrev pub Returns : Option (Text → Result (Unit {0})) → Type 0
Returns hook = (f : Text → Result (Unit {0})) → hook ≡ some f → (m : Text) → f m ≡ ok tt

module _ {Number : Type 0} (platform : RerankPlatform Number) (this : HttpReranker) where
  -- The source provider answers every read, as the providers of the code do: a file that is missing
  -- reads as the empty text.
  abbrev pub AlwaysReads : Type 0
  AlwaysReads =
      (path : Text) (lines : ℕ × ℕ) → (text : Text) × (platform.read_range path lines ≡ ok text)

  module _ (reads : AlwaysReads) where
    read_texts-ok :
        (cs : List (Candidate Number))
        → (texts : List (Text × Text)) × (read_texts platform this cs ≡ ok texts)
    unfolding read_texts
    read_texts-ok [] = ([], refl)
    read_texts-ok (c ∷ cs) =
        let (text, p) = reads c.evidence_path c.evidence_lines in
        let (more, q) = read_texts-ok cs in ((c.node_id, text) ∷ more, rw (p, q) refl)

    receive_error :
        (timeout : ℕ) (f : Fetched platform.Json) (e : Error)
        → rerank_receive platform this timeout f ≡ raise e
        → is_unavailable e ≡ true
    unfolding rerank_receive
    receive_error timeout timed_out e p = cc
    receive_error timeout (rejected m) e p = cc
    receive_error timeout (responded r) e p = elim (Bool-cases r.is_ok) [
      | inr f ↦ cc (rw f at p)
      | inl t ↦ elim (Sum-cases r.json) [
        | inl (m, q) ↦ cc (rw (t, q) at p)
        | inr (raw, q) ↦ absurd (cc (rw (t, q) at p))
      ]
    ]

    validate_error :
        (raw : platform.Json) (e : Error)
        → rerank_validate platform this raw ≡ raise e
        → is_unavailable e ≡ true
    unfolding rerank_validate
    validate_error raw e p = elim (Sum-cases (platform.safe_parse raw)) [
      | inl (m, q) ↦ cc (rw (q, rerank_validate) at p)
      | inr (a, q) ↦ absurd (cc (rw (q, rerank_validate) at p))
    ]

    check_error :
        (cs : List (Candidate Number)) (answer : HttpRerankResponse Number) (e : Error)
        → check_scores platform this cs answer ≡ raise e
        → is_unavailable e ≡ true
    unfolding check_scores
    check_error cs answer e p = ground arith

    http_rerank_error :
        (query : Text) (cs : List (Candidate Number)) (timeout : Option ℕ) (e : Error)
        → http_rerank platform this query cs timeout ≡ raise e
        → is_unavailable e ≡ true
    unfolding http_rerank
    http_rerank_error query [] timeout e p = cc
    http_rerank_error query (c ∷ cs) timeout e p =
        elim (bind_raise (read_texts platform this (c ∷ cs)) _ p) [
          | inl q ↦ cc (q, (read_texts-ok (c ∷ cs)).1)
          | inr (texts, p₀, q₀) ↦ elim (bind_raise (rerank_receive platform this _ _) _ q₀) [
            | inl q ↦ receive_error _ _ e q
            | inr (raw, p₁, q₁) ↦ elim (bind_raise (rerank_validate platform this raw) _ q₁) [
              | inl q ↦ validate_error raw e q
              | inr (answer, p₂, q₂) ↦
                  elim (bind_raise (check_scores platform this (c ∷ cs) answer) _ q₂) [
                    | inl q ↦ check_error (c ∷ cs) answer e q
                    | inr (u, p₃, q₃) ↦ absurd (cc q₃)
                  ]
            ]
          ]
        ]

    recovered :
        (hook : Option (Text → Result (Unit {0}))) (query : Text) (cs : List (Candidate Number))
        (timeout : Option ℕ) (r : Result (List (RankedCandidate Number)))
        → Returns hook
        → http_rerank platform this query cs timeout ≡ r
        → (out : List (RankedCandidate Number)) × (or_fallback hook
              ((mock_reranker {Number = Number}).rerank query cs none)
              r
            ≡ ok out)
          × (map (λ x. x.candidate) out ≡ cs)
    unfolding or_fallback mock_reranker call_hook
    recovered hook query cs timeout (ok out) h p =
        (out, refl, http_rerank-candidates platform this query cs timeout out p)
    recovered none query cs timeout (raise (adapter_unavailable_error m)) h p =
        (_, refl, map-candidate cs)
    recovered (some f) query cs timeout (raise (adapter_unavailable_error m)) h p =
        (_, rw (h f refl m), map-candidate cs)
    recovered hook query cs timeout (raise e) h p =
        absurd (cc (http_rerank_error query cs timeout e p))

    -- If the source provider answers every read and the hook, if there is one, does not throw, then
    -- the HTTP reranker with the mock as its fallback gives a result for every outcome of the request
    -- (rejected, aborted by the timeout, or a response, whose body is read to its end or fails), and
    -- the result has all candidates that were given, in their order.
    pub failover_always :
        (hook : Option (Text → Result (Unit {0}))) (query : Text) (cs : List (Candidate Number))
        (timeout : Option ℕ)
        → Returns hook
        → (out : List (RankedCandidate Number)) × ((fallback_reranker
                (http_reranker platform this)
                mock_reranker
                hook).rerank
              query cs timeout
            ≡ ok out)
          × (map (λ x. x.candidate) out ≡ cs)
    unfolding fallback_reranker http_reranker
    failover_always hook query cs timeout h =
        recovered hook query cs timeout (http_rerank platform this query cs timeout) h refl
