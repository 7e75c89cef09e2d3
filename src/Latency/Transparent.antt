-- ===== src/Latency/Transparent.antt =====
-- The logging wrappers against the adapters that they wrap.
use codesoul.Prelude.{ℕ, Text, ◌≡◌, refl, ap, Option, List, [], ◌∷◌, map, length}
use codesoul.Core.Errors.{Error, Result, ok, raise}
use codesoul.Embedder.{Embedder, EmbedInput}
use codesoul.Reranker.{Reranker}
use codesoul.Retrieval.{Candidate}
use codesoul.Latency.{
  Level, info_level, warn_level, LogLine, Logger, logged, rethrow, embed_logged, embed_line,
  embed_failed, embed_done, rerank_logged, rerank_line, rerank_failed, rerank_done,
}

-- The level that a result asks for.
abbrev pub level_of : {A : Type 0} → Result A → Level
level_of (ok _) = info_level
level_of (raise _) = warn_level

logged_once :
    {A : Type 0} (logger : Logger) (failure : ℕ → Error → LogLine) (success : A → LogLine)
    (r : Result A)
    → ((line : LogLine) → logger line ≡ ok tt)
    → ((n : ℕ) (e : Error) → (failure n e).level ≡ warn_level)
    → ((a : A) → (success a).level ≡ info_level)
    → ((logged logger failure success r).0 ≡ r)
      × (map (λ line. line.level) (logged logger failure success r).1 ≡ level_of r ∷ [])
unfolding logged rethrow
logged_once logger failure success (ok a) quiet f s =
    rw (quiet (success a), logged) (refl, ap (λ l. l ∷ []) (s a))
logged_once logger failure success (raise e) quiet f s =
    rw (quiet (failure 1 e), logged, rethrow) (refl, ap (λ l. l ∷ []) (f 1 e))

-- With a logger that never throws, both wrappers settle as the adapter that they wrap does, and log
-- exactly one line: at the level info if the call is fulfilled, and warn if it is rejected.
pub embed_logged-rerank_logged :
    {Number : Type 0} (logger : Logger) (now : ℕ → ℕ) (embedder : Embedder Number)
    (inputs : List EmbedInput) (reranker : Reranker Number) (query : Text)
    (candidates : List (Candidate Number)) (timeout : Option ℕ)
    → ((line : LogLine) → logger line ≡ ok tt)
    → ((embed_logged logger now embedder inputs).0 ≡ embedder.embed inputs)
      × (map (λ line. line.level) (embed_logged logger now embedder inputs).1
          ≡ level_of (embedder.embed inputs) ∷ [])
      × ((rerank_logged logger now reranker query candidates timeout).0
          ≡ reranker.rerank query candidates timeout)
      × (map (λ line. line.level) (rerank_logged logger now reranker query candidates timeout).1
          ≡ level_of (reranker.rerank query candidates timeout) ∷ [])
unfolding embed_logged embed_line rerank_logged rerank_line
embed_logged-rerank_logged logger now embedder inputs reranker query candidates timeout quiet =
    let (a, b) =
      logged_once logger (embed_failed logger now embedder (length inputs))
        (embed_done logger now embedder (length inputs)) (embedder.embed inputs) quiet (λ n e. refl)
        (λ r. refl) in
    let (c, d) =
      logged_once logger (rerank_failed logger now reranker (length candidates))
        (rerank_done logger now reranker (length candidates))
        (reranker.rerank query candidates timeout) quiet (λ n e. refl) (λ r. refl) in
    (a, b, c, d)
