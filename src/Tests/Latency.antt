-- ===== src/Tests/Latency.antt =====
-- Tests of the logging wrappers.
use codesoul.Prelude.{ℕ, codes, ◌≡◌, refl, none, [], ◌∷◌, map}
use codesoul.Core.Errors.{ok, raise, plain_error}
use codesoul.Embedder.{Embedder}
use codesoul.Reranker.{Reranker, mock_reranker}
use codesoul.Latency.{Logger, embed_logged, rerank_logged}
use codesoul.Latency.Transparent.{level_of, embed_logged-rerank_logged}

abbrev quiet : Logger
quiet line = ok tt

abbrev unreachable : Embedder ℕ
unreachable = record {
  model_id = codes "m";
  model_revision = codes "1";
  dimension = 3;
  embed = λ inputs. raise (plain_error (codes "down"));
}

abbrev mock : Reranker ℕ
mock = mock_reranker

embed_logged-rerank_logged_example :
    ((embed_logged quiet (λ n. n) unreachable []).0 ≡ unreachable.embed [])
    × (map (λ line. line.level) (embed_logged quiet (λ n. n) unreachable []).1
        ≡ level_of (unreachable.embed []) ∷ [])
    × ((rerank_logged quiet (λ n. n) mock (codes "q") [] none).0 ≡ mock.rerank (codes "q") [] none)
    × (map (λ line. line.level) (rerank_logged quiet (λ n. n) mock (codes "q") [] none).1
        ≡ level_of (mock.rerank (codes "q") [] none) ∷ [])
embed_logged-rerank_logged_example =
    embed_logged-rerank_logged quiet (λ n. n) unreachable [] mock (codes "q") [] none (λ line. refl)
