-- ===== src/Tests/Embedder.antt =====
-- Tests of the HTTP embedder and of the fallback around it.
use codesoul.Prelude.{
  ℕ, zero, suc, Text, codes, ◌==◌, ◌≡◌, refl, true, none, List, [], ◌∷◌, inl, inr,
}
use codesoul.Core.Errors.{ok, raise, embedding_compatibility_error}
use codesoul.Embedder.{Embedder, EmbedInput, query_input, EmbeddingResult, fallback_embedder}
use codesoul.Embedder.Http.{
  Platform, HttpEmbedder, HttpEmbedResponse, Response, responded, receive, validate, check_identity,
  results, result_of, http_embed, http_embedder, identity_message,
}
use codesoul.Embedder.Http.Answers.{Answered, http_embed-Answered}
use codesoul.Embedder.Failover.{Outcome, failover-Outcome, failover_mismatch}

-- A list of zeros.
abbrev zeros : ℕ → List ℕ
zeros zero = []
zeros (suc n) = 0 ∷ zeros n

abbrev answer_of : Text → HttpEmbedResponse ℕ
answer_of model = record {
  model_id = model;
  model_revision = codes "0";
  dimension = 1024;
  embeddings = zeros 1024 ∷ [];
}

abbrev healthy : Response Text
healthy = record { is_ok = true; status = 200; status_text = codes "OK"; json = inr (codes "m") }

-- A server for the model that the body names.
abbrev server : Platform ℕ
server = record {
  Json = Text;
  fetch = λ url headers request. responded healthy;
  safe_parse = λ raw. inr (answer_of raw);
  decimal = λ n. codes "0";
}

abbrev adapter : Text → HttpEmbedder
adapter model = record {
  model_id = model;
  model_revision = codes "0";
  url = codes "http://localhost";
  timeout_ms = 30000;
  headers = [];
}

abbrev mock : Embedder ℕ
mock = record {
  model_id = codes "mock";
  model_revision = codes "0";
  dimension = 1024;
  embed = λ inputs. ok [];
}

abbrev question : EmbedInput
question = query_input (codes "default") (codes "text")

abbrev answered : List (EmbeddingResult ℕ)
answered = result_of server (adapter (codes "m")) question (zeros 1024) ∷ []

http_embed-eq : http_embed server (adapter (codes "m")) (question ∷ []) ≡ ok answered
unfolding http_embed receive validate check_identity results ◌==◌
http_embed-eq = refl

http_embed-Answered_example : Answered server (adapter (codes "m")) (question ∷ []) answered
http_embed-Answered_example =
    http_embed-Answered server (adapter (codes "m")) (question ∷ []) answered http_embed-eq

failover-Outcome_example :
    Outcome server
      (adapter (codes "m"))
      mock
      none
      (question ∷ [])
      (http_embed server (adapter (codes "m")) (question ∷ []))
      ((fallback_embedder (http_embedder server (adapter (codes "m"))) mock none).embed
        (question ∷ []))
failover-Outcome_example = failover-Outcome server (adapter (codes "m")) mock none (question ∷ [])

failover_mismatch_example :
    (fallback_embedder (http_embedder server (adapter (codes "mm"))) mock none).embed
      (question ∷ [])
    ≡ raise (
        embedding_compatibility_error
          (identity_message server (adapter (codes "mm")) (answer_of (codes "m"))))
failover_mismatch_example =
    failover_mismatch server (adapter (codes "mm")) mock none question [] healthy (codes "m")
      (answer_of (codes "m")) refl refl refl refl (inl (λ e. cc e))
