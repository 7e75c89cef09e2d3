-- ===== src/Vectors.antt =====
-- packages/vector-store/src/mock.ts: the vector store in memory, and VectorRow of
-- packages/core/src/schema/vector.ts.
pub mod Search
use codesoul.Prelude.{
  ℕ, suc, ◌+◌, ◌≤◌, Text, codes, ◌==◌, nat_eq, ◌≡◌, ap, ◌∙◌, Bool, true, not, ◌&&◌, ◌||◌, inl, inr,
  sym, zero, Option, none, some, List, [], ◌∷◌, ◌++◌, map, filter, take, length, length-take-le,
  sort_by, In, In_of_In-sort_by, In_of_In-filter, In_of_In-map, arith, if◌then◌else◌,
  effective_limit, collect, collect-eq-limited, limited,
}
use codesoul.JsMap.{JsMap, set, values}
use codesoul.Core.Errors.{Result, ok, raise}
use codesoul.Core.Zod.{Zod}
use codesoul.Core.Ids.{is_sym_id}
use codesoul.Core.Enums.{PayloadKind, payload_kind_name}
use codesoul.Core.Schema.{PersistedMeta, is_meta, embedding_dim}
use codesoul.Graph.{passes}
use codesoul.Retrieval.{Scores, VectorSearchFilter, VectorSearchHit}

pub record VectorRow (Number : Type 0) : Type 0 where
  pub meta : PersistedMeta
  pub open meta use *
  pub node_id : Text
  pub embedding_model : Text
  pub embedding_revision : Text
  pub row_dim : ℕ
  pub vector : List Number
  pub payload_kind : PayloadKind

unfoldable pub is_vector_row : {Number : Type 0} → VectorRow Number → Bool
is_vector_row r =
    is_meta r.meta
    && is_sym_id r.node_id
    && nat_eq r.row_dim embedding_dim
    && nat_eq (length r.vector) embedding_dim

-- The key `${r.nodeId}:${r.payloadKind}`.
unfoldable pub row_key : {Number : Type 0} → VectorRow Number → Text
row_key r = r.node_id ++ (codes ":" ++ payload_kind_name r.payload_kind)

abbrev pub kind_passes : Option PayloadKind → PayloadKind → Bool
kind_passes none k = true
kind_passes (some wanted) k = payload_kind_name k == payload_kind_name wanted

-- `matches`
unfoldable pub matches_filter :
    {Number : Type 0} → Option VectorSearchFilter → VectorRow Number → Bool
matches_filter none r = true
matches_filter (some f) r =
    passes f.repo_id r.repo_id
    && passes f.index_run_id r.index_run_id
    && kind_passes f.payload_kind r.payload_kind

-- The floating-point arithmetic of the cosine: `a / b`, `Math.sqrt(a)` and `a === 0`.
pub record Floats (Number : Type 0) : Type 0 where
  pub zero_float : Number
  pub plus : Number → Number → Number
  pub times : Number → Number → Number
  pub over : Number → Number → Number
  pub root : Number → Number
  pub is_zero : Number → Bool

module _ (scores : Scores) where
  -- A row that fails its schema ends the loop; what stood before it stays stored.
  unfoldable pub upsert_rows :
      Zod
      → List (VectorRow scores.Number)
      → JsMap (VectorRow scores.Number)
      → Result (Unit {0}) × JsMap (VectorRow scores.Number)
  upsert_rows zod [] m = (ok tt, m)
  upsert_rows zod (raw ∷ rest) m = elim (zod.parse (VectorRow scores.Number) is_vector_row raw) [
    | raise e ↦ (raise e, m)
    | ok r ↦ upsert_rows zod rest (set (row_key r) r m)
  ]

  module _ (floats : Floats scores.Number) where
    -- The loop of `cosine` over the positions that both vectors have, and its three sums.
    unfoldable pub cosine_sums :
        List scores.Number
        → List scores.Number
        → scores.Number × scores.Number × scores.Number
        → scores.Number × scores.Number × scores.Number
    cosine_sums (a ∷ xs) (b ∷ ys) (dot, na, nb) = cosine_sums xs ys (
      floats.plus dot (floats.times a b),
      floats.plus na (floats.times a a),
      floats.plus nb (floats.times b b),
    )
    cosine_sums _ _ sums = sums

    unfoldable pub cosine : List scores.Number → List scores.Number → scores.Number
    cosine a b =
        let (dot, na, nb) =
          cosine_sums a b (floats.zero_float, floats.zero_float, floats.zero_float) in
        if floats.is_zero na || floats.is_zero nb
        then floats.zero_float
        else floats.over dot (floats.times (floats.root na) (floats.root nb))

    unfoldable pub hit_of :
        List scores.Number → VectorRow scores.Number → VectorSearchHit scores.Number
    hit_of query r = record {
      node_id = r.node_id;
      score = cosine query r.vector;
      payload_kind = r.payload_kind;
    }

    unfoldable pub search_rows :
        List scores.Number
        → ℕ
        → Option VectorSearchFilter
        → JsMap (VectorRow scores.Number)
        → List (VectorSearchHit scores.Number)
    search_rows query limit f m = take limit (
        sort_by (λ a b. not (scores.gt b.score a.score))
          (map (hit_of query) (filter (matches_filter f) (values m))))

  unfoldable pub list_by_run :
      Text → Option ℕ → JsMap (VectorRow scores.Number) → List (VectorRow scores.Number)
  list_by_run run limit m =
      collect (λ r. r.index_run_id == run) (effective_limit limit) [] (values m)

  -- The loop that counts the rows of a run.
  unfoldable pub count_rows : Text → ℕ → List (VectorRow scores.Number) → ℕ
  count_rows run n [] = n
  count_rows run n (r ∷ rs) =
      let counted = count_rows run (n + 1) rs in
      let skipped = count_rows run n rs in if r.index_run_id == run then counted else skipped

  unfoldable pub count_by_run : Text → JsMap (VectorRow scores.Number) → ℕ
  count_by_run run m = count_rows run 0 (values m)

  count_rows-filter :
      (run : Text) (n : ℕ) (rs : List (VectorRow scores.Number))
      → count_rows run n rs ≡ length (filter (λ r. r.index_run_id == run) rs) + n
  unfolding count_rows
  count_rows-filter run n [] = omega arith
  count_rows-filter run n (r ∷ rs) =
      ground (arith, count_rows-filter run (n + 1) rs, count_rows-filter run n rs)

  -- `countByRun` is the number of the rows that `listByRun` returns without a limit, and a limit cuts
  -- that list to its first rows.
  pub count_by_run-list_by_run :
      (run : Text) (limit : Option ℕ) (m : JsMap (VectorRow scores.Number))
      → (count_by_run run m ≡ length (list_by_run run none m))
        × (list_by_run run limit m ≡ limited (effective_limit limit) (list_by_run run none m))
  unfolding count_by_run list_by_run effective_limit
  count_by_run-list_by_run run limit m =
      let all =
        collect-eq-limited (λ (r : VectorRow scores.Number). r.index_run_id == run) none
          (values m) in
      let counted = count_rows-filter run 0 (values m) in
      (
        omega (arith, counted, ap length all),
        collect-eq-limited (λ (r : VectorRow scores.Number). r.index_run_id == run) limit (values m)
            ∙ ap (limited (effective_limit limit)) (sym all),
      )
