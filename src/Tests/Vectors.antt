-- ===== src/Tests/Vectors.antt =====
-- Tests of the vector store and of the batches of files.
use codesoul.Prelude.{
  ℕ, ◌+◌, ◌*◌, ◌/◌, Text, codes, ltb, nat_eq, false, arith, Option, none, List, take, Perm,
  Descending, ◌==◌, ◌≡◌, refl, true, some, [], ◌∷◌, length, effective_limit, limited, Selects,
}
use codesoul.JsMap.{JsMap, values, set}
use codesoul.Core.Errors.{ok}
use codesoul.Core.Enums.{typescript, python, function_summary, language_name}
use codesoul.Retrieval.{Scores, VectorSearchFilter, VectorSearchHit}
use codesoul.Vectors.{
  VectorRow, Floats, search_rows, list_by_run, count_by_run, count_by_run-list_by_run, row_key,
}
use codesoul.Vectors.Search.{RowAsked, IsHit, search_rows-best}
use codesoul.Retrieval.Merge.{IsTotalOrder}
use codesoul.Indexer.Batches.{
  Parser, BuildBatchInput, BuildBatchResult, build_batch, build_files, is_supported, inputs_of,
  inputs_of_kind, build_batch-inputs, IsEmbedded, Embeds,
}
use codesoul.Tests.Samples.{sample_meta, node_a, node_b, edge_ab, sym_a, sym_b}

abbrev whole : Scores
whole = record { Number = ℕ; one = 1; gt = λ a b. ltb b a; spread = λ a. a * 8 / 10 }

abbrev whole_floats : Floats ℕ
whole_floats = record {
  zero_float = 0;
  plus = λ a b. a + b;
  times = λ a b. a * b;
  over = λ a b. a / b;
  root = λ a. a;
  is_zero = λ a. nat_eq a 0;
}

abbrev row_of : Text → VectorRow ℕ
row_of id = record {
  meta = sample_meta;
  node_id = id;
  embedding_model = codes "m";
  embedding_revision = codes "0";
  row_dim = 1024;
  vector = 1 ∷ 2 ∷ [];
  payload_kind = function_summary;
}

abbrev rows : JsMap (VectorRow ℕ)
rows = set (row_key (row_of sym_a)) (row_of sym_a) (set (row_key (row_of sym_b)) (row_of sym_b) [])

whole-IsTotalOrder : IsTotalOrder whole
whole-IsTotalOrder = record { below = λ a b. below a b; through = λ a b c. through a b c }
  where
    below : (a b : ℕ) → ltb b a ≡ true → ltb a b ≡ false
    below a b t = ground arith

    through : (a b c : ℕ) → ltb a b ≡ false → ltb b c ≡ false → ltb a c ≡ false
    through a b c f g = ground arith

-- The rows of one run with summaries.
abbrev summaries : Option VectorSearchFilter
summaries = some (record {
  repo_id = none;
  index_run_id = some (codes "run");
  payload_kind = some function_summary;
})

search_rows-best_example :
    (hits ranked : List (VectorSearchHit ℕ)) × Selects
      (RowAsked summaries)
      (IsHit whole whole_floats (2 ∷ []))
      (values rows)
      hits
    × Perm ranked hits
    × Descending whole.gt (λ h. h.score) ranked
    × (search_rows whole whole_floats (2 ∷ []) 1 summaries rows ≡ take 1 ranked)
search_rows-best_example =
    search_rows-best whole whole_floats (2 ∷ []) 1 summaries rows whole-IsTotalOrder

count_by_run-list_by_run_example :
    (count_by_run whole (codes "run") rows ≡ length (list_by_run whole (codes "run") none rows))
    × (list_by_run whole (codes "run") (some 1) rows
        ≡ limited (effective_limit (some 1)) (list_by_run whole (codes "run") none rows))
count_by_run-list_by_run_example = count_by_run-list_by_run whole (codes "run") (some 1) rows

-- A parser of one language.
abbrev small_parser : Parser
small_parser = record {
  languages = typescript ∷ [];
  parse_file = λ input f. ok (node_a ∷ node_b ∷ [], edge_ab ∷ []);
}

abbrev batch_input : BuildBatchInput
batch_input = record {
  repo_id = codes "repo";
  index_run_id = codes "run";
  batch_id = codes "batch";
  files =
      record { path = codes "a.ts"; language = typescript; source = [] }
      ∷ record { path = codes "b.py"; language = python; source = [] }
      ∷ [];
}

abbrev built : BuildBatchResult
built = record {
  nodes = node_a ∷ node_b ∷ [];
  edges = edge_ab ∷ [];
  vector_inputs = inputs_of (node_a ∷ node_b ∷ []);
}

build_batch-eq : build_batch small_parser batch_input ≡ ok built
unfolding build_batch build_files is_supported inputs_of inputs_of_kind ◌==◌ language_name
build_batch-eq = refl

build_batch-inputs_example : Selects IsEmbedded Embeds built.nodes built.vector_inputs
build_batch-inputs_example = build_batch-inputs small_parser batch_input built build_batch-eq
