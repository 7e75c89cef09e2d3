-- ===== src/Tests/Indexer.antt =====
-- Tests of the write of a batch.
use codesoul.Prelude.{ℕ, suc, Text, codes, ◌≡◌, refl, true, false, none, [], ◌∷◌}
use codesoul.JsMap.{get}
use codesoul.Core.Errors.{ok, raise, plain_error}
use codesoul.Core.Enums.{pending}
use codesoul.Core.Ids.{is_content_hash}
use codesoul.Core.Schema.{is_batch_manifest}
use codesoul.Manifest.{empty_store}
use codesoul.Indexer.{Stores, Batch, persist, write_batch}
use codesoul.Indexer.Settled.{Settled, write_batch-Settled}
use codesoul.Tests.Samples.{zod_of_checks, manifest_of, node_a, node_b, edge_ab}

-- Stores that count their calls; the third one throws.
abbrev failing : Stores ℕ Text
failing = record {
  upsert_nodes = λ ns s. (ok tt, suc s);
  upsert_edges = λ es s. (ok tt, suc s);
  upsert_vectors = λ rows s. (raise (plain_error (codes "disk full")), suc s);
}

abbrev sample_batch : Batch Text
sample_batch = record {
  manifest = manifest_of pending;
  nodes = node_a ∷ node_b ∷ [];
  edges = edge_ab ∷ [];
  vectors = [];
  is_dry_run = false;
}

manifest-valid : is_batch_manifest zod_of_checks (manifest_of pending) ≡ true
unfolding is_batch_manifest is_content_hash
manifest-valid = refl

not_recorded : get sample_batch.manifest.batch_id empty_store.batches ≡ none
unfolding get
not_recorded = refl

write_batch-Settled_example :
    Settled failing sample_batch
      (persist failing sample_batch 0).0
      (write_batch failing sample_batch zod_of_checks (codes "t1") (codes "t2") empty_store 0).0
      (write_batch failing sample_batch zod_of_checks (codes "t1") (codes "t2") empty_store 0).1
write_batch-Settled_example =
    write_batch-Settled failing sample_batch zod_of_checks (codes "t1") (codes "t2") empty_store 0
      manifest-valid refl not_recorded
