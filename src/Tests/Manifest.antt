-- ===== src/Tests/Manifest.antt =====
-- Tests of the manifest store.
use codesoul.Prelude.{
  Text, codes, ◌==◌, ◌≡◌, ◌≢◌, refl, true, some, none, List, Selects, Same, Cut, [], ◌∷◌, filter,
  if◌then◌else◌,
}
use codesoul.JsMap.{get, has, set, values}
use codesoul.Core.Errors.{ok}
use codesoul.Core.Enums.{pending, committed, status_eq}
use codesoul.Core.Schema.{BatchManifest, is_batch_manifest}
use codesoul.Core.Ids.{is_content_hash}
use codesoul.Manifest.{
  ManifestStore, TransitionBatchInput, ListBatchesOptions, empty_store, transition_batch, get_batch,
  list_events, list_batches_for_run, record_batch, record_parsed,
}
use codesoul.Manifest.Transitions.{is_valid_transition, assert_valid_transition}
use codesoul.Manifest.Audit.{record_op, run, apply, replay, status_of}
use codesoul.Manifest.Audit.Kept.{audit_trail, run-IsConsistent, empty_store-IsConsistent}
use codesoul.Manifest.Audit.Terminal.{terminal_batch}
use codesoul.Manifest.Queries.{
  list_events-eq-filter, BatchAsked, list_batches_for_run-Selects, transition_batch_fulfilled,
  transition_batch_rejected,
}
use codesoul.Tests.Samples.{zod_of_checks, manifest_of, sample_ops, commit_op, fail_op}

abbrev batch : Text
batch = codes "batch"

audit_trail_example :
    replay batch none (run zod_of_checks sample_ops empty_store).events
    ≡ some (status_of (get batch (run zod_of_checks sample_ops empty_store).batches))
audit_trail_example = audit_trail zod_of_checks sample_ops batch

list_events-eq-filter_example :
    list_events batch (run zod_of_checks sample_ops empty_store)
    ≡ filter (λ e. e.batch_id == batch) (run zod_of_checks sample_ops empty_store).events
list_events-eq-filter_example = list_events-eq-filter zod_of_checks sample_ops batch

abbrev committed_options : ListBatchesOptions
committed_options = record { status = some committed; limit = some 1 }

abbrev stored : ManifestStore
stored = run zod_of_checks sample_ops empty_store

abbrev pending_store : ManifestStore
pending_store = run zod_of_checks (record_op (manifest_of pending) ∷ []) empty_store

list_batches_for_run-Selects_example :
    (all : List BatchManifest) × Selects
      (BatchAsked (codes "run") committed_options)
      Same
      (values stored.batches)
      all
    × Cut committed_options.limit all (list_batches_for_run (codes "run") committed_options stored)
list_batches_for_run-Selects_example =
    list_batches_for_run-Selects (codes "run") committed_options stored

abbrev commit_input : TransitionBatchInput
commit_input = record { batch_id = batch; to_status = committed; message = none }

abbrev now : Text
now = codes "2024-01-01T00:00:01.000Z"

abbrev committed_manifest : BatchManifest
committed_manifest = record (manifest_of committed) { committed_at = some now }

stored-eq : get batch stored.batches ≡ some committed_manifest
unfolding run apply record_batch record_parsed transition_batch assert_valid_transition
    is_valid_transition is_batch_manifest is_content_hash get has set ◌==◌ status_eq
stored-eq = refl

committed-eq : (transition_batch now commit_input pending_store).0 ≡ ok committed_manifest
unfolding run apply record_batch record_parsed transition_batch assert_valid_transition
    is_valid_transition is_batch_manifest is_content_hash get has set ◌==◌ status_eq
committed-eq = refl

refused : (next : BatchManifest) → (transition_batch now commit_input stored).0 ≢ ok next
unfolding run apply record_batch record_parsed transition_batch assert_valid_transition
    is_valid_transition is_batch_manifest is_content_hash get has set ◌==◌ status_eq
refused next h = cc h

terminal_batch_example :
    get batch (run zod_of_checks (fail_op ∷ commit_op ∷ []) stored).batches
    ≡ some committed_manifest
terminal_batch_example =
    terminal_batch zod_of_checks (fail_op ∷ commit_op ∷ []) stored batch committed_manifest
      (run-IsConsistent zod_of_checks sample_ops empty_store empty_store-IsConsistent) stored-eq
      (λ e. cc e)

transition_batch_fulfilled_example :
    (existing : BatchManifest) × (get_batch batch pending_store ≡ some existing)
    × (is_valid_transition existing.status committed ≡ true)
    × (committed_manifest.status ≡ committed)
    × (committed_manifest.committed_at
        ≡ (if status_eq committed committed then some now else existing.committed_at))
    × ((b : Text)
        → get_batch b (transition_batch now commit_input pending_store).1
          ≡ (if batch == b then some committed_manifest else get_batch b pending_store))
transition_batch_fulfilled_example =
    transition_batch_fulfilled now commit_input pending_store committed_manifest
      (run-IsConsistent zod_of_checks (record_op (manifest_of pending) ∷ []) empty_store
        empty_store-IsConsistent)
      committed-eq

transition_batch_rejected_example : (transition_batch now commit_input stored).1 ≡ stored
transition_batch_rejected_example = transition_batch_rejected now commit_input stored refused
