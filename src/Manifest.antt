-- ===== src/Manifest.antt =====
-- packages/manifest-store/src/memory.ts and manifest-store.ts: the in-memory manifest store. A
-- method takes the store and returns its result (fulfilled or rejected) with the new store; the
-- reading of the clock is an argument.
pub mod Transitions
pub mod Audit
pub mod Queries
use codesoul.Prelude.{
  ℕ, suc, ◌+◌, Text, codes, ◌==◌, Bool, true, not, ◌&&◌, Option, none, some, List, [], ◌∷◌, ◌++◌,
  leb, filter, effective_limit, collect, sort_by, if◌then◌else◌,
}
use codesoul.JsMap.{JsMap, get, has, set, values}
use codesoul.Core.Errors.{Result, ok, raise, plain_error}
use codesoul.Core.Zod.{Zod}
use codesoul.Core.Enums.{BatchStatus, committed, status_eq}
use codesoul.Core.Schema.{
  BatchManifest, IngestionManifest, is_batch_manifest, is_ingestion_manifest,
}
use codesoul.Manifest.Transitions.{assert_valid_transition}

pub record BatchEvent : Type 0 where
  pub event_id : ℕ
  pub batch_id : Text
  pub from_status : Option BatchStatus
  pub to_status : BatchStatus
  pub created_at : Text
  pub message : Option Text

pub record TransitionBatchInput : Type 0 where
  pub batch_id : Text
  pub to_status : BatchStatus
  pub message : Option Text

pub record ListBatchesOptions : Type 0 where
  pub status : Option BatchStatus
  pub limit : Option ℕ

pub record ManifestStore : Type 0 where
  pub batches : JsMap BatchManifest
  pub events : List BatchEvent
  pub ingestions : JsMap IngestionManifest
  pub next_event_id : ℕ

abbrev pub empty_store : ManifestStore
empty_store = record { batches = []; events = []; ingestions = []; next_event_id = 1 }

-- `this.events.push({ eventId: this.nextEventId++, ... })`
abbrev pub push_event :
    Text → Option BatchStatus → BatchStatus → Text → Option Text → ManifestStore → ManifestStore
push_event batch from to at message s = record s {
  events =
      s.events
      ++ record {
        event_id = s.next_event_id;
        batch_id = batch;
        from_status = from;
        to_status = to;
        created_at = at;
        message = message;
      }
        ∷ [];
  next_event_id = s.next_event_id + 1;
}

-- The body of `recordBatch` behind the schema.
unfoldable pub record_parsed : BatchManifest → ManifestStore → Result (Unit {0}) × ManifestStore
record_parsed parsed s =
    if has parsed.batch_id s.batches
    then (raise (plain_error (codes "Batch already recorded: " ++ parsed.batch_id)), s)
    else (
      ok tt,
      push_event parsed.batch_id none parsed.status parsed.created_at none
          (record s { batches = set parsed.batch_id parsed s.batches }),
    )

-- The manifest with its new status, and the commit stamp if that is `committed`.
unfoldable pub with_status : BatchStatus → Text → BatchManifest → BatchManifest
with_status to now existing = record existing {
  status = to;
  committed_at = if status_eq to committed then some now else existing.committed_at;
}

-- `transitionBatch` where the batch is there and the transition is allowed.
unfoldable pub commit_transition :
    Text → TransitionBatchInput → BatchManifest → ManifestStore → ManifestStore
unfolding with_status
commit_transition now input existing s =
    let next = with_status input.to_status now existing in
    push_event next.batch_id (some existing.status) next.status now input.message
      (record s { batches = set next.batch_id next s.batches })

unfoldable pub transition_batch :
    Text → TransitionBatchInput → ManifestStore → Result BatchManifest × ManifestStore
unfolding commit_transition with_status
transition_batch now input s = elim (get input.batch_id s.batches) [
  | none ↦ (raise (plain_error (codes "Unknown batch: " ++ input.batch_id)), s)
  | some existing ↦ elim (assert_valid_transition existing.status input.to_status) [
    | raise e ↦ (raise e, s)
    | ok _ ↦ (ok (with_status input.to_status now existing), commit_transition now input existing s)
  ]
]

unfoldable pub get_batch : Text → ManifestStore → Option BatchManifest
get_batch batch s = get batch s.batches

-- The two `continue` tests of `listBatchesForRun`.
unfoldable pub is_listed : Text → Option BatchStatus → BatchManifest → Bool
is_listed run none m = m.index_run_id == run
is_listed run (some status) m = (m.index_run_id == run) && status_eq m.status status

unfoldable pub list_batches_for_run : Text → ListBatchesOptions → ManifestStore → List BatchManifest
unfolding is_listed collect effective_limit
list_batches_for_run run options s =
    collect (is_listed run options.status) (effective_limit options.limit) [] (values s.batches)

-- `.filter((e) => e.batchId === batchId).sort((a, b) => a.eventId - b.eventId)`
unfoldable pub list_events : Text → ManifestStore → List BatchEvent
unfolding sort_by
list_events batch s =
    sort_by (λ a b. leb a.event_id b.event_id) (filter (λ e. e.batch_id == batch) s.events)

unfoldable pub finish_ingestion :
    Text → Text → ManifestStore → Result IngestionManifest × ManifestStore
finish_ingestion run at s = elim (get run s.ingestions) [
  | none ↦ (raise (plain_error (codes "Unknown ingestion: " ++ run)), s)
  | some existing ↦
      let next : IngestionManifest = record existing { finished_at = some at } in
      (ok next, record s { ingestions = set run next s.ingestions })
]

unfoldable pub get_ingestion : Text → ManifestStore → Option IngestionManifest
get_ingestion run s = get run s.ingestions

module _ (zod : Zod) where
  unfoldable pub record_batch : BatchManifest → ManifestStore → Result (Unit {0}) × ManifestStore
  unfolding record_parsed
  record_batch m s = elim (zod.parse BatchManifest (is_batch_manifest zod) m) [
    | raise e ↦ (raise e, s)
    | ok parsed ↦ record_parsed parsed s
  ]

  unfoldable pub record_ingestion :
      IngestionManifest → ManifestStore → Result (Unit {0}) × ManifestStore
  record_ingestion m s = elim (zod.parse IngestionManifest (is_ingestion_manifest zod) m) [
    | raise e ↦ (raise e, s)
    | ok parsed ↦ (ok tt, record s { ingestions = set parsed.index_run_id parsed s.ingestions })
  ]
