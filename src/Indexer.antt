-- ===== src/Indexer.antt =====
-- packages/indexer/src/mock-fixture.ts: the part of `indexRepository` that writes a batch, from the
-- manifest in the state `pending` on.
pub mod Settled
pub mod Batches
use codesoul.Prelude.{ℕ, Text, Bool, true, false, Option, none, some, List, length, if◌then◌else◌}
use codesoul.Core.Errors.{Error, message, Result, ok, raise}
use codesoul.Core.Zod.{Zod}
use codesoul.Core.Enums.{BatchStatus, pending, committed, failed, dry_run}
use codesoul.Core.Schema.{GraphNode, GraphEdge, BatchManifest, is_batch_manifest}
use codesoul.Manifest.{ManifestStore, TransitionBatchInput, record_batch, transition_batch}

pub record IndexRepositoryResult : Type 0 where
  pub manifest : BatchManifest
  pub node_count : ℕ
  pub edge_count : ℕ
  pub vector_count : ℕ

-- The graph store and the vector store, with the state `S` of both and the rows `Row` of the
-- latter. A call that throws may have changed the state.
pub record Stores (S Row : Type 0) : Type 0 where
  pub upsert_nodes : List GraphNode → S → Result (Unit {0}) × S
  pub upsert_edges : List GraphEdge → S → Result (Unit {0}) × S
  pub upsert_vectors : List Row → S → Result (Unit {0}) × S

-- What the batch holds, and whether it is a dry run.
pub record Batch (Row : Type 0) : Type 0 where
  pub manifest : BatchManifest
  pub nodes : List GraphNode
  pub edges : List GraphEdge
  pub vectors : List Row
  pub is_dry_run : Bool

-- What follows an awaited call that changes a state: `f` if it is fulfilled, `g` if it throws.
abbrev pub settle : {A S X : Type 0} → Result A × S → (A → S → X) → (Error → S → X) → X
settle (ok a, s) f g = f a s
settle (raise e, s) f g = g e s

abbrev pub beside : {A B S : Type 0} → A × B → S → A × B × S
beside (a, b) s = (a, b, s)

module _ {S Row : Type 0} (stores : Stores S Row) (batch : Batch Row) where
  -- The writes to the stores, which a dry run skips.
  unfoldable pub persist : S → Result (Unit {0}) × S
  persist s =
      if batch.is_dry_run
      then (ok tt, s)
      else settle (stores.upsert_nodes batch.nodes s)
          (λ _ s₁.
            settle (stores.upsert_edges batch.edges s₁)
              (λ _ s₂. stores.upsert_vectors batch.vectors s₂) (λ e s₂. (raise e, s₂)))
          (λ e s₁. (raise e, s₁))

  abbrev pub target : BatchStatus
  target = if batch.is_dry_run then dry_run else committed

  unfoldable pub index_result : BatchManifest → IndexRepositoryResult
  index_result m = record {
    manifest = m;
    node_count = length batch.nodes;
    edge_count = length batch.edges;
    vector_count = length batch.vectors;
  }

  -- The `catch`: the batch is marked as failed, an error of that is dropped, and the first error is
  -- thrown again.
  unfoldable pub give_up :
      Text → Error → ManifestStore → Result IndexRepositoryResult × ManifestStore
  give_up now e ms = (
    raise e,
    (transition_batch now
        (record {
          batch_id = batch.manifest.batch_id;
          to_status = failed;
          message = some (message e);
        })
        ms).1,
  )

  -- The end of the `try`, after the writes.
  unfoldable pub finish : Text → Text → ManifestStore → Result IndexRepositoryResult × ManifestStore
  finish now later ms =
      settle
        (transition_batch now
          (record { batch_id = batch.manifest.batch_id; to_status = target; message = none }) ms)
        (λ m ms'. (ok (index_result m), ms')) (λ e ms'. give_up later e ms')

  unfoldable pub try_write :
      Text → Text → ManifestStore → S → Result IndexRepositoryResult × ManifestStore × S
  try_write now later ms s =
      settle (persist s) (λ _ s'. beside (finish now later ms) s')
        (λ e s'. beside (give_up now e ms) s')

  -- The whole: the manifest passes its schema, is recorded, and the batch is written. `now` is the
  -- clock's reading at the first transition, `later` that at a second one.
  unfoldable pub write_batch :
      Zod → Text → Text → ManifestStore → S → Result IndexRepositoryResult × ManifestStore × S
  write_batch zod now later ms s =
      elim (zod.parse BatchManifest (is_batch_manifest zod) batch.manifest) [
        | raise e ↦ (raise e, ms, s)
        | ok parsed ↦
            settle (record_batch zod parsed ms) (λ _ ms'. try_write now later ms' s)
              (λ e ms'. (raise e, ms', s))
      ]
