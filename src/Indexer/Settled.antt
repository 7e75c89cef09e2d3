-- ===== src/Indexer/Settled.antt =====
-- packages/indexer/src/mock-fixture.ts: how the write of a batch ends.
use codesoul.Prelude.{
  Text, eq_iff, eq_refl, ◌≡◌, ◌≢◌, refl, ap, ◌∙◌, true, false, none, some, Bool-cases, ◌⊎◌, inl,
  inr,
}
use codesoul.JsMap.{get, has}
use codesoul.JsMap.Laws.{get-set, has-eq-is_some, is_some}
use codesoul.Core.Errors.{Error, Result, ok, raise, message, ok-injective}
use codesoul.Core.Zod.{Zod}
use codesoul.Core.Enums.{BatchStatus, pending, failed}
use codesoul.Core.Schema.{BatchManifest, is_batch_manifest}
use codesoul.Manifest.{
  ManifestStore, TransitionBatchInput, record_batch, record_parsed, transition_batch, with_status,
  commit_transition,
}
use codesoul.Manifest.Transitions.{is_valid_transition, is_valid_transition_from_pending}
use codesoul.Manifest.Audit.Kept.{transition_batch_done}
use codesoul.Indexer.{
  IndexRepositoryResult, Stores, Batch, settle, beside, persist, target, index_result, give_up,
  finish, try_write, write_batch,
}

settle_ok :
    {A S X : Type 0} (p : Result A × S) (a : A) (f : A → S → X) (g : Error → S → X)
    → p.0 ≡ ok a
    → settle p f g ≡ f a p.1
settle_ok (ok b, s) a f g h = ap (λ x. f x s) (ok-injective h)
settle_ok (raise e, s) a f g h = cc

settle_cases :
    {A S X : Type 0} (p : Result A × S) (f : A → S → X) (g : Error → S → X)
    → ((a : A) × (p.0 ≡ ok a) × (settle p f g ≡ f a p.1))
      ⊎ ((e : Error) × (p.0 ≡ raise e) × (settle p f g ≡ g e p.1))
settle_cases (ok a, s) f g = inl (a, refl, refl)
settle_cases (raise e, s) f g = inr (e, refl, refl)

leaves :
    {from : BatchStatus} (to : BatchStatus)
    → from ≡ pending
    → to ≢ pending
    → is_valid_transition from to ≡ true
leaves to e h = rw e (is_valid_transition_from_pending to h)

-- A fulfilled transition of a batch that is pending.
get-transition :
    (now : Text) (input : TransitionBatchInput) (ms : ManifestStore) (m : BatchManifest)
    → get input.batch_id ms.batches ≡ some m
    → m.batch_id ≡ input.batch_id
    → is_valid_transition m.status input.to_status ≡ true
    → ((transition_batch now input ms).0 ≡ ok (with_status input.to_status now m))
      × (get input.batch_id (transition_batch now input ms).1.batches
          ≡ some (with_status input.to_status now m))
get-transition now input ms m p own t = rw (transition_batch_done now input ms m p t) (
  refl,
  unfold commit_transition in
      get-set m.batch_id input.batch_id (with_status input.to_status now m) ms.batches
      ∙ rw ((eq_iff m.batch_id input.batch_id).1 own),
)

record_batch_new :
    (zod : Zod) (m : BatchManifest) (ms : ManifestStore)
    → is_batch_manifest zod m ≡ true
    → get m.batch_id ms.batches ≡ none
    → ((record_batch zod m ms).0 ≡ ok tt)
      × (get m.batch_id (record_batch zod m ms).1.batches ≡ some m)
unfolding record_batch record_parsed
record_batch_new zod m ms v p =
    rw (zod.accepts BatchManifest (is_batch_manifest zod) m v, record_batch)
      (recorded (has-eq-is_some m.batch_id ms.batches ∙ ap is_some p))
  where
    recorded :
        has m.batch_id ms.batches ≡ false
        → ((record_parsed m ms).0 ≡ ok tt)
          × (get m.batch_id (record_parsed m ms).1.batches ≡ some m)
    recorded f =
        unfold record_parsed in
        rw f (refl, get-set m.batch_id m.batch_id m ms.batches ∙ rw (eq_refl m.batch_id))

module _ {S Row : Type 0} (stores : Stores S Row) (batch : Batch Row) where
  abbrev id : Text
  id = batch.manifest.batch_id

  -- How the write of a batch ends: with the result and the batch committed (or a dry run), or with
  -- the error of the stores and the batch failed.
  abbrev pub Settled : Result (Unit {0}) → Result IndexRepositoryResult → ManifestStore → Type 0
  Settled (ok u) r ms =
      (m : BatchManifest) × (r ≡ ok (index_result stores batch m))
      × (get id ms.batches ≡ some m)
      × (m.status ≡ target stores batch)
  Settled (raise e) r ms =
      (m : BatchManifest) × (r ≡ raise e) × (get id ms.batches ≡ some m) × (m.status ≡ failed)

  target-eq : target stores batch ≢ pending
  target-eq h = elim (Bool-cases batch.is_dry_run) [
    | inl t ↦ cc (rw t at h)
    | inr f ↦ cc (rw f at h)
  ]

  finish-Settled :
      (now later : Text) (ms : ManifestStore) (m : BatchManifest)
      → get id ms.batches ≡ some m
      → m.batch_id ≡ id
      → m.status ≡ pending
      → Settled (ok tt) (finish stores batch now later ms).0 (finish stores batch now later ms).1
  unfolding finish
  finish-Settled now later ms m p own e =
      let input : TransitionBatchInput = record {
        batch_id = id;
        to_status = target stores batch;
        message = none;
      } in
      let (done, stored) =
        get-transition now input ms m p own (leaves (target stores batch) e target-eq) in
      let same =
        settle_ok (transition_batch now input ms) _
          (λ n ms'. (ok (index_result stores batch n), ms'))
          (λ err ms'. give_up stores batch later err ms') done in
      (
        with_status (target stores batch) now m,
        ap (λ x. x.0) same,
        ap (λ x. get id x.1.batches) same ∙ stored,
        unfold with_status in refl,
      )

  give_up-Settled :
      (now : Text) (err : Error) (ms : ManifestStore) (m : BatchManifest)
      → get id ms.batches ≡ some m
      → m.batch_id ≡ id
      → m.status ≡ pending
      → Settled (raise err) (give_up stores batch now err ms).0 (give_up stores batch now err ms).1
  unfolding give_up
  give_up-Settled now err ms m p own e =
      let (_, stored) =
        get-transition now
          (record { batch_id = id; to_status = failed; message = some (message err) }) ms m p own
          (leaves failed e (λ h. cc h)) in
      (with_status failed now m, refl, stored, unfold with_status in refl)

  try_write-Settled :
      (now later : Text) (ms : ManifestStore) (s : S) (m : BatchManifest)
      → get id ms.batches ≡ some m
      → m.batch_id ≡ id
      → m.status ≡ pending
      → Settled
          (persist stores batch s).0
          (try_write stores batch now later ms s).0
          (try_write stores batch now later ms s).1
  unfolding try_write
  try_write-Settled now later ms s m p own e =
      elim (settle_cases (persist stores batch s)
        (λ _ s'. beside (finish stores batch now later ms) s')
        (λ err s'. beside (give_up stores batch now err ms) s')) [
          | inl (u, q, r) ↦ rw q (finish-Settled now later ms m p own e)
          | inr (err, q, r) ↦ rw q (give_up-Settled now err ms m p own e)
        ]

  -- For a batch that is pending and whose manifest passes its schema under an id that is not
  -- recorded yet, `indexRepository` never leaves the status `pending`. If the writes to the stores go
  -- well (or are skipped by a dry run), it returns the stored manifest, whose status is `committed`
  -- (or `dry_run`). If one of them throws, it throws the same error and the stored status is
  -- `failed`.
  pub write_batch-Settled :
      (zod : Zod) (now later : Text) (ms : ManifestStore) (s : S)
      → is_batch_manifest zod batch.manifest ≡ true
      → batch.manifest.status ≡ pending
      → get id ms.batches ≡ none
      → Settled
          (persist stores batch s).0
          (write_batch stores batch zod now later ms s).0
          (write_batch stores batch zod now later ms s).1
  unfolding write_batch
  write_batch-Settled zod now later ms s v e p =
      let (done, stored) = record_batch_new zod batch.manifest ms v p in
      let same =
        settle_ok (record_batch zod batch.manifest ms) tt
          (λ _ ms'. try_write stores batch now later ms' s) (λ err ms'. (raise err, ms', s)) done in
      rw (zod.accepts BatchManifest (is_batch_manifest zod) batch.manifest v, write_batch)
        (rw same (
          try_write-Settled now later (record_batch zod batch.manifest ms).1 s batch.manifest stored
            refl e))
