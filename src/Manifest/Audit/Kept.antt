-- ===== src/Manifest/Audit/Kept.antt =====
-- Every method of the manifest store keeps the audit trail and the manifests consistent.
use codesoul.Prelude.{
  Text, codes, eq_refl, ◌≡◌, refl, ap, ◌∙◌, true, false, none, some, List, [], ◌∷◌, ◌++◌,
  Bool-cases, Option-cases, inl, inr,
}
use codesoul.JsMap.{JsMap, get, has}
use codesoul.JsMap.Laws.{get-eq-none}
use codesoul.Core.Errors.{ok, raise, plain_error}
use codesoul.Core.Zod.{Zod, parse-cases}
use codesoul.Core.Enums.{BatchStatus, status_eq, status_name}
use codesoul.Core.Schema.{
  BatchManifest, IngestionManifest, is_batch_manifest, is_ingestion_manifest,
}
use codesoul.Manifest.{
  ManifestStore, TransitionBatchInput, empty_store, record_parsed, commit_transition, with_status,
  transition_batch, record_batch, record_ingestion, finish_ingestion,
}
use codesoul.Manifest.Transitions.{is_valid_transition, assert_valid_transition, transition_error}
use codesoul.Manifest.Audit.{
  IsConsistent, Op, record_op, transition_op, record_ingestion_op, finish_ingestion_op, apply, run,
  follows, status_of, replay, pushed-IsConsistent,
}

record_parsed-IsConsistent :
    (m : BatchManifest) (s : ManifestStore) → IsConsistent s → IsConsistent (record_parsed m s).1
unfolding record_parsed
record_parsed-IsConsistent m s c = elim (Bool-cases (has m.batch_id s.batches)) [
  | inl t ↦ rw t c
  | inr f ↦ rw f (
      pushed-IsConsistent s m _ c refl refl refl
        (unfold follows in rw (get-eq-none m.batch_id s.batches f)))
]

pub record_batch-IsConsistent :
    (zod : Zod) (m : BatchManifest) (s : ManifestStore)
    → IsConsistent s
    → IsConsistent (record_batch zod m s).1
unfolding record_batch
record_batch-IsConsistent zod m s c =
    elim (parse-cases zod BatchManifest (is_batch_manifest zod) m) [
      | inl (_, p) ↦ rw (p, record_batch) (record_parsed-IsConsistent m s c)
      | inr (e, _, p) ↦ rw (p, record_batch) c
    ]

status_eq_refl : (a : BatchStatus) → status_eq a a ≡ true
unfolding status_eq
status_eq_refl a = eq_refl (status_name a)

commit_transition-IsConsistent :
    (now : Text) (input : TransitionBatchInput) (existing : BatchManifest) (s : ManifestStore)
    → IsConsistent s
    → get input.batch_id s.batches ≡ some existing
    → is_valid_transition existing.status input.to_status ≡ true
    → IsConsistent (commit_transition now input existing s)
unfolding commit_transition
commit_transition-IsConsistent now input existing s c found valid =
    pushed-IsConsistent s (with_status input.to_status now existing) _ c refl refl refl (
      unfold follows in
      rw (ap (λ b. get b s.batches) (c.keyed input.batch_id existing found) ∙ found)
        (rw (status_eq_refl existing.status) valid))

-- `transitionBatch` on its three branches.
module _ (now : Text) (input : TransitionBatchInput) (s : ManifestStore) where
  pub transition_batch_unknown :
      get input.batch_id s.batches ≡ none
      → transition_batch now input s
        ≡ (raise (plain_error (codes "Unknown batch: " ++ input.batch_id)), s)
  unfolding transition_batch
  transition_batch_unknown p = rw (p, transition_batch)

  pub transition_batch_refused :
      (existing : BatchManifest)
      → get input.batch_id s.batches ≡ some existing
      → is_valid_transition existing.status input.to_status ≡ false
      → transition_batch now input s ≡ (raise (transition_error existing.status input.to_status), s)
  unfolding transition_batch assert_valid_transition
  transition_batch_refused existing p f = rw (p, transition_batch, f)

  pub transition_batch_done :
      (existing : BatchManifest)
      → get input.batch_id s.batches ≡ some existing
      → is_valid_transition existing.status input.to_status ≡ true
      → transition_batch now input s
        ≡ (ok (with_status input.to_status now existing), commit_transition now input existing s)
  unfolding transition_batch assert_valid_transition
  transition_batch_done existing p t = rw (p, transition_batch, t)

pub transition_batch-IsConsistent :
    (now : Text) (input : TransitionBatchInput) (s : ManifestStore)
    → IsConsistent s
    → IsConsistent (transition_batch now input s).1
transition_batch-IsConsistent now input s c = elim (Option-cases (get input.batch_id s.batches)) [
  | inl p ↦ rw (transition_batch_unknown now input s p) c
  | inr (existing, p) ↦ elim (Bool-cases (is_valid_transition existing.status input.to_status)) [
    | inl t ↦
        rw (transition_batch_done now input s existing p t)
          (commit_transition-IsConsistent now input existing s c p t)
    | inr f ↦ rw (transition_batch_refused now input s existing p f) c
  ]
]

ingestions-IsConsistent :
    (s : ManifestStore) (i : JsMap IngestionManifest)
    → IsConsistent s
    → IsConsistent (record s { ingestions = i })
ingestions-IsConsistent s i c = record {
  keyed = c.keyed;
  audited = c.audited;
  numbered = c.numbered;
  next_id = c.next_id;
}

record_ingestion-IsConsistent :
    (zod : Zod) (m : IngestionManifest) (s : ManifestStore)
    → IsConsistent s
    → IsConsistent (record_ingestion zod m s).1
unfolding record_ingestion
record_ingestion-IsConsistent zod m s c =
    elim (parse-cases zod IngestionManifest (is_ingestion_manifest zod) m) [
      | inl (_, p) ↦ rw (p, record_ingestion) (ingestions-IsConsistent s _ c)
      | inr (e, _, p) ↦ rw (p, record_ingestion) c
    ]

finish_ingestion-IsConsistent :
    (r at : Text) (s : ManifestStore) → IsConsistent s → IsConsistent (finish_ingestion r at s).1
unfolding finish_ingestion
finish_ingestion-IsConsistent r at s c = elim (Option-cases (get r s.ingestions)) [
  | inl p ↦ rw (p, finish_ingestion) c
  | inr (existing, p) ↦ rw (p, finish_ingestion) (ingestions-IsConsistent s _ c)
]

pub apply-IsConsistent :
    (zod : Zod) (op : Op) (s : ManifestStore) → IsConsistent s → IsConsistent (apply zod op s)
unfolding apply
apply-IsConsistent zod (record_op m) s c = record_batch-IsConsistent zod m s c
apply-IsConsistent zod (transition_op input now) s c = transition_batch-IsConsistent now input s c
apply-IsConsistent zod (record_ingestion_op m) s c = record_ingestion-IsConsistent zod m s c
apply-IsConsistent zod (finish_ingestion_op r at) s c = finish_ingestion-IsConsistent r at s c

pub run-IsConsistent :
    (zod : Zod) (ops : List Op) (s : ManifestStore) → IsConsistent s → IsConsistent (run zod ops s)
unfolding run
run-IsConsistent zod [] s c = c
run-IsConsistent zod (op ∷ ops) s c =
    run-IsConsistent zod ops (apply zod op s) (apply-IsConsistent zod op s c)

pub empty_store-IsConsistent : IsConsistent empty_store
empty_store-IsConsistent = record {
  keyed = λ b m p. unfold get in cc p;
  audited = λ b. unfold get replay in refl;
  numbered = tt;
  next_id = refl;
}

-- Whatever calls a client makes on a fresh store, rejected ones included, replaying the events of
-- any batch meets only valid transitions, each from the status that the event before it ended in,
-- and ends in the stored status of the batch; a batch that is not stored has no events.
pub audit_trail :
    (zod : Zod) (ops : List Op) (b : Text)
    → replay b none (run zod ops empty_store).events
      ≡ some (status_of (get b (run zod ops empty_store).batches))
audit_trail zod ops b = (run-IsConsistent zod ops empty_store empty_store-IsConsistent).audited b
