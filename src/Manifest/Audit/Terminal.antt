-- ===== src/Manifest/Audit/Terminal.antt =====
-- packages/manifest-store/src/memory.ts: the batches that have left the status `pending`.
use codesoul.Prelude.{
  Text, eq_iff, ◌≡◌, ◌≢◌, some, List, [], ◌∷◌, arith, Bool-cases, Option-cases, inl, inr,
}
use codesoul.JsMap.{get}
use codesoul.JsMap.Laws.{get-set, has_of_get}
use codesoul.Core.Zod.{Zod, parse-cases}
use codesoul.Core.Enums.{pending}
use codesoul.Core.Schema.{
  BatchManifest, IngestionManifest, is_batch_manifest, is_ingestion_manifest,
}
use codesoul.Manifest.{
  ManifestStore, TransitionBatchInput, record_parsed, commit_transition, with_status,
  transition_batch, record_batch, record_ingestion, finish_ingestion,
}
use codesoul.Manifest.Transitions.{is_valid_transition, is_valid_transition-pending}
use codesoul.Manifest.Audit.{
  IsConsistent, Op, record_op, transition_op, record_ingestion_op, finish_ingestion_op, apply, run,
}
use codesoul.Manifest.Audit.Kept.{
  transition_batch_unknown, transition_batch_refused, transition_batch_done, apply-IsConsistent,
}

module _ (b : Text) (m : BatchManifest) (s : ManifestStore)
    (stored : get b s.batches ≡ some m) where
  -- Recording never touches a batch that is there.
  get-record_parsed : (p : BatchManifest) → get b (record_parsed p s).1.batches ≡ some m
  unfolding record_parsed
  get-record_parsed p = ground (
    arith,
    get-set p.batch_id b p s.batches,
    eq_iff p.batch_id b,
    has_of_get b s.batches m stored,
  )

  get-record_batch :
      (zod : Zod) (p : BatchManifest) → get b (record_batch zod p s).1.batches ≡ some m
  unfolding record_batch
  get-record_batch zod p = elim (parse-cases zod BatchManifest (is_batch_manifest zod) p) [
    | inl (_, e) ↦ rw (e, record_batch) (get-record_parsed p)
    | inr (_, _, e) ↦ rw (e, record_batch) stored
  ]

  get-record_ingestion :
      (zod : Zod) (i : IngestionManifest) → get b (record_ingestion zod i s).1.batches ≡ some m
  unfolding record_ingestion
  get-record_ingestion zod i =
      elim (parse-cases zod IngestionManifest (is_ingestion_manifest zod) i) [
        | inl (_, e) ↦ rw (e, record_ingestion) stored
        | inr (_, _, e) ↦ rw (e, record_ingestion) stored
      ]

  get-finish_ingestion : (r at : Text) → get b (finish_ingestion r at s).1.batches ≡ some m
  unfolding finish_ingestion
  get-finish_ingestion r at = elim (Option-cases (get r s.ingestions)) [
    | inl e ↦ rw (e, finish_ingestion) stored
    | inr (_, e) ↦ rw (e, finish_ingestion) stored
  ]

  module _ (consistent : IsConsistent s) (terminal : m.status ≢ pending) where
    get-commit_transition :
        (now : Text) (input : TransitionBatchInput) (existing : BatchManifest)
        → get input.batch_id s.batches ≡ some existing
        → existing.status ≡ pending
        → get b (commit_transition now input existing s).batches ≡ some m
    unfolding commit_transition
    get-commit_transition now input existing found p =
        let next = with_status input.to_status now existing in
        ground (
          arith,
          get-set next.batch_id b next s.batches,
          eq_iff next.batch_id b,
          consistent.keyed input.batch_id existing found,
        )

    get-transition_batch :
        (now : Text) (input : TransitionBatchInput)
        → get b (transition_batch now input s).1.batches ≡ some m
    get-transition_batch now input = elim (Option-cases (get input.batch_id s.batches)) [
      | inl p ↦ rw (transition_batch_unknown now input s p) stored
      | inr (existing, p) ↦
          elim (Bool-cases (is_valid_transition existing.status input.to_status)) [
            | inl t ↦ rw (transition_batch_done now input s existing p t) (
                get-commit_transition now input existing p
                  (is_valid_transition-pending existing.status input.to_status t))
            | inr f ↦ rw (transition_batch_refused now input s existing p f) stored
          ]
    ]

    get-apply : (zod : Zod) (op : Op) → get b (apply zod op s).batches ≡ some m
    unfolding apply
    get-apply zod (record_op p) = get-record_batch zod p
    get-apply zod (transition_op input now) = get-transition_batch now input
    get-apply zod (record_ingestion_op i) = get-record_ingestion zod i
    get-apply zod (finish_ingestion_op r at) = get-finish_ingestion r at

-- In a consistent store, a batch that is committed, failed or a dry run keeps its whole manifest
-- under every sequence of calls.
pub terminal_batch :
    (zod : Zod) (ops : List Op) (s : ManifestStore) (b : Text) (m : BatchManifest)
    → IsConsistent s
    → get b s.batches ≡ some m
    → m.status ≢ pending
    → get b (run zod ops s).batches ≡ some m
unfolding run
terminal_batch zod [] s b m c stored t = stored
terminal_batch zod (op ∷ ops) s b m c stored t =
    terminal_batch zod ops (apply zod op s) b m (apply-IsConsistent zod op s c)
      (get-apply b m s stored c t zod op) t
