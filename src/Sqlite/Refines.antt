-- ===== src/Sqlite/Refines.antt =====
-- packages/manifest-store/src/sqlite.ts refines memory.ts: a client that makes the same calls of
-- both stores gets the same answers.
use codesoul.Prelude.{◌≡◌, refl, ap, ◌∙◌, Bool, true, List, [], ◌∷◌, All}
use codesoul.Core.Errors.{is_ok}
use codesoul.Core.Zod.{Zod}
use codesoul.Manifest.{
  ManifestStore, empty_store, record_batch, transition_batch, record_ingestion, finish_ingestion,
}
use codesoul.Manifest.Audit.{
  Op, record_op, transition_op, record_ingestion_op, finish_ingestion_op, apply, run,
}
use codesoul.Sqlite.{
  Tables, Engine, empty_tables, record_batch_sql, transition_batch_sql, record_ingestion_sql,
  finish_ingestion_sql,
}
use codesoul.Sqlite.View.{view, IsSound}
use codesoul.Sqlite.Batches.{record_batch_sql-record_batch}
use codesoul.Sqlite.Transitions.{transition_batch_sql-transition_batch}
use codesoul.Sqlite.Ingestions.{
  record_ingestion_sql-record_ingestion, finish_ingestion_sql-finish_ingestion,
}

module _ (zod : Zod) where
  unfoldable pub accepts : Op → ManifestStore → Bool
  accepts (record_op m) s = is_ok (record_batch zod m s).0
  accepts (transition_op input now) s = is_ok (transition_batch now input s).0
  accepts (record_ingestion_op m) s = is_ok (record_ingestion zod m s).0
  accepts (finish_ingestion_op id at) s = is_ok (finish_ingestion id at s).0

  -- The times that the calls are given are ISO datetimes.
  abbrev pub IsTimely : Op → Type 0
  IsTimely (record_op m) = Unit
  IsTimely (transition_op input now) = zod.is_datetime now ≡ true
  IsTimely (record_ingestion_op m) = Unit
  IsTimely (finish_ingestion_op id at) = zod.is_datetime at ≡ true

module _ (db : Engine) (zod : Zod) where
  unfoldable pub apply_sql : Op → Tables → Tables
  apply_sql (record_op m) t = (record_batch_sql db zod m t).1
  apply_sql (transition_op input now) t = (transition_batch_sql db zod now input t).1
  apply_sql (record_ingestion_op m) t = (record_ingestion_sql db zod m t).1
  apply_sql (finish_ingestion_op id at) t = (finish_ingestion_sql db zod id at t).1

  unfoldable pub run_sql : List Op → Tables → Tables
  unfolding apply_sql
  run_sql [] t = t
  run_sql (op ∷ ops) t = run_sql ops (apply_sql op t)

  -- Whether the call is fulfilled.
  unfoldable pub accepts_sql : Op → Tables → Bool
  accepts_sql (record_op m) t = is_ok (record_batch_sql db zod m t).0
  accepts_sql (transition_op input now) t = is_ok (transition_batch_sql db zod now input t).0
  accepts_sql (record_ingestion_op m) t = is_ok (record_ingestion_sql db zod m t).0
  accepts_sql (finish_ingestion_op id at) t = is_ok (finish_ingestion_sql db zod id at t).0

  apply_sql-apply :
      (op : Op) (t : Tables)
      → IsTimely zod op
      → IsSound zod t
      → (accepts_sql op t ≡ accepts zod op (view t))
        × (view (apply_sql op t) ≡ apply zod op (view t))
        × IsSound zod (apply_sql op t)
  unfolding apply_sql apply accepts accepts_sql
  apply_sql-apply (record_op m) t d s = record_batch_sql-record_batch db zod t s m
  apply_sql-apply (transition_op input now) t d s =
      let (e, k) = transition_batch_sql-transition_batch zod db now input t d s in
      (ap (λ p. is_ok p.0) e, ap (λ p. p.1) e, k)
  apply_sql-apply (record_ingestion_op m) t d s = record_ingestion_sql-record_ingestion zod db t s m
  apply_sql-apply (finish_ingestion_op id at) t d s =
      let (e, k) = finish_ingestion_sql-finish_ingestion zod db t s id at d in
      (ap (λ p. is_ok p.0) e, ap (λ p. p.1) e, k)

  run_sql-run :
      (ops : List Op) (t : Tables)
      → All (IsTimely zod) ops
      → IsSound zod t
      → (view (run_sql ops t) ≡ run zod ops (view t)) × IsSound zod (run_sql ops t)
  unfolding run_sql run
  run_sql-run [] t d s = (refl, s)
  run_sql-run (op ∷ ops) t d s =
      let (_, e, k) = apply_sql-apply op t d.0 s in
      let (f, l) = run_sql-run ops (apply_sql op t) d.1 k in (f ∙ ap (run zod ops) e, l)

  empty_tables-IsSound : IsSound zod empty_tables
  empty_tables-IsSound = record {
    batch_keys = tt;
    batch_rows_valid = λ r i. elim i [ ];
    run_keys = tt;
    ingestion_rows_valid = λ r i. elim i [ ];
  }

  view_empty : view empty_tables ≡ empty_store
  unfolding view
  view_empty = refl

  pub reached :
      (ops : List Op)
      → All (IsTimely zod) ops
      → (view (run_sql ops empty_tables) ≡ run zod ops empty_store)
        × IsSound zod (run_sql ops empty_tables)
  reached ops d =
      let (e, s) = run_sql-run ops empty_tables d empty_tables-IsSound in
      (e ∙ ap (run zod ops) view_empty, s)

-- After any calls, rejected ones included, whose times are datetimes, the tables stand for the state
-- that the same calls leave in the in-memory store, and a further call is fulfilled by the one store
-- exactly if it is by the other.
pub run_sql-refines :
    (db : Engine) (zod : Zod) (ops : List Op) (op : Op)
    → All (IsTimely zod) ops
    → IsTimely zod op
    → (view (run_sql db zod ops empty_tables) ≡ run zod ops empty_store)
      × (accepts_sql db zod op (run_sql db zod ops empty_tables)
          ≡ accepts zod op (run zod ops empty_store))
run_sql-refines db zod ops op d e =
    let (p, s) = reached db zod ops d in
    let (q, _, _) = apply_sql-apply db zod op (run_sql db zod ops empty_tables) e s in
    (p, q ∙ ap (accepts zod op) p)
