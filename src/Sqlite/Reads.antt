-- ===== src/Sqlite/Reads.antt =====
-- packages/manifest-store/src/sqlite.ts, the reads: `getBatch`, `getIngestion`, `listEvents` and
-- `listBatchesForRun`, against the in-memory store.
use codesoul.Prelude.{
  ℕ, ◌+◌, ◌≤◌, Text, ◌==◌, ◌≡◌, refl, sym, ap, ◌∙◌, Bool, true, not, ◌&&◌, some, List, [], ◌∷◌, map,
  filter, All, leb, arith, inl, inr, Option-cases, Bool-cases, IsSorted,
}
use mathlib.Core.Path.{subst}
use codesoul.JsMap.{get}
use codesoul.Core.Errors.{ok}
use codesoul.Core.Zod.{Zod}
use codesoul.Manifest.{empty_store, get_batch, get_ingestion, list_events}
use codesoul.Manifest.Audit.{Op, run, IsConsistent, Numbered}
use codesoul.Manifest.Audit.Kept.{run-IsConsistent, empty_store-IsConsistent}
use codesoul.Manifest.Queries.{list_events-eq-filter}
use codesoul.Sqlite.{
  EventRow, Tables, Engine, empty_tables, manifest_of, row_to_event, get_batch_sql,
  get_ingestion_sql, list_events_sql,
}
use codesoul.Sqlite.Rows.{found, get_row-found, get_row-missing}
use codesoul.Sqlite.View.{view, IsSound}
use codesoul.Sqlite.Transitions.{row_to_batch-valid}
use codesoul.Sqlite.Ingestions.{row_to_ingestion-valid}
use codesoul.Sqlite.Refines.{run_sql, IsTimely, reached}

-- Rows that are numbered without a gap are in strictly ascending order, with or without a filter.
above :
    (n k : ℕ) (p : EventRow → Bool) (rows : List EventRow)
    → n + 1 ≤ k
    → Numbered k (map row_to_event rows)
    → All (λ b. (leb n b.event_id && not (leb b.event_id n)) ≡ true) (filter p rows)
unfolding row_to_event
above n k p [] h t = tt
above n k p (r ∷ rows) h t = elim (Bool-cases (p r)) [
  | inl y ↦ rw y (ground (arith, t.0), above n (k + 1) p rows (omega arith) t.1)
  | inr f ↦ rw f (above n (k + 1) p rows (omega arith) t.1)
]

ascending :
    (n : ℕ) (p : EventRow → Bool) (rows : List EventRow)
    → Numbered n (map row_to_event rows)
    → IsSorted (λ a b. leb a.event_id b.event_id && not (leb b.event_id a.event_id)) (filter p rows)
unfolding row_to_event
ascending n p [] t = tt
ascending n p (r ∷ rows) t = elim (Bool-cases (p r)) [
  | inl y ↦
      rw y (above r.event_id (n + 1) p rows (omega (arith, t.0)) t.1, ascending (n + 1) p rows t.1)
  | inr f ↦ rw f (ascending (n + 1) p rows t.1)
]

filter-map :
    (id : Text) (rows : List EventRow)
    → map row_to_event (filter (λ r. r.batch_id == id) rows)
      ≡ filter (λ e. e.batch_id == id) (map row_to_event rows)
unfolding row_to_event
filter-map id [] = refl
filter-map id (r ∷ rows) = elim (Bool-cases (r.batch_id == id)) [
  | inl t ↦ rw t (ap (λ l. row_to_event r ∷ l) (filter-map id rows))
  | inr f ↦ rw f (filter-map id rows)
]

module _ (db : Engine) (zod : Zod) where
  get_batch_sql-get_batch :
      (id : Text) (t : Tables)
      → IsSound zod t
      → get_batch_sql db zod id t ≡ ok (get_batch id (view t))
  unfolding get_batch_sql get_batch view
  get_batch_sql-get_batch id t s = elim (Option-cases (get id (view t).batches)) [
    | inl p ↦
        rw (get_row-missing (λ r. r.batch_id) manifest_of db id t.batch_rows p, get_batch_sql)
          (rw p)
    | inr (m, p) ↦
        let (x, i, e, w) = found (λ r. r.batch_id) manifest_of id t.batch_rows m p in
        rw
          (
            get_row-found (λ r. r.batch_id) manifest_of db id t.batch_rows x s.batch_keys i e,
            get_batch_sql,
          )
          (rw (row_to_batch-valid zod x (s.batch_rows_valid x i)) (rw p (ap (λ y. ok (some y)) w)))
  ]

  get_ingestion_sql-get_ingestion :
      (id : Text) (t : Tables)
      → IsSound zod t
      → get_ingestion_sql db zod id t ≡ ok (get_ingestion id (view t))
  unfolding get_ingestion_sql get_ingestion view
  get_ingestion_sql-get_ingestion id t s = elim (Option-cases (get id (view t).ingestions)) [
    | inl p ↦
        rw
          (
            get_row-missing (λ r. r.index_run_id) (λ r. r) db id t.ingestion_rows p,
            get_ingestion_sql,
          )
          (rw p)
    | inr (m, p) ↦
        let (x, i, e, w) = found (λ r. r.index_run_id) (λ r. r) id t.ingestion_rows m p in
        rw
          (
            get_row-found (λ r. r.index_run_id) (λ r. r) db id t.ingestion_rows x s.run_keys i e,
            get_ingestion_sql,
          )
          (rw (row_to_ingestion-valid zod x (s.ingestion_rows_valid x i))
            (rw p (ap (λ y. ok (some y)) w)))
  ]

  list_events_sql-filter :
      (id : Text) (t : Tables)
      → IsConsistent (view t)
      → list_events_sql db id t ≡ filter (λ e. e.batch_id == id) (view t).events
  unfolding list_events_sql view
  list_events_sql-filter id t c =
      ap (map row_to_event) (
        db.orders EventRow (λ r. r.batch_id == id) (λ a b. leb a.event_id b.event_id) t.event_rows
          (ascending 1 (λ r. r.batch_id == id) t.event_rows c.numbered))
      ∙ filter-map id t.event_rows

-- After any calls whose times are datetimes, `getBatch`, `getIngestion` and `listEvents` answer for
-- every id what the in-memory store answers after the same calls.
pub reads_sql-reads :
    (db : Engine) (zod : Zod) (ops : List Op) (id : Text)
    → All (IsTimely zod) ops
    → (get_batch_sql db zod id (run_sql db zod ops empty_tables)
        ≡ ok (get_batch id (run zod ops empty_store)))
      × (get_ingestion_sql db zod id (run_sql db zod ops empty_tables)
          ≡ ok (get_ingestion id (run zod ops empty_store)))
      × (list_events_sql db id (run_sql db zod ops empty_tables)
          ≡ list_events id (run zod ops empty_store))
reads_sql-reads db zod ops id d =
    let t = run_sql db zod ops empty_tables in
    let (p, s) = reached db zod ops d in
    (
      get_batch_sql-get_batch db zod id t s ∙ ap (λ m. ok (get_batch id m)) p,
      get_ingestion_sql-get_ingestion db zod id t s ∙ ap (λ m. ok (get_ingestion id m)) p,
      list_events_sql-filter db zod id t (
            subst IsConsistent (sym p)
              (run-IsConsistent zod ops empty_store empty_store-IsConsistent))
          ∙ ap (λ m. filter (λ e. e.batch_id == id) m.events) p
          ∙ sym (list_events-eq-filter zod ops id),
    )
