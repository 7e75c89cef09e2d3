-- ===== src/Sqlite.antt =====
-- packages/manifest-store/src/sqlite.ts and schema.ts: the manifest store behind SQLite. A table is the
-- list of its rows in the order of their insertion, and a prepared statement is a call of the
-- engine with the columns and the condition that its text names.
pub mod Rows
pub mod View
pub mod Batches
pub mod Transitions
pub mod Ingestions
pub mod Refines
pub mod Reads
pub mod Listing
use codesoul.Prelude.{
  ℕ, zero, suc, ◌+◌, Text, codes, ◌==◌, ◌≡◌, Bool, true, false, not, ◌&&◌, Option, none, some, List,
  [], ◌∷◌, ◌++◌, map, filter, take, leb, text_le, IsSorted, In, if◌then◌else◌,
}
use codesoul.Core.Errors.{Error, Result, ok, raise, plain_error, ◌>>=◌}
use codesoul.Core.Zod.{Zod}
use codesoul.Core.Ids.{is_content_hash}
use codesoul.Core.Enums.{BatchStatus, pending, committed, failed, dry_run, status_name, status_eq}
use codesoul.Core.Schema.{
  BatchManifest, IngestionManifest, is_batch_manifest, is_ingestion_manifest, is_nullable_datetime,
}
use codesoul.Manifest.{BatchEvent, TransitionBatchInput, ListBatchesOptions}
use codesoul.Manifest.Transitions.{assert_valid_transition}

pub record BatchRow : Type 0 where
  pub batch_id : Text
  pub index_run_id : Text
  pub repo_id : Text
  pub source_path : Text
  pub source_content_hash : Text
  pub status : Text
  pub node_count : ℕ
  pub edge_count : ℕ
  pub vector_count : ℕ
  pub created_at : Text
  pub committed_at : Option Text
  pub checksum : Text
  pub version : ℕ

pub record EventRow : Type 0 where
  pub event_id : ℕ
  pub batch_id : Text
  pub from_status : Option Text
  pub to_status : Text
  pub created_at : Text
  pub message : Option Text

-- A row of `ingestion_manifest` has the fields of the manifest.
abbrev pub IngestionRow : Type 0
IngestionRow = IngestionManifest

-- The three tables, and the sequence of the `AUTOINCREMENT` column.
pub record Tables : Type 0 where
  pub batch_rows : List BatchRow
  pub event_rows : List EventRow
  pub last_event_id : ℕ
  pub ingestion_rows : List IngestionRow

abbrev pub empty_tables : Tables
empty_tables = record { batch_rows = []; event_rows = []; last_event_id = 0; ingestion_rows = [] }

-- better-sqlite3, by what its documentation says of the statements that the store prepares: an
-- `INSERT` appends a row unless its primary key is taken, or throws; the sequence numbers the
-- events if their foreign key holds; `get` gives the one row that meets a condition on the key;
-- `UPDATE` changes the rows that meet a condition; `ON CONFLICT DO UPDATE` writes over the row with
-- the key; `ORDER BY` gives the rows that meet a condition in ascending order, where no two are
-- tied; and a transaction commits unless its function throws.
pub record Engine : Type 1 where
  pub insert : (Row : Type 0) → (Row → Text) → Row → List Row → Result (List Row)
  pub insert_event : List BatchRow → (ℕ → EventRow) → ℕ × List EventRow → Result (ℕ × List EventRow)
  pub get_row : (Row : Type 0) → (Row → Bool) → List Row → Option Row
  pub update : (Row : Type 0) → (Row → Bool) → (Row → Row) → List Row → List Row
  pub upsert : (Row : Type 0) → (Row → Text) → Row → List Row → List Row
  pub select_ordered : (Row : Type 0) → (Row → Bool) → (Row → Row → Bool) → List Row → List Row
  pub transaction : (A : Type 0) → (Tables → Result (A × Tables)) → Tables → Result A × Tables
  pub inserts :
      (Row : Type 0) (key : Row → Text) (r : Row) (rows : List Row)
      → ((x : Row) → In x rows → (key x == key r) ≡ false)
      → insert Row key r rows ≡ ok (rows ++ r ∷ [])
  pub refuses :
      (Row : Type 0) (key : Row → Text) (r x : Row) (rows : List Row)
      → In x rows
      → key x ≡ key r
      → (e : Text) × (insert Row key r rows ≡ raise (plain_error e))
  pub numbers :
      (parents : List BatchRow) (make : ℕ → EventRow) (n : ℕ) (rows : List EventRow)
      (parent : BatchRow)
      → In parent parents
      → parent.batch_id ≡ (make (n + 1)).batch_id
      → insert_event parents make (n, rows) ≡ ok (n + 1, rows ++ make (n + 1) ∷ [])
  pub gets :
      (Row : Type 0) (p : Row → Bool) (rows : List Row) (x : Row)
      → In x rows
      → p x ≡ true
      → ((y : Row) → In y rows → p y ≡ true → y ≡ x)
      → get_row Row p rows ≡ some x
  pub misses :
      (Row : Type 0) (p : Row → Bool) (rows : List Row)
      → ((y : Row) → In y rows → p y ≡ false)
      → get_row Row p rows ≡ none
  pub updates :
      (Row : Type 0) (p : Row → Bool) (f : Row → Row) (rows : List Row)
      → update Row p f rows ≡ map (λ r. if p r then f r else r) rows
  pub upserts_new :
      (Row : Type 0) (key : Row → Text) (r : Row) (rows : List Row)
      → ((x : Row) → In x rows → (key x == key r) ≡ false)
      → upsert Row key r rows ≡ rows ++ r ∷ []
  pub upserts_old :
      (Row : Type 0) (key : Row → Text) (r x : Row) (rows : List Row)
      → In x rows
      → key x ≡ key r
      → upsert Row key r rows ≡ map (λ y. if key y == key r then r else y) rows
  pub orders :
      (Row : Type 0) (p : Row → Bool) (le : Row → Row → Bool) (rows : List Row)
      → IsSorted (λ a b. le a b && not (le b a)) (filter p rows)
      → select_ordered Row p le rows ≡ filter p rows
  pub commits :
      (A : Type 0) (f : Tables → Result (A × Tables)) (t t' : Tables) (a : A)
      → f t ≡ ok (a, t')
      → transaction A f t ≡ (ok a, t')
  pub rolls_back :
      (A : Type 0) (f : Tables → Result (A × Tables)) (t : Tables) (e : Error)
      → f t ≡ raise e
      → transaction A f t ≡ (raise e, t)

-- The status that a text names. A text that names none is read by `status_or_pending` as `pending`;
-- the schema refuses such a row of a batch before its status is used, and the store writes no such
-- event, of which the source would pass the text on.
unfoldable pub read_status : Text → Option BatchStatus
read_status s =
    if s == codes "pending"
    then some pending
    else if s == codes "committed"
    then some committed
    else if s == codes "failed"
    then some failed
    else if s == codes "dry_run"
    then some dry_run
    else none

unfoldable pub status_or_pending : Text → BatchStatus
unfolding read_status
status_or_pending s = elim (read_status s) [ none ↦ pending | some status ↦ status ]

unfoldable pub row_of : BatchManifest → BatchRow
row_of m = record {
  batch_id = m.batch_id;
  index_run_id = m.index_run_id;
  repo_id = m.repo_id;
  source_path = m.source_path;
  source_content_hash = m.source_content_hash;
  status = status_name m.status;
  node_count = m.node_count;
  edge_count = m.edge_count;
  vector_count = m.vector_count;
  created_at = m.created_at;
  committed_at = m.committed_at;
  checksum = m.checksum;
  version = m.version;
}

-- The object that `rowToBatch` parses; its version is the literal 1.
unfoldable pub manifest_of : BatchRow → BatchManifest
unfolding status_or_pending
manifest_of r = record {
  batch_id = r.batch_id;
  index_run_id = r.index_run_id;
  repo_id = r.repo_id;
  source_path = r.source_path;
  source_content_hash = r.source_content_hash;
  status = status_or_pending r.status;
  node_count = r.node_count;
  edge_count = r.edge_count;
  vector_count = r.vector_count;
  created_at = r.created_at;
  committed_at = r.committed_at;
  checksum = r.checksum;
  version = 1;
}

unfoldable pub row_to_event : EventRow → BatchEvent
unfolding status_or_pending
row_to_event r = record {
  event_id = r.event_id;
  batch_id = r.batch_id;
  from_status = elim r.from_status [ none ↦ none | some s ↦ some (status_or_pending s) ];
  to_status = status_or_pending r.to_status;
  created_at = r.created_at;
  message = r.message;
}

abbrev pub has_status : Text → Bool
has_status s = elim (read_status s) [ none ↦ false | some _ ↦ true ]

module _ (zod : Zod) where
  -- The schema on the object of a row, whose status is any text.
  unfoldable pub is_batch_row : BatchRow → Bool
  is_batch_row r = has_status r.status && is_batch_manifest zod (manifest_of r)

  unfoldable pub row_to_batch : BatchRow → Result BatchManifest
  row_to_batch r = do parsed ← zod.parse BatchRow is_batch_row r; ok (manifest_of parsed)

  unfoldable pub row_to_ingestion : IngestionRow → Result IngestionManifest
  row_to_ingestion r =
      zod.parse IngestionManifest (is_ingestion_manifest zod) (record r { version = 1 })

-- A row of `batch_event` as the store writes it.
abbrev pub event_row : Text → Option Text → Text → Text → Option Text → ℕ → EventRow
event_row batch from to at message id = record {
  event_id = id;
  batch_id = batch;
  from_status = from;
  to_status = to;
  created_at = at;
  message = message;
}

-- `assertValidTransition` on the text of a status, which throws a `TypeError` on any other text.
unfoldable pub assert_transition_from : Text → BatchStatus → Result (Unit {0})
assert_transition_from from to = elim (read_status from) [
  | none ↦ raise (plain_error (codes "Cannot read properties of undefined (reading 'includes')"))
  | some status ↦ assert_valid_transition status to
]

abbrev pub with_batch_id : Text → BatchRow → Bool
with_batch_id id r = r.batch_id == id

abbrev pub with_run_id : Text → IngestionRow → Bool
with_run_id id r = r.index_run_id == id

-- `UPDATE batch_manifest SET status, committed_at`
abbrev pub set_status : Text → Option Text → BatchRow → BatchRow
set_status status committed_at r = record r { status = status; committed_at = committed_at }

-- `rows.map(rowToBatch)`
unfoldable pub rows_to_batches : Zod → List BatchRow → Result (List BatchManifest)
rows_to_batches zod [] = ok []
rows_to_batches zod (r ∷ rs) = do m ← row_to_batch zod r; ms ← rows_to_batches zod rs; ok (m ∷ ms)

abbrev pub is_selected : Text → Option BatchStatus → BatchRow → Bool
is_selected run none r = r.index_run_id == run
is_selected run (some status) r = (r.index_run_id == run) && (r.status == status_name status)

abbrev pub limit_rows : Option ℕ → List BatchRow → List BatchRow
limit_rows none rows = rows
limit_rows (some zero) rows = rows
limit_rows (some (suc n)) rows = take (suc n) rows

module _ (db : Engine) where
  -- The transaction of `recordBatch`.
  unfoldable pub insert_batch : BatchManifest → Tables → Result (Unit {0} × Tables)
  insert_batch m t = do
    rows ← db.insert BatchRow (λ r. r.batch_id) (row_of m) t.batch_rows
    (last, events) ←
        db.insert_event rows (event_row m.batch_id none (status_name m.status) m.created_at none)
          (t.last_event_id, t.event_rows)
    ok (tt, record t { batch_rows = rows; event_rows = events; last_event_id = last })

  unfoldable pub record_batch_sql : Zod → BatchManifest → Tables → Result (Unit {0}) × Tables
  record_batch_sql zod m t = elim (zod.parse BatchManifest (is_batch_manifest zod) m) [
    | raise e ↦ (raise e, t)
    | ok parsed ↦ db.transaction (Unit {0}) (insert_batch parsed) t
  ]

  -- The transaction of `transitionBatch` behind the first `SELECT`.
  unfoldable pub update_batch :
      Text → TransitionBatchInput → BatchRow → Tables → Result (BatchRow × Tables)
  update_batch now input existing t = do
    _ ← assert_transition_from existing.status input.to_status
    let at = if status_eq input.to_status committed then some now else existing.committed_at
    let rows =
        db.update BatchRow (with_batch_id input.batch_id)
          (set_status (status_name input.to_status) at) t.batch_rows
    (last, events) ←
        db.insert_event rows
          (event_row input.batch_id (some existing.status) (status_name input.to_status) now
            input.message)
          (t.last_event_id, t.event_rows)
    let after = record t { batch_rows = rows; event_rows = events; last_event_id = last }
    elim (db.get_row BatchRow (with_batch_id input.batch_id) rows) [
      | none ↦ raise (plain_error (codes "Batch disappeared mid-transition: " ++ input.batch_id))
      | some updated ↦ ok (updated, after)
    ]

  unfoldable pub transition_rows : Text → TransitionBatchInput → Tables → Result (BatchRow × Tables)
  transition_rows now input t =
      elim (db.get_row BatchRow (with_batch_id input.batch_id) t.batch_rows) [
        | none ↦ raise (plain_error (codes "Unknown batch: " ++ input.batch_id))
        | some existing ↦ update_batch now input existing t
      ]

  unfoldable pub transition_batch_sql :
      Zod → Text → TransitionBatchInput → Tables → Result BatchManifest × Tables
  transition_batch_sql zod now input t =
      let (r, t') = db.transaction BatchRow (transition_rows now input) t in
      (r >>= row_to_batch zod, t')

  unfoldable pub get_batch_sql : Zod → Text → Tables → Result (Option BatchManifest)
  get_batch_sql zod id t = elim (db.get_row BatchRow (with_batch_id id) t.batch_rows) [
    | none ↦ ok none
    | some r ↦ do m ← row_to_batch zod r; ok (some m)
  ]

  unfoldable pub list_events_sql : Text → Tables → List BatchEvent
  list_events_sql id t = map row_to_event (
      db.select_ordered EventRow (λ r. r.batch_id == id) (λ a b. leb a.event_id b.event_id)
        t.event_rows)

  unfoldable pub record_ingestion_sql :
      Zod → IngestionManifest → Tables → Result (Unit {0}) × Tables
  record_ingestion_sql zod m t = elim (zod.parse IngestionManifest (is_ingestion_manifest zod) m) [
    | raise e ↦ (raise e, t)
    | ok parsed ↦ (
      ok tt,
      record t {
        ingestion_rows = db.upsert IngestionRow (λ r. r.index_run_id) parsed t.ingestion_rows;
      },
    )
  ]

  -- The transaction of `finishIngestion`.
  unfoldable pub finish_rows : Text → Text → Tables → Result (IngestionRow × Tables)
  finish_rows id at t = elim (db.get_row IngestionRow (with_run_id id) t.ingestion_rows) [
    | none ↦ raise (plain_error (codes "Unknown ingestion: " ++ id))
    | some _ ↦
        let rows =
          db.update IngestionRow (with_run_id id) (λ r. record r { finished_at = some at })
            t.ingestion_rows in
        elim (db.get_row IngestionRow (with_run_id id) rows) [
          | none ↦ raise (plain_error (codes "Ingestion disappeared mid-update: " ++ id))
          | some updated ↦ ok (updated, record t { ingestion_rows = rows })
        ]
  ]

  unfoldable pub finish_ingestion_sql :
      Zod → Text → Text → Tables → Result IngestionManifest × Tables
  finish_ingestion_sql zod id at t =
      let (r, t') = db.transaction IngestionRow (finish_rows id at) t in
      (r >>= row_to_ingestion zod, t')

  unfoldable pub get_ingestion_sql : Zod → Text → Tables → Result (Option IngestionManifest)
  get_ingestion_sql zod id t = elim (db.get_row IngestionRow (with_run_id id) t.ingestion_rows) [
    | none ↦ ok none
    | some r ↦ do m ← row_to_ingestion zod r; ok (some m)
  ]

  unfoldable pub list_batches_sql :
      Zod → Text → ListBatchesOptions → Tables → Result (List BatchManifest)
  list_batches_sql zod run options t = rows_to_batches zod (
      limit_rows options.limit (
        db.select_ordered BatchRow (is_selected run options.status)
          (λ a b. text_le a.created_at b.created_at) t.batch_rows))
