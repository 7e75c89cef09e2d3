-- ===== src/Tests/Sqlite.antt =====
-- Tests of the SQLite manifest store, on an engine over lists.
use codesoul.Prelude.{
  ◌+◌, codes, ◌==◌, eq_iff, ◌≡◌, refl, sym, ap, ◌∙◌, Bool, true, false, not, ◌&&◌, ◌||◌, none, some,
  List, [], ◌∷◌, ◌++◌, map, filter, find, In, In-All, All, arith, inl, inr, Bool-cases,
  if◌then◌else◌, IsSorted, sort_by, sort_by_sorted, text_le,
}
use codesoul.Core.Errors.{ok, raise, plain_error}
use codesoul.Core.Enums.{pending, committed}
use codesoul.Core.Schema.{is_batch_manifest}
use codesoul.Core.Ids.{is_content_hash}
use codesoul.Manifest.{
  ListBatchesOptions, empty_store, get_batch, get_ingestion, list_events, list_batches_for_run,
}
use codesoul.Manifest.Audit.{run}
use codesoul.Sqlite.{
  BatchRow, EventRow, Tables, Engine, empty_tables, row_of, is_selected, list_batches_sql,
  get_batch_sql, get_ingestion_sql, list_events_sql, is_batch_row,
}
use codesoul.Sqlite.View.{view, IsSound, manifest_of-row_of}
use codesoul.Sqlite.Refines.{run_sql, accepts_sql, accepts, IsTimely, run_sql-refines}
use codesoul.Sqlite.Reads.{reads_sql-reads}
use codesoul.Sqlite.Listing.{list_batches_sql-list_batches_for_run}
use codesoul.Tests.Samples.{zod_of_checks, manifest_of, sample_ops, commit_op}

abbrev is_there : {Row : Type 0} → (Row → Bool) → List Row → Bool
is_there p [] = false
is_there p (r ∷ rows) = p r || is_there p rows

is_there_none :
    {Row : Type 0} (p : Row → Bool) (rows : List Row)
    → ((x : Row) → In x rows → p x ≡ false)
    → is_there p rows ≡ false
is_there_none p [] h = refl
is_there_none p (r ∷ rows) h =
    ground (arith, h r (inl refl), is_there_none p rows (λ x i. h x (inr i)))

is_there_one :
    {Row : Type 0} (p : Row → Bool) (rows : List Row) (x : Row)
    → In x rows
    → p x ≡ true
    → is_there p rows ≡ true
is_there_one p [] x i h = elim i [ ]
is_there_one p (r ∷ rows) x (inl e) h = rw (ap p (sym e) ∙ h)
is_there_one p (r ∷ rows) x (inr i) h = ground (arith, is_there_one p rows x i h)

find-none :
    {Row : Type 0} (p : Row → Bool) (rows : List Row)
    → ((x : Row) → In x rows → p x ≡ false)
    → find p rows ≡ none
find-none p [] h = refl
find-none p (r ∷ rows) h = rw (h r (inl refl)) (find-none p rows (λ x i. h x (inr i)))

find-one :
    {Row : Type 0} (p : Row → Bool) (rows : List Row) (x : Row)
    → In x rows
    → p x ≡ true
    → ((y : Row) → In y rows → p y ≡ true → y ≡ x)
    → find p rows ≡ some x
find-one p [] x i h u = elim i [ ]
find-one p (r ∷ rows) x (inl e) h u = rw (ap p (sym e) ∙ h) (ap some (sym e))
find-one p (r ∷ rows) x (inr i) h u = elim (Bool-cases (p r)) [
  | inl t ↦ rw t (ap some (u r (inl refl) t))
  | inr f ↦ rw f (find-one p rows x i h (λ y j. u y (inr j)))
]

weaker :
    {Row : Type 0} (le : Row → Row → Bool) (x : Row) (rows : List Row)
    → All (λ y. (le x y && not (le y x)) ≡ true) rows
    → All (λ y. le x y ≡ true) rows
weaker le x [] h = tt
weaker le x (r ∷ rows) h = (ground (arith, h.0), weaker le x rows h.1)

IsSorted-of_strict :
    {Row : Type 0} (le : Row → Row → Bool) (rows : List Row)
    → IsSorted (λ a b. le a b && not (le b a)) rows
    → IsSorted le rows
IsSorted-of_strict le [] h = tt
IsSorted-of_strict le (r ∷ rows) h = (weaker le r rows h.0, IsSorted-of_strict le rows h.1)

abbrev engine_of_lists : Engine
engine_of_lists = record {
  insert = λ Row key r rows.
      if is_there (λ x. key x == key r) rows
      then raise (plain_error (codes "UNIQUE constraint failed"))
      else ok (rows ++ r ∷ []);
  insert_event = λ parents make p.
      if is_there (λ x. x.batch_id == (make (p.0 + 1)).batch_id) parents
      then ok (p.0 + 1, p.1 ++ make (p.0 + 1) ∷ [])
      else raise (plain_error (codes "FOREIGN KEY constraint failed"));
  get_row = λ Row p rows. find p rows;
  update = λ Row p f rows. map (λ r. if p r then f r else r) rows;
  upsert = λ Row key r rows.
      if is_there (λ x. key x == key r) rows
      then map (λ y. if key y == key r then r else y) rows
      else rows ++ r ∷ [];
  select_ordered = λ Row p le rows. sort_by le (filter p rows);
  transaction = λ A f t. elim (f t) [ raise e ↦ (raise e, t) | ok (a, u) ↦ (ok a, u) ];
  inserts = λ Row key r rows h. rw (is_there_none (λ x. key x == key r) rows h);
  refuses = λ Row key r x rows i e. (
    codes "UNIQUE constraint failed",
    rw (is_there_one (λ y. key y == key r) rows x i ((eq_iff (key x) (key r)).1 e)),
  );
  numbers = λ parents make n rows parent i e. rw (
      is_there_one (λ x. x.batch_id == (make (n + 1)).batch_id) parents parent i
        ((eq_iff parent.batch_id _).1 e));
  gets = λ Row p rows x. find-one p rows x;
  misses = λ Row p rows. find-none p rows;
  updates = λ Row p f rows. refl;
  upserts_new = λ Row key r rows h. rw (is_there_none (λ x. key x == key r) rows h);
  upserts_old = λ Row key r x rows i e.
      rw (is_there_one (λ y. key y == key r) rows x i ((eq_iff (key x) (key r)).1 e));
  orders = λ Row p le rows h.
      sort_by_sorted le (filter p rows) (IsSorted-of_strict le (filter p rows) h);
  commits = λ A f t u a h. rw h;
  rolls_back = λ A f t e h. rw h;
}

sample_ops-IsTimely : All (IsTimely zod_of_checks) sample_ops
sample_ops-IsTimely = (tt, (refl, (refl, tt)))

run_sql-refines_example :
    (view (run_sql engine_of_lists zod_of_checks sample_ops empty_tables)
      ≡ run zod_of_checks sample_ops empty_store)
    × (accepts_sql engine_of_lists zod_of_checks commit_op
          (run_sql engine_of_lists zod_of_checks sample_ops empty_tables)
        ≡ accepts zod_of_checks commit_op (run zod_of_checks sample_ops empty_store))
run_sql-refines_example =
    run_sql-refines engine_of_lists zod_of_checks sample_ops commit_op sample_ops-IsTimely refl

reads_sql-reads_example :
    (get_batch_sql engine_of_lists zod_of_checks
        (codes "batch")
        (run_sql engine_of_lists zod_of_checks sample_ops empty_tables)
      ≡ ok (get_batch (codes "batch") (run zod_of_checks sample_ops empty_store)))
    × (get_ingestion_sql engine_of_lists zod_of_checks
          (codes "batch")
          (run_sql engine_of_lists zod_of_checks sample_ops empty_tables)
        ≡ ok (get_ingestion (codes "batch") (run zod_of_checks sample_ops empty_store)))
    × (list_events_sql engine_of_lists
          (codes "batch")
          (run_sql engine_of_lists zod_of_checks sample_ops empty_tables)
        ≡ list_events (codes "batch") (run zod_of_checks sample_ops empty_store))
reads_sql-reads_example =
    reads_sql-reads engine_of_lists zod_of_checks sample_ops (codes "batch") sample_ops-IsTimely

manifest_of-row_of_example :
    codesoul.Sqlite.manifest_of (row_of (manifest_of committed)) ≡ manifest_of committed
unfolding is_batch_manifest is_content_hash
manifest_of-row_of_example = manifest_of-row_of zod_of_checks (manifest_of committed) refl

abbrev early_row : BatchRow
early_row = row_of (manifest_of pending)

abbrev late_row : BatchRow
late_row = record (row_of (manifest_of committed)) {
  batch_id = codes "batch2";
  created_at = codes "2024-01-02T00:00:00.000Z";
}

abbrev two_batches : Tables
two_batches = record empty_tables { batch_rows = early_row ∷ late_row ∷ [] }

two_batches-IsSound : IsSound zod_of_checks two_batches
unfolding is_batch_row row_of is_batch_manifest is_content_hash ◌==◌ codesoul.Sqlite.read_status
    codesoul.Core.Enums.status_name codesoul.Sqlite.manifest_of
two_batches-IsSound = record {
  batch_keys = (λ i. elim i [ inl e ↦ cc e | inr z ↦ z ], ((λ i. i), tt));
  batch_rows_valid = λ r i.
      In-All (λ x. is_batch_row zod_of_checks x ≡ true) r two_batches.batch_rows (refl, (refl, tt))
        i;
  run_keys = tt;
  ingestion_rows_valid = λ r i. elim i [ ];
}

abbrev latest_options : ListBatchesOptions
latest_options = record { status = none; limit = some 1 }

list_batches_sql-list_batches_for_run_example :
    list_batches_sql engine_of_lists zod_of_checks (codes "run") latest_options two_batches
    ≡ ok (list_batches_for_run (codes "run") latest_options (view two_batches))
unfolding row_of ◌==◌ text_le
list_batches_sql-list_batches_for_run_example =
    list_batches_sql-list_batches_for_run engine_of_lists zod_of_checks (codes "run") latest_options
      two_batches two_batches-IsSound ((refl, tt), (tt, tt))
