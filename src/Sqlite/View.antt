-- ===== src/Sqlite/View.antt =====
-- What the tables of the SQLite store stand for: the state of the in-memory store. The soundness of
-- the tables that every statement keeps, and the round trip of a manifest through its row.
use codesoul.Prelude.{
  ℕ, ◌+◌, ◌==◌, ◌≡◌, refl, sym, ap, ◌∙◌, Bool, true, some, map, In, Distinct, arith, nat_eq, ◌&&◌,
}
use mathlib.Core.Path.{ap₂}
use codesoul.Core.Zod.{Zod}
use codesoul.Core.Enums.{BatchStatus, pending, committed, failed, dry_run, status_name}
use codesoul.Core.Schema.{
  BatchManifest, IngestionManifest, is_batch_manifest, is_ingestion_manifest,
}
use codesoul.Manifest.{ManifestStore}
use codesoul.Sqlite.{
  BatchRow, IngestionRow, Tables, read_status, status_or_pending, row_of, manifest_of, row_to_event,
  is_batch_row, has_status,
}
use codesoul.Sqlite.Rows.{entries}

unfoldable pub view : Tables → ManifestStore
view t = record {
  batches = entries (λ r. r.batch_id) manifest_of t.batch_rows;
  events = map row_to_event t.event_rows;
  ingestions = entries (λ r. r.index_run_id) (λ r. r) t.ingestion_rows;
  next_event_id = t.last_event_id + 1;
}

-- The tables where no two rows have the same primary key, and every row passes its schema.
pub record IsSound (zod : Zod) (t : Tables) : Type 0 where
  pub batch_keys : Distinct (map (λ r. r.batch_id) t.batch_rows)
  pub batch_rows_valid : (r : BatchRow) → In r t.batch_rows → is_batch_row zod r ≡ true
  pub run_keys : Distinct (map (λ r. r.index_run_id) t.ingestion_rows)
  pub ingestion_rows_valid :
      (r : IngestionRow) → In r t.ingestion_rows → is_ingestion_manifest zod r ≡ true

pub read_status-status_name : (s : BatchStatus) → read_status (status_name s) ≡ some s
unfolding read_status status_name ◌==◌
read_status-status_name pending = refl
read_status-status_name committed = refl
read_status-status_name failed = refl
read_status-status_name dry_run = refl

pub status_or_pending-status_name : (s : BatchStatus) → status_or_pending (status_name s) ≡ s
unfolding status_or_pending
status_or_pending-status_name s = rw (read_status-status_name s, status_or_pending)

pub nat_eq→eq : (a b : ℕ) → nat_eq a b ≡ true → a ≡ b
nat_eq→eq a b h = ground arith

pub version_of_batch :
    (zod : Zod) (m : BatchManifest) → is_batch_manifest zod m ≡ true → m.version ≡ 1
unfolding is_batch_manifest
version_of_batch zod m h = nat_eq→eq m.version 1 (ground arith)

pub version_of_ingestion :
    (zod : Zod) (m : IngestionManifest) → is_ingestion_manifest zod m ≡ true → m.version ≡ 1
unfolding is_ingestion_manifest
version_of_ingestion zod m h = nat_eq→eq m.version 1 (ground arith)

-- A manifest that passes its schema is read back from its row unchanged.
pub manifest_of-row_of :
    (zod : Zod) (m : BatchManifest) → is_batch_manifest zod m ≡ true → manifest_of (row_of m) ≡ m
unfolding manifest_of row_of
manifest_of-row_of zod m h =
    ap₂ {A = BatchStatus} {B = ℕ} (λ s v. record m { status = s; version = v })
      (status_or_pending-status_name m.status) (sym (version_of_batch zod m h))

pub has_status_name : (s : BatchStatus) → has_status (status_name s) ≡ true
has_status_name s = rw (read_status-status_name s, has_status)

pub and_true : {a b : Bool} → a ≡ true → b ≡ true → (a && b) ≡ true
and_true p q = rw p q

pub row_of-is_batch_row :
    (zod : Zod) (m : BatchManifest)
    → is_batch_manifest zod m ≡ true
    → is_batch_row zod (row_of m) ≡ true
unfolding is_batch_row row_of
row_of-is_batch_row zod m h =
    and_true (has_status_name m.status)
      (ap (is_batch_manifest zod) (manifest_of-row_of zod m h) ∙ h)
