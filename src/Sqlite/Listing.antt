-- ===== src/Sqlite/Listing.antt =====
-- packages/manifest-store/src/sqlite.ts, `listBatchesForRun`, against the in-memory store.
use codesoul.Prelude.{
  ℕ, zero, suc, Text, codes, ◌==◌, eq_iff, ◌≡◌, refl, sym, ap, ◌∙◌, true, not, ◌&&◌, none, some,
  Option, List, [], ◌∷◌, map, filter, take, In, In_of_In-filter, arith, inl, inr, Bool-cases,
  IsSorted, text_le, limited, effective_limit,
}
use codesoul.JsMap.{values}
use codesoul.Core.Errors.{ok}
use codesoul.Core.Zod.{Zod}
use codesoul.Core.Enums.{BatchStatus, status_name, status_eq}
use codesoul.Manifest.{ListBatchesOptions, list_batches_for_run, is_listed}
use codesoul.Manifest.Queries.{list_batches_for_run-eq-limited}
use codesoul.Sqlite.{
  BatchRow, Tables, Engine, manifest_of, read_status, status_or_pending, has_status, is_batch_row,
  rows_to_batches, is_selected, limit_rows, list_batches_sql,
}
use codesoul.Sqlite.Rows.{entries}
use codesoul.Sqlite.View.{view, IsSound}
use codesoul.Sqlite.Transitions.{row_to_batch-valid}

status_name-status_or_pending :
    (s : Text) → has_status s ≡ true → status_name (status_or_pending s) ≡ s
unfolding status_or_pending read_status status_name
status_name-status_or_pending s h = ground (
  arith,
  eq_iff s (codes "pending"),
  eq_iff s (codes "committed"),
  eq_iff s (codes "failed"),
  eq_iff s (codes "dry_run"),
)

values-entries :
    (rows : List BatchRow)
    → values (entries (λ r. r.batch_id) manifest_of rows) ≡ map manifest_of rows
values-entries [] = refl
values-entries (r ∷ rows) = ap (λ l. manifest_of r ∷ l) (values-entries rows)

map-take :
    (n : ℕ) (rows : List BatchRow) → map manifest_of (take n rows) ≡ take n (map manifest_of rows)
map-take zero rows = refl
map-take (suc n) [] = refl
map-take (suc n) (r ∷ rows) = ap (λ l. manifest_of r ∷ l) (map-take n rows)

map-limit_rows :
    (limit : Option ℕ) (rows : List BatchRow)
    → map manifest_of (limit_rows limit rows)
      ≡ limited (effective_limit limit) (map manifest_of rows)
unfolding effective_limit
map-limit_rows none rows = refl
map-limit_rows (some zero) rows = refl
map-limit_rows (some (suc n)) rows = map-take (suc n) rows

In-take : (n : ℕ) (rows : List BatchRow) (r : BatchRow) → In r (take n rows) → In r rows
In-take zero rows r i = elim i [ ]
In-take (suc n) [] r i = i
In-take (suc n) (x ∷ rows) r (inl e) = inl e
In-take (suc n) (x ∷ rows) r (inr i) = inr (In-take n rows r i)

In-limit_rows :
    (limit : Option ℕ) (rows : List BatchRow) (r : BatchRow)
    → In r (limit_rows limit rows)
    → In r rows
In-limit_rows none rows r i = i
In-limit_rows (some zero) rows r i = i
In-limit_rows (some (suc n)) rows r i = In-take (suc n) rows r i

module _ (zod : Zod) where
  rows_to_batches-valid :
      (rows : List BatchRow)
      → ((r : BatchRow) → In r rows → is_batch_row zod r ≡ true)
      → rows_to_batches zod rows ≡ ok (map manifest_of rows)
  unfolding rows_to_batches
  rows_to_batches-valid [] h = refl
  rows_to_batches-valid (r ∷ rows) h =
      rw (row_to_batch-valid zod r (h r (inl refl)))
        (rw (rows_to_batches-valid rows (λ x i. h x (inr i))))

  is_selected-is_listed :
      (run : Text) (status : Option BatchStatus) (r : BatchRow)
      → is_batch_row zod r ≡ true
      → is_selected run status r ≡ is_listed run status (manifest_of r)
  unfolding is_listed is_batch_row manifest_of status_eq
  is_selected-is_listed run none r v = refl
  is_selected-is_listed run (some s) r v =
      ap (λ n. (r.index_run_id == run) && (n == status_name s))
        (sym (status_name-status_or_pending r.status (ground arith)))

  map-filter_selected :
      (run : Text) (status : Option BatchStatus) (rows : List BatchRow)
      → ((r : BatchRow) → In r rows → is_batch_row zod r ≡ true)
      → map manifest_of (filter (is_selected run status) rows)
        ≡ filter (is_listed run status) (map manifest_of rows)
  map-filter_selected run status [] h = refl
  map-filter_selected run status (r ∷ rows) h =
      let e = is_selected-is_listed run status r (h r (inl refl)) in
      let rest = map-filter_selected run status rows (λ x i. h x (inr i)) in
      elim (Bool-cases (is_selected run status r)) [
        | inl t ↦ rw (t, filter) (rw (sym e ∙ t, filter) (ap (λ l. manifest_of r ∷ l) rest))
        | inr f ↦ rw (f, filter) (rw (sym e ∙ f, filter) rest)
      ]

-- On sound tables where the rows that `listBatchesForRun` selects were inserted at strictly later and
-- later times, it answers what the in-memory store answers, the status filter and the limit included.
pub list_batches_sql-list_batches_for_run :
    (db : Engine) (zod : Zod) (r : Text) (options : ListBatchesOptions) (t : Tables)
    → IsSound zod t
    → IsSorted
        (λ a b. text_le a.created_at b.created_at && not (text_le b.created_at a.created_at))
        (filter (is_selected r options.status) t.batch_rows)
    → list_batches_sql db zod r options t ≡ ok (list_batches_for_run r options (view t))
unfolding list_batches_sql view
list_batches_sql-list_batches_for_run db zod r options t s o =
    let rows = filter (is_selected r options.status) t.batch_rows in
    ap (λ l. rows_to_batches zod (limit_rows options.limit l))
      (db.orders BatchRow (is_selected r options.status) (λ a b. text_le a.created_at b.created_at)
        t.batch_rows o)
    ∙ rows_to_batches-valid zod (limit_rows options.limit rows) (λ x i.
      s.batch_rows_valid x
        (In_of_In-filter (is_selected r options.status) x t.batch_rows
          (In-limit_rows options.limit rows x i)).0)
    ∙ ap ok (
        map-limit_rows options.limit rows
        ∙ ap (limited (effective_limit options.limit)) (
            map-filter_selected zod r options.status t.batch_rows s.batch_rows_valid
            ∙ ap (filter (is_listed r options.status)) (sym (values-entries t.batch_rows)))
        ∙ sym (list_batches_for_run-eq-limited r options (view t)))
