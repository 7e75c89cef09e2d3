-- ===== src/Sqlite/Ingestions.antt =====
-- packages/manifest-store/src/sqlite.ts, `recordIngestion` and `finishIngestion`, against the
-- in-memory store.
use codesoul.Prelude.{
  Text, codes, ◌≡◌, refl, sym, ap, ◌∙◌, true, none, some, List, [], ◌∷◌, ◌++◌, map, In, Distinct,
  arith, inl, inr, Option-cases,
}
use mathlib.Core.Path.{ap₂, subst}
use codesoul.JsMap.{JsMap, get, set}
use codesoul.Core.Errors.{Result, is_ok, ok, raise, plain_error}
use codesoul.Core.Zod.{Zod, parse-cases}
use codesoul.Core.Schema.{IngestionManifest, is_ingestion_manifest}
use codesoul.Manifest.{record_ingestion, finish_ingestion}
use codesoul.Sqlite.{
  IngestionRow, Tables, Engine, row_to_ingestion, with_run_id, record_ingestion_sql, finish_rows,
  finish_ingestion_sql,
}
use codesoul.Sqlite.Rows.{
  entries, fresh, found, entries_new, changed, entries_changed, keys-changed, In_of_In-changed,
  In-changed, In-append_one, Distinct-append_new, get_row-found, get_row-missing,
}
use codesoul.Sqlite.View.{view, IsSound, version_of_ingestion}
use codesoul.Sqlite.Transitions.{seen}

abbrev run_id : IngestionRow → Text
run_id r = r.index_run_id

abbrev itself : IngestionRow → IngestionManifest
itself r = r

module _ (zod : Zod) where
  pub row_to_ingestion-valid :
      (r : IngestionRow) → is_ingestion_manifest zod r ≡ true → row_to_ingestion zod r ≡ ok r
  unfolding row_to_ingestion
  row_to_ingestion-valid r v =
      let same : record r { version = 1 } ≡ r =
        ap (λ n. record r { version = n }) (sym (version_of_ingestion zod r v)) in
      ap (zod.parse IngestionManifest (is_ingestion_manifest zod)) same
      ∙ zod.accepts IngestionManifest (is_ingestion_manifest zod) r v

  module _ (db : Engine) (t : Tables) (sound : IsSound zod t) where
    with_ingestions :
        (rows : List IngestionRow)
        → Distinct (map run_id rows)
        → ((r : IngestionRow) → In r rows → is_ingestion_manifest zod r ≡ true)
        → IsSound zod (record t { ingestion_rows = rows })
    with_ingestions rows d v = record {
      batch_keys = sound.batch_keys;
      batch_rows_valid = sound.batch_rows_valid;
      run_keys = d;
      ingestion_rows_valid = v;
    }

    -- Soundness where the rows under one key change.
    with_changed :
        (k : Text) (f : IngestionRow → IngestionRow)
        → ((x : IngestionRow) → run_id x ≡ k → run_id (f x) ≡ k)
        → ((x : IngestionRow)
            → In x t.ingestion_rows
            → run_id x ≡ k
            → is_ingestion_manifest zod (f x) ≡ true)
        → IsSound zod (record t { ingestion_rows = changed run_id itself k f t.ingestion_rows })
    with_changed k f keeps h =
        with_ingestions (changed run_id itself k f t.ingestion_rows)
          (subst Distinct (sym (keys-changed run_id itself k f t.ingestion_rows keeps))
            sound.run_keys)
          (λ r j. elim (In_of_In-changed run_id itself k f t.ingestion_rows r j) [
            | inl i ↦ sound.ingestion_rows_valid r i
            | inr (x, i, e, q) ↦ ap (is_ingestion_manifest zod) q ∙ h x i e
          ])

    -- The row that `ON CONFLICT DO UPDATE` leaves, whether the run was there or not.
    upserted :
        (m : IngestionManifest)
        → is_ingestion_manifest zod m ≡ true
        → let rows = db.upsert IngestionRow (λ r. r.index_run_id) m t.ingestion_rows in
          (entries run_id itself rows
            ≡ set m.index_run_id m (entries run_id itself t.ingestion_rows))
          × IsSound zod (record t { ingestion_rows = rows })
    upserted m v =
        elim (Option-cases (get m.index_run_id (entries run_id itself t.ingestion_rows))) [
          | inl p ↦
              rw
                (db.upserts_new IngestionRow run_id m t.ingestion_rows
                  (fresh run_id itself m.index_run_id t.ingestion_rows p))
                (
                  entries_new run_id itself m t.ingestion_rows p,
                  with_ingestions (t.ingestion_rows ++ m ∷ [])
                      (Distinct-append_new run_id itself m t.ingestion_rows p sound.run_keys)
                      (λ r j. elim (In-append_one run_id itself t.ingestion_rows m r j) [
                        | inl i ↦ sound.ingestion_rows_valid r i
                        | inr e ↦ ap (is_ingestion_manifest zod) e ∙ v
                      ]),
                )
          | inr (n, p) ↦
              let (x, i, e, w) = found run_id itself m.index_run_id t.ingestion_rows n p in
              rw (db.upserts_old IngestionRow run_id m x t.ingestion_rows i e) (
                entries_changed run_id itself m.index_run_id (λ r. m) t.ingestion_rows x
                    sound.run_keys i e refl,
                with_changed m.index_run_id (λ r. m) (λ r e. refl) (λ y _ _. v),
              )
        ]

    pub record_ingestion_sql-record_ingestion :
        (m : IngestionManifest)
        → (is_ok (record_ingestion_sql db zod m t).0 ≡ is_ok (record_ingestion zod m (view t)).0)
          × (view (record_ingestion_sql db zod m t).1 ≡ (record_ingestion zod m (view t)).1)
          × IsSound zod (record_ingestion_sql db zod m t).1
    unfolding record_ingestion_sql record_ingestion view
    record_ingestion_sql-record_ingestion m =
        elim (parse-cases zod IngestionManifest (is_ingestion_manifest zod) m) [
          | inr (e, _, p) ↦
              rw (p, record_ingestion_sql, record_ingestion, is_ok) (refl, refl, sound)
          | inl (v, p) ↦
              let (e, s) = upserted m v in
              rw (p, record_ingestion_sql, record_ingestion, is_ok)
                (refl, ap (λ i. record (view t) { ingestions = i }) e, s)
        ]

    module _ (id at : Text) where
      -- `UPDATE ingestion_manifest SET finished_at = ? WHERE index_run_id = ?`
      abbrev finished : IngestionRow → IngestionRow
      finished r = record r { finished_at = some at }

      abbrev finished_tables : Tables
      finished_tables = record t {
        ingestion_rows = changed run_id itself id finished t.ingestion_rows;
      }

      finished_keys : map run_id finished_tables.ingestion_rows ≡ map run_id t.ingestion_rows
      finished_keys = keys-changed run_id itself id finished t.ingestion_rows (λ r e. e)

      finish_rows_done :
          (x : IngestionRow)
          → In x t.ingestion_rows
          → x.index_run_id ≡ id
          → finish_rows db id at t ≡ ok (finished x, finished_tables)
      unfolding finish_rows
      finish_rows_done x i e =
          rw (get_row-found run_id itself db id t.ingestion_rows x sound.run_keys i e, finish_rows)
            (rw (db.updates IngestionRow (with_run_id id) finished t.ingestion_rows) (
              rw
                (get_row-found run_id itself db id finished_tables.ingestion_rows (finished x)
                  (subst Distinct (sym finished_keys) sound.run_keys)
                  (In-changed run_id itself id finished t.ingestion_rows x i e) e)
                (rw (db.updates IngestionRow (with_run_id id) finished t.ingestion_rows))))

      finish_rows_unknown :
          get id (view t).ingestions ≡ none
          → finish_rows db id at t ≡ raise (plain_error (codes "Unknown ingestion: " ++ id))
      unfolding finish_rows view
      finish_rows_unknown p =
          rw (get_row-missing run_id itself db id t.ingestion_rows p, finish_rows)

      finished_valid :
          (x : IngestionRow)
          → zod.is_datetime at ≡ true
          → In x t.ingestion_rows
          → is_ingestion_manifest zod (finished x) ≡ true
      unfolding is_ingestion_manifest
      finished_valid x d i = ground (arith, d, sound.ingestion_rows_valid x i)

      pub finish_ingestion_sql-finish_ingestion :
          zod.is_datetime at ≡ true
          → (seen (finish_ingestion_sql db zod id at t) ≡ finish_ingestion id at (view t))
            × IsSound zod (finish_ingestion_sql db zod id at t).1
      unfolding finish_ingestion_sql finish_ingestion view
      finish_ingestion_sql-finish_ingestion d = elim (Option-cases (get id (view t).ingestions)) [
        | inl p ↦
            rw (db.rolls_back IngestionRow (finish_rows db id at) t _ (finish_rows_unknown p))
              (rw (p, finish_ingestion), sound)
        | inr (m, p) ↦
            let (x, i, e, w) = found run_id itself id t.ingestion_rows m p in
            rw
              (db.commits IngestionRow (finish_rows db id at) t finished_tables (finished x)
                (finish_rows_done x i e))
              (
                rw (p, finish_ingestion)
                    (ap₂ {A = Result IngestionManifest} {B = JsMap IngestionManifest}
                      (λ a j. (a, record (view t) { ingestions = j }))
                      (row_to_ingestion-valid (finished x) (finished_valid x d i)
                        ∙ ap (λ y. ok (finished y)) w)
                      (entries_changed run_id itself id finished t.ingestion_rows x sound.run_keys i
                          e e
                        ∙ ap (λ y. set id (finished y) (view t).ingestions) w)),
                with_changed id finished (λ r q. q) (λ y j _. finished_valid y d j),
              )
      ]
