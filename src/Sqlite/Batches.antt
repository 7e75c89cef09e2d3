-- ===== src/Sqlite/Batches.antt =====
-- packages/manifest-store/src/sqlite.ts, `recordBatch`, against the in-memory store.
use codesoul.Prelude.{
  ◌+◌, Text, ◌≡◌, refl, ap, ◌∙◌, true, none, some, List, [], ◌∷◌, ◌++◌, map, In-append_right, inl,
  inr, Bool-cases,
}
use mathlib.Core.Path.{ap₂}
use codesoul.JsMap.{JsMap, get, has, set}
use codesoul.JsMap.Laws.{get-eq-none, get_of_has}
use codesoul.Core.Errors.{is_ok, ok, raise, plain_error}
use codesoul.Core.Zod.{Zod, parse-cases}
use codesoul.Core.Enums.{status_name}
use codesoul.Core.Schema.{BatchManifest, is_batch_manifest}
use codesoul.Manifest.{BatchEvent, record_batch, record_parsed, push_event}
use codesoul.Sqlite.{
  BatchRow, EventRow, Tables, Engine, row_of, manifest_of, row_to_event, is_batch_row, event_row,
  insert_batch, record_batch_sql,
}
use codesoul.Sqlite.Rows.{fresh, found, entries_new, In-append_one, Distinct-append_new}
use codesoul.Sqlite.View.{
  view, IsSound, status_or_pending-status_name, manifest_of-row_of, row_of-is_batch_row,
}

pub map-append_one :
    (es : List EventRow) (e : EventRow)
    → map row_to_event (es ++ e ∷ []) ≡ map row_to_event es ++ row_to_event e ∷ []
map-append_one [] e = refl
map-append_one (x ∷ es) e = ap (λ l. row_to_event x ∷ l) (map-append_one es e)

module _ (db : Engine) (zod : Zod) (t : Tables) (sound : IsSound zod t) where
  -- The tables after a batch with a new id is recorded.
  abbrev recorded : BatchManifest → Tables
  recorded m = record t {
    batch_rows = t.batch_rows ++ row_of m ∷ [];
    event_rows =
        t.event_rows
        ++ event_row m.batch_id none (status_name m.status) m.created_at none (t.last_event_id + 1)
          ∷ [];
    last_event_id = t.last_event_id + 1;
  }

  insert_batch_new :
      (m : BatchManifest)
      → get m.batch_id (view t).batches ≡ none
      → insert_batch db m t ≡ ok (tt, recorded m)
  unfolding insert_batch row_of view
  insert_batch_new m p =
      rw
        (db.inserts BatchRow (λ r. r.batch_id) (row_of m) t.batch_rows
          (fresh (λ r. r.batch_id) manifest_of m.batch_id t.batch_rows p))
        (rw (
          db.numbers (t.batch_rows ++ row_of m ∷ [])
            (event_row m.batch_id none (status_name m.status) m.created_at none) t.last_event_id
            t.event_rows (row_of m)
            (In-append_right (row_of m) t.batch_rows (row_of m ∷ []) (inl refl)) refl))

  insert_batch_taken :
      (m n : BatchManifest)
      → get m.batch_id (view t).batches ≡ some n
      → (e : Text) × (insert_batch db m t ≡ raise (plain_error e))
  unfolding insert_batch row_of view
  insert_batch_taken m n p =
      let (x, i, e, _) = found (λ r. r.batch_id) manifest_of m.batch_id t.batch_rows n p in
      let (text, q) = db.refuses BatchRow (λ r. r.batch_id) (row_of m) x t.batch_rows i e in
      (text, rw q)

  view-recorded :
      (m : BatchManifest)
      → is_batch_manifest zod m ≡ true
      → get m.batch_id (view t).batches ≡ none
      → view (recorded m) ≡ (
          push_event m.batch_id none m.status m.created_at none
            (record (view t) { batches = set m.batch_id m (view t).batches }))
  unfolding view row_to_event row_of
  view-recorded m v p =
      ap₂ {A = JsMap BatchManifest} {B = List BatchEvent}
        (λ b es. record {
          batches = b;
          events = es;
          ingestions = (view t).ingestions;
          next_event_id = t.last_event_id + 1 + 1;
        })
        (entries_new (λ r. r.batch_id) manifest_of (row_of m) t.batch_rows p
          ∙ ap (λ w. set m.batch_id w (view t).batches) (manifest_of-row_of zod m v))
        (map-append_one t.event_rows _
          ∙ ap
              (λ st.
                (view t).events
                ++ record {
                  event_id = t.last_event_id + 1;
                  batch_id = m.batch_id;
                  from_status = none;
                  to_status = st;
                  created_at = m.created_at;
                  message = none;
                }
                  ∷ [])
              (status_or_pending-status_name m.status))

  recorded-IsSound :
      (m : BatchManifest)
      → is_batch_manifest zod m ≡ true
      → get m.batch_id (view t).batches ≡ none
      → IsSound zod (recorded m)
  unfolding view
  recorded-IsSound m v p = record {
    batch_keys =
        unfold row_of in
        Distinct-append_new (λ r. r.batch_id) manifest_of (row_of m) t.batch_rows p
          sound.batch_keys;
    batch_rows_valid = λ r i.
        elim (In-append_one (λ y. y.batch_id) manifest_of t.batch_rows (row_of m) r i) [
          | inl j ↦ sound.batch_rows_valid r j
          | inr e ↦ ap (is_batch_row zod) e ∙ row_of-is_batch_row zod m v
        ];
    run_keys = sound.run_keys;
    ingestion_rows_valid = sound.ingestion_rows_valid;
  }

  -- The result agrees but for the message of a duplicate, which is the engine's.
  pub record_batch_sql-record_batch :
      (m : BatchManifest)
      → (is_ok (record_batch_sql db zod m t).0 ≡ is_ok (record_batch zod m (view t)).0)
        × (view (record_batch_sql db zod m t).1 ≡ (record_batch zod m (view t)).1)
        × IsSound zod (record_batch_sql db zod m t).1
  unfolding record_batch_sql record_batch record_parsed
  record_batch_sql-record_batch m = elim (parse-cases zod BatchManifest (is_batch_manifest zod) m) [
    | inr (e, _, p) ↦ rw (p, record_batch_sql, record_batch, is_ok) (refl, refl, sound)
    | inl (v, p) ↦
        rw (p, record_batch_sql, record_batch, is_ok)
          (elim (Bool-cases (has m.batch_id (view t).batches)) [
            | inl h ↦
                let (n, g) = get_of_has m.batch_id (view t).batches h in
                let (e, q) = insert_batch_taken m n g in
                rw (h, record_parsed)
                  (rw (db.rolls_back (Unit {0}) (insert_batch db m) t (plain_error e) q)
                    (refl, refl, sound))
            | inr h ↦
                let g = get-eq-none m.batch_id (view t).batches h in
                rw (h, record_parsed)
                  (rw
                    (db.commits (Unit {0}) (insert_batch db m) t (recorded m) tt
                      (insert_batch_new m g))
                    (refl, view-recorded m v g, recorded-IsSound m v g))
          ])
  ]
