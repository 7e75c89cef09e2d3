-- ===== src/Sqlite/Transitions.antt =====
-- packages/manifest-store/src/sqlite.ts, `transitionBatch`, against the in-memory store.
use codesoul.Prelude.{
  ◌+◌, Text, codes, ◌≡◌, sym, ap, ◌∙◌, true, false, Option, none, some, List, [], ◌∷◌, ◌++◌, map,
  In, Distinct, arith, ◌⊎◌, inl, inr, Bool-cases, Option-cases, if◌then◌else◌,
}
use mathlib.Core.Path.{ap₂, subst}
use codesoul.JsMap.{JsMap, get, set}
use codesoul.Core.Errors.{Result, ok, raise, plain_error}
use codesoul.Core.Zod.{Zod}
use codesoul.Core.Enums.{BatchStatus, status_name, status_eq, committed}
use codesoul.Core.Schema.{BatchManifest, is_batch_manifest}
use codesoul.Manifest.{
  BatchEvent, ManifestStore, TransitionBatchInput, transition_batch, commit_transition, with_status,
}
use codesoul.Manifest.Transitions.{is_valid_transition, transition_error, assert_valid_transition}
use codesoul.Manifest.Audit.Kept.{
  transition_batch_unknown, transition_batch_refused, transition_batch_done,
}
use codesoul.Sqlite.{
  BatchRow, Tables, Engine, manifest_of, row_to_event, status_or_pending, is_batch_row,
  row_to_batch, has_status, event_row, assert_transition_from, with_batch_id, set_status,
  update_batch, transition_rows, transition_batch_sql, read_status,
}
use codesoul.Sqlite.Rows.{
  found, unique, entries_changed, changed, keys-changed, In_of_In-changed, In-changed,
  get_row-found, get_row-missing,
}
use codesoul.Sqlite.View.{view, IsSound, status_or_pending-status_name, has_status_name, and_true}
use codesoul.Sqlite.Batches.{map-append_one}

-- What a client sees of a call: its result, and the state that the tables stand for.
abbrev pub seen : {A : Type 0} → Result A × Tables → Result A × ManifestStore
seen (r, t) = (r, view t)

read_status_of_has : (s : Text) → has_status s ≡ true → read_status s ≡ some (status_or_pending s)
unfolding status_or_pending
read_status_of_has s h = elim (Option-cases (read_status s)) [
  | inl p ↦ absurd (ground (arith, p))
  | inr (v, p) ↦ rw (p, status_or_pending)
]

module _ (zod : Zod) where
  row-status :
      (r : BatchRow)
      → is_batch_row zod r ≡ true
      → read_status r.status ≡ some (manifest_of r).status
  unfolding is_batch_row manifest_of
  row-status r v = read_status_of_has r.status (ground arith)

  pub row_to_batch-valid :
      (r : BatchRow) → is_batch_row zod r ≡ true → row_to_batch zod r ≡ ok (manifest_of r)
  unfolding row_to_batch
  row_to_batch-valid r v = rw (zod.accepts BatchRow (is_batch_row zod) r v)

  -- The commit stamp of the transition.
  abbrev stamp : Text → BatchStatus → BatchRow → Option Text
  stamp now to r = if status_eq to committed then some now else r.committed_at

  set_status-valid :
      (now : Text) (to : BatchStatus) (r : BatchRow)
      → zod.is_datetime now ≡ true
      → is_batch_row zod r ≡ true
      → is_batch_row zod (set_status (status_name to) (stamp now to r) r) ≡ true
  unfolding is_batch_row is_batch_manifest manifest_of
  set_status-valid now to r d v =
      and_true (has_status_name to) (elim (Bool-cases (status_eq to committed)) [
        | inl e ↦ rw e (ground arith)
        | inr e ↦ rw e (ground arith)
      ])

  manifest_of-set_status :
      (now : Text) (to : BatchStatus) (r : BatchRow)
      → manifest_of (set_status (status_name to) (stamp now to r) r)
        ≡ with_status to now (manifest_of r)
  unfolding manifest_of with_status
  manifest_of-set_status now to r = rw (status_or_pending-status_name to)

  module _ (db : Engine) (now : Text) (input : TransitionBatchInput) (t : Tables) where
    abbrev moved_rows : BatchRow → List BatchRow
    moved_rows x =
        changed (λ r. r.batch_id) manifest_of input.batch_id
          (λ r. set_status (status_name input.to_status) (stamp now input.to_status x) r)
          t.batch_rows

    -- The tables after the transition of the row `x`.
    abbrev moved : BatchRow → Tables
    moved x = record t {
      batch_rows = moved_rows x;
      event_rows =
          t.event_rows
          ++ event_row input.batch_id (some x.status) (status_name input.to_status) now
              input.message (t.last_event_id + 1)
            ∷ [];
      last_event_id = t.last_event_id + 1;
    }

    abbrev next_row : BatchRow → BatchRow
    next_row x = set_status (status_name input.to_status) (stamp now input.to_status x) x

    next_row-In :
        (x : BatchRow)
        → In x t.batch_rows
        → x.batch_id ≡ input.batch_id
        → In (next_row x) (moved_rows x)
    next_row-In x i e =
        In-changed (λ r. r.batch_id) manifest_of input.batch_id
          (set_status (status_name input.to_status) (stamp now input.to_status x)) t.batch_rows x i
          e

    moved_keys : (x : BatchRow) → IsSound zod t → Distinct (map (λ r. r.batch_id) (moved_rows x))
    moved_keys x sound =
        subst Distinct
          (sym (
            keys-changed (λ r. r.batch_id) manifest_of input.batch_id
              (set_status (status_name input.to_status) (stamp now input.to_status x)) t.batch_rows
              (λ r e. e)))
          sound.batch_keys

    transition_rows_done :
        (x : BatchRow)
        → IsSound zod t
        → In x t.batch_rows
        → x.batch_id ≡ input.batch_id
        → is_valid_transition (manifest_of x).status input.to_status ≡ true
        → transition_rows db now input t ≡ ok (next_row x, moved x)
    unfolding transition_rows update_batch assert_transition_from assert_valid_transition
    transition_rows_done x sound i e v =
        rw
          (
            get_row-found (λ r. r.batch_id) manifest_of db input.batch_id t.batch_rows x
                sound.batch_keys i e,
            transition_rows,
          )
          (rw (row-status x (sound.batch_rows_valid x i), update_batch, assert_transition_from)
            (rw (v, assert_valid_transition)
              (rw
                (db.updates BatchRow (with_batch_id input.batch_id)
                  (set_status (status_name input.to_status) (stamp now input.to_status x))
                  t.batch_rows)
                (rw
                  (db.numbers (moved_rows x)
                    (event_row input.batch_id (some x.status) (status_name input.to_status) now
                      input.message)
                    t.last_event_id t.event_rows (next_row x) (next_row-In x i e) e)
                  (rw
                    (get_row-found (λ r. r.batch_id) manifest_of db input.batch_id (moved_rows x)
                      (next_row x) (moved_keys x sound) (next_row-In x i e) e)
                    (rw (
                      db.updates BatchRow (with_batch_id input.batch_id)
                        (set_status (status_name input.to_status) (stamp now input.to_status x))
                        t.batch_rows)))))))

    transition_rows_refused :
        (x : BatchRow)
        → IsSound zod t
        → In x t.batch_rows
        → x.batch_id ≡ input.batch_id
        → is_valid_transition (manifest_of x).status input.to_status ≡ false
        → transition_rows db now input t
          ≡ raise (transition_error (manifest_of x).status input.to_status)
    unfolding transition_rows update_batch assert_transition_from assert_valid_transition
    transition_rows_refused x sound i e v =
        rw
          (
            get_row-found (λ r. r.batch_id) manifest_of db input.batch_id t.batch_rows x
                sound.batch_keys i e,
            transition_rows,
          )
          (rw (row-status x (sound.batch_rows_valid x i), update_batch, assert_transition_from)
            (rw (v, assert_valid_transition)))

    transition_rows_unknown :
        get input.batch_id (view t).batches ≡ none
        → transition_rows db now input t
          ≡ raise (plain_error (codes "Unknown batch: " ++ input.batch_id))
    unfolding transition_rows view
    transition_rows_unknown p = rw (
      get_row-missing (λ r. r.batch_id) manifest_of db input.batch_id t.batch_rows p,
      transition_rows,
    )

    view-moved :
        (x : BatchRow)
        → IsSound zod t
        → In x t.batch_rows
        → x.batch_id ≡ input.batch_id
        → view (moved x) ≡ commit_transition now input (manifest_of x) (view t)
    unfolding view row_to_event commit_transition with_status manifest_of
    view-moved x sound i e =
        ap₂ {A = JsMap BatchManifest} {B = List BatchEvent}
          (λ b es. record {
            batches = b;
            events = es;
            ingestions = (view t).ingestions;
            next_event_id = t.last_event_id + 1 + 1;
          })
          (entries_changed (λ r. r.batch_id) manifest_of input.batch_id
              (set_status (status_name input.to_status) (stamp now input.to_status x)) t.batch_rows
              x sound.batch_keys i e e
            ∙ ap (λ w. set input.batch_id w (view t).batches)
                (manifest_of-set_status now input.to_status x)
            ∙ ap (λ b. set b (with_status input.to_status now (manifest_of x)) (view t).batches)
                (sym e))
          (map-append_one t.event_rows _
            ∙ ap₂ {A = Text} {B = BatchStatus}
                (λ b st.
                  (view t).events
                  ++ record {
                    event_id = t.last_event_id + 1;
                    batch_id = b;
                    from_status = some (manifest_of x).status;
                    to_status = st;
                    created_at = now;
                    message = input.message;
                  }
                    ∷ [])
                (sym e) (status_or_pending-status_name input.to_status))

    moved-IsSound :
        (x : BatchRow)
        → zod.is_datetime now ≡ true
        → IsSound zod t
        → In x t.batch_rows
        → x.batch_id ≡ input.batch_id
        → IsSound zod (moved x)
    moved-IsSound x d sound i e = record {
      batch_keys = moved_keys x sound;
      batch_rows_valid = λ r j.
          elim (In_of_In-changed (λ y. y.batch_id) manifest_of input.batch_id
            (set_status (status_name input.to_status) (stamp now input.to_status x)) t.batch_rows r
            j) [
              | inl k ↦ sound.batch_rows_valid r k
              | inr (y, k, w, h) ↦
                  ap (is_batch_row zod) (
                    h
                    ∙ ap (set_status (status_name input.to_status) (stamp now input.to_status x)) (
                        unique (λ z. z.batch_id) manifest_of t.batch_rows y x sound.batch_keys k i
                          (w ∙ sym e)))
                  ∙ set_status-valid now input.to_status x d (sound.batch_rows_valid x i)
            ];
      run_keys = sound.run_keys;
      ingestion_rows_valid = sound.ingestion_rows_valid;
    }

    pub transition_batch_sql-transition_batch :
        zod.is_datetime now ≡ true
        → IsSound zod t
        → (seen (transition_batch_sql db zod now input t) ≡ transition_batch now input (view t))
          × IsSound zod (transition_batch_sql db zod now input t).1
    unfolding transition_batch_sql
    transition_batch_sql-transition_batch d sound =
        elim (Option-cases (get input.batch_id (view t).batches)) [
          | inl p ↦
              rw
                (db.rolls_back BatchRow (transition_rows db now input) t _
                  (transition_rows_unknown p))
                (sym (transition_batch_unknown now input (view t) p), sound)
          | inr (m, p) ↦
              let (x, i, e, w) =
                found (λ r. r.batch_id) manifest_of input.batch_id t.batch_rows m
                  (unfold view in p) in
              moved_or_refused x i e (p ∙ ap some (sym w))
                (Bool-cases (is_valid_transition (manifest_of x).status input.to_status))
        ]
      where
        moved_or_refused :
            (x : BatchRow)
            → In x t.batch_rows
            → x.batch_id ≡ input.batch_id
            → get input.batch_id (view t).batches ≡ some (manifest_of x)
            → (is_valid_transition (manifest_of x).status input.to_status ≡ true)
              ⊎ (is_valid_transition (manifest_of x).status input.to_status ≡ false)
            → (seen (transition_batch_sql db zod now input t) ≡ transition_batch now input (view t))
              × IsSound zod (transition_batch_sql db zod now input t).1
        moved_or_refused x i e p (inl v) =
            rw
              (db.commits BatchRow (transition_rows db now input) t (moved x) (next_row x)
                (transition_rows_done x sound i e v))
              (
                ap₂ {A = Result BatchManifest} {B = ManifestStore} (λ a b. (a, b))
                      (row_to_batch-valid (next_row x)
                          (set_status-valid now input.to_status x d (sound.batch_rows_valid x i))
                        ∙ ap ok (manifest_of-set_status now input.to_status x))
                      (view-moved x sound i e)
                    ∙ sym (transition_batch_done now input (view t) (manifest_of x) p v),
                moved-IsSound x d sound i e,
              )
        moved_or_refused x i e p (inr v) =
            rw
              (db.rolls_back BatchRow (transition_rows db now input) t _
                (transition_rows_refused x sound i e v))
              (sym (transition_batch_refused now input (view t) (manifest_of x) p v), sound)
