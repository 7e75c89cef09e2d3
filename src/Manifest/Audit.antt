-- ===== src/Manifest/Audit.antt =====
-- The manifest store against its audit trail: an independent reading of the events of a batch, and
-- the invariant that ties it to the stored manifests.
pub mod Kept
pub mod Terminal
use codesoul.Prelude.{
  ℕ, suc, ◌+◌, ◌≤◌, Text, ◌==◌, eq_iff, ◌≡◌, refl, ap, ◌∙◌, Bool, true, false, Option, none, some,
  List, [], ◌∷◌, ◌++◌, arith, if◌then◌else◌, length, length-append, Bool-cases, inl, inr,
}
use mathlib.Core.Option
use codesoul.JsMap.{JsMap, get, has, set}
use codesoul.JsMap.Laws.{get-set, has-set, get-eq-none}
use codesoul.Core.Errors.{Result, ok, raise}
use codesoul.Core.Zod.{Zod, parse-cases}
use codesoul.Core.Enums.{BatchStatus, status_eq}
use codesoul.Core.Schema.{BatchManifest, IngestionManifest, is_batch_manifest}
use codesoul.Manifest.{
  BatchEvent, ManifestStore, TransitionBatchInput, empty_store, push_event, record_parsed,
  commit_transition, with_status, transition_batch, record_batch, record_ingestion,
  finish_ingestion,
}
use codesoul.Manifest.Transitions.{is_valid_transition, assert_valid_transition}

-- Whether an event can follow a status: the first event creates the batch, and every later one
-- starts from the status that the trail has reached, by a valid transition.
unfoldable pub follows : Option BatchStatus → BatchEvent → Bool
follows none e = elim e.from_status [ none ↦ true | some _ ↦ false ]
follows (some current) e = elim e.from_status [
  | none ↦ false
  | some from ↦ if status_eq from current then is_valid_transition from e.to_status else false
]

-- The status that the trail of a batch leads to, if the trail is sound.
unfoldable pub replay : Text → Option BatchStatus → List BatchEvent → Option (Option BatchStatus)
unfolding follows
replay batch current [] = some current
replay batch current (e ∷ es) =
    let skipped = replay batch current es in
    let taken = replay batch (some e.to_status) es in
    if e.batch_id == batch then (if follows current e then taken else none) else skipped

abbrev pub status_of : Option BatchManifest → Option BatchStatus
status_of none = none
status_of (some m) = some m.status

-- The events are numbered from `n` on, without a gap.
abbrev pub Numbered : ℕ → List BatchEvent → Type 0
Numbered n [] = Unit
Numbered n (e ∷ es) = (e.event_id ≡ n) × Numbered (n + 1) es

pub record IsConsistent (s : ManifestStore) : Type 0 where
  pub keyed : (b : Text) (m : BatchManifest) → get b s.batches ≡ some m → m.batch_id ≡ b
  pub audited : (b : Text) → replay b none s.events ≡ some (status_of (get b s.batches))
  pub numbered : Numbered 1 s.events
  pub next_id : s.next_event_id ≡ length s.events + 1

-- The calls of a client; a rejected call leaves the client free to go on.
pub data Op : Type 0 where
  record_op : BatchManifest → Op
  transition_op : TransitionBatchInput → Text → Op
  record_ingestion_op : IngestionManifest → Op
  finish_ingestion_op : Text → Text → Op

unfoldable pub apply : Zod → Op → ManifestStore → ManifestStore
apply zod (record_op m) s = (record_batch zod m s).1
apply zod (transition_op input now) s = (transition_batch now input s).1
apply zod (record_ingestion_op m) s = (record_ingestion zod m s).1
apply zod (finish_ingestion_op run at) s = (finish_ingestion run at s).1

unfoldable pub run : Zod → List Op → ManifestStore → ManifestStore
unfolding apply
run zod [] s = s
run zod (op ∷ ops) s = run zod ops (apply zod op s)

-- One more event at the end of the trail.
step : Text → Option BatchStatus → BatchEvent → Option (Option BatchStatus)
step batch current e =
    if e.batch_id == batch
    then (if follows current e then some (some e.to_status) else none)
    else some current

replay-append :
    (b : Text) (current : Option BatchStatus) (es : List BatchEvent) (e : BatchEvent)
    (reached : Option BatchStatus)
    → replay b current es ≡ some reached
    → replay b current (es ++ e ∷ []) ≡ step b reached e
unfolding replay step
replay-append b current [] e reached h = ground arith
replay-append b current (d ∷ es) e reached h =
    ground
      (arith, replay-append b current es e reached, replay-append b (some d.to_status) es e reached)

Numbered-append :
    (n : ℕ) (es : List BatchEvent) (e : BatchEvent)
    → Numbered n es
    → e.event_id ≡ length es + n
    → Numbered n (es ++ e ∷ [])
Numbered-append n [] e h k = (omega arith, tt)
Numbered-append n (d ∷ es) e h k = (h.0, Numbered-append (n + 1) es e h.1 (omega arith))

keyed_set :
    (m : BatchManifest) (batches : JsMap BatchManifest) (b : Text) (n : BatchManifest)
    → (get b batches ≡ some n → n.batch_id ≡ b)
    → get b (set m.batch_id m batches) ≡ some n
    → n.batch_id ≡ b
keyed_set m batches b n h p = ground (arith, get-set m.batch_id b m batches, eq_iff m.batch_id b, h)

step-set :
    (m : BatchManifest) (e : BatchEvent) (batches : JsMap BatchManifest) (b : Text)
    → e.batch_id ≡ m.batch_id
    → e.to_status ≡ m.status
    → follows (status_of (get m.batch_id batches)) e ≡ true
    → step b (status_of (get b batches)) e ≡ some (status_of (get b (set m.batch_id m batches)))
unfolding step
step-set m e batches b same to fits =
    ground (arith, get-set m.batch_id b m batches, eq_iff m.batch_id b, eq_iff e.batch_id b)

-- An event of batch `b` appended to the trail, where the batch gets the manifest `m` whose status
-- the event ends in.
pushed-IsConsistent :
    (s : ManifestStore) (m : BatchManifest) (e : BatchEvent)
    → IsConsistent s
    → e.batch_id ≡ m.batch_id
    → e.event_id ≡ s.next_event_id
    → e.to_status ≡ m.status
    → follows (status_of (get m.batch_id s.batches)) e ≡ true
    → IsConsistent (record s {
      batches = set m.batch_id m s.batches;
      events = s.events ++ e ∷ [];
      next_event_id = s.next_event_id + 1;
    })
pushed-IsConsistent s m e c same id to fits = record {
  keyed = λ b n p. keyed_set m s.batches b n (c.keyed b n) p;
  audited = λ b.
      replay-append b none s.events e (status_of (get b s.batches)) (c.audited b)
      ∙ step-set m e s.batches b same to fits;
  numbered = Numbered-append 1 s.events e c.numbered (omega (arith, c.next_id));
  next_id = omega (arith, c.next_id, length-append s.events (e ∷ []));
}
