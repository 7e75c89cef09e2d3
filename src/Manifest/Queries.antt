-- ===== src/Manifest/Queries.antt =====
-- What `listEvents`, `listBatchesForRun` and `transitionBatch` return.
use codesoul.Prelude.{
  ℕ, ◌+◌, ◌≤◌, Text, ◌==◌, eq_iff, ◌≡◌, ◌↔◌, refl, ap, sym, ◌∙◌, Bool, true, Option, none, some,
  List, Selects, Same, Cut, collect-Selects, and_iff, [], ◌∷◌, arith, if◌then◌else◌, Bool-cases,
  inl, inr, leb, All, filter, sort_by_sorted, IsSorted, limited, effective_limit,
  collect-eq-limited, ◌≢◌, Option-cases,
}
use codesoul.JsMap.{get, values}
use codesoul.JsMap.Laws.{get-set}
use codesoul.Core.Errors.{ok}
use codesoul.Core.Zod.{Zod}
use codesoul.Core.Enums.{BatchStatus, committed, status_eq, status_name, status_name-injective}
use codesoul.Core.Schema.{BatchManifest}
use codesoul.Manifest.{
  BatchEvent, ManifestStore, ListBatchesOptions, TransitionBatchInput, empty_store, list_events,
  list_batches_for_run, is_listed, transition_batch, with_status, commit_transition, get_batch,
}
use codesoul.Manifest.Transitions.{is_valid_transition}
use codesoul.Manifest.Audit.{Numbered, IsConsistent, Op, run}
use codesoul.Manifest.Audit.Kept.{
  run-IsConsistent, empty_store-IsConsistent, transition_batch_unknown, transition_batch_refused,
  transition_batch_done,
}

abbrev id_le : BatchEvent → BatchEvent → Bool
id_le a b = leb a.event_id b.event_id

Numbered-above :
    (n k : ℕ) (p : BatchEvent → Bool) (es : List BatchEvent)
    → n ≤ k
    → Numbered k es
    → All (λ e. n ≤ e.event_id) (filter p es)
Numbered-above n k p [] h t = tt
Numbered-above n k p (e ∷ es) h t = elim (Bool-cases (p e)) [
  | inl y ↦ rw y (omega arith, Numbered-above n (k + 1) p es (omega arith) t.1)
  | inr f ↦ rw f (Numbered-above n (k + 1) p es (omega arith) t.1)
]

above_le :
    (e : BatchEvent) (es : List BatchEvent)
    → All (λ d. e.event_id ≤ d.event_id) es
    → All (λ d. id_le e d ≡ true) es
above_le e [] h = tt
above_le e (d ∷ es) h = (ground (arith, h.0), above_le e es h.1)

filter-IsSorted :
    (n : ℕ) (p : BatchEvent → Bool) (es : List BatchEvent)
    → Numbered n es
    → IsSorted id_le (filter p es)
filter-IsSorted n p [] t = tt
filter-IsSorted n p (e ∷ es) t = elim (Bool-cases (p e)) [
  | inl y ↦ rw y (
    above_le e (filter p es) (Numbered-above e.event_id (n + 1) p es (omega arith) t.1),
    filter-IsSorted (n + 1) p es t.1,
  )
  | inr f ↦ rw f (filter-IsSorted (n + 1) p es t.1)
]

-- In every store that calls on a fresh store lead to, `listEvents` returns exactly the events of
-- the batch in the order in which they happened: the sort changes nothing.
pub list_events-eq-filter :
    (zod : Zod) (ops : List Op) (b : Text)
    → list_events b (run zod ops empty_store)
      ≡ filter (λ e. e.batch_id == b) (run zod ops empty_store).events
unfolding list_events
list_events-eq-filter zod ops b =
    let c = run-IsConsistent zod ops empty_store empty_store-IsConsistent in
    sort_by_sorted id_le _ (filter-IsSorted 1 _ (run zod ops empty_store).events c.numbered)

pub list_batches_for_run-eq-limited :
    (r : Text) (options : ListBatchesOptions) (s : ManifestStore)
    → list_batches_for_run r options s
      ≡ limited
          (effective_limit options.limit)
          (filter (is_listed r options.status) (values s.batches))
unfolding list_batches_for_run
list_batches_for_run-eq-limited r options s =
    collect-eq-limited (is_listed r options.status) options.limit (values s.batches)

-- What a listing asks of a manifest: its run and, with the option, its status.
abbrev pub BatchAsked : Text → ListBatchesOptions → BatchManifest → Type 0
BatchAsked r options m =
    (m.index_run_id ≡ r)
    × ((status : BatchStatus) → options.status ≡ some status → m.status ≡ status)

is_listed_iff :
    (r : Text) (status : Option BatchStatus) (m : BatchManifest)
    → (is_listed r status m ≡ true)
      ↔ ((m.index_run_id ≡ r) × ((wanted : BatchStatus) → status ≡ some wanted → m.status ≡ wanted))
unfolding is_listed status_eq
is_listed_iff r none m = (
  (λ t. ((eq_iff m.index_run_id r).0 t, λ wanted e. absurd (cc e))),
  λ (e, _). (eq_iff m.index_run_id r).1 e,
)
is_listed_iff r (some status) m =
    let both =
      and_iff (m.index_run_id == r) (status_name m.status == status_name status)
        (eq_iff m.index_run_id r) (eq_iff (status_name m.status) (status_name status)) in
    (
      (λ t.
          let (e, f) = both.0 t in (e, λ wanted w. status_name-injective m.status status f ∙ cc w)),
      λ (e, f). both.1 (e, ap status_name (f status refl)),
    )

-- `listBatchesForRun` returns the stored manifests of the run that have the status asked for, if one
-- is, in the order in which they were recorded, each as many times as it is stored. With a limit
-- above 0 it returns the first ones, as many as the limit, and with no limit or the limit 0 all of
-- them.
pub list_batches_for_run-Selects :
    (r : Text) (options : ListBatchesOptions) (s : ManifestStore)
    → (all : List BatchManifest) × Selects (BatchAsked r options) Same (values s.batches) all
      × Cut options.limit all (list_batches_for_run r options s)
unfolding list_batches_for_run
list_batches_for_run-Selects r options s =
    collect-Selects (BatchAsked r options) (is_listed r options.status)
      (is_listed_iff r options.status) options.limit (values s.batches)

module _ (now : Text) (input : TransitionBatchInput) (s : ManifestStore)
    (existing : BatchManifest) where
  get-commit_transition :
      (b : Text)
      → existing.batch_id ≡ input.batch_id
      → get b (commit_transition now input existing s).batches ≡ (
          if input.batch_id == b
          then some (with_status input.to_status now existing)
          else get b s.batches)
  unfolding commit_transition
  get-commit_transition b same =
      get-set existing.batch_id b (with_status input.to_status now existing) s.batches ∙ rw same

  returned :
      (next : BatchManifest)
      → get input.batch_id s.batches ≡ some existing
      → is_valid_transition existing.status input.to_status ≡ true
      → (transition_batch now input s).0 ≡ ok next
      → with_status input.to_status now existing ≡ next
  returned next p t h = cc (ap (λ r. r.0) (transition_batch_done now input s existing p t), h)

-- In a consistent store: if `transitionBatch` is fulfilled, the batch was there and the transition
-- valid, the returned manifest is what `getBatch` reads afterwards, every other batch is as it was,
-- the status is the one asked for, and the commit stamp is the clock's reading for `committed` and
-- unchanged otherwise.
pub transition_batch_fulfilled :
    (now : Text) (input : TransitionBatchInput) (s : ManifestStore) (next : BatchManifest)
    → IsConsistent s
    → (transition_batch now input s).0 ≡ ok next
    → (existing : BatchManifest) × (get_batch input.batch_id s ≡ some existing)
      × (is_valid_transition existing.status input.to_status ≡ true)
      × (next.status ≡ input.to_status)
      × (next.committed_at
          ≡ (if status_eq input.to_status committed then some now else existing.committed_at))
      × ((b : Text)
          → get_batch b (transition_batch now input s).1
            ≡ (if input.batch_id == b then some next else get_batch b s))
unfolding get_batch
transition_batch_fulfilled now input s next c h =
    elim (Option-cases (get input.batch_id s.batches)) [
      | inl p ↦ cc (transition_batch_unknown now input s p)
      | inr (existing, p) ↦
          elim (Bool-cases (is_valid_transition existing.status input.to_status)) [
            | inr f ↦ cc (transition_batch_refused now input s existing p f)
            | inl t ↦
                let same = returned now input s existing next p t h in
                (
                  existing,
                  p,
                  t,
                  unfold with_status in ap (λ m. m.status) (sym same),
                  unfold with_status in ap (λ m. m.committed_at) (sym same),
                  λ b. rw (transition_batch_done now input s existing p t) (
                      get-commit_transition now input s existing b
                        (c.keyed input.batch_id existing p)
                      ∙ rw same),
                )
          ]
    ]

-- A rejected `transitionBatch` leaves the store as it was.
pub transition_batch_rejected :
    (now : Text) (input : TransitionBatchInput) (s : ManifestStore)
    → ((next : BatchManifest) → (transition_batch now input s).0 ≢ ok next)
    → (transition_batch now input s).1 ≡ s
transition_batch_rejected now input s h = elim (Option-cases (get input.batch_id s.batches)) [
  | inl p ↦ rw (transition_batch_unknown now input s p)
  | inr (existing, p) ↦ elim (Bool-cases (is_valid_transition existing.status input.to_status)) [
    | inr f ↦ rw (transition_batch_refused now input s existing p f)
    | inl t ↦ absurd (h _ (ap (λ r. r.0) (transition_batch_done now input s existing p t)))
  ]
]
