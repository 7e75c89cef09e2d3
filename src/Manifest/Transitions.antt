-- ===== src/Manifest/Transitions.antt =====
-- packages/manifest-store/src/transitions.ts
use codesoul.Prelude.{
  ◌==◌, codes, ◌≡◌, ◌≢◌, refl, Bool, true, false, ◌||◌, List, [], ◌∷◌, ◌++◌, arith, if◌then◌else◌,
}
use codesoul.Core.Errors.{Error, Result, ok, raise, manifest_state_error}
use codesoul.Core.Enums.{BatchStatus, pending, committed, failed, dry_run, status_name, status_eq}

-- `VALID_TRANSITIONS`
unfoldable pub valid_transitions : BatchStatus → List BatchStatus
valid_transitions pending = committed ∷ failed ∷ dry_run ∷ []
valid_transitions committed = []
valid_transitions failed = []
valid_transitions dry_run = []

-- `Array.prototype.includes`
includes : List BatchStatus → BatchStatus → Bool
unfolding status_eq
includes [] to = false
includes (s ∷ l) to = status_eq s to || includes l to

unfoldable pub is_valid_transition : BatchStatus → BatchStatus → Bool
unfolding valid_transitions includes
is_valid_transition from to = includes (valid_transitions from) to

-- The error that names the refused transition.
unfoldable pub transition_error : BatchStatus → BatchStatus → Error
transition_error from to = manifest_state_error (
    codes "Invalid manifest transition: " ++ (status_name from ++ (codes " -> " ++ status_name to)))

unfoldable pub assert_valid_transition : BatchStatus → BatchStatus → Result (Unit {0})
assert_valid_transition from to =
    if is_valid_transition from to then ok tt else raise (transition_error from to)

-- Only a pending batch has a transition.
pub is_valid_transition-pending :
    (from to : BatchStatus) → is_valid_transition from to ≡ true → from ≡ pending
unfolding is_valid_transition
is_valid_transition-pending pending to h = ground arith
is_valid_transition-pending committed to h = cc
is_valid_transition-pending failed to h = cc
is_valid_transition-pending dry_run to h = cc

-- A pending batch has a transition to every other status.
pub is_valid_transition_from_pending :
    (to : BatchStatus) → to ≢ pending → is_valid_transition pending to ≡ true
unfolding is_valid_transition ◌==◌
is_valid_transition_from_pending pending h = absurd (h refl)
is_valid_transition_from_pending committed h = refl
is_valid_transition_from_pending failed h = refl
is_valid_transition_from_pending dry_run h = refl
