-- ===== src/Core/Errors.antt =====
-- packages/core/src/errors.ts, and a promise that is settled as a value: fulfilled or rejected.
use codesoul.Prelude.{Text, Bool, true, false, ◌≡◌, refl, ◌⊎◌, inl, inr}

-- What the code throws, by its class: `Error`, zod's own error and the subclasses of
-- `CodeSoulError`. The argument is the message.
pub data Error : Type 0 where
  plain_error : Text → Error
  zod_error : Text → Error
  schema_validation_error : Text → Error
  manifest_state_error : Text → Error
  adapter_unavailable_error : Text → Error
  rig_extraction_error : Text → Error
  embedding_compatibility_error : Text → Error

unfoldable pub message : Error → Text
message (plain_error m) = m
message (zod_error m) = m
message (schema_validation_error m) = m
message (manifest_state_error m) = m
message (adapter_unavailable_error m) = m
message (rig_extraction_error m) = m
message (embedding_compatibility_error m) = m

-- A promise that has settled: rejected with what was thrown, or fulfilled.
pub data Result {ℓ} (Value : Type ℓ) : Type ℓ where
  raise : Error → Result Value
  ok : Value → Result Value

abbrev pub is_ok {ℓ} : {Value : Type ℓ} → Result Value → Bool
is_ok (raise _) = false
is_ok (ok _) = true

pub Result-cases {ℓ} :
    {Value : Type ℓ} (r : Result Value) → ((v : Value) × (r ≡ ok v)) ⊎ ((e : Error) × (r ≡ raise e))
Result-cases (ok v) = inl (v, refl)
Result-cases (raise e) = inr (e, refl)

pub ok-injective {ℓ} : {Value : Type ℓ} {v w : Value} → ok v ≡ ok w → v ≡ w
ok-injective same = cc

module _ {ℓ κ} {A : Type ℓ} {B : Type κ} where
  infixl 5 ◌>>=◌
  -- `await` of a call, and the rest of the function.
  abbrev pub ◌>>=◌ : Result A → (A → Result B) → Result B
  raise thrown >>= rest = raise thrown
  ok value >>= rest = rest value

  -- A chain that is rejected is rejected by its first step or by the rest.
  pub bind_raise :
      (first : Result A) (rest : A → Result B) {thrown : Error}
      → (first >>= rest) ≡ raise thrown
      → (first ≡ raise thrown) ⊎ ((value : A) × (first ≡ ok value) × (rest value ≡ raise thrown))
  bind_raise (raise _) rest p = inl cc
  bind_raise (ok value) rest p = inr (value, refl, p)

  -- A chain that is fulfilled has a first step that is.
  pub bind_ok :
      (first : Result A) (rest : A → Result B) {result : B}
      → (first >>= rest) ≡ ok result
      → (value : A) × (first ≡ ok value) × (rest value ≡ ok result)
  bind_ok (raise _) rest p = cc
  bind_ok (ok value) rest p = (value, refl, p)
