-- ===== src/Core/Zod.antt =====
-- The schema library zod, which is not part of the repository, as a parameter. A schema declared
-- in packages/core/src/schema is the Boolean test of the constraints that it lists.
use codesoul.Prelude.{Text, ◌≡◌, Bool, true, false, ◌⊎◌, inl, inr, Bool-cases}
use codesoul.Core.Errors.{Result, ok, raise, zod_error}

-- `schema.parse(x)` returns a value that satisfies the schema unchanged, and throws a `ZodError`
-- for any other.
pub record Zod : Type 1 where
  pub parse : (A : Type 0) → (A → Bool) → A → Result A
  pub is_datetime : Text → Bool
  pub accepts : (A : Type 0) (check : A → Bool) (a : A) → check a ≡ true → parse A check a ≡ ok a
  pub rejects :
      (A : Type 0) (check : A → Bool) (a : A)
      → check a ≡ false
      → (e : Text) × (parse A check a ≡ raise (zod_error e))

module _ (zod : Zod) where
  pub parse-cases :
      (A : Type 0) (check : A → Bool) (a : A)
      → ((check a ≡ true) × (zod.parse A check a ≡ ok a))
        ⊎ ((e : Text) × (check a ≡ false) × (zod.parse A check a ≡ raise (zod_error e)))
  parse-cases A check a = elim (Bool-cases (check a)) [
    | inl t ↦ inl (t, zod.accepts A check a t)
    | inr f ↦ let (e, p) = zod.rejects A check a f in inr (e, f, p)
  ]
