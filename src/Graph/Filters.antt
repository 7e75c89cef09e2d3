-- ===== src/Graph/Filters.antt =====
-- What the optional filters of the stores ask of a record.
use codesoul.Prelude.{
  Text, eq_iff, starts_with, nat_eq, ◌≡◌, ◌↔◌, ◌⊎◌, refl, ◌∙◌, Bool, true, Option, none, some, [],
  ◌∷◌, ◌++◌, inl, inr, and_iff, arith,
}
use mathlib.Core.Path.{subst, ap₂}
use codesoul.Graph.{passes}

-- An empty string as a filter asks for nothing.
abbrev pub Asked : Option Text → Text → Type 0
Asked wanted x = (w : Text) → wanted ≡ some w → (w ≡ []) ⊎ (x ≡ w)

pub passes_iff : (wanted : Option Text) (x : Text) → (passes wanted x ≡ true) ↔ Asked wanted x
unfolding passes
passes_iff none x = ((λ _ w e. absurd (cc e)), λ _. refl)
passes_iff (some []) x = ((λ _ w e. inl (cc e)), λ _. refl)
passes_iff (some (c ∷ v)) x = (
  (λ t w e. inr ((eq_iff x (c ∷ v)).0 t ∙ cc e)),
  λ h. elim (h (c ∷ v) refl) [ inl e ↦ absurd (cc e) | inr e ↦ (eq_iff x (c ∷ v)).1 e ],
)

-- A prefix of a string, by the string that follows it.
abbrev pub Extends : Text → Text → Type 0
Extends s p = (rest : Text) × (s ≡ p ++ rest)

pub starts_with_iff : (s p : Text) → (starts_with s p ≡ true) ↔ Extends s p
unfolding starts_with
starts_with_iff s [] = ((λ _. (s, refl)), λ _. refl)
starts_with_iff [] (d ∷ p) = ((λ e. absurd (cc e)), λ (rest, e). absurd (cc e))
starts_with_iff (c ∷ s) (d ∷ p) =
    let both = and_iff (nat_eq c d) (starts_with s p) ((λ e. e), λ e. e) (starts_with_iff s p) in
    (
      (λ t. let (same, (rest, e)) = both.0 t in (rest, ap₂ ◌∷◌ (ground (arith, same)) e)),
      λ (rest, e). both.1 (ground (arith, e), (rest, cc e)),
    )

-- A filter that is absent asks for nothing.
pub optional_iff :
    {A : Type 0} (o : Option A) (test : A → Bool) (P : A → Type 0)
    → ((a : A) → (test a ≡ true) ↔ P a)
    → ((elim o [ none ↦ true | some a ↦ test a ]) ≡ true) ↔ ((a : A) → o ≡ some a → P a)
optional_iff none test P d = ((λ _ a e. absurd (cc e)), λ _. refl)
optional_iff (some b) test P d = ((λ t a e. subst P (cc e) ((d b).0 t)), λ h. (d b).1 (h b refl))
