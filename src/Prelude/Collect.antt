-- ===== src/Prelude/Collect.antt =====
-- The loop by which every store lists its records: keep those that pass the filters, and stop as
-- soon as the limit is reached.
use Prim.Native.Nat.{ℕ, zero, suc, ◌-◌, ◌≤◌, ◌<◌}
use mathlib.Core.Path.{◌≡◌, ◌∙◌, sym}
use mathlib.Core.Logic.{inl, inr}
use mathlib.Core.Bool.{Bool, false}
use mathlib.Core.Option.{Option, none, some}
use mathlib.Core.List.{List, [], ◌∷◌, ◌++◌, append-nil, append_assoc}
use native.Mathlib.Omega.{arith}
use codesoul.Prelude.Tests.{if◌then◌else◌, leb, Bool-cases}
use codesoul.Prelude.Lists.{length, take, filter, length-append}

-- `options.limit && options.limit > 0 ? options.limit : Number.POSITIVE_INFINITY`, where `none` is
-- no limit. An absent limit and the limit 0 are the same.
unfoldable pub effective_limit : Option ℕ → Option ℕ
effective_limit none = none
effective_limit (some zero) = none
effective_limit (some (suc n)) = some (suc n)

-- `out.length >= limit`
unfoldable pub reached : Option ℕ → ℕ → Bool
reached none n = false
reached (some limit) n = leb limit n

-- `for (const x of xs) { if (!keep(x)) continue; out.push(x); if (out.length >= limit) break }`
unfoldable pub collect {ℓ} : {A : Type ℓ} → (A → Bool) → Option ℕ → List A → List A → List A
unfolding reached
collect keep limit out [] = out
collect keep limit out (x ∷ xs) =
    let skipped = collect keep limit out xs in
    let pushed = out ++ x ∷ [] in
    let more = collect keep limit pushed xs in
    if keep x then (if reached limit (length pushed) then pushed else more) else skipped

-- At most as many as the limit.
abbrev pub limited {ℓ} : {A : Type ℓ} → Option ℕ → List A → List A
limited none xs = xs
limited (some n) xs = take n xs

module _ {ℓ} {A : Type ℓ} (keep : A → Bool) where
  collect_unlimited : (out xs : List A) → collect keep none out xs ≡ out ++ filter keep xs
  unfolding collect
  collect_unlimited out [] = sym (append-nil out)
  collect_unlimited out (x ∷ xs) = elim (Bool-cases (keep x)) [
    | inl t ↦ rw t (collect_unlimited (out ++ x ∷ []) xs ∙ append_assoc out (x ∷ []) _)
    | inr f ↦ rw f (collect_unlimited out xs)
  ]

  -- The limit is reached by the element that is pushed.
  last_one :
      (n : ℕ) (out : List A) (x : A) (xs : List A)
      → length out < n
      → n ≤ length (out ++ x ∷ [])
      → out ++ x ∷ [] ≡ out ++ take (n - length out) (x ∷ xs)
  last_one n out x xs h k =
      let one : n - length out ≡ 1 = omega (arith, length-append {ℓ} out (x ∷ [])) in rw one

  one_more :
      (n : ℕ) (out : List A) (x : A) (xs : List A)
      → length out < n
      → (out ++ x ∷ []) ++ take (n - length (out ++ x ∷ [])) xs
        ≡ out ++ take (n - length out) (x ∷ xs)
  one_more n out x xs h =
      let e : n - length out ≡ suc (n - length (out ++ x ∷ [])) =
        omega (arith, length-append {ℓ} out (x ∷ [])) in
      rw e (append_assoc out (x ∷ []) _)

  collect_limited :
      (n : ℕ) (out xs : List A)
      → length out < n
      → collect keep (some n) out xs ≡ out ++ take (n - length out) (filter keep xs)
  unfolding collect
  collect_limited n out [] h =
      let e : n - length out ≡ suc (n - length out - 1) = omega arith in rw e (sym (append-nil out))
  collect_limited n out (x ∷ xs) h = elim (Bool-cases (keep x)) [
    | inr f ↦ rw f (collect_limited n out xs h)
    | inl t ↦ elim (Bool-cases (leb n (length (out ++ x ∷ [])))) [
      | inl full ↦ rw (t, full) (last_one n out x (filter keep xs) h (ground arith))
      | inr room ↦
          rw (t, room)
            (collect_limited n (out ++ x ∷ []) xs (ground arith)
              ∙ one_more n out x (filter keep xs) h)
    ]
  ]

  -- The loop with its early exit returns the first elements that pass the filters.
  pub collect-eq-limited :
      (limit : Option ℕ) (xs : List A)
      → collect keep (effective_limit limit) [] xs
        ≡ limited (effective_limit limit) (filter keep xs)
  unfolding effective_limit
  collect-eq-limited none xs = collect_unlimited [] xs
  collect-eq-limited (some zero) xs = collect_unlimited [] xs
  collect-eq-limited (some (suc n)) xs =
      let e : suc n - 0 ≡ suc n = omega arith in
      rw e at (collect_limited (suc n) [] xs (omega arith))
