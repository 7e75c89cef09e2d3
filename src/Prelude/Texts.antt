-- ===== src/Prelude/Texts.antt =====
-- A JavaScript string as the list of its UTF-16 code units, and the tests on strings.
use Prim.Native.Nat.{ℕ}
use Prim.Native.Char.{code}
use Prim.Native.String.{String}
use mathlib.Core.Path.{◌≡◌, refl}
use mathlib.Core.Logic.{◌↔◌}
use mathlib.Core.Bool.{Bool, true, false, ◌&&◌, ◌||◌}
use mathlib.Core.List.{List, [], ◌∷◌}
use native.Mathlib.Omega.{arith}
use codesoul.Prelude.Tests.{nat_eq}

abbrev pub Text : Type 0
Text = List ℕ

-- The code units of a literal whose characters are ASCII.
abbrev pub codes : String → Text
codes String.[] = []
codes (String.◌∷◌ c s) = code c ∷ codes s

-- `===` on strings.
infix 50 ◌==◌
unfoldable pub ◌==◌ : Text → Text → Bool
[] == [] = true
[] == (y ∷ ys) = false
(x ∷ xs) == [] = false
(x ∷ xs) == (y ∷ ys) = nat_eq x y && (xs == ys)

eq_sound : (a b : Text) → (a == b) ≡ true → a ≡ b
unfolding ◌==◌
eq_sound [] [] h = refl
eq_sound [] (y ∷ ys) h = cc
eq_sound (x ∷ xs) [] h = cc
eq_sound (x ∷ xs) (y ∷ ys) h = ground (arith, eq_sound xs ys)

pub eq_refl : (a : Text) → (a == a) ≡ true
unfolding ◌==◌
eq_refl [] = refl
eq_refl (x ∷ xs) = ground (arith, eq_refl xs)

eq_complete : (a b : Text) → a ≡ b → (a == b) ≡ true
eq_complete a b h = ground (arith, eq_refl a)

pub eq_iff : (a b : Text) → ((a == b) ≡ true) ↔ (a ≡ b)
eq_iff a b = (eq_sound a b, eq_complete a b)

-- `s.startsWith(prefix)`
unfoldable pub starts_with : Text → Text → Bool
starts_with s [] = true
starts_with [] (p ∷ ps) = false
starts_with (c ∷ s) (p ∷ ps) = nat_eq c p && starts_with s ps

-- `s.endsWith(suffix)`
unfoldable pub ends_with : Text → Text → Bool
unfolding ◌==◌
ends_with [] suffix = [] == suffix
ends_with (c ∷ s) suffix = ((c ∷ s) == suffix) || ends_with s suffix
