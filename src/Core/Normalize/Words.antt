-- ===== src/Core/Normalize/Words.antt =====
-- What `normalizeSignature` computes: the words of the text, joined by single spaces.
use codesoul.Prelude.{
  ℕ, Text, ◌≡◌, refl, sym, Bool, true, false, not, List, [], ◌∷◌, ◌++◌, arith, if◌then◌else◌,
  Bool-cases, inl, inr, ap, ◌∙◌, is_empty,
}
use codesoul.Core.Normalize.{is_space, collapse, trim_start, trim_end, normalize_signature}

-- Whether a text begins with a word.
starts_word : Text → Bool
starts_word [] = false
starts_word (c ∷ s) = not (is_space c)

push : ℕ → Bool → List Text → List Text
push c true (w ∷ ws) = (c ∷ w) ∷ ws
push c _ ws = (c ∷ []) ∷ ws

-- The maximal runs of characters that are no white space.
pub words : Text → List Text
unfolding starts_word push
words [] = []
words (c ∷ s) = let later = words s in if is_space c then later else push c (starts_word s) later

pub unwords : List Text → Text
unwords [] = []
unwords (w ∷ []) = w
unwords (w ∷ v ∷ ws) = w ++ 32 ∷ unwords (v ∷ ws)

space-is_space : is_space 32 ≡ true
unfolding is_space
space-is_space = refl

trim_start-collapse : (b : Bool) (s : Text) → trim_start (collapse b s) ≡ collapse true s
unfolding trim_start collapse
trim_start-collapse b [] = refl
trim_start-collapse b (c ∷ s) = ground (arith, space-is_space, trim_start-collapse true s)

-- What a list of words leaves behind a character of a word, or behind white space.
behind : Bool → List Text → Text
behind true ws = unwords ws
behind false [] = []
behind false (w ∷ ws) = 32 ∷ unwords (w ∷ ws)

-- Every word has a character.
AllFull : List Text → Type 0
AllFull [] = Unit
AllFull (w ∷ ws) = (is_empty w ≡ false) × AllFull ws

push-AllFull : (c : ℕ) (b : Bool) (ws : List Text) → AllFull ws → AllFull (push c b ws)
unfolding push AllFull
push-AllFull c true (w ∷ ws) h = (refl, h.1)
push-AllFull c true [] h = (refl, h)
push-AllFull c false ws h = (refl, h)

words-AllFull : (s : Text) → AllFull (words s)
unfolding words AllFull
words-AllFull [] = tt
words-AllFull (c ∷ s) = elim (Bool-cases (is_space c)) [
  | inl t ↦ rw t (words-AllFull s)
  | inr f ↦ rw f (push-AllFull c (starts_word s) (words s) (words-AllFull s))
]

is_empty-push : (c : ℕ) (b : Bool) (ws : List Text) → is_empty (push c b ws) ≡ false
unfolding push
is_empty-push c true [] = refl
is_empty-push c true (w ∷ ws) = refl
is_empty-push c false ws = refl

-- A text that begins with a word has a word.
words_start : (s : Text) → starts_word s ≡ true → is_empty (words s) ≡ false
unfolding words starts_word
words_start [] h = cc
words_start (c ∷ s) h = ground (arith, is_empty-push c (starts_word s) (words s))

unwords-push :
    (c : ℕ) (b : Bool) (ws : List Text)
    → (b ≡ true → is_empty ws ≡ false)
    → unwords (push c b ws) ≡ c ∷ behind b ws
unfolding unwords push behind
unwords-push c true [] h = ground (arith, h refl)
unwords-push c true (w ∷ []) h = refl
unwords-push c true (w ∷ v ∷ ws) h = refl
unwords-push c false [] h = refl
unwords-push c false (w ∷ ws) h = refl

behind_space :
    (ws : List Text)
    → AllFull ws
    → (if is_empty (unwords ws) then [] else 32 ∷ unwords ws) ≡ behind false ws
unfolding unwords behind AllFull
behind_space [] h = refl
behind_space ((c ∷ w) ∷ []) h = refl
behind_space ((c ∷ w) ∷ v ∷ ws) h = refl
behind_space ([] ∷ ws) h = cc

module _ (c : ℕ) (s : Text) where
  trim_end-collapse_space :
      is_space c ≡ true
      → trim_end (collapse true s) ≡ unwords (words s)
      → trim_end (collapse false (c ∷ s)) ≡ behind false (words s)
  unfolding collapse trim_end
  trim_end-collapse_space t e = rw (t, space-is_space, e) (behind_space (words s) (words-AllFull s))

  trim_end-collapse_word :
      (b : Bool)
      → is_space c ≡ false
      → trim_end (collapse false s) ≡ behind (starts_word s) (words s)
      → trim_end (collapse b (c ∷ s)) ≡ unwords (push c (starts_word s) (words s))
  unfolding collapse trim_end
  trim_end-collapse_word b f e =
      rw (f, f, e) (sym (unwords-push c (starts_word s) (words s) (words_start s)))

abbrev Collapsed : Text → Type 0
Collapsed s =
    (trim_end (collapse true s) ≡ unwords (words s))
    × (trim_end (collapse false s) ≡ behind (starts_word s) (words s))

Collapsed-space : (c : ℕ) (s : Text) → is_space c ≡ true → Collapsed s → Collapsed (c ∷ s)
Collapsed-space c s t h = (
  unfold words collapse in rw t h.0,
  unfold words starts_word in rw t (trim_end-collapse_space c s t h.0),
)

Collapsed-word : (c : ℕ) (s : Text) → is_space c ≡ false → Collapsed s → Collapsed (c ∷ s)
Collapsed-word c s f h = (
  unfold words in rw f (trim_end-collapse_word c s true f h.1),
  unfold words starts_word behind in rw f (trim_end-collapse_word c s false f h.1),
)

trim_end-collapse : (s : Text) → Collapsed s
trim_end-collapse [] = unfold trim_end collapse words unwords behind starts_word in (refl, refl)
trim_end-collapse (c ∷ s) = elim (Bool-cases (is_space c)) [
  | inl t ↦ Collapsed-space c s t (trim_end-collapse s)
  | inr f ↦ Collapsed-word c s f (trim_end-collapse s)
]

-- The normalized signature is the words of the raw one, joined by single spaces.
pub normalize_signature-eq-unwords : (raw : Text) → normalize_signature raw ≡ unwords (words raw)
unfolding normalize_signature
normalize_signature-eq-unwords raw =
    ap trim_end (trim_start-collapse false raw) ∙ (trim_end-collapse raw).0
