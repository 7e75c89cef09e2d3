-- ===== src/Source/Ranges.antt =====
-- packages/core/src/source-provider.ts: what a range of lines contains.
use codesoul.Prelude.{
  ℕ, zero, suc, ◌-◌, ◌*◌, ◌≤◌, ◌<◌, max, min, Text, ◌≡◌, refl, ap, ◌∙◌, true, false, List, [], ◌∷◌,
  ◌++◌, take, drop, length, ltb, nat_eq, All, arith, inl, inr, Bool-cases, if◌then◌else◌, ◌↔◌,
}
use mathlib.Core.Path.{ap₂}
use codesoul.Core.Errors.{ok}
use codesoul.Source.{Files, split_lines, join_lines, slice_lines, read_range, push_unit, estimate}

-- No unit of the text is a carriage return, or a line feed.
abbrev pub IsUnix : Text → Type 0
IsUnix = All (λ c. nat_eq c 13 ≡ false)

abbrev pub IsLine : Text → Type 0
IsLine = All (λ c. (nat_eq c 10 ≡ false) × (nat_eq c 13 ≡ false))

-- The estimate is the least number of tokens of 3.5 bytes each that hold the text.
pub estimate-le :
    (byte_length : Text → ℕ) (text : Text) (n : ℕ)
    → (estimate byte_length text ≤ n) ↔ (2 * byte_length text ≤ 7 * n)
unfolding estimate
estimate-le byte_length text n = (λ h. omega arith, λ h. omega arith)

ten : (c : ℕ) → nat_eq c 10 ≡ true → 10 ≡ c
ten c y = ground arith

join_lines-push :
    (c : ℕ) (l : Text) (ls : List Text) → join_lines ((c ∷ l) ∷ ls) ≡ c ∷ join_lines (l ∷ ls)
unfolding join_lines
join_lines-push c l [] = refl
join_lines-push c l (m ∷ ls) = refl

-- The lines of a text without carriage returns hold no line end, and joined they are the text.
split-cases :
    (t : Text)
    → IsUnix t
    → (l : Text) × (ls : List Text) × (split_lines t ≡ l ∷ ls)
      × IsLine l
      × All IsLine ls
      × (join_lines (l ∷ ls) ≡ t)
unfolding split_lines join_lines
split-cases [] h = ([], [], refl, tt, tt, refl)
split-cases (c ∷ t) h =
    let (l, ls, p, a, b, j) = split-cases t h.1 in
    elim (Bool-cases (nat_eq c 10)) [
      | inl y ↦ ([], l ∷ ls, rw y (ap (λ x. [] ∷ x) p), tt, (a, b), ap₂ ◌∷◌ (ten c y) j)
      | inr f ↦ (
        c ∷ l,
        ls,
        rw (f, h.0) (ap (push_unit c) p),
        ((f, h.0), a),
        b,
        join_lines-push c l ls ∙ ap (λ x. c ∷ x) j,
      )
    ]

split_one : (l : Text) → IsLine l → split_lines l ≡ l ∷ []
unfolding split_lines
split_one [] h = refl
split_one (c ∷ l) h = rw (h.0.0, h.0.1) (ap (push_unit c) (split_one l h.1))

split_feed : (l t : Text) → IsLine l → split_lines (l ++ 10 ∷ t) ≡ l ∷ split_lines t
unfolding split_lines
split_feed [] t h = refl
split_feed (c ∷ l) t h = rw (h.0.0, h.0.1) (ap (push_unit c) (split_feed l t h.1))

split_lines-join_lines :
    (ls : List Text) → All IsLine ls → 0 < length ls → split_lines (join_lines ls) ≡ ls
unfolding join_lines
split_lines-join_lines [] h p = absurd (omega arith)
split_lines-join_lines (l ∷ []) h p = split_one l h.0
split_lines-join_lines (l ∷ m ∷ ls) h p =
    split_feed l (join_lines (m ∷ ls)) h.0
    ∙ ap (λ x. l ∷ x) (split_lines-join_lines (m ∷ ls) h.1 (omega arith))

All-take : (n : ℕ) (ls : List Text) → All IsLine ls → All IsLine (take n ls)
All-take zero ls h = tt
All-take (suc n) [] h = tt
All-take (suc n) (l ∷ ls) h = (h.0, All-take n ls h.1)

All-drop : (n : ℕ) (ls : List Text) → All IsLine ls → All IsLine (drop n ls)
All-drop zero ls h = h
All-drop (suc n) [] h = tt
All-drop (suc n) (l ∷ ls) h = All-drop n ls h.1

length-take-drop :
    (n k : ℕ) (ls : List Text) → 0 < n → k < length ls → 0 < length (take n (drop k ls))
length-take-drop zero k ls p q = absurd (omega arith)
length-take-drop (suc n) k [] p q = absurd (omega arith)
length-take-drop (suc n) zero (l ∷ ls) p q = omega arith
length-take-drop (suc n) (suc k) (l ∷ ls) p q = length-take-drop (suc n) k ls p (omega arith)

lines_of_unix : (t : Text) → IsUnix t → All IsLine (split_lines t)
lines_of_unix t h = let (l, ls, p, a, b, _) = split-cases t h in rw p (a, b)

-- For a file without carriage returns and a range that starts at one of its lines, the lines of what
-- `readRange` returns are the lines of the file from the start to the end of the range, or to the end
-- of the file if that comes first.
pub read_range-lines :
    (files : Files) (root path content : Text) (s e : ℕ)
    → files.read_file (if files.is_absolute path then path else files.join_paths root path)
      ≡ ok content
    → IsUnix content
    → 1 ≤ s
    → s ≤ e
    → s ≤ length (split_lines content)
    → split_lines (read_range files root path s e)
      ≡ take (min (length (split_lines content)) e - (s - 1)) (drop (s - 1) (split_lines content))
unfolding read_range slice_lines
read_range-lines files root path content s e r unix one ordered inside =
    let all = split_lines content in
    let start : max 1 s ≡ s = omega arith in
    let there : ltb e s ≡ false = ground arith in
    let room : ltb (min (length all) e) s ≡ false = ground arith in
    rw there (
      rw (r, read_range)
        (rw (start, slice_lines)
          (rw room (
            split_lines-join_lines (take (min (length all) e - (s - 1)) (drop (s - 1) all))
              (All-take (min (length all) e - (s - 1)) (drop (s - 1) all)
                (All-drop (s - 1) all (lines_of_unix content unix)))
              (length-take-drop (min (length all) e - (s - 1)) (s - 1) all (omega arith)
                (omega arith))))))

take-all : (n : ℕ) (ls : List Text) → length ls ≤ n → take n ls ≡ ls
take-all zero [] h = refl
take-all zero (l ∷ ls) h = absurd (omega arith)
take-all (suc n) [] h = refl
take-all (suc n) (l ∷ ls) h = ap (λ x. l ∷ x) (take-all n ls (omega arith))

slice_lines-all : (ls : List Text) → 1 ≤ length ls → slice_lines ls 1 (length ls) ≡ join_lines ls
unfolding slice_lines
slice_lines-all ls h =
    let room : ltb (min (length ls) (length ls)) 1 ≡ false = ground arith in
    rw room (ap join_lines (take-all (min (length ls) (length ls) - (1 - 1)) ls (omega arith)))

-- A whole file without carriage returns is read back by the range of all its lines.
pub read_range_whole :
    (files : Files) (root path content : Text)
    → files.read_file (if files.is_absolute path then path else files.join_paths root path)
      ≡ ok content
    → IsUnix content
    → read_range files root path 1 (length (split_lines content)) ≡ content
unfolding read_range
read_range_whole files root path content r unix =
    let (l, ls, p, _, _, j) = split-cases content unix in
    let some_line : 1 ≤ length (split_lines content) = rw p (omega arith) in
    let there : ltb (length (split_lines content)) 1 ≡ false = ground arith in
    rw there
      (rw (r, read_range) (slice_lines-all (split_lines content) some_line ∙ ap join_lines p ∙ j))
