-- ===== src/Source.antt =====
-- packages/core/src/source-provider.ts and token-estimator.ts: the lines of a file as a snippet, and the
-- estimate of its tokens.
pub mod Ranges
use codesoul.Prelude.{
  ℕ, zero, suc, ◌+◌, ◌-◌, ◌*◌, ◌/◌, max, min, Text, codes, ◌≡◌, Bool, true, false, ◌&&◌, List, [],
  ◌∷◌, ◌++◌, take, drop, length, ltb, nat_eq, if◌then◌else◌,
}
use codesoul.Core.Errors.{Result, ok, raise}

-- The file system and `node:path`, which are not part of the repository.
pub record Files : Type 0 where
  pub read_file : Text → Result Text
  pub is_absolute : Text → Bool
  pub join_paths : Text → Text → Text

abbrev line_feed : ℕ
line_feed = 10

abbrev carriage_return : ℕ
carriage_return = 13

abbrev pub starts_with_line_feed : Text → Bool
starts_with_line_feed [] = false
starts_with_line_feed (c ∷ t) = nat_eq c line_feed

-- One more unit in front of the first line.
abbrev pub push_unit : ℕ → List Text → List Text
push_unit c [] = (c ∷ []) ∷ []
push_unit c (l ∷ ls) = (c ∷ l) ∷ ls

-- `content.split(/\r?\n/)`
unfoldable pub split_lines : Text → List Text
split_lines [] = [] ∷ []
split_lines (c ∷ t) =
    let rest = split_lines t in
    if nat_eq c line_feed
    then [] ∷ rest
    else if nat_eq c carriage_return && starts_with_line_feed t
    then rest
    else push_unit c rest

-- `lines.join("\n")`
unfoldable pub join_lines : List Text → Text
join_lines [] = []
join_lines (l ∷ []) = l
join_lines (l ∷ m ∷ ls) = l ++ line_feed ∷ join_lines (m ∷ ls)

-- `all.slice(start - 1, end).join("\n")`, behind the check of the bounds.
unfoldable pub slice_lines : List Text → ℕ → ℕ → Text
unfolding join_lines
slice_lines all start_line end_line =
    let first = max 1 start_line in
    let last = min (length all) end_line in
    if ltb last first then [] else join_lines (take (last - (first - 1)) (drop (first - 1) all))

unfoldable pub read_range : Files → Text → Text → ℕ → ℕ → Text
unfolding slice_lines split_lines
read_range files root path start_line end_line =
    let absolute = if files.is_absolute path then path else files.join_paths root path in
    if ltb end_line start_line then [] else (elim (files.read_file absolute) [
      | raise _ ↦ []
      | ok content ↦ slice_lines (split_lines content) start_line end_line
    ])

-- `Math.ceil(bytes / 3.5)`: seven halves of a byte make a token.
unfoldable pub estimate : (Text → ℕ) → Text → ℕ
estimate byte_length text = (2 * byte_length text + 6) / 7
