-- ===== src/Core/Normalize.antt =====
-- packages/core/src/ids.ts: `normalizeSignature` and `normalizeBody`.
pub mod Words
use codesoul.Prelude.{
  ℕ, zero, suc, length, Text, Bool, true, false, ◌&&◌, ◌||◌, not, Option, none, some, List, [], ◌∷◌,
  leb, nat_eq, if◌then◌else◌, is_empty,
}

-- `\s` of a JavaScript regular expression, and what `trim` removes: white space and line ends.
unfoldable pub is_space : ℕ → Bool
is_space c =
    (leb 9 c && leb c 13)
    || nat_eq c 32
    || nat_eq c 160
    || nat_eq c 0x1680
    || (leb 0x2000 c && leb c 0x200a)
    || (leb 0x2028 c && leb c 0x2029)
    || nat_eq c 0x202f
    || nat_eq c 0x205f
    || nat_eq c 0x3000
    || nat_eq c 0xfeff

-- `.replace(/\s+/g, " ")`; the flag says that the run of white space has been replaced already.
unfoldable pub collapse : Bool → Text → Text
collapse in_run [] = []
collapse in_run (c ∷ s) =
    let rest = collapse (is_space c) s in
    if is_space c then (if in_run then rest else 32 ∷ rest) else c ∷ rest

unfoldable pub trim_start : Text → Text
trim_start [] = []
trim_start (c ∷ s) = if is_space c then trim_start s else c ∷ s

unfoldable pub trim_end : Text → Text
trim_end [] = []
trim_end (c ∷ s) = let rest = trim_end s in if is_space c && is_empty rest then [] else c ∷ rest

unfoldable pub trim : Text → Text
unfolding trim_start trim_end
trim s = trim_end (trim_start s)

unfoldable pub normalize_signature : Text → Text
unfolding trim collapse
normalize_signature raw = trim (collapse false raw)

-- The line ends that `.` does not match and before which `$` matches under the flag `m`.
unfoldable pub is_line_end : ℕ → Bool
is_line_end c = nat_eq c 10 || nat_eq c 13 || nat_eq c 0x2028 || nat_eq c 0x2029

-- Where a scan for line comments stands: in the code, or in a comment.
pub data Scan : Type 0 where
  in_code in_comment : Scan

-- `.replace(/\/\/.*$/gm, "")`
unfoldable pub strip_slashes : Scan → Text → Text
strip_slashes in_comment [] = []
strip_slashes in_comment (c ∷ s) =
    let code = strip_slashes in_code s in
    let comment = strip_slashes in_comment s in if is_line_end c then c ∷ code else comment
strip_slashes in_code [] = []
strip_slashes in_code (c ∷ []) = c ∷ []
strip_slashes in_code (c ∷ d ∷ s) =
    let comment = strip_slashes in_comment s in
    let code = strip_slashes in_code (d ∷ s) in
    if nat_eq c b'/' && nat_eq d b'/' then comment else c ∷ code

-- What follows the first `*/`, if there is one.
unfoldable pub after_close : Text → Option Text
after_close [] = none
after_close (c ∷ []) = none
after_close (c ∷ d ∷ s) =
    let later = after_close (d ∷ s) in if nat_eq c b'*' && nat_eq d b'/' then some s else later

-- `.replace(/#.*$/gm, "")`
unfoldable pub strip_hash : Scan → Text → Text
strip_hash in_comment [] = []
strip_hash in_comment (c ∷ s) =
    let code = strip_hash in_code s in
    let comment = strip_hash in_comment s in if is_line_end c then c ∷ code else comment
strip_hash in_code [] = []
strip_hash in_code (c ∷ s) =
    let comment = strip_hash in_comment s in
    let code = strip_hash in_code s in if nat_eq c b'#' then comment else c ∷ code

-- `.replace(/\/\*[\s\S]*?\*\//g, "")`. Each call drops at least one character of the text, so
-- the length of the text is fuel enough.
unfoldable pub strip_blocks : ℕ → Text → Text
unfolding after_close
strip_blocks zero s = s
strip_blocks (suc fuel) [] = []
strip_blocks (suc fuel) (c ∷ []) = c ∷ []
strip_blocks (suc fuel) (c ∷ d ∷ s) =
    let kept = c ∷ strip_blocks fuel (d ∷ s) in
    let opened : Text = elim (after_close s) [
      | none ↦ c ∷ strip_blocks fuel (d ∷ s)
      | some rest ↦ strip_blocks fuel rest
    ] in
    if nat_eq c b'/' && nat_eq d b'*' then opened else kept

unfoldable pub normalize_body : Text → Text
unfolding trim collapse strip_slashes strip_blocks strip_hash
normalize_body raw =
    let code = strip_slashes in_code raw in
    trim (collapse false (strip_hash in_code (strip_blocks (length code) code)))
