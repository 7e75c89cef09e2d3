-- ===== src/Core/Ids.antt =====
-- packages/core/src/ids.ts: stable ids and content hashes. The SHA-1 of node:crypto, with the
-- UTF-8 encoding of its input and the hexadecimal digest, is the parameter `sha1`.
pub mod Laws
use codesoul.Prelude.{
  ℕ, suc, zero, Text, codes, String, Bool, true, false, ◌&&◌, ◌||◌, List, [], ◌∷◌, ◌++◌, foldl, leb,
  nat_eq, if◌then◌else◌, length, not,
}

pub record StableIdInput : Type 0 where
  pub repo_id : Text
  pub relative_path : Text
  pub symbol_kind : Text
  pub qualified_name : Text

pub record ContentIdInput : Type 0 where
  pub normalized_signature : Text
  pub normalized_body : Text

pub record EdgeContentHashInput : Type 0 where
  pub src : Text
  pub type : Text
  pub dst : Text

-- `h.update(p); h.update("\u0000")` for each part: what the hash object has been fed.
unfoldable pub hash_input : List Text → Text
hash_input = foldl (λ h p. (h ++ p) ++ 0 ∷ []) []

module _ (sha1 : Text → Text) where
  unfoldable pub hash_parts : List Text → Text
  unfolding hash_input
  hash_parts parts = sha1 (hash_input parts)

  unfoldable pub stable_id : StableIdInput → Text
  unfolding hash_parts
  stable_id i =
      codes "sym_"
      ++ hash_parts (i.repo_id ∷ i.relative_path ∷ i.symbol_kind ∷ i.qualified_name ∷ [])

  unfoldable pub content_id : ContentIdInput → Text
  unfolding hash_parts
  content_id i = codes "cnt_" ++ hash_parts (i.normalized_signature ∷ i.normalized_body ∷ [])

  unfoldable pub edge_content_hash : EdgeContentHashInput → Text
  unfolding hash_parts
  edge_content_hash i = codes "cnt_" ++ hash_parts (i.src ∷ i.type ∷ i.dst ∷ [])

-- `[0-9a-f]`
abbrev pub is_hex : ℕ → Bool
is_hex c = (leb b'0' c && leb c b'9') || (leb b'a' c && leb c b'f')

-- `^[0-9a-f]{n}$`
unfoldable pub is_hex_text : ℕ → Text → Bool
is_hex_text zero [] = true
is_hex_text (suc n) (c ∷ s) = is_hex c && is_hex_text n s
is_hex_text _ _ = false

-- The rest of a text behind a literal prefix.
unfoldable pub matches_prefixed : Text → ℕ → Text → Bool
matches_prefixed [] n s = is_hex_text n s
matches_prefixed (p ∷ ps) n [] = false
matches_prefixed (p ∷ ps) n (c ∷ s) = nat_eq p c && matches_prefixed ps n s

-- `/^sym_[0-9a-f]{40}$/` and `/^cnt_[0-9a-f]{40}$/`
unfoldable pub is_sym_id : Text → Bool
unfolding matches_prefixed is_hex_text
is_sym_id s = matches_prefixed (codes "sym_") 40 s

unfoldable pub is_content_hash : Text → Bool
unfolding matches_prefixed is_hex_text
is_content_hash s = matches_prefixed (codes "cnt_") 40 s
