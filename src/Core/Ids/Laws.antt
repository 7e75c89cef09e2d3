-- ===== src/Core/Ids/Laws.antt =====
-- packages/core/src/ids.ts: the form of the ids, and the input of the hash.
use codesoul.Prelude.{
  zero, suc, Text, ◌≡◌, ◌≢◌, refl, ap, ◌∙◌, sym, true, List, [], ◌∷◌, ◌++◌, foldl, All,
  append_assoc, append-nil, drop,
}
use mathlib.Core.Path.{ap₂}
use codesoul.Core.Ids.{
  StableIdInput, ContentIdInput, EdgeContentHashInput, hash_input, stable_id, content_id,
  edge_content_hash, is_hex_text, matches_prefixed, is_sym_id, is_content_hash,
}

-- The documented form of a SHA-1 digest in hexadecimal.
abbrev pub IsHexDigest : (Text → Text) → Type 0
IsHexDigest sha1 = (s : Text) → is_hex_text 40 (sha1 s) ≡ true

module _ (sha1 : Text → Text) (digest : IsHexDigest sha1) where
  -- For a hash that prints 40 hexadecimal digits, a stable id has the form that the schema of the
  -- nodes demands.
  pub stable_id-is_sym_id : (i : StableIdInput) → is_sym_id (stable_id sha1 i) ≡ true
  unfolding is_sym_id matches_prefixed stable_id
  stable_id-is_sym_id i =
      digest (hash_input (i.repo_id ∷ i.relative_path ∷ i.symbol_kind ∷ i.qualified_name ∷ []))

  pub content_id-is_content_hash : (i : ContentIdInput) → is_content_hash (content_id sha1 i) ≡ true
  unfolding is_content_hash matches_prefixed content_id
  content_id-is_content_hash i =
      digest (hash_input (i.normalized_signature ∷ i.normalized_body ∷ []))

  pub edge_content_hash-is_content_hash :
      (i : EdgeContentHashInput) → is_content_hash (edge_content_hash sha1 i) ≡ true
  unfolding is_content_hash matches_prefixed edge_content_hash
  edge_content_hash-is_content_hash i = digest (hash_input (i.src ∷ i.type ∷ i.dst ∷ []))

-- The parts, each closed by a NUL.
closed : List Text → Text
closed [] = []
closed (p ∷ ps) = (p ++ 0 ∷ []) ++ closed ps

feed-eq-closed :
    (h : Text) (ps : List Text) → foldl (λ h p. (h ++ p) ++ 0 ∷ []) h ps ≡ h ++ closed ps
unfolding closed
feed-eq-closed h [] = rw append-nil
feed-eq-closed h (p ∷ ps) = feed-eq-closed ((h ++ p) ++ 0 ∷ []) ps ∙ simp append_assoc

hash_input-eq-closed : (ps : List Text) → hash_input ps ≡ closed ps
unfolding hash_input
hash_input-eq-closed ps = feed-eq-closed [] ps

abbrev pub NulFree : Text → Type 0
NulFree = All (λ c. c ≢ 0)

-- Up to the first NUL, and what follows it.
split : Text → Text × Text
split [] = ([], [])
split (zero ∷ s) = ([], s)
split (suc c ∷ s) = let r = split s in (suc c ∷ r.0, r.1)

split-closed : (p s : Text) → NulFree p → split ((p ++ 0 ∷ []) ++ s) ≡ (p, s)
unfolding split
split-closed [] s h = refl
split-closed (zero ∷ p) s h = absurd (h.0 refl)
split-closed (suc c ∷ p) s h = rw (split-closed p s h.1)

closed-injective :
    (ps qs : List Text) → All NulFree ps → All NulFree qs → closed ps ≡ closed qs → ps ≡ qs
unfolding closed
closed-injective [] [] h k e = refl
closed-injective [] ([] ∷ qs) h k e = cc
closed-injective [] ((c ∷ q) ∷ qs) h k e = cc
closed-injective ([] ∷ ps) [] h k e = cc
closed-injective ((c ∷ p) ∷ ps) [] h k e = cc
closed-injective (p ∷ ps) (q ∷ qs) h k e =
    let parts : ◌≡◌ {A = Text × Text} (p, closed ps) (q, closed qs) =
      sym (split-closed p (closed ps) h.0) ∙ ap split e ∙ split-closed q (closed qs) k.0 in
    ap₂ ◌∷◌ (ap (λ r. r.0) parts) (closed-injective ps qs h.1 k.1 (ap (λ r. r.1) parts))

-- No two lists of NUL-free parts feed the hash the same input.
pub hash_input-injective :
    (ps qs : List Text) → All NulFree ps → All NulFree qs → hash_input ps ≡ hash_input qs → ps ≡ qs
hash_input-injective ps qs h k e =
    closed-injective ps qs h k (sym (hash_input-eq-closed ps) ∙ e ∙ hash_input-eq-closed qs)

abbrev pub stable_parts : StableIdInput → List Text
stable_parts i = i.repo_id ∷ i.relative_path ∷ i.symbol_kind ∷ i.qualified_name ∷ []

-- Two symbols whose identifying parts hold no NUL, which separates the parts in the hash input,
-- share a stable id only if all four parts agree, unless the hash collides on their two inputs.
pub stable_id-injective :
    (sha1 : Text → Text) (i j : StableIdInput)
    → All NulFree (stable_parts i)
    → All NulFree (stable_parts j)
    → (sha1 (hash_input (stable_parts i)) ≡ sha1 (hash_input (stable_parts j))
        → hash_input (stable_parts i) ≡ hash_input (stable_parts j))
    → stable_id sha1 i ≡ stable_id sha1 j
    → i ≡ j
unfolding stable_id
stable_id-injective sha1 i j h k collision_free e =
    let parts =
      hash_input-injective (stable_parts i) (stable_parts j) h k (collision_free (ap (drop 4) e)) in
    cc parts
