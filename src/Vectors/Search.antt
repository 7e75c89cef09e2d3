-- ===== src/Vectors/Search.antt =====
-- What a search of the in-memory vector store returns.
use codesoul.Prelude.{
  ℕ, eq_iff, ◌≡◌, ◌↔◌, refl, ap, ◌∙◌, Bool, true, false, Option, none, some, List, [], ◌∷◌, foldl,
  take, Perm, inl, inr, ◌⊎◌, Selects, and_iff, map-filter-Selects, sort_by-Perm, sort_by-Descending,
  Descending, if◌then◌else◌, ◌||◌,
}
use mathlib.Core.Path.{subst}
use codesoul.JsMap.{JsMap, values}
use codesoul.Core.Enums.{PayloadKind, payload_kind_name, payload_kind_name-injective}
use codesoul.Graph.Filters.{Asked, passes_iff}
use codesoul.Retrieval.{Scores, VectorSearchFilter, VectorSearchHit}
use codesoul.Retrieval.Merge.{IsTotalOrder}
use codesoul.Vectors.{
  VectorRow, Floats, matches_filter, kind_passes, cosine_sums, cosine, hit_of, search_rows,
}

-- What a filter asks of a row: its repository, its run and its payload kind.
abbrev pub FilterAsked : {Number : Type 0} → VectorSearchFilter → VectorRow Number → Type 0
FilterAsked f r =
    Asked f.repo_id r.repo_id
    × Asked f.index_run_id r.index_run_id
    × ((k : PayloadKind) → f.payload_kind ≡ some k → r.payload_kind ≡ k)

-- A search without a filter asks for nothing.
abbrev pub RowAsked : {Number : Type 0} → Option VectorSearchFilter → VectorRow Number → Type 0
RowAsked f r = (asked : VectorSearchFilter) → f ≡ some asked → FilterAsked asked r

kind_passes_iff :
    (wanted : Option PayloadKind) (kind : PayloadKind)
    → (kind_passes wanted kind ≡ true) ↔ ((k : PayloadKind) → wanted ≡ some k → kind ≡ k)
kind_passes_iff none kind = ((λ _ k e. absurd (cc e)), λ _. refl)
kind_passes_iff (some w) kind =
    let same = eq_iff (payload_kind_name kind) (payload_kind_name w) in
    (
      (λ t k e. payload_kind_name-injective kind w (same.0 t) ∙ cc e),
      λ h. same.1 (ap payload_kind_name (h w refl)),
    )

matches_filter_iff :
    {Number : Type 0} (f : Option VectorSearchFilter) (r : VectorRow Number)
    → (matches_filter f r ≡ true) ↔ RowAsked f r
unfolding matches_filter
matches_filter_iff none r = ((λ _ asked e. absurd (cc e)), λ _. refl)
matches_filter_iff (some f) r =
    let all =
      and_iff _ _
        (and_iff _ _ (passes_iff f.repo_id r.repo_id) (passes_iff f.index_run_id r.index_run_id))
        (kind_passes_iff f.payload_kind r.payload_kind) in
    (
      (λ t asked e. subst (λ a. FilterAsked a r) (cc e) (let ((p, q), k) = all.0 t in (p, q, k))),
      λ h. let (p, q, k) = h f refl in all.1 ((p, q), k),
    )

-- The positions that both vectors have.
abbrev pub zip : {Number : Type 0} → List Number → List Number → List (Number × Number)
zip (a ∷ xs) (b ∷ ys) = (a, b) ∷ zip xs ys
zip _ _ = []

module _ (scores : Scores) (floats : Floats scores.Number) where
  -- The sum, from the left, of a product at each of the positions.
  abbrev pub sum :
      (scores.Number × scores.Number → scores.Number)
      → scores.Number
      → List (scores.Number × scores.Number)
      → scores.Number
  sum term start ps = foldl (λ s p. floats.plus s (term p)) start ps

  -- The cosine: 0 if the sum of the squares is 0 for one of the vectors, and else the sum of the
  -- products over the product of the two lengths, all over the positions that both vectors have.
  abbrev pub IsCosine : List scores.Number → List scores.Number → scores.Number → Type 0
  IsCosine a b c =
      let dot = sum (λ (x, y). floats.times x y) floats.zero_float (zip a b) in
      let na = sum (λ (x, y). floats.times x x) floats.zero_float (zip a b) in
      let nb = sum (λ (x, y). floats.times y y) floats.zero_float (zip a b) in
      ((floats.is_zero na ≡ true) ⊎ (floats.is_zero nb ≡ true) → c ≡ floats.zero_float)
      × (floats.is_zero na ≡ false
          → floats.is_zero nb ≡ false
          → c ≡ floats.over dot (floats.times (floats.root na) (floats.root nb)))

  cosine_sums-sum :
      (a b : List scores.Number) (dot na nb : scores.Number)
      → cosine_sums scores floats a b (dot, na, nb) ≡ (
        sum (λ (x, y). floats.times x y) dot (zip a b),
        sum (λ (x, y). floats.times x x) na (zip a b),
        sum (λ (x, y). floats.times y y) nb (zip a b),
      )
  unfolding cosine_sums
  cosine_sums-sum [] b dot na nb = refl
  cosine_sums-sum (x ∷ a) [] dot na nb = refl
  cosine_sums-sum (x ∷ a) (y ∷ b) dot na nb = cosine_sums-sum a b _ _ _

  null_or :
      (x y : Bool) (u v : scores.Number) → (x ≡ true) ⊎ (y ≡ true) → (if x || y then u else v) ≡ u
  null_or true y u v h = refl
  null_or false y u v (inl e) = absurd (cc e)
  null_or false y u v (inr e) = rw e

  cosine-IsCosine : (a b : List scores.Number) → IsCosine a b (cosine scores floats a b)
  unfolding cosine
  cosine-IsCosine a b =
      let zero = floats.zero_float in
      rw (cosine_sums-sum a b zero zero zero, cosine) ((λ h. null_or _ _ _ _ h), λ f g. rw (f, g))

  -- The hit of a row: its node, its payload kind, and the cosine of its vector and the query.
  abbrev pub IsHit :
      List scores.Number → VectorRow scores.Number → VectorSearchHit scores.Number → Type 0
  IsHit query r h =
      (h.node_id ≡ r.node_id) × (h.payload_kind ≡ r.payload_kind) × IsCosine query r.vector h.score

  hit_of-IsHit :
      (query : List scores.Number) (r : VectorRow scores.Number)
      → IsHit query r (hit_of scores floats query r)
  unfolding hit_of
  hit_of-IsHit query r = (refl, refl, cosine-IsCosine query r.vector)

  -- Where the scores are in a total order, a search returns the best hits, as many as its limit or
  -- all of them if there are fewer: the first ones of a list that is in the order of the scores, the
  -- highest first, and holds a hit for each stored row that has what the filter asks for, and no
  -- other.
  pub search_rows-best :
      (query : List scores.Number) (limit : ℕ) (f : Option VectorSearchFilter)
      (m : JsMap (VectorRow scores.Number))
      → IsTotalOrder scores
      → (hits : List (VectorSearchHit scores.Number)) × (ranked : List
          (VectorSearchHit scores.Number))
        × Selects (RowAsked f) (IsHit query) (values m) hits
        × Perm ranked hits
        × Descending scores.gt (λ h. h.score) ranked
        × (search_rows scores floats query limit f m ≡ take limit ranked)
  unfolding search_rows
  search_rows-best query limit f m order = (
    _,
    _,
    map-filter-Selects (RowAsked f) (matches_filter f) (matches_filter_iff f) (IsHit query)
        (hit_of scores floats query) (hit_of-IsHit query) (values m),
    sort_by-Perm _ _,
    sort_by-Descending scores.gt (λ (h : VectorSearchHit scores.Number). h.score) order.below
        order.through _,
    refl,
  )
