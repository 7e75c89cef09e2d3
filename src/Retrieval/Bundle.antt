-- ===== src/Retrieval/Bundle.antt =====
-- What the reranker is given, and what the bundle of a retrieval holds.
use codesoul.Prelude.{
  ℕ, zero, suc, ◌≤◌, Text, ◌≡◌, refl, sym, ap, ◌∙◌, List, [], ◌∷◌, ◌++◌, map, foldl, take, length,
  length-take-le, In, All, Distinct, sort_by, inl, inr, none, some, codes, Perm, Descending,
  sort_by-Perm, sort_by-Descending,
}
use mathlib.Core.Path.{subst}
use codesoul.JsMap.{values, add}
use codesoul.JsMap.Keyed.{Keyed-empty, Keyed-Distinct}
use codesoul.Core.Errors.{ok, bind_ok, ok-injective}
use codesoul.Retrieval.{
  Scores, Candidate, RankedCandidate, RetrievalDeps, RetrievalInput, Snippet, ContextBundle,
  merge_candidates, exact_candidates, semantic_candidates, identifiers, expand, read_snippets, cite,
  gather, limit_of, rerank_input, ranks_before, retrieve,
}
use codesoul.Retrieval.Merge.{Keyed-merge, IsTotalOrder}

map-map :
    {A B C : Type 0} (f : A → B) (g : B → C) (l : List A) → map g (map f l) ≡ map (λ a. g (f a)) l
map-map f g [] = refl
map-map f g (a ∷ l) = ap (λ r. g (f a) ∷ r) (map-map f g l)

module _ {V : Type 0} (key : V → Text) where
  In-map-take : (k : Text) (n : ℕ) (l : List V) → In k (map key (take n l)) → In k (map key l)
  In-map-take k zero l i = elim i [ ]
  In-map-take k (suc n) [] i = elim i [ ]
  In-map-take k (suc n) (x ∷ l) (inl e) = inl e
  In-map-take k (suc n) (x ∷ l) (inr i) = inr (In-map-take k n l i)

  Distinct-take : (n : ℕ) (l : List V) → Distinct (map key l) → Distinct (map key (take n l))
  Distinct-take zero l d = tt
  Distinct-take (suc n) [] d = tt
  Distinct-take (suc n) (x ∷ l) d = ((λ i. d.0 (In-map-take (key x) n l i)), Distinct-take n l d.1)

module _ (scores : Scores) (deps : RetrievalDeps scores.Number) (input : RetrievalInput) where
  merged :
      (all : List (Candidate scores.Number))
      → (length (take rerank_input (values (merge_candidates scores all))) ≤ 60)
        × Distinct (map (λ c. c.node_id) (take rerank_input (values (merge_candidates scores all))))
  unfolding merge_candidates
  merged all =
      let id : Candidate scores.Number → Text = λ c. c.node_id in
      let k = Keyed-merge scores all [] (Keyed-empty id) in
      (
        length-take-le 60 (values (merge_candidates scores all)),
        Distinct-take id 60 (values (merge_candidates scores all))
            (Keyed-Distinct id (merge_candidates scores all) k),
      )

  -- The reranker is given at most 60 candidates, no two of one node.
  pub gather_distinct :
      (cs : List (Candidate scores.Number))
      → gather scores deps input ≡ ok cs
      → (length cs ≤ 60) × Distinct (map (λ c. c.node_id) cs)
  unfolding gather
  gather_distinct cs p =
      let (exacts, p₁, q₁) = bind_ok (exact_candidates scores deps (identifiers input.query)) _ p in
      let (semantics, p₂, q₂) = bind_ok (semantic_candidates scores deps input) _ q₁ in
      let ((seen, graphs), p₃, q₃) =
        bind_ok
          (expand scores deps (exacts ++ semantics)
            (foldl (λ s c. add c.node_id s) [] (exacts ++ semantics), []))
          _ q₂ in
      subst (λ l. (length l ≤ 60) × Distinct (map (λ c. c.node_id) l)) (ok-injective q₃)
        (merged ((exacts ++ semantics) ++ graphs))

  abbrev pub quoted : Snippet → Text × Text × (ℕ × ℕ)
  quoted s = (s.node_id, s.path, s.lines)

  abbrev pub ranked_place : RankedCandidate scores.Number → Text × Text × (ℕ × ℕ)
  ranked_place c = (c.node_id, c.evidence_path, c.evidence_lines)

  read_same :
      (cs : List (RankedCandidate scores.Number)) (ss : List Snippet)
      → read_snippets scores deps cs ≡ ok ss
      → map quoted ss ≡ map ranked_place cs
  unfolding read_snippets
  read_same [] ss p = ap (map quoted) (ok-injective (sym p))
  read_same (c ∷ cs) ss p =
      let (text, p₁, q₁) = bind_ok (deps.read_range c.evidence_path c.evidence_lines) _ p in
      let (more, p₂, q₂) = bind_ok (read_snippets scores deps cs) _ q₁ in
      ap (map quoted) (sym (ok-injective q₂)) ∙ ap (λ l. ranked_place c ∷ l) (read_same cs more p₂)

  -- A citation: the path, a colon, and the first and the last line with a dash between them.
  abbrev pub citation : Text → ℕ × ℕ → Text
  citation path lines =
      path ++ (codes ":" ++ (deps.decimal lines.0 ++ (codes "-" ++ deps.decimal lines.1)))

  cited :
      (cs : List (RankedCandidate scores.Number)) (ss : List Snippet)
      → map quoted ss ≡ map ranked_place cs
      → map (λ c. cite scores deps c.evidence_path c.evidence_lines) cs
        ≡ map (λ s. citation s.path s.lines) ss
  cited cs ss e =
      let g : Text × Text × (ℕ × ℕ) → Text = λ p. citation p.1 p.2 in
      sym (map-map ranked_place g cs) ∙ ap (map g) (sym e) ∙ map-map quoted g ss

  texts_read :
      (cs : List (RankedCandidate scores.Number)) (ss : List Snippet)
      → read_snippets scores deps cs ≡ ok ss
      → All (λ s. deps.read_range s.path s.lines ≡ ok s.text) ss
  unfolding read_snippets
  texts_read [] ss p =
      subst (All (λ s. deps.read_range s.path s.lines ≡ ok s.text)) (ok-injective p) tt
  texts_read (c ∷ cs) ss p =
      let (text, p₁, q₁) = bind_ok (deps.read_range c.evidence_path c.evidence_lines) _ p in
      let (more, p₂, q₂) = bind_ok (read_snippets scores deps cs) _ q₁ in
      subst (All (λ s. deps.read_range s.path s.lines ≡ ok s.text)) (ok-injective q₂)
        (p₁, texts_read cs more p₂)

  -- How many snippets are asked for: 10 without a limit.
  abbrev pub IsLimit : ℕ → Type 0
  IsLimit n = (input.limit ≡ none → n ≡ 10) × ((k : ℕ) → input.limit ≡ some k → n ≡ k)

  limit_of-IsLimit : IsLimit (limit_of scores deps input)
  limit_of-IsLimit = ((λ e. rw e), λ k e. rw e)

  -- Where the rerank scores are in a total order, the bundle of a retrieval that succeeds quotes the
  -- nodes, paths and lines of the best ranked candidates, as many as the limit (10 without one) or all
  -- if there are fewer: the first ones of a list that has the ranked candidates in the order of their
  -- scores, the highest first. The text of a snippet is what the source provider reads for its path
  -- and lines, and there is one citation for each snippet, in their order: `path:first-last`.
  pub retrieve_bundle :
      (b : ContextBundle)
      → IsTotalOrder scores
      → retrieve scores deps input ≡ ok b
      → (cs : List (Candidate scores.Number)) × (ranked : List (RankedCandidate scores.Number))
        × (best : List (RankedCandidate scores.Number)) × (n : ℕ) × (gather scores deps input
            ≡ ok cs)
        × (deps.rerank input.query cs ≡ ok ranked)
        × Perm best ranked
        × Descending scores.gt (λ c. c.rerank_score) best
        × IsLimit n
        × (map quoted b.snippets ≡ map ranked_place (take n best))
        × All (λ s. deps.read_range s.path s.lines ≡ ok s.text) b.snippets
        × (b.citations ≡ map (λ s. citation s.path s.lines) b.snippets)
  unfolding retrieve
  retrieve_bundle b order p =
      let (cs, p₁, q₁) = bind_ok (gather scores deps input) _ p in
      let (ranked, p₂, q₂) = bind_ok (deps.rerank input.query cs) _ q₁ in
      let (snippets, p₃, q₃) = bind_ok (read_snippets scores deps _) _ q₂ in
      let same = read_same _ snippets p₃ in
      let done = ok-injective q₃ in
      (
        cs,
        ranked,
        sort_by (ranks_before scores) ranked,
        limit_of scores deps input,
        p₁,
        p₂,
        sort_by-Perm (ranks_before scores) ranked,
        sort_by-Descending scores.gt (λ (c : RankedCandidate scores.Number). c.rerank_score)
            order.below order.through ranked,
        limit_of-IsLimit,
        ap (λ x. map quoted x.snippets) (sym done) ∙ same,
        subst (λ x. All (λ s. deps.read_range s.path s.lines ≡ ok s.text) x.snippets) done
            (texts_read _ snippets p₃),
        subst (λ x. x.citations ≡ map (λ s. citation s.path s.lines) x.snippets) done
            (cited _ snippets same),
      )
