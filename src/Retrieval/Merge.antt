-- ===== src/Retrieval/Merge.antt =====
-- The merge of the candidates by node: which one survives.
use codesoul.Prelude.{
  Text, ◌==◌, eq_iff, ◌≡◌, ◌≢◌, refl, sym, ap, ◌∙◌, true, false, Option, none, some, List, [], ◌∷◌,
  map, foldl, Distinct, arith, In, ◌⊎◌, inl, inr, ◌↔◌, Bool-cases, Option-cases,
}
use mathlib.Core.Path.{subst}
use codesoul.JsMap.{JsMap, get, set, values}
use codesoul.JsMap.Laws.{get-set, In-values}
use codesoul.JsMap.Keyed.{Keyed, Keyed-In, Keyed-set, Keyed-empty, Keyed-Distinct}
use codesoul.Retrieval.{Scores, Candidate, merge_candidate, merge_candidates}

-- The order of the floating-point numbers that are not NaN.
pub record IsOrder (scores : Scores) : Type 0 where
  pub same : (a : scores.Number) → scores.gt a a ≡ false
  pub below :
      (a b c : scores.Number) → scores.gt a b ≡ false → scores.gt c b ≡ true → scores.gt a c ≡ false

-- The order of the floating-point numbers that are not NaN, by which a sort puts the highest first.
pub record IsTotalOrder (scores : Scores) : Type 0 where
  pub below : (a b : scores.Number) → scores.gt a b ≡ true → scores.gt b a ≡ false
  pub through :
      (a b c : scores.Number)
      → scores.gt b a ≡ false
      → scores.gt c b ≡ false
      → scores.gt c a ≡ false

get-set_cases :
    {V : Type 0} (k j : Text) (v w : V) (m : JsMap V)
    → get j (set k v m) ≡ some w
    → ((w ≡ v) × (j ≡ k)) ⊎ ((j ≢ k) × (get j m ≡ some w))
get-set_cases k j v w m p = elim (Bool-cases (k == j)) [
  | inl t ↦ inl (ground (arith, get-set k j v m), sym ((eq_iff k j).0 t))
  | inr f ↦ inr ((λ e. ground (arith, eq_iff k j, sym e)), ground (arith, get-set k j v m))
]

get-set_found :
    {V : Type 0} (k j : Text) (v w : V) (m : JsMap V)
    → get j m ≡ some w
    → (u : V) × (get j (set k v m) ≡ some u)
get-set_found k j v w m p = elim (Bool-cases (k == j)) [
  | inl t ↦ (v, get-set k j v m ∙ rw t)
  | inr f ↦ (w, get-set k j v m ∙ rw f p)
]

regroup : {A B C : Type 0} → (A ⊎ (B ⊎ C)) ↔ ((B ⊎ A) ⊎ C)
regroup {A = A} {B = B} {C = C} = (to, from)
  where
    to : A ⊎ (B ⊎ C) → (B ⊎ A) ⊎ C
    to (inl a) = inl (inr a)
    to (inr (inl b)) = inl (inl b)
    to (inr (inr c)) = inr c

    from : (B ⊎ A) ⊎ C → A ⊎ (B ⊎ C)
    from (inl (inr a)) = inl a
    from (inl (inl b)) = inr (inl b)
    from (inr c) = inr (inr c)

module _ (scores : Scores) where
  -- What a map holds after the candidates that satisfy `P`.
  record Best (P : Candidate scores.Number → Type 0) (m : JsMap (Candidate scores.Number))
      : Type 0 where
    found :
        (c : Candidate scores.Number)
        → P c
        → (y : Candidate scores.Number) × (get c.node_id m ≡ some y)
    from : (k : Text) (y : Candidate scores.Number) → get k m ≡ some y → P y × (y.node_id ≡ k)
    most :
        (k : Text) (y d : Candidate scores.Number)
        → get k m ≡ some y
        → P d
        → d.node_id ≡ k
        → scores.gt d.score y.score ≡ false

  Best-iff :
      (P Q : Candidate scores.Number → Type 0) (m : JsMap (Candidate scores.Number))
      → ((d : Candidate scores.Number) → P d ↔ Q d)
      → Best P m
      → Best Q m
  Best-iff P Q m e b = record {
    found = λ c q. b.found c ((e c).1 q);
    from = λ k y p. ((e y).0 (b.from k y p).0, (b.from k y p).1);
    most = λ k y d p q s. b.most k y d p ((e d).1 q) s;
  }

  -- A write of a candidate that beats every other one with its id.
  Best-set :
      (P : Candidate scores.Number → Type 0) (m : JsMap (Candidate scores.Number))
      (c : Candidate scores.Number)
      → IsOrder scores
      → Best P m
      → ((d : Candidate scores.Number)
          → P d
          → d.node_id ≡ c.node_id
          → scores.gt d.score c.score ≡ false)
      → Best (λ d. (d ≡ c) ⊎ P d) (set c.node_id c m)
  Best-set P m c order b beats = record {
    found = λ d q. elim q [
      | inl e ↦ (
        c,
        get-set c.node_id d.node_id c m
            ∙ rw ((eq_iff c.node_id d.node_id).1 (sym (ap (λ x. x.node_id) e))),
      )
      | inr h ↦ let (y, g) = b.found d h in get-set_found c.node_id d.node_id c y m g
    ];
    from = λ k y p. elim (get-set_cases c.node_id k c y m p) [
      | inl (e, j) ↦ (inl e, ap (λ x. x.node_id) e ∙ sym j)
      | inr (_, g) ↦ (inr (b.from k y g).0, (b.from k y g).1)
    ];
    most = λ k y d p q s. elim (get-set_cases c.node_id k c y m p) [
      | inl (e, j) ↦ elim q [
        | inl h ↦ rw (h, e) (order.same c.score)
        | inr h ↦ rw e (beats d h (s ∙ j))
      ]
      | inr (other, g) ↦ elim q [
        | inl h ↦ absurd (other (sym s ∙ ap (λ x. x.node_id) h))
        | inr h ↦ b.most k y d g h s
      ]
    ];
  }

  -- A candidate that does not beat the one with its id.
  Best-keep :
      (P : Candidate scores.Number → Type 0) (m : JsMap (Candidate scores.Number))
      (c x : Candidate scores.Number)
      → Best P m
      → get c.node_id m ≡ some x
      → scores.gt c.score x.score ≡ false
      → Best (λ d. (d ≡ c) ⊎ P d) m
  Best-keep P m c x b p f = record {
    found = λ d q. elim q [ inl e ↦ (x, ap (λ z. get z.node_id m) e ∙ p) | inr h ↦ b.found d h ];
    from = λ k y g. (inr (b.from k y g).0, (b.from k y g).1);
    most = λ k y d g q s. elim q [
      | inl e ↦
          let same : x ≡ y = cc (p, g, ap (λ z. get z m) (sym (ap (λ z. z.node_id) e) ∙ s)) in
          rw e (subst (λ z. scores.gt c.score z.score ≡ false) same f)
      | inr h ↦ b.most k y d g h s
    ];
  }

  Best-merge_candidate :
      (P : Candidate scores.Number → Type 0) (m : JsMap (Candidate scores.Number))
      (c : Candidate scores.Number)
      → IsOrder scores
      → Best P m
      → Best (λ d. (d ≡ c) ⊎ P d) (merge_candidate scores m c)
  unfolding merge_candidate
  Best-merge_candidate P m c order b = elim (Option-cases (get c.node_id m)) [
    | inl p ↦
        rw (p, merge_candidate)
          (Best-set P m c order b
            (λ d h e. let (y, g) = b.found d h in absurd (cc (p, g, ap (λ z. get z m) e))))
    | inr (x, p) ↦ elim (Bool-cases (scores.gt c.score x.score)) [
      | inl t ↦
          rw (p, merge_candidate)
            (rw t (
              Best-set P m c order b
                (λ d h e. order.below d.score x.score c.score (b.most c.node_id x d p h e) t)))
      | inr f ↦ rw (p, merge_candidate) (rw f (Best-keep P m c x b p f))
    ]
  ]

  Best-foldl :
      (cs : List (Candidate scores.Number)) (P : Candidate scores.Number → Type 0)
      (m : JsMap (Candidate scores.Number))
      → IsOrder scores
      → Best P m
      → Best (λ d. In d cs ⊎ P d) (foldl (merge_candidate scores) m cs)
  Best-foldl [] P m order b =
      Best-iff P (λ d. In d [] ⊎ P d) m (λ d. (inr, λ q. elim q [ inl e ↦ absurd e | inr p ↦ p ])) b
  Best-foldl (c ∷ cs) P m order b =
      Best-iff (λ d. In d cs ⊎ ((d ≡ c) ⊎ P d)) (λ d. In d (c ∷ cs) ⊎ P d) _ (λ d. regroup)
        (Best-foldl cs (λ d. (d ≡ c) ⊎ P d) (merge_candidate scores m c) order
          (Best-merge_candidate P m c order b))

  pub Keyed-merge :
      (cs : List (Candidate scores.Number)) (m : JsMap (Candidate scores.Number))
      → Keyed (λ (c : Candidate scores.Number). c.node_id) m
      → Keyed (λ (c : Candidate scores.Number). c.node_id) (foldl (merge_candidate scores) m cs)
  Keyed-merge [] m k = k
  Keyed-merge (c ∷ cs) m k =
      Keyed-merge cs (merge_candidate scores m c) (one (get c.node_id m) refl)
    where
      one :
          (o : Option (Candidate scores.Number))
          → get c.node_id m ≡ o
          → Keyed (λ (x : Candidate scores.Number). x.node_id) (merge_candidate scores m c)
      one none p =
          unfold merge_candidate in
          rw (p, merge_candidate) (Keyed-set (λ (x : Candidate scores.Number). x.node_id) c m k)
      one (some x) p =
          unfold merge_candidate in
          elim (Bool-cases (scores.gt c.score x.score)) [
            | inl t ↦
                rw (p, merge_candidate)
                  (rw t (Keyed-set (λ (x : Candidate scores.Number). x.node_id) c m k))
            | inr f ↦ rw (p, merge_candidate) (rw f k)
          ]

  -- The merge of the candidates has no two of one node. For a node that some candidate has, it keeps
  -- one of the candidates of that node, and none of them has a higher score.
  pub merge_candidates_best :
      (cs : List (Candidate scores.Number)) (c : Candidate scores.Number)
      → IsOrder scores
      → In c cs
      → Distinct (map (λ x. x.node_id) (values (merge_candidates scores cs)))
        × (y : Candidate scores.Number) × In y cs
        × ((z : Candidate scores.Number)
            → (In z (values (merge_candidates scores cs)) × (z.node_id ≡ c.node_id)) ↔ (z ≡ y))
        × ((d : Candidate scores.Number)
            → In d cs
            → d.node_id ≡ c.node_id
            → scores.gt d.score y.score ≡ false)
  unfolding merge_candidates
  merge_candidates_best cs c order n =
      let m = foldl (merge_candidate scores) [] cs in
      let b = Best-foldl cs (λ _. ⊥) [] order empty in
      let k = Keyed-merge cs [] (Keyed-empty (λ (x : Candidate scores.Number). x.node_id)) in
      let (y, g) = b.found c (inl n) in
      let own = (b.from c.node_id y g).1 in
      (
        Keyed-Distinct (λ (x : Candidate scores.Number). x.node_id) m k,
        y,
        (elim ((b.from c.node_id y g).0) [ inl h ↦ h | inr h ↦ absurd h ]),
        (λ z. (
          (λ (i, e).
              let q = Keyed-In (λ (x : Candidate scores.Number). x.node_id) z m k i in
              cc (q, g, ap (λ x. get x m) e)),
          λ e. (
            subst (λ x. In x (values m)) (sym e) (In-values c.node_id m y g),
            ap (λ x. x.node_id) e ∙ own,
          ),
        )),
        λ d i e. b.most c.node_id y d g (inl i) e,
      )
    where
      empty : Best (λ _. ⊥) []
      empty = record {
        found = λ c h. absurd h;
        from = λ k y p. absurd (unfold get in cc p);
        most = λ k y d p h s. absurd h;
      }
