-- ===== src/Pbt/Ranking.antt =====
-- python/rlox/pbt.py: the ranking of the agents.
use rlox.Base.{
  ℕ, zero, suc, ◌+◌, ◌≤◌, ◌<◌, ◌≡◌, ◌≢◌, refl, sym, ap, ◌∙◌, true, false, some, List, [], ◌∷◌, ◌++◌,
  append_assoc, length-append, subst, map, length, length-map, get_elem?, All, Bool-cases, inl, inr,
  arith,
}
use rlox.Base.Float.{Float, IsOrdered, IsStrictOrder}
use rlox.Pbt.{numbered, insert_ranked, sort_ranked, none_is_nan, ranked}

-- No element stands twice.
abbrev pub IsDistinct : List ℕ → Type 0
IsDistinct [] = Unit
IsDistinct (x ∷ xs) = All (λ y. x ≢ y) xs × IsDistinct xs

pub IsDistinct-get_elem? :
    (xs : List ℕ) (i j x : ℕ)
    → IsDistinct xs
    → i < j
    → get_elem? xs i ≡ some x
    → get_elem? xs j ≢ some x
IsDistinct-get_elem? [] i j x d lt h = λ k. cc
IsDistinct-get_elem? (y ∷ ys) zero zero x d lt h = absurd (omega arith)
IsDistinct-get_elem? (y ∷ ys) zero (suc j) x d lt h = apart ys j d.0
  where
    apart : (ys : List ℕ) (j : ℕ) → All (λ z. y ≢ z) ys → get_elem? ys j ≢ some x
    apart [] j a = λ k. cc
    apart (z ∷ zs) zero a = λ k. a.0 cc
    apart (z ∷ zs) (suc j) a = apart zs j a.1
IsDistinct-get_elem? (y ∷ ys) (suc i) zero x d lt h = absurd (omega arith)
IsDistinct-get_elem? (y ∷ ys) (suc i) (suc j) x d lt h =
    IsDistinct-get_elem? ys i j x d.1 (omega arith) h

module _ (F : Float) (Weights Rest : Type 0) where
  abbrev firsts : List (ℕ × F.Carrier) → List ℕ
  firsts ps = map (λ (p : ℕ × F.Carrier). p.0) ps

  -- `x` may stand before `y`: it is not less, and if it is not greater, its index is lower.
  abbrev pub Precedes : ℕ × F.Carrier → ℕ × F.Carrier → Type 0
  Precedes x y = (F.lt x.1 y.1 ≡ false) × (F.lt y.1 x.1 ≡ false → x.0 < y.0)

  -- Each may stand before all that follow.
  abbrev pub IsDescending : List (ℕ × F.Carrier) → Type 0
  IsDescending [] = Unit
  IsDescending (x ∷ xs) = All (λ y. Precedes x y) xs × IsDescending xs

  abbrev pub IsNumber : F.Carrier → Type 0
  IsNumber x = F.eq x x ≡ true

  length-insert_ranked :
      (x : ℕ × F.Carrier) (ys : List (ℕ × F.Carrier))
      → length (insert_ranked F Weights Rest x ys) ≡ suc (length ys)
  unfolding insert_ranked
  length-insert_ranked x [] = refl
  length-insert_ranked x (y ∷ ys) = ground (arith, length-insert_ranked x ys)

  length-sort_ranked :
      (xs : List (ℕ × F.Carrier)) → length (sort_ranked F Weights Rest xs) ≡ length xs
  unfolding sort_ranked
  length-sort_ranked [] = refl
  length-sort_ranked (x ∷ xs) =
      length-insert_ranked x (sort_ranked F Weights Rest xs) ∙ ap suc (length-sort_ranked xs)

  module _ (P : ℕ × F.Carrier → Type 0) where
    insert_ranked-All :
        (x : ℕ × F.Carrier) (ys : List (ℕ × F.Carrier))
        → P x
        → All P ys
        → All P (insert_ranked F Weights Rest x ys)
    unfolding insert_ranked
    insert_ranked-All x [] p h = (p, tt)
    insert_ranked-All x (y ∷ ys) p h = elim (Bool-cases (F.lt x.1 y.1)) [
      | inl less ↦ rw (insert_ranked, less) (h.0, insert_ranked-All x ys p h.1)
      | inr not_less ↦ rw (insert_ranked, not_less) (p, h)
    ]

    sort_ranked-All : (xs : List (ℕ × F.Carrier)) → All P xs → All P (sort_ranked F Weights Rest xs)
    unfolding sort_ranked
    sort_ranked-All [] h = tt
    sort_ranked-All (x ∷ xs) h =
        insert_ranked-All x (sort_ranked F Weights Rest xs) h.0 (sort_ranked-All xs h.1)

  module _ (Q : ℕ → Type 0) where
    All-firsts :
        (ps : List (ℕ × F.Carrier)) → All (λ (p : ℕ × F.Carrier). Q p.0) ps → All Q (firsts ps)
    All-firsts [] h = tt
    All-firsts (p ∷ ps) h = (h.0, All-firsts ps h.1)

    All-of_firsts :
        (ps : List (ℕ × F.Carrier)) → All Q (firsts ps) → All (λ (p : ℕ × F.Carrier). Q p.0) ps
    All-of_firsts [] h = tt
    All-of_firsts (p ∷ ps) h = (h.0, All-of_firsts ps h.1)

    insert_ranked-firsts :
        (x : ℕ × F.Carrier) (ps : List (ℕ × F.Carrier))
        → Q x.0
        → All Q (firsts ps)
        → All Q (firsts (insert_ranked F Weights Rest x ps))
    insert_ranked-firsts x ps q h =
        All-firsts (insert_ranked F Weights Rest x ps)
          (insert_ranked-All (λ (p : ℕ × F.Carrier). Q p.0) x ps q (All-of_firsts ps h))

    sort_ranked-firsts :
        (ps : List (ℕ × F.Carrier))
        → All Q (firsts ps)
        → All Q (firsts (sort_ranked F Weights Rest ps))
    sort_ranked-firsts ps h =
        All-firsts (sort_ranked F Weights Rest ps)
          (sort_ranked-All (λ (p : ℕ × F.Carrier). Q p.0) ps (All-of_firsts ps h))

  insert_ranked-IsDistinct :
      (x : ℕ × F.Carrier) (ys : List (ℕ × F.Carrier))
      → All (λ z. x.0 ≢ z) (firsts ys)
      → IsDistinct (firsts ys)
      → IsDistinct (firsts (insert_ranked F Weights Rest x ys))
  unfolding insert_ranked
  insert_ranked-IsDistinct x [] h d = (tt, tt)
  insert_ranked-IsDistinct x (y ∷ ys) h d = elim (Bool-cases (F.lt x.1 y.1)) [
    | inl less ↦
        rw (insert_ranked, less)
          (
            insert_ranked-firsts (λ z. y.0 ≢ z) x ys (λ e. h.0 (sym e)) d.0,
            insert_ranked-IsDistinct x ys h.1 d.1,
          )
    | inr not_less ↦ rw (insert_ranked, not_less) (h, d)
  ]

  sort_ranked-IsDistinct :
      (xs : List (ℕ × F.Carrier))
      → IsDistinct (firsts xs)
      → IsDistinct (firsts (sort_ranked F Weights Rest xs))
  unfolding sort_ranked
  sort_ranked-IsDistinct [] d = tt
  sort_ranked-IsDistinct (x ∷ xs) d =
      insert_ranked-IsDistinct x (sort_ranked F Weights Rest xs)
        (sort_ranked-firsts (λ z. x.0 ≢ z) xs d.0) (sort_ranked-IsDistinct xs d.1)

  numbered-bounds :
      (i n : ℕ) (xs : List F.Carrier)
      → i + length xs ≤ n
      → All (λ j. j < n) (firsts (numbered F Weights Rest i xs))
  numbered-bounds i n [] h = tt
  numbered-bounds i n (x ∷ xs) h = (omega arith, numbered-bounds (suc i) n xs (omega arith))

  numbered-above :
      (k i : ℕ) (xs : List F.Carrier)
      → k < i
      → All (λ j. k ≢ j) (firsts (numbered F Weights Rest i xs))
  numbered-above k i [] h = tt
  numbered-above k i (x ∷ xs) h = (λ e. omega arith, numbered-above k (suc i) xs (omega arith))

  numbered-IsDistinct :
      (i : ℕ) (xs : List F.Carrier) → IsDistinct (firsts (numbered F Weights Rest i xs))
  numbered-IsDistinct i [] = tt
  numbered-IsDistinct i (x ∷ xs) =
      (numbered-above i (suc i) xs (omega arith), numbered-IsDistinct (suc i) xs)

  length-numbered :
      (i : ℕ) (xs : List F.Carrier) → length (numbered F Weights Rest i xs) ≡ length xs
  length-numbered i [] = refl
  length-numbered i (x ∷ xs) = ap suc (length-numbered (suc i) xs)

  -- The numbers are the positions.
  numbered-entries :
      (before xs : List F.Carrier)
      → All
          (λ (p : ℕ × F.Carrier). get_elem? (before ++ xs) p.0 ≡ some p.1)
          (numbered F Weights Rest (length before) xs)
  numbered-entries before [] = tt
  numbered-entries before (x ∷ xs) =
      let next : length (before ++ x ∷ []) ≡ suc (length before) =
        omega (arith, length-append before (x ∷ [])) in
      (
        get_elem?-at before x xs,
        subst
            (λ i.
              All (λ (p : ℕ × F.Carrier). get_elem? (before ++ x ∷ xs) p.0 ≡ some p.1)
                (numbered F Weights Rest i xs))
            next
            (subst
              (λ ys.
                All (λ (p : ℕ × F.Carrier). get_elem? ys p.0 ≡ some p.1)
                  (numbered F Weights Rest (length (before ++ x ∷ [])) xs))
              (append_assoc before (x ∷ []) xs) (numbered-entries (before ++ x ∷ []) xs)),
      )
    where
      get_elem?-at :
          (before : List F.Carrier) (x : F.Carrier) (xs : List F.Carrier)
          → get_elem? (before ++ x ∷ xs) (length before) ≡ some x
      get_elem?-at [] x xs = refl
      get_elem?-at (b ∷ before) x xs = get_elem?-at before x xs

  numbered-later :
      (k i : ℕ) (xs : List F.Carrier)
      → k < i
      → All (λ (z : ℕ × F.Carrier). k < z.0) (numbered F Weights Rest i xs)
  numbered-later k i [] h = tt
  numbered-later k i (x ∷ xs) h = (h, numbered-later k (suc i) xs (omega arith))

  numbered-numbers :
      (i : ℕ) (xs : List F.Carrier)
      → All IsNumber xs
      → All (λ (z : ℕ × F.Carrier). IsNumber z.1) (numbered F Weights Rest i xs)
  numbered-numbers i [] ns = tt
  numbered-numbers i (x ∷ xs) ns = (ns.0, numbered-numbers (suc i) xs ns.1)

  none_is_nan-numbers :
      (xs : List F.Carrier) → All IsNumber xs → none_is_nan F Weights Rest xs ≡ true
  none_is_nan-numbers [] ns = refl
  none_is_nan-numbers (x ∷ xs) ns = rw (ns.0, none_is_nan-numbers xs ns.1) refl

  lt_asym : (a b : F.Carrier) → IsStrictOrder F → F.lt a b ≡ true → F.lt b a ≡ false
  lt_asym a b o h = elim (Bool-cases (F.lt b a)) [
    | inl back ↦ absurd (both_ways (o.lt_trans a b a h back) (o.lt_irrefl a))
    | inr no_back ↦ no_back
  ]
    where
      both_ways : F.lt a a ≡ true → F.lt a a ≡ false → ⊥
      both_ways p q = cc

  module _ (strict : IsStrictOrder F) (order : IsOrdered F IsNumber) where
    -- What follows `y` may stand behind `x`, if `x` is not less than `y`.
    All-Precedes :
        (x y : ℕ × F.Carrier) (zs : List (ℕ × F.Carrier))
        → F.lt x.1 y.1 ≡ false
        → IsNumber x.1
        → IsNumber y.1
        → All (λ (z : ℕ × F.Carrier). IsNumber z.1) zs
        → All (λ (z : ℕ × F.Carrier). x.0 < z.0) zs
        → All (λ z. Precedes y z) zs
        → All (λ z. Precedes x z) zs
    All-Precedes x y [] e nx ny ns above h = tt
    All-Precedes x y (z ∷ zs) e nx ny ns above h = (
      elim (Bool-cases (F.lt x.1 z.1)) [
        | inl less ↦ absurd (both (order.lt_of_not_lt x.1 y.1 z.1 nx ny ns.0 e less) h.0.0)
        | inr not_less ↦ (not_less, λ back. above.0)
      ],
      All-Precedes x y zs e nx ny ns.1 above.1 h.1,
    )
      where
        both : F.lt y.1 z.1 ≡ true → F.lt y.1 z.1 ≡ false → ⊥
        both p q = cc

    insert_ranked-IsDescending :
        (x : ℕ × F.Carrier) (ys : List (ℕ × F.Carrier))
        → IsNumber x.1
        → All (λ (z : ℕ × F.Carrier). IsNumber z.1) ys
        → All (λ (z : ℕ × F.Carrier). x.0 < z.0) ys
        → IsDescending ys
        → IsDescending (insert_ranked F Weights Rest x ys)
    unfolding insert_ranked
    insert_ranked-IsDescending x [] nx ns above h = (tt, tt)
    insert_ranked-IsDescending x (y ∷ ys) nx ns above h = elim (Bool-cases (F.lt x.1 y.1)) [
      | inl less ↦
          rw (insert_ranked, less)
            (
              insert_ranked-All (λ z. Precedes y z) x ys
                  (lt_asym x.1 y.1 strict less, λ back. absurd (both less back)) h.0,
              insert_ranked-IsDescending x ys nx ns.1 above.1 h.1,
            )
      | inr not_less ↦
          rw (insert_ranked, not_less)
            (
              ((not_less, λ back. above.0), All-Precedes x y ys not_less nx ns.0 ns.1 above.1 h.0),
              h,
            )
    ]
      where
        both : F.lt x.1 y.1 ≡ true → F.lt x.1 y.1 ≡ false → ⊥
        both p q = cc

    sort_ranked-IsDescending :
        (i : ℕ) (xs : List F.Carrier)
        → All IsNumber xs
        → IsDescending (sort_ranked F Weights Rest (numbered F Weights Rest i xs))
    unfolding sort_ranked
    sort_ranked-IsDescending i [] ns = tt
    sort_ranked-IsDescending i (x ∷ xs) ns =
        let rest = numbered F Weights Rest (suc i) xs in
        insert_ranked-IsDescending (i, x) (sort_ranked F Weights Rest rest) ns.0
          (sort_ranked-All (λ (z : ℕ × F.Carrier). IsNumber z.1) rest
            (numbered-numbers (suc i) xs ns.1))
          (sort_ranked-All (λ (z : ℕ × F.Carrier). i < z.0) rest
            (numbered-later i (suc i) xs (omega arith)))
          (sort_ranked-IsDescending (suc i) xs ns.1)

  -- The ranking of some fitnesses: each index once, none before one of a greater fitness, and of
  -- equal ones the lower index first.
  pub record IsRanking (fitnesses : List F.Carrier) (order : List ℕ) : Type 0 where
    pub all_ranked : length order ≡ length fitnesses
    pub in_range : All (λ j. j < length fitnesses) order
    pub once : IsDistinct order
    -- the pairs of an index and its fitness
    pub pairs : List (ℕ × F.Carrier)
    pub of_pairs : order ≡ firsts pairs
    pub with_fitness : All (λ (p : ℕ × F.Carrier). get_elem? fitnesses p.0 ≡ some p.1) pairs
    pub descending : IsDescending pairs

  pub ranked-IsRanking :
      (undetermined : List (ℕ × F.Carrier) → List (ℕ × F.Carrier)) (fitnesses : List F.Carrier)
      → IsStrictOrder F
      → IsOrdered F IsNumber
      → All IsNumber fitnesses
      → IsRanking fitnesses (ranked F Weights Rest undetermined fitnesses)
  unfolding ranked
  ranked-IsRanking undetermined fitnesses strict order ns =
      let pairs = numbered F Weights Rest 0 fitnesses in
      rw (ranked, none_is_nan-numbers fitnesses ns)
        (record {
          all_ranked =
              length-map (sort_ranked F Weights Rest pairs) _
              ∙ length-sort_ranked pairs
              ∙ length-numbered 0 fitnesses;
          in_range =
              sort_ranked-firsts _ _ (numbered-bounds 0 (length fitnesses) fitnesses (omega arith));
          once = sort_ranked-IsDistinct _ (numbered-IsDistinct 0 fitnesses);
          pairs = sort_ranked F Weights Rest pairs;
          of_pairs = refl;
          with_fitness = sort_ranked-All _ _ (numbered-entries [] fitnesses);
          descending = sort_ranked-IsDescending strict order 0 fitnesses ns;
        })
