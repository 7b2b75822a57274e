-- ===== src/Reporting/Overlaps.antt =====
-- python/rlox_agent/reporting.py: when `ci_overlap_check` passes.
use rlox.Base.{
  ℕ, zero, suc, ◌≤◌, ◌<◌, ◌≡◌, refl, sym, ap, ◌∙◌, ◌↔◌, inl, inr, Bool, true, false, ◌||◌, Option,
  none, some, List, [], ◌∷◌, leb, length, All, Bool-cases, Result, ok, raised, arith,
}
use rlox.Base.Float.{Float}
use rlox.Batch.Minibatches.{index_total}
use rlox.Reporting.{
  Error, Numpy, Interval, intervals_overlap, boot_means, interval_of, bootstrap_ci, PerSeed,
  OverlapCheck, pairs_from, count_overlaps, ci_overlap_check, ◌>>=◌,
}

module _ (F : Float) (N : Numpy F) where
  -- The generator's integers are below the bound that it was given.
  pub record DrawsInRange : Type 0 where
    pub in_range :
        (seed high rows columns : ℕ)
        → All (λ (is : List ℕ). All (λ i. i < high) is) (N.integers seed high rows columns)

  boot_means_total :
      (arr : List F.Carrier) (rows : List (List ℕ))
      → All (λ (is : List ℕ). All (λ i. i < length arr) is) rows
      → (ms : List F.Carrier) × (boot_means F N arr rows ≡ ok ms)
  unfolding boot_means
  boot_means_total arr [] h = ([], refl)
  boot_means_total arr (is ∷ rows) h =
      let (xs, e, _) = index_total arr is h.0 in
      let (ms, es) = boot_means_total arr rows h.1 in (N.mean xs ∷ ms, rw (boot_means, e, es) refl)

  bootstrap_ci_total :
      (arr : List F.Carrier) (confidence : F.Carrier) (n seed : ℕ)
      → DrawsInRange
      → (ci : Interval F) × (bootstrap_ci F N arr confidence n seed ≡ ok ci)
  unfolding bootstrap_ci
  bootstrap_ci_total arr confidence n seed h =
      elim (Bool-cases (leb (length arr) 1 || F.eq (N.minimum arr) (N.maximum arr))) [
        | inl same ↦ ((N.mean arr, N.mean arr), rw (bootstrap_ci, same) refl)
        | inr several ↦
            let (ms, e) =
              boot_means_total arr (N.integers seed (length arr) n (length arr))
                (h.in_range seed (length arr) n (length arr)) in
            (interval_of F N ms confidence, rw (bootstrap_ci, several, e) refl)
      ]

  -- Whether the intervals of two seeds overlap
  abbrev pub overlap_of : ℕ → List F.Carrier → List F.Carrier → Result Error Bool
  overlap_of seed b t = bootstrap_ci F N b (F.ratio 95 100) 1000 seed >>= λ x.
      bootstrap_ci F N t (F.ratio 95 100) 1000 seed >>= λ y.
      ok (intervals_overlap F x.0 x.1 y.0 y.1)

  -- The pair at an index, if both sides have one
  abbrev pub overlap_at :
      ℕ → List (List F.Carrier) → List (List F.Carrier) → ℕ → Option (Result Error Bool)
  overlap_at seed [] ts k = none
  overlap_at seed (b ∷ bs) [] k = none
  overlap_at seed (b ∷ bs) (t ∷ ts) zero = some (overlap_of seed b t)
  overlap_at seed (b ∷ bs) (t ∷ ts) (suc k) = overlap_at seed bs ts k

  abbrev flag_at : List (PerSeed F N) → ℕ → Option (Result Error Bool)
  flag_at [] k = none
  flag_at (e ∷ es) zero = some (ok e.overlap)
  flag_at (e ∷ es) (suc k) = flag_at es k

  pairs_from_total :
      (i seed : ℕ) (bs ts : List (List F.Carrier))
      → DrawsInRange
      → (es : List (PerSeed F N)) × (pairs_from F N i bs ts seed ≡ ok es)
        × ((k : ℕ) → overlap_at seed bs ts k ≡ flag_at es k)
  unfolding pairs_from
  pairs_from_total i seed [] ts h = ([], refl, λ k. refl)
  pairs_from_total i seed (b ∷ bs) [] h = ([], refl, λ k. refl)
  pairs_from_total i seed (b ∷ bs) (t ∷ ts) h =
      let (x, ex) = bootstrap_ci_total b (F.ratio 95 100) 1000 seed h in
      let (y, ey) = bootstrap_ci_total t (F.ratio 95 100) 1000 seed h in
      let (es, e, same) = pairs_from_total (suc i) seed bs ts h in
      let first : overlap_of seed b t ≡ ok (intervals_overlap F x.0 x.1 y.0 y.1) =
        rw (ex, ey) refl in
      let entry : PerSeed F N = record {
        seed_idx = i;
        baseline_ci = x;
        treatment_ci = y;
        overlap = intervals_overlap F x.0 x.1 y.0 y.1;
      } in
      (entry ∷ es, rw (pairs_from, ex, ey, e) refl, under entry es first same)
    where
      under :
          (entry : PerSeed F N) (es : List (PerSeed F N))
          → overlap_of seed b t ≡ ok entry.overlap
          → ((k : ℕ) → overlap_at seed bs ts k ≡ flag_at es k)
          → (k : ℕ) → overlap_at seed (b ∷ bs) (t ∷ ts) k ≡ flag_at (entry ∷ es) k
      under entry es first same zero = ap some first
      under entry es first same (suc k) = same k

  -- Two pairs overlap, at different indices.
  abbrev pub HasTwoOverlaps : ℕ → List (List F.Carrier) → List (List F.Carrier) → Type 0
  HasTwoOverlaps seed bs ts =
      (i : ℕ) × (j : ℕ) × (i < j)
      × (overlap_at seed bs ts i ≡ some (ok true))
      × (overlap_at seed bs ts j ≡ some (ok true))

  abbrev HasTwoFlags : List (PerSeed F N) → Type 0
  HasTwoFlags es =
      (i : ℕ) × (j : ℕ) × (i < j)
      × (flag_at es i ≡ some (ok true))
      × (flag_at es j ≡ some (ok true))

  flag_of_count :
      (es : List (PerSeed F N))
      → 1 ≤ count_overlaps F N es
      → (k : ℕ) × (flag_at es k ≡ some (ok true))
  flag_of_count [] h = absurd (omega arith)
  flag_of_count (e ∷ es) h = elim (Bool-cases e.overlap) [
    | inl yes_here ↦ (0, ap (λ b. some (ok b)) yes_here)
    | inr not_here ↦ let (k, f) = flag_of_count es (ground arith) in (suc k, f)
  ]

  flags_of_count : (es : List (PerSeed F N)) → 2 ≤ count_overlaps F N es → HasTwoFlags es
  flags_of_count [] h = absurd (omega arith)
  flags_of_count (e ∷ es) h = elim (Bool-cases e.overlap) [
    | inl yes_here ↦
        let (k, f) = flag_of_count es (ground arith) in
        (0, suc k, omega arith, ap (λ b. some (ok b)) yes_here, f)
    | inr not_here ↦
        let (i, j, lt, f, g) = flags_of_count es (ground arith) in (suc i, suc j, omega arith, f, g)
  ]

  is_true : Option (Result Error Bool) → Bool
  is_true none = false
  is_true (some (ok b)) = b
  is_true (some (raised e)) = false

  flag-overlap :
      (e : PerSeed F N)
      → ◌≡◌ {A = Option (Result Error Bool)} (some (ok e.overlap)) (some (ok true))
      → e.overlap ≡ true
  unfolding is_true
  flag-overlap e h = ap is_true h

  count_of_flag :
      (es : List (PerSeed F N)) (k : ℕ) → flag_at es k ≡ some (ok true) → 1 ≤ count_overlaps F N es
  count_of_flag [] k h = cc
  count_of_flag (e ∷ es) zero h = ground (arith, flag-overlap e h)
  count_of_flag (e ∷ es) (suc k) h = omega (arith, count_of_flag es k h)

  count_of_flags :
      (es : List (PerSeed F N)) (i j : ℕ)
      → i < j
      → flag_at es i ≡ some (ok true)
      → flag_at es j ≡ some (ok true)
      → 2 ≤ count_overlaps F N es
  count_of_flags [] i j lt f g = cc
  count_of_flags (e ∷ es) zero zero lt f g = absurd (omega arith)
  count_of_flags (e ∷ es) zero (suc j) lt f g =
      ground (arith, flag-overlap e f, count_of_flag es j g)
  count_of_flags (e ∷ es) (suc i) zero lt f g = absurd (omega arith)
  count_of_flags (e ∷ es) (suc i) (suc j) lt f g =
      omega (arith, count_of_flags es i j (omega arith) f g)

  pub ci_overlap_check_total :
      (seed : ℕ) (bs ts : List (List F.Carrier))
      → DrawsInRange
      → (c : OverlapCheck F N) × (ci_overlap_check F N bs ts seed ≡ ok c)
        × ((c.passed ≡ true) ↔ HasTwoOverlaps seed bs ts)
  unfolding ci_overlap_check
  ci_overlap_check_total seed bs ts h =
      let (es, e, same) = pairs_from_total 0 seed bs ts h in
      (
        record {
          passed = leb 2 (count_overlaps F N es);
          n_overlap = count_overlaps F N es;
          n_pairs = length bs;
          per_seed = es;
        },
        rw (ci_overlap_check, e) refl,
        (
          λ p.
              let (i, j, lt, f, g) = flags_of_count es (ground arith) in
              (i, j, lt, same i ∙ f, same j ∙ g),
          λ (i, j, lt, f, g).
              let two = count_of_flags es i j lt (sym (same i) ∙ f) (sym (same j) ∙ g) in
              ground arith,
        ),
      )
