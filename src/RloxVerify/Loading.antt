-- ===== src/RloxVerify/Loading.antt =====
-- environments/rlox_verify/rlox_verify/__init__.py: which problems the dataset holds.
use rlox.Base.{
  ℕ, zero, suc, ◌≤◌, ◌<◌, ◌≡◌, refl, sym, ap, ◌∙◌, ◌⊎◌, inl, inr, Bool, true, false, Option, none,
  some, List, [], ◌∷◌, map, min, length, length-map, length-take, take, All, Bool-cases,
  Option-cases, arith,
}
use rlox.Batch.{index}
use rlox.Batch.Minibatches.{index_total}
use rlox.RloxVerify.Dataset.{
  MbppRow, mbpp_problem, fallback, mbpp_default_n, mbpp_seed, is_disabled, range, Datasets, mbpp,
  selected, load_mbpp_problems, Example, example_of, raw_problems, examples, build_dataset,
}

-- A shuffle of the first numbers has as many entries, all of them among the numbers.
pub record IsShuffle (shuffle : ℕ → List ℕ → List ℕ) : Type 0 where
  pub keeps_length : (seed n : ℕ) → length (shuffle seed (range 0 n)) ≡ n
  pub in_range : (seed n : ℕ) → All (λ i. i < n) (shuffle seed (range 0 n))

-- How many problems are asked for
abbrev pub asked : Option ℕ → ℕ
asked none = mbpp_default_n
asked (some n) = n

module _ (D : Datasets) where
  -- The examples are of the first embedded problems, or of the first indices of the shuffled
  -- dataset.
  pub data IsDataset (n_problems : Option ℕ) (use_mbpp : Bool) (es : List (Example D))
      : Type 0 where
    embedded :
        (use_mbpp ≡ false) ⊎ ((is_disabled D.no_mbpp ≡ true) ⊎ (mbpp D ≡ none))
        → es ≡ map (example_of D) (take (asked n_problems) fallback)
        → IsDataset n_problems use_mbpp es
    loaded :
        use_mbpp ≡ true
        → is_disabled D.no_mbpp ≡ false
        → (ds rows : List MbppRow) → mbpp D ≡ some ds
        → index ds (take (asked n_problems) (D.shuffle mbpp_seed (range 0 (length ds)))) ≡ some rows
        → es ≡ map (example_of D) (map mbpp_problem rows)
        → length es ≡ min (asked n_problems) (length ds)
        → IsDataset n_problems use_mbpp es

  All-take : (P : ℕ → Type 0) (n : ℕ) (xs : List ℕ) → All P xs → All P (take n xs)
  All-take P zero xs h = tt
  All-take P (suc n) [] h = tt
  All-take P (suc n) (x ∷ xs) h = (h.0, All-take P n xs h.1)

  take_all : {A : Type 0} (n : ℕ) (xs : List A) → length xs ≤ n → take n xs ≡ xs
  take_all zero [] h = refl
  take_all zero (x ∷ xs) h = absurd (omega arith)
  take_all (suc n) [] h = refl
  take_all (suc n) (x ∷ xs) h = ap (λ t. x ∷ t) (take_all n xs (omega arith))

  fallback-fits : length fallback ≤ mbpp_default_n
  unfolding fallback
  fallback-fits = omega arith

  raw_loaded :
      (n_problems : Option ℕ)
      → raw_problems D n_problems true ≡ load_mbpp_problems D (asked n_problems) mbpp_seed
  raw_loaded none = refl
  raw_loaded (some n) = refl

  raw_embedded :
      (n_problems : Option ℕ) → raw_problems D n_problems false ≡ take (asked n_problems) fallback
  raw_embedded none = sym (take_all mbpp_default_n fallback fallback-fits)
  raw_embedded (some n) = refl

  length_of_indices : (n k : ℕ) (is : List ℕ) → length is ≡ k → length (take n is) ≡ min n k
  length_of_indices n k is h = omega (arith, length-take n is)

  load_disabled :
      (n seed : ℕ) → is_disabled D.no_mbpp ≡ true → load_mbpp_problems D n seed ≡ take n fallback
  unfolding load_mbpp_problems
  load_disabled n seed off = rw off refl

  load_missing :
      (n seed : ℕ)
      → is_disabled D.no_mbpp ≡ false
      → mbpp D ≡ none
      → load_mbpp_problems D n seed ≡ take n fallback
  unfolding load_mbpp_problems
  load_missing n seed on missing = rw (load_mbpp_problems, on, missing) refl

  load_found :
      (n seed : ℕ) (ds rows : List MbppRow)
      → is_disabled D.no_mbpp ≡ false
      → mbpp D ≡ some ds
      → index ds (take n (D.shuffle seed (range 0 (length ds)))) ≡ some rows
      → load_mbpp_problems D n seed ≡ map mbpp_problem rows
  unfolding load_mbpp_problems selected
  load_found n seed ds rows on found e = rw (load_mbpp_problems, on, found, selected, e) refl

  examples-fallback :
      (n_problems : Option ℕ)
      → (is_disabled D.no_mbpp ≡ true) ⊎ (mbpp D ≡ none)
      → examples D n_problems true ≡ map (example_of D) (take (asked n_problems) fallback)
  examples-fallback n_problems (inl off) =
      ap (map (example_of D)) (raw_loaded n_problems ∙ load_disabled _ _ off)
  examples-fallback n_problems (inr missing) = ap (map (example_of D)) (
      raw_loaded n_problems ∙ elim (Bool-cases (is_disabled D.no_mbpp)) [
        | inl off ↦ load_disabled _ _ off
        | inr on ↦ load_missing _ _ on missing
      ])

  examples-IsDataset :
      (n_problems : Option ℕ) (use_mbpp : Bool)
      → IsShuffle D.shuffle
      → IsDataset n_problems use_mbpp (examples D n_problems use_mbpp)
  examples-IsDataset n_problems false fair =
      embedded (inl refl) (ap (map (example_of D)) (raw_embedded n_problems))
  examples-IsDataset n_problems true fair = elim (Bool-cases (is_disabled D.no_mbpp)) [
    | inl off ↦ embedded (inr (inl off)) (examples-fallback n_problems (inl off))
    | inr on ↦ elim (Option-cases (mbpp D)) [
      | inl missing ↦ embedded (inr (inr missing)) (examples-fallback n_problems (inr missing))
      | inr (ds, found) ↦
          let is = take (asked n_problems) (D.shuffle mbpp_seed (range 0 (length ds))) in
          let (rows, e, l) =
            index_total ds is (All-take _ _ _ (fair.in_range mbpp_seed (length ds))) in
          let eq =
            ap (map (example_of D)) (raw_loaded n_problems ∙ load_found _ _ ds rows on found e) in
          loaded refl on ds rows found e eq (
            ap length eq
            ∙ length-map _ (example_of D)
            ∙ length-map rows mbpp_problem
            ∙ l
            ∙ length_of_indices _ _ _ (fair.keeps_length mbpp_seed (length ds)))
    ]
  ]

  -- With the package datasets and a shuffle that keeps the length and the range of its list,
  -- building the dataset never raises. Its examples are those of the first embedded problems, as
  -- many as asked for (50 if nothing is said) or as there are, where MBPP is not to be used, is
  -- disabled by the environment variable or cannot be loaded under either name; else they are those
  -- of the rows of MBPP at the first indices of the shuffled range, as many as asked for or as there
  -- are.
  pub build_dataset-IsDataset :
      (n_problems : Option ℕ) (use_mbpp : Bool)
      → D.installed ≡ true
      → IsShuffle D.shuffle
      → (es : List (Example D)) × (build_dataset D n_problems use_mbpp ≡ some es)
        × IsDataset n_problems use_mbpp es
  unfolding build_dataset
  build_dataset-IsDataset n_problems use_mbpp there fair = (
    examples D n_problems use_mbpp,
    rw (build_dataset, there) refl,
    examples-IsDataset n_problems use_mbpp fair,
  )
