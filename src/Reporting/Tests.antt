-- ===== src/Reporting/Tests.antt =====
-- python/rlox_agent/reporting.py on small inputs.
use rlox.Base.{
  ℕ, zero, suc, ◌≡◌, ◌<◌, ◌↔◌, refl, true, List, [], ◌∷◌, All, replicate, length, ok, arith,
}
use rlox.Base.Samples.{counting}
use rlox.Reporting.{
  Numpy, OverlapCheck, Results, pass, GoNoGo, boot_means, bootstrap_ci, intervals_overlap,
  pairs_from, ci_overlap_check, assess_go_no_go,
}
use rlox.Reporting.Overlaps.{DrawsInRange, HasTwoOverlaps}
use rlox.Reporting.Verdicts.{IsFast, IsContained, assess_go_no_go-verdicts}

-- The first sample stands for the mean and every percentile; all draws are of the first sample.
abbrev head : List ℕ → ℕ
head [] = 0
head (x ∷ xs) = x

abbrev draws : ℕ → ℕ → ℕ → List (List ℕ)
draws zero rows columns = []
draws (suc high) rows columns = replicate rows (0 ∷ [])

abbrev numpy : Numpy counting
numpy = record {
  mean = head;
  minimum = λ xs. 0;
  maximum = length;
  percentile = λ xs q. head xs;
  integers = λ seed high rows columns. draws high rows columns;
}

draws_in_range :
    (high rows columns : ℕ)
    → All (λ (is : List ℕ). All (λ i. i < high) is) (draws high rows columns)
draws_in_range zero rows columns = tt
draws_in_range (suc high) zero columns = tt
draws_in_range (suc high) (suc rows) columns =
    ((omega arith, tt), draws_in_range (suc high) rows columns)

numpy-DrawsInRange : DrawsInRange counting numpy
numpy-DrawsInRange = record {
  in_range = λ seed high rows columns. draws_in_range high rows columns;
}

abbrev samples : List (List ℕ)
samples = (5 ∷ []) ∷ (6 ∷ []) ∷ (7 ∷ []) ∷ []

abbrev results : Results counting numpy
results = record {
  treatment = record {
    gpu_util_mean = 85;
    rollouts_per_sec_mean = 40;
    contagion_events_total = 0;
    survival_count_at_5pct = 3;
    survival_count_at_10pct = 3;
    mean_time_to_contain_secs = 31;
    pass1_by_seed = (5 ∷ []) ∷ (9 ∷ []) ∷ (7 ∷ []) ∷ [];
  };
  baseline = record {
    gpu_util_mean = 50;
    rollouts_per_sec_mean = 10;
    crashed_at_5pct_or_10pct = true;
    pass1_by_seed = samples;
  };
  per_sample_timeout_secs = 30;
}

assess_go_no_go-verdicts_example :
    (g : GoNoGo counting numpy) × (assess_go_no_go counting numpy results ≡ ok g)
    × ((g.p1 ≡ pass) ↔ IsFast counting numpy results)
    × ((g.p3 ≡ pass) ↔ IsContained counting numpy results)
    × ((g.guardrail ≡ pass)
        ↔ HasTwoOverlaps counting numpy 0 results.baseline.pass1_by_seed
            results.treatment.pass1_by_seed)
    × ((g.overall ≡ pass) ↔ (
        IsFast counting numpy results
        × IsContained counting numpy results
        × HasTwoOverlaps counting numpy 0 results.baseline.pass1_by_seed
            results.treatment.pass1_by_seed))
assess_go_no_go-verdicts_example =
    assess_go_no_go-verdicts counting numpy results numpy-DrawsInRange refl

assess_overall :
    (g : GoNoGo counting numpy) × (assess_go_no_go counting numpy results ≡ ok g)
    × (g.overall ≡ pass)
unfolding assess_go_no_go ci_overlap_check pairs_from bootstrap_ci boot_means intervals_overlap
assess_overall = (_, refl, refl)

-- `n_pairs` counts the baseline's seeds, of which three have no partner here.
pairs_without_partner :
    (c : OverlapCheck counting numpy) × (ci_overlap_check counting numpy samples [] 0 ≡ ok c)
    × (c.n_pairs ≡ 3)
    × (c.per_seed ≡ [])
unfolding ci_overlap_check pairs_from
pairs_without_partner = (_, refl, refl, refl)
