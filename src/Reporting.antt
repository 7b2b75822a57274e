-- ===== src/Reporting.antt =====
-- python/rlox_agent/reporting.py: confidence intervals, the quality guardrail and the verdicts.
-- numpy's generator, mean, percentile, minimum and maximum are parameters. The dict of results is a
-- record: a result without one of its keys raises KeyError, which is not modelled.
pub mod Overlaps
pub mod Verdicts
mod Tests
use rlox.Base.{
  ℕ, zero, suc, ◌+◌, Bool, true, false, ◌&&◌, ◌||◌, Option, none, some, List, [], ◌∷◌, map,
  if◌then◌else◌, leb, ltb, ◌==◌, length, Result, ok, raised,
}
use rlox.Base.Float.{Float}
use rlox.Batch.{index}

pub data Error : Type 0 where
  zero_division_error index_error key_error : Error

infixl 10 ◌>>=◌
abbrev pub ◌>>=◌ : {A B : Type 0} → Result Error A → (A → Result Error B) → Result Error B
ok a >>= f = f a
raised e >>= f = raised e

module _ (F : Float) where
  pub record Numpy : Type 0 where
    pub mean : List F.Carrier → F.Carrier
    pub minimum : List F.Carrier → F.Carrier
    pub maximum : List F.Carrier → F.Carrier
    pub percentile : List F.Carrier → F.Carrier → F.Carrier
    -- `default_rng(seed).integers(0, high, size=(rows, columns))`
    pub integers : (seed high rows columns : ℕ) → List (List ℕ)

  abbrev pub Interval : Type 0
  Interval = F.Carrier × F.Carrier

  -- `_intervals_overlap`
  unfoldable pub intervals_overlap : F.Carrier → F.Carrier → F.Carrier → F.Carrier → Bool
  intervals_overlap a_lo a_hi b_lo b_hi = F.le a_lo b_hi && F.le b_lo a_hi

  module _ (N : Numpy) where
    -- `arr[indices].mean(axis=1)`
    unfoldable pub boot_means : List F.Carrier → List (List ℕ) → Result Error (List F.Carrier)
    boot_means arr [] = ok []
    boot_means arr (is ∷ rows) = elim (index arr is) [
      | none ↦ raised index_error
      | some xs ↦ do ms ← boot_means arr rows; ok (N.mean xs ∷ ms)
    ]

    -- The percentiles of the means
    abbrev pub interval_of : List F.Carrier → F.Carrier → Interval
    interval_of means confidence =
        let alpha = F.sub (F.of_ℕ 1) confidence in
        let half = F.div alpha (F.of_ℕ 2) in
        (
          N.percentile means (F.div (F.mul (F.of_ℕ 100) alpha) (F.of_ℕ 2)),
          N.percentile means (F.mul (F.of_ℕ 100) (F.sub (F.of_ℕ 1) half)),
        )

    unfoldable pub bootstrap_ci :
        List F.Carrier → (confidence : F.Carrier) → (n_resamples seed : ℕ) → Result Error Interval
    unfolding boot_means
    bootstrap_ci arr confidence n_resamples seed =
        if leb (length arr) 1 || F.eq (N.minimum arr) (N.maximum arr)
        then ok (N.mean arr, N.mean arr)
        else do
          means ← boot_means arr (N.integers seed (length arr) n_resamples (length arr))
          ok (interval_of means confidence)

    pub record PerSeed : Type 0 where
      pub seed_idx : ℕ
      pub baseline_ci : Interval
      pub treatment_ci : Interval
      pub overlap : Bool

    pub record OverlapCheck : Type 0 where
      pub passed : Bool
      pub n_overlap : ℕ
      pub n_pairs : ℕ
      pub per_seed : List PerSeed

    -- The pairs from number `i` on
    unfoldable pub pairs_from :
        ℕ → List (List F.Carrier) → List (List F.Carrier) → ℕ → Result Error (List PerSeed)
    unfolding bootstrap_ci intervals_overlap
    pairs_from i [] treatments seed = ok []
    pairs_from i (b ∷ baselines) [] seed = ok []
    pairs_from i (b ∷ baselines) (t ∷ treatments) seed = do
      b_ci ← bootstrap_ci b (F.ratio 95 100) 1000 seed
      t_ci ← bootstrap_ci t (F.ratio 95 100) 1000 seed
      rest ← pairs_from (suc i) baselines treatments seed
      ok (
          record {
            seed_idx = i;
            baseline_ci = b_ci;
            treatment_ci = t_ci;
            overlap = intervals_overlap b_ci.0 b_ci.1 t_ci.0 t_ci.1;
          }
          ∷ rest)

    abbrev pub count_overlaps : List PerSeed → ℕ
    count_overlaps [] = 0
    count_overlaps (e ∷ es) = (if e.overlap then 1 else 0) + count_overlaps es

    unfoldable pub ci_overlap_check :
        List (List F.Carrier) → List (List F.Carrier) → ℕ → Result Error OverlapCheck
    unfolding pairs_from
    ci_overlap_check baselines treatments seed = do
      per_seed ← pairs_from 0 baselines treatments seed
      ok (record {
        passed = leb 2 (count_overlaps per_seed);
        n_overlap = count_overlaps per_seed;
        n_pairs = length baselines;
        per_seed = per_seed;
      })

    pub record Treatment : Type 0 where
      pub gpu_util_mean : F.Carrier
      pub rollouts_per_sec_mean : F.Carrier
      pub contagion_events_total : ℕ
      pub survival_count_at_5pct : ℕ
      pub survival_count_at_10pct : ℕ
      pub mean_time_to_contain_secs : F.Carrier
      pub pass1_by_seed : List (List F.Carrier)

    pub record Baseline : Type 0 where
      pub gpu_util_mean : F.Carrier
      pub rollouts_per_sec_mean : F.Carrier
      pub crashed_at_5pct_or_10pct : Bool
      pub pass1_by_seed : List (List F.Carrier)

    pub record Results : Type 0 where
      pub treatment : Treatment
      pub baseline : Baseline
      pub per_sample_timeout_secs : F.Carrier

    pub data Verdict : Type 0 where
      pass fail : Verdict

    abbrev pub verdict : Bool → Verdict
    verdict true = pass
    verdict false = fail

    pub record Detail : Type 0 where
      pub p1_util_ok : Bool
      pub p1_gap_ok : Bool
      pub p1_ratio_ok : Bool
      pub p3_contagion_ok : Bool
      pub p3_treatment_survival_ok : Bool
      pub p3_baseline_crashed_ok : Bool
      pub p3_time_to_contain_ok : Bool
      pub guardrail_ci_overlap_ok : Bool

    pub record GoNoGo : Type 0 where
      pub p1 : Verdict
      pub p3 : Verdict
      pub guardrail : Verdict
      pub overall : Verdict
      pub detail : Detail

    -- `a / b` of Python floats
    abbrev pub divided : F.Carrier → F.Carrier → Result Error F.Carrier
    divided a b = if F.eq b (F.of_ℕ 0) then raised zero_division_error else ok (F.div a b)

    abbrev pub p1_pass : Detail → Bool
    p1_pass d = d.p1_util_ok && (d.p1_gap_ok && d.p1_ratio_ok)

    abbrev pub p3_pass : Detail → Bool
    p3_pass d =
        d.p3_contagion_ok
        && (d.p3_treatment_survival_ok && (d.p3_baseline_crashed_ok && d.p3_time_to_contain_ok))

    abbrev pub detail_of : Results → F.Carrier → OverlapCheck → Detail
    detail_of r ratio overlaps =
        let t = r.treatment in
        let b = r.baseline in
        record {
          p1_util_ok = F.le (F.of_ℕ 80) t.gpu_util_mean;
          p1_gap_ok = F.le (F.of_ℕ 30) (F.sub t.gpu_util_mean b.gpu_util_mean);
          p1_ratio_ok = F.le (F.ratio 15 10) ratio;
          p3_contagion_ok = t.contagion_events_total == 0;
          p3_treatment_survival_ok =
              (t.survival_count_at_5pct == 3) && (t.survival_count_at_10pct == 3);
          p3_baseline_crashed_ok = b.crashed_at_5pct_or_10pct;
          p3_time_to_contain_ok =
              F.le t.mean_time_to_contain_secs (F.add r.per_sample_timeout_secs (F.of_ℕ 1));
          guardrail_ci_overlap_ok = overlaps.passed;
        }

    abbrev pub judged : Detail → GoNoGo
    judged d = record {
      p1 = verdict (p1_pass d);
      p3 = verdict (p3_pass d);
      guardrail = verdict d.guardrail_ci_overlap_ok;
      overall = verdict (p1_pass d && (p3_pass d && d.guardrail_ci_overlap_ok));
      detail = d;
    }

    unfoldable pub assess_go_no_go : Results → Result Error GoNoGo
    unfolding ci_overlap_check
    assess_go_no_go r = do
      ratio ← divided r.treatment.rollouts_per_sec_mean r.baseline.rollouts_per_sec_mean
      overlaps ← ci_overlap_check r.baseline.pass1_by_seed r.treatment.pass1_by_seed 0
      ok (judged (detail_of r ratio overlaps))
