-- ===== src/Reporting/Verdicts.antt =====
-- python/rlox_agent/reporting.py: when `assess_go_no_go` says "pass".
use rlox.Base.{◌≡◌, refl, ◌↔◌, Bool, true, false, ◌&&◌, ok, arith}
use rlox.Base.Float.{Float}
use rlox.Reporting.{
  Numpy, OverlapCheck, detail_of, judged, Results, pass, verdict, GoNoGo, p1_pass, p3_pass,
  assess_go_no_go,
}
use rlox.Reporting.Overlaps.{DrawsInRange, HasTwoOverlaps, ci_overlap_check_total}

module _ (F : Float) (N : Numpy F) where
  -- The thresholds on throughput
  pub record IsFast (r : Results F N) : Type 0 where
    pub utilised : F.le (F.of_ℕ 80) r.treatment.gpu_util_mean ≡ true
    pub gained : F.le (F.of_ℕ 30) (F.sub r.treatment.gpu_util_mean r.baseline.gpu_util_mean) ≡ true
    pub sped_up :
        F.le
          (F.ratio 15 10)
          (F.div r.treatment.rollouts_per_sec_mean r.baseline.rollouts_per_sec_mean)
        ≡ true

  -- The thresholds on containment
  pub record IsContained (r : Results F N) : Type 0 where
    pub no_events : r.treatment.contagion_events_total ≡ 0
    pub survived_5pct : r.treatment.survival_count_at_5pct ≡ 3
    pub survived_10pct : r.treatment.survival_count_at_10pct ≡ 3
    pub crashed : r.baseline.crashed_at_5pct_or_10pct ≡ true
    pub in_time :
        F.le r.treatment.mean_time_to_contain_secs (F.add r.per_sample_timeout_secs (F.of_ℕ 1))
        ≡ true

  verdict-pass : (b : Bool) → verdict F N b ≡ pass → b ≡ true
  verdict-pass true h = refl
  verdict-pass false h = cc

  verdict_of_true : (b : Bool) → b ≡ true → verdict F N b ≡ pass
  verdict_of_true true h = refl
  verdict_of_true false h = cc

  verdict_iff : (b : Bool) {P : Type 0} → (b ≡ true) ↔ P → (verdict F N b ≡ pass) ↔ P
  verdict_iff b h = (λ p. h.0 (verdict-pass b p), λ p. verdict_of_true b (h.1 p))

  ratio_of : Results F N → F.Carrier
  ratio_of r = F.div r.treatment.rollouts_per_sec_mean r.baseline.rollouts_per_sec_mean

  fast :
      (r : Results F N) (c : OverlapCheck F N)
      → (p1_pass F N (detail_of F N r (ratio_of r) c) ≡ true) ↔ IsFast r
  unfolding ratio_of
  fast r c = (
    λ h. record { utilised = ground arith; gained = ground arith; sped_up = ground arith },
    λ h. ground arith,
  )

  contained :
      (r : Results F N) (c : OverlapCheck F N)
      → (p3_pass F N (detail_of F N r (ratio_of r) c) ≡ true) ↔ IsContained r
  unfolding ratio_of
  contained r c = (
    λ h. record {
      no_events = ground arith;
      survived_5pct = ground arith;
      survived_10pct = ground arith;
      crashed = ground arith;
      in_time = ground arith;
    },
    λ h. ground arith,
  )

  both :
      (a b c : Bool) {P Q R : Type 0}
      → (a ≡ true) ↔ P
      → (b ≡ true) ↔ Q
      → (c ≡ true) ↔ R
      → ((a && (b && c)) ≡ true) ↔ (P × Q × R)
  both true true true h k l = (λ e. (h.0 refl, k.0 refl, l.0 refl), λ e. refl)
  both true true false h k l = (λ e. cc, λ e. l.1 e.2)
  both true false c h k l = (λ e. cc, λ e. k.1 e.1)
  both false b c h k l = (λ e. cc, λ e. h.1 e.0)

  -- For a baseline with throughput other than zero and a generator that keeps to its bound, the
  -- assessment never raises. P1 passes exactly when the treatment meets the three thresholds on
  -- throughput, P3 exactly when it meets the five on containment, the guardrail exactly when there
  -- are two seeds that both sides have and whose confidence intervals overlap, and the overall
  -- verdict is "pass" exactly when all of these hold.
  pub assess_go_no_go-verdicts :
      (r : Results F N)
      → DrawsInRange F N
      → F.eq r.baseline.rollouts_per_sec_mean (F.of_ℕ 0) ≡ false
      → (g : GoNoGo F N) × (assess_go_no_go F N r ≡ ok g)
        × ((g.p1 ≡ pass) ↔ IsFast r)
        × ((g.p3 ≡ pass) ↔ IsContained r)
        × ((g.guardrail ≡ pass)
            ↔ HasTwoOverlaps F N 0 r.baseline.pass1_by_seed r.treatment.pass1_by_seed)
        × ((g.overall ≡ pass) ↔ (
            IsFast r
            × IsContained r
            × HasTwoOverlaps F N 0 r.baseline.pass1_by_seed r.treatment.pass1_by_seed))
  unfolding assess_go_no_go ratio_of
  assess_go_no_go-verdicts r draws nonzero =
      let (c, e, passed) =
        ci_overlap_check_total F N 0 r.baseline.pass1_by_seed r.treatment.pass1_by_seed draws in
      let d = detail_of F N r (ratio_of r) c in
      (
        judged F N d,
        rw (assess_go_no_go, nonzero, e) refl,
        verdict_iff (p1_pass F N d) (fast r c),
        verdict_iff (p3_pass F N d) (contained r c),
        verdict_iff c.passed passed,
        verdict_iff (p1_pass F N d && (p3_pass F N d && c.passed))
            (both (p1_pass F N d) (p3_pass F N d) c.passed (fast r c) (contained r c) passed),
      )
