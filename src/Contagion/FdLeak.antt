-- ===== src/Contagion/FdLeak.antt =====
-- python/rlox_agent/contagion_detector.py: rule (b) over several steps.
use rlox.Base.{
  ℕ, ◌+◌, ◌-◌, ◌≡◌, ◌≤◌, ◌<◌, refl, none, some, List, [], ◌∷◌, ◌++◌, arith, All, ap, ◌∙◌, ltb,
  if◌then◌else◌, Bool-cases, inl, inr,
}
use rlox.Contagion.{ContagionDetector, fd_leak, fd_growth_threshold, fd_grace_steps, check_fd, emit}

-- Rule (b) at several steps: the step's index and the reading of FDSize.
pub check_fds : ContagionDetector → List (ℕ × ℕ) → ContagionDetector
check_fds d [] = d
check_fds d ((step, fd_size) ∷ calls) = check_fds (check_fd d step fd_size) calls

-- Readings that are more than the threshold above the baseline, within the grace period.
abbrev pub IsElevated : ℕ → ℕ → List (ℕ × ℕ) → Type 0
IsElevated baseline onset =
    All (λ c. (baseline + fd_growth_threshold < c.1) × (c.0 ≤ onset + fd_grace_steps))

module _ (d : ContagionDetector) (baseline : ℕ) (known : d.fd_baseline ≡ some baseline) where
  abbrev jumped : ℕ → ContagionDetector
  jumped onset = record d { fd_onset_step = some onset }

  -- The first elevated reading only notes its step.
  check_fd_onset :
      (onset fd_size : ℕ)
      → d.fd_onset_step ≡ none
      → baseline + fd_growth_threshold < fd_size
      → check_fd d onset fd_size ≡ jumped onset
  unfolding check_fd
  check_fd_onset onset fd_size idle high = ground (arith, known, idle)

  check_fd_wait :
      (onset step fd_size : ℕ)
      → baseline + fd_growth_threshold < fd_size
      → step ≤ onset + fd_grace_steps
      → check_fd (jumped onset) step fd_size ≡ jumped onset
  unfolding check_fd
  check_fd_wait onset step fd_size high early = rw (known, check_fd) (ground arith)

  check_fds_wait :
      (onset : ℕ) (calls rest : List (ℕ × ℕ))
      → IsElevated baseline onset calls
      → check_fds (jumped onset) (calls ++ rest) ≡ check_fds (jumped onset) rest
  unfolding check_fds
  check_fds_wait onset [] rest h = refl
  check_fds_wait onset ((step, fd_size) ∷ calls) rest h =
      ap (λ e. check_fds e (calls ++ rest)) (check_fd_wait onset step fd_size h.0.0 h.0.1)
      ∙ check_fds_wait onset calls rest h.1

  check_fd_leak :
      (onset step fd_size : ℕ)
      → baseline + fd_growth_threshold < fd_size
      → onset + fd_grace_steps < step
      → check_fd (jumped onset) step fd_size
        ≡ record (emit d step (fd_leak baseline fd_size (step - onset))) {
          fd_onset_step = none;
          fd_baseline = some fd_size;
        }
  unfolding check_fd
  check_fd_leak onset step fd_size high late = rw (known, check_fd) (ground arith)

  check_fd_recover :
      (onset step fd_size : ℕ)
      → fd_size ≤ baseline + fd_growth_threshold
      → check_fd (jumped onset) step fd_size
        ≡ record d { fd_onset_step = none; fd_baseline = some fd_size }
  unfolding check_fd
  check_fd_recover onset step fd_size low = rw (known, check_fd) (ground arith)

  -- In a detector with a known baseline and no jump in progress, after a jump at step `onset` and
  -- any readings that stay elevated within the grace period, the next reading decides: back within
  -- the threshold, there is no event, the jump is over and that reading is the baseline; still
  -- elevated and past the grace period, there is exactly one leak event, at that step, the jump
  -- is over and that reading is the baseline; still elevated within the period, the jump goes on.
  pub fd_leak_sustained :
      (onset jump step fd_size : ℕ) (calls : List (ℕ × ℕ))
      → d.fd_onset_step ≡ none
      → baseline + fd_growth_threshold < jump
      → IsElevated baseline onset calls
      → check_fds d ((onset, jump) ∷ (calls ++ (step, fd_size) ∷ [])) ≡ (
          if ltb (baseline + fd_growth_threshold) fd_size
          then if ltb (onset + fd_grace_steps) step
            then record (emit d step (fd_leak baseline fd_size (step - onset))) {
              fd_onset_step = none;
              fd_baseline = some fd_size;
            }
            else record d { fd_onset_step = some onset }
          else record d { fd_onset_step = none; fd_baseline = some fd_size })
  unfolding check_fds
  fd_leak_sustained onset jump step fd_size calls idle high h =
      let reach =
        ap (λ e. check_fds e (calls ++ (step, fd_size) ∷ [])) (check_fd_onset onset jump idle high)
        ∙ check_fds_wait onset calls ((step, fd_size) ∷ []) h in
      elim (Bool-cases (ltb (baseline + fd_growth_threshold) fd_size)) [
        | inr low ↦ rw low (reach ∙ check_fd_recover onset step fd_size (ground arith))
        | inl up ↦ elim (Bool-cases (ltb (onset + fd_grace_steps) step)) [
          | inl late ↦
              rw (up, late) (reach ∙ check_fd_leak onset step fd_size (ground arith) (ground arith))
          | inr early ↦
              rw (up, early)
                (reach ∙ check_fd_wait onset step fd_size (ground arith) (ground arith))
        ]
      ]
