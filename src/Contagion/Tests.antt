-- ===== src/Contagion/Tests.antt =====
-- python/rlox_agent/contagion_detector.py on small runs.
use rlox.Base.{
  ℕ, ◌≡◌, refl, ◌+◌, ◌-◌, Bool, true, false, none, some, List, [], ◌∷◌, ◌++◌, length, ok, arith,
  if◌then◌else◌, ltb,
}
use rlox.Base.Samples.{counting}
use rlox.Contagion.{
  zero_division, ContagionDetector, ContagionReport, Call, vmrss_spike, fd_leak, server_reported,
  init, start, stop, run, on_step, emit, fd_growth_threshold, fd_grace_steps, check_vmrss, check_fd,
  check_server,
}
use rlox.Contagion.FdLeak.{check_fds, fd_leak_sustained}
use rlox.Contagion.Window.{without_fd}
use rlox.Contagion.Failures.{error_of, first_failure, run-failure}
use rlox.Contagion.Report.{expected, report_exact}

abbrev call : ℕ → Bool → ℕ → ℕ → ℕ → Call
call step adversarial vmrss fd_size contagion = record {
  step_idx = step;
  backend_stats = record { is_adversarial = some adversarial; contagion_events = some contagion };
  proc_stats = some (record { vmrss_kb = vmrss; fd_size = fd_size });
}

abbrev calls : List Call
calls =
    call 0 false 100 64 0
    ∷ call 1 true 90 200 0
    ∷ call 2 true 150 200 0
    ∷ call 3 false 150 200 2
    ∷ call 4 false 150 200 0
    ∷ []

abbrev watched : ContagionDetector
watched = record {
  started = true;
  events =
      record { step = 2; kind = vmrss_spike (100 ∷ 90 ∷ []) 150 }
      ∷ record { step = 3; kind = server_reported 2 }
      ∷ record { step = 4; kind = fd_leak 64 200 3 }
      ∷ [];
  vmrss_window = 100 ∷ 90 ∷ 150 ∷ 150 ∷ 150 ∷ [];
  fd_baseline = some 200;
  fd_onset_step = none;
}

run-calls : run counting (start init) calls ≡ ok watched
unfolding run on_step start check_vmrss check_fd check_server
run-calls = refl

report_exact_example :
    (r : ContagionReport) × (stop watched ≡ ok (r, record watched { started = false }))
    × (r.total_events ≡ length r.events)
    × (without_fd r.events ≡ expected counting [] calls)
report_exact_example = report_exact counting init watched calls run-calls

abbrev stable : ContagionDetector
stable = record {
  started = true;
  events = [];
  vmrss_window = 0 ∷ [];
  fd_baseline = some 64;
  fd_onset_step = none;
}

fd_leak_sustained_example : check_fds stable ((5, 200) ∷ ((6, 210) ∷ [] ++ (8, 220) ∷ [])) ≡ (
    if ltb (64 + fd_growth_threshold) 220
    then if ltb (5 + fd_grace_steps) 8
      then record (emit stable 8 (fd_leak 64 220 (8 - 5))) {
        fd_onset_step = none;
        fd_baseline = some 220;
      }
      else record stable { fd_onset_step = some 5 }
    else record stable { fd_onset_step = none; fd_baseline = some 220 })
fd_leak_sustained_example =
    fd_leak_sustained stable 64 refl 5 200 8 220 ((6, 210) ∷ []) refl (omega arith) (omega arith)

-- A window of zero readings, and a spike above it
abbrev zero_baseline : List Call
zero_baseline = call 0 false 0 64 0 ∷ call 1 true 7 64 0 ∷ call 2 false 9 64 0 ∷ []

run-failure_example :
    error_of (run counting (start init) zero_baseline) ≡ first_failure counting [] zero_baseline
run-failure_example = run-failure counting init zero_baseline

zero_baseline_fails : first_failure counting [] zero_baseline ≡ some zero_division
zero_baseline_fails = refl
