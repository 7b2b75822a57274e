-- ===== src/Metrics/Tests.antt =====
-- python/rlox_agent/metric_collector.py on small inputs.
use rlox.Base.{ℕ, ◌≡◌, refl, ◌+◌, Bool, true, false, some, List, [], ◌∷◌, ok, raised}
use rlox.Base.Samples.{counting}
use rlox.Metrics.{
  Record, Call, MetricCollector, attribute_error, runtime_error, init, start, stop, on_step, run,
  make_record, summary,
}
use rlox.Metrics.Recording.{IsRecorded, measured, expected, run_recorded}

abbrev call : ℕ → Bool → Call counting
call n warmup = record {
  step_idx = n;
  rollouts_per_sec = some (n + 10);
  tool_calls_per_sec = some 3;
  warmup = warmup;
  wall_secs = 1;
  sampled = some (n + 50);
}

abbrev entry : ℕ → Bool → Record counting
entry n warmup = record {
  step_idx = n;
  gpu_util = n + 50;
  rollouts_per_sec = n + 10;
  tool_calls_per_sec = 3;
  wall_secs = 1;
  warmup = warmup;
}

abbrev head : List ℕ → ℕ
head [] = 0
head (x ∷ xs) = x

-- A step before `start` is refused.
not_started : on_step counting (init counting []) (call 0 false) ≡ raised runtime_error
unfolding on_step
not_started = refl

recorded :
    (make_record counting (call 2 false) ≡ ok (entry 2 false))
    × IsRecorded counting (call 0 true ∷ call 1 false ∷ []) (entry 0 true ∷ entry 1 false ∷ [])
unfolding make_record
recorded = (refl, (refl, (refl, tt)))

run_recorded_example :
    (d : MetricCollector counting) × (run counting
        (start counting (init counting (entry 9 false ∷ [])))
        (call 0 true ∷ call 1 false ∷ [])
      ≡ ok d)
    × (d.file ≡ entry 0 true ∷ entry 1 false ∷ [])
    × (summary counting head d
        ≡ expected counting head (measured counting (entry 0 true ∷ entry 1 false ∷ [])))
    × ((stop counting d).file ≡ entry 0 true ∷ entry 1 false ∷ [])
    × (summary counting head (stop counting d)
        ≡ expected counting head (measured counting (entry 0 true ∷ entry 1 false ∷ [])))
    × (on_step counting (stop counting d) (call 2 false) ≡ raised attribute_error)
run_recorded_example =
    run_recorded counting head (init counting (entry 9 false ∷ []))
      (call 0 true ∷ call 1 false ∷ []) (entry 0 true ∷ entry 1 false ∷ []) (call 2 false)
      (entry 2 false) recorded.1 recorded.0
