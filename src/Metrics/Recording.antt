-- ===== src/Metrics/Recording.antt =====
-- python/rlox_agent/metric_collector.py: what a run of steps records, and what is left after `stop`.
use rlox.Base.{
  ◌≡◌, refl, sym, ◌∙◌, Bool, true, false, List, [], ◌∷◌, ◌++◌, if◌then◌else◌, Result, ok, raised,
  map, append-nil, append_assoc,
}
use rlox.Base.Float.{Float}
use rlox.Metrics.{
  Record, Call, MetricCollector, Summary, Error, attribute_error, value_error, start, stop,
  make_record, add_measured, on_step, run, summary,
}

module _ (F : Float) where
  -- The records of several calls, if none of them raises.
  abbrev pub IsRecorded : List (Call F) → List (Record F) → Type 0
  IsRecorded [] [] = Unit
  IsRecorded [] (_ ∷ _) = ⊥
  IsRecorded (_ ∷ _) [] = ⊥
  IsRecorded (c ∷ cs) (r ∷ rs) = (make_record F c ≡ ok r) × IsRecorded cs rs

  -- The records of the steps that are no warm-up
  abbrev pub measured : List (Record F) → List (Record F)
  measured [] = []
  measured (r ∷ rs) = if r.warmup then measured rs else r ∷ measured rs

  -- A collector with these records added.
  abbrev pub extended : MetricCollector F → List (Record F) → MetricCollector F
  extended m rs = record m {
    file = m.file ++ rs;
    non_warmup_gpu_utils =
        m.non_warmup_gpu_utils ++ map (λ (r : Record F). r.gpu_util) (measured rs);
    non_warmup_rollouts_per_sec =
        m.non_warmup_rollouts_per_sec ++ map (λ (r : Record F). r.rollouts_per_sec) (measured rs);
    non_warmup_tool_calls_per_sec =
        m.non_warmup_tool_calls_per_sec
        ++ map (λ (r : Record F). r.tool_calls_per_sec) (measured rs);
  }

  -- A collector that is on, with what it has recorded.
  abbrev on : List (Record F) → List F.Carrier → List F.Carrier → List F.Carrier → MetricCollector F
  on file gpu rollouts tools = record {
    open_ = true;
    file = file;
    started = true;
    non_warmup_gpu_utils = gpu;
    non_warmup_rollouts_per_sec = rollouts;
    non_warmup_tool_calls_per_sec = tools;
  }

  on-path :
      {f f' : List (Record F)} {g g' r r' t t' : List F.Carrier}
      → f ≡ f'
      → g ≡ g'
      → r ≡ r'
      → t ≡ t'
      → ◌≡◌ {A = Result Error (MetricCollector F)} (ok (on f g r t)) (ok (on f' g' r' t'))
  on-path p q u v = cc

  run-extended :
      (cs : List (Call F)) (rs file : List (Record F)) (gpu rollouts tools : List F.Carrier)
      → IsRecorded cs rs
      → run F (on file gpu rollouts tools) cs ≡ ok (extended (on file gpu rollouts tools) rs)
  unfolding run on_step add_measured
  run-extended [] [] file gpu rollouts tools h =
      on-path (sym (append-nil file)) (sym (append-nil gpu)) (sym (append-nil rollouts))
        (sym (append-nil tools))
  run-extended [] (_ ∷ rs) file gpu rollouts tools h = elim h [ ]
  run-extended (_ ∷ cs) [] file gpu rollouts tools h = elim h [ ]
  run-extended (c ∷ cs) (r ∷ rs) file gpu rollouts tools h =
      rw (run, on_step, h.0)
        (either r.warmup (run-extended cs rs longer gpu rollouts tools h.1) (
          run-extended cs rs longer (gpu ++ r.gpu_util ∷ []) (rollouts ++ r.rollouts_per_sec ∷ [])
            (tools ++ r.tool_calls_per_sec ∷ []) h.1))
    where
      longer : List (Record F)
      longer = file ++ r ∷ []

      values : (Record F → F.Carrier) → Bool → List F.Carrier
      values field b = map field (if b then measured rs else r ∷ measured rs)

      either :
          (b : Bool)
          → run F (on longer gpu rollouts tools) cs
            ≡ ok (extended (on longer gpu rollouts tools) rs)
          → run F
              (on longer
                (gpu ++ r.gpu_util ∷ [])
                (rollouts ++ r.rollouts_per_sec ∷ [])
                (tools ++ r.tool_calls_per_sec ∷ []))
              cs
            ≡ ok (
                extended
                  (on longer
                    (gpu ++ r.gpu_util ∷ [])
                    (rollouts ++ r.rollouts_per_sec ∷ [])
                    (tools ++ r.tool_calls_per_sec ∷ []))
                  rs)
          → run F
              (if b
                then on longer gpu rollouts tools
                else on longer
                    (gpu ++ r.gpu_util ∷ [])
                    (rollouts ++ r.rollouts_per_sec ∷ [])
                    (tools ++ r.tool_calls_per_sec ∷ []))
              cs
            ≡ ok (
                on
                  (file ++ r ∷ rs)
                  (gpu ++ values (λ (r : Record F). r.gpu_util) b)
                  (rollouts ++ values (λ (r : Record F). r.rollouts_per_sec) b)
                  (tools ++ values (λ (r : Record F). r.tool_calls_per_sec) b))
      either true warm measuring = warm ∙ on-path (append_assoc file (r ∷ []) rs) refl refl refl
      either false warm measuring =
          measuring
          ∙ on-path (append_assoc file (r ∷ []) rs)
              (append_assoc gpu (r.gpu_util ∷ [])
                (map (λ (r : Record F). r.gpu_util) (measured rs)))
              (append_assoc rollouts (r.rollouts_per_sec ∷ [])
                (map (λ (r : Record F). r.rollouts_per_sec) (measured rs)))
              (append_assoc tools (r.tool_calls_per_sec ∷ [])
                (map (λ (r : Record F). r.tool_calls_per_sec) (measured rs)))

  -- The means over the measured records, and the error where there is none.
  abbrev pub expected : (List F.Carrier → F.Carrier) → List (Record F) → Result Error (Summary F)
  expected mean [] = raised value_error
  expected mean (r ∷ rs) = ok (record {
    mean_gpu_util = mean (map (λ (r : Record F). r.gpu_util) (r ∷ rs));
    mean_rollouts_per_sec = mean (map (λ (r : Record F). r.rollouts_per_sec) (r ∷ rs));
    mean_tool_calls_per_sec = mean (map (λ (r : Record F). r.tool_calls_per_sec) (r ∷ rs));
  })

  summary-expected :
      (mean : List F.Carrier → F.Carrier) (open_ : Bool) (rs measures : List (Record F))
      → summary F mean
          (record (on rs
            (map (λ (r : Record F). r.gpu_util) measures)
            (map (λ (r : Record F). r.rollouts_per_sec) measures)
            (map (λ (r : Record F). r.tool_calls_per_sec) measures)) { open_ = open_ })
        ≡ expected mean measures
  unfolding summary
  summary-expected mean open_ rs [] = refl
  summary-expected mean open_ rs (r ∷ measures) = refl

  -- After `start`, a run of calls of `on_step` whose sampler calls succeed and whose statistics
  -- have both entries never raises; the file then holds exactly their records in their order;
  -- `summary` gives the means over the records of the steps that are no warm-up, or
  -- raises ValueError if there is no such record; and after `stop`, with the file as it is and the
  -- same summary, the next such call raises AttributeError, not RuntimeError.
  pub run_recorded :
      (mean : List F.Carrier → F.Carrier) (m : MetricCollector F) (cs : List (Call F))
      (rs : List (Record F)) (next : Call F) (r : Record F)
      → IsRecorded cs rs
      → make_record F next ≡ ok r
      → (d : MetricCollector F) × (run F (start F m) cs ≡ ok d)
        × (d.file ≡ rs)
        × (summary F mean d ≡ expected mean (measured rs))
        × ((stop F d).file ≡ rs)
        × (summary F mean (stop F d) ≡ expected mean (measured rs))
        × (on_step F (stop F d) next ≡ raised attribute_error)
  unfolding start stop on_step
  run_recorded mean m cs rs next r h k = (
    extended (on [] [] [] []) rs,
    run-extended cs rs [] [] [] [] h,
    refl,
    summary-expected mean true rs (measured rs),
    refl,
    summary-expected mean false rs (measured rs),
    rw (on_step, k) refl,
  )
