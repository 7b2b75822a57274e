-- ===== src/Contagion/Report.antt =====
-- python/rlox_agent/contagion_detector.py: what the report of a whole run holds.
use rlox.Base.{
  ℕ, ◌≡◌, refl, true, false, Option, none, some, List, [], ◌∷◌, ◌++◌, length, arith, ap, sym, ◌∙◌,
  Result, ok, raised, last_n, append_assoc, append-nil, push_bounded-last_n, push_bounded,
}
use rlox.Base.Float.{Float}
use rlox.Contagion.{
  ContagionEvent, ContagionDetector, ContagionReport, Call, ProcStats, Error, window_size, on_step,
  run, start, stop,
}
use rlox.Contagion.Window.{without_fd, spikes, reports, on_step-without_fd}

abbrev pub readings_of : Option ProcStats → List ℕ
readings_of none = []
readings_of (some p) = p.vmrss_kb ∷ []

module _ (F : Float) where
  abbrev spikes_of : List ℕ → Call → Option ProcStats → List ContagionEvent
  spikes_of seen c none = []
  spikes_of seen c (some p) = spikes F (last_n window_size seen) c p.vmrss_kb

  -- The events of rules (a) and (c) for some calls, where `seen` are all the memory readings
  -- before them: a spike compares a reading with the mean of the ten readings before it.
  abbrev pub expected : List ℕ → List Call → List ContagionEvent
  expected seen [] = []
  expected seen (c ∷ cs) =
      (spikes_of seen c c.proc_stats ++ reports F c)
      ++ expected (seen ++ readings_of c.proc_stats) cs

  run-expected :
      (calls : List Call) (seen : List ℕ) (d d' : ContagionDetector)
      → d.started ≡ true
      → d.vmrss_window ≡ last_n window_size seen
      → run F d calls ≡ ok d'
      → (without_fd d'.events ≡ without_fd d.events ++ expected seen calls) × (d'.started ≡ true)
  unfolding run
  run-expected [] seen d d' st w e =
      let same : d ≡ d' = cc in
      (
        ap (λ (x : ContagionDetector). without_fd x.events) (sym same)
            ∙ sym (append-nil (without_fd d.events)),
        ap (λ (x : ContagionDetector). x.started) (sym same) ∙ st,
      )
  run-expected (c ∷ cs) seen d d' st w e = go (on_step F d c) refl (run-expected cs)
    where
      go :
          (r : Result Error ContagionDetector)
          → on_step F d c ≡ r
          → ((seen' : List ℕ) (d₁ d₂ : ContagionDetector)
              → d₁.started ≡ true
              → d₁.vmrss_window ≡ last_n window_size seen'
              → run F d₁ cs ≡ ok d₂
              → (without_fd d₂.events ≡ without_fd d₁.events ++ expected seen' cs)
                × (d₂.started ≡ true))
          → (without_fd d'.events ≡ without_fd d.events ++ expected seen (c ∷ cs))
            × (d'.started ≡ true)
      go (raised x) q rest = absurd (ground (arith, q))
      go (ok d₁) q rest =
          let (p, read, ev, wd, st') = on_step-without_fd F d d₁ c q in
          let v = p.vmrss_kb in
          let w' : d₁.vmrss_window ≡ last_n window_size (seen ++ v ∷ []) =
            wd
            ∙ ap (λ l. push_bounded window_size l v) w
            ∙ push_bounded-last_n window_size seen v in
          let (ev', fin) = rest (seen ++ v ∷ []) d₁ d' st' w' (ground (arith, q)) in
          let now = spikes F (last_n window_size seen) c v ++ reports F c in
          (
            rw read (
                ev'
                ∙ ap (λ l. l ++ expected (seen ++ v ∷ []) cs)
                    (ev ∙ ap (λ l. without_fd d.events ++ (spikes F l c v ++ reports F c)) w)
                ∙ append_assoc (without_fd d.events) now (expected (seen ++ v ∷ []) cs)),
            fin,
          )

  -- If a run of steps after `start` does not raise, the report of `stop` counts its events, and its
  -- memory spikes and server reports are, in order, exactly those that the history of the
  -- readings calls for: a spike at a step that is flagged adversarial and whose reading is more than
  -- a fifth above the mean of the (at most ten) readings before it, a server report at a
  -- step with a positive count. After `stop` the detector is not started.
  pub report_exact :
      (d d' : ContagionDetector) (calls : List Call)
      → run F (start d) calls ≡ ok d'
      → (r : ContagionReport) × (stop d' ≡ ok (r, record d' { started = false }))
        × (r.total_events ≡ length r.events)
        × (without_fd r.events ≡ expected [] calls)
  unfolding start stop
  report_exact d d' calls e =
      let (ev, st) = run-expected calls [] (start d) d' refl refl e in
      (record { total_events = length d'.events; events = d'.events }, rw st refl, refl, ev)
