-- ===== src/Contagion/Window.antt =====
-- python/rlox_agent/contagion_detector.py: what one step does to the memory window and to the
-- events of rules (a) and (c).
use rlox.Base.{
  ℕ, ◌-◌, ◌≡◌, refl, true, ◌&&◌, some, List, [], ◌∷◌, ◌++◌, if◌then◌else◌, ltb, arith, ap, ◌∙◌,
  Result, ok, raised, push_bounded, append_assoc, append-nil, Option-cases, inl, inr,
}
use rlox.Base.Float.{Float}
use rlox.Contagion.{
  Error, ContagionEvent, vmrss_spike, fd_leak, server_reported, ContagionDetector, Call, ProcStats,
  flag, number, nonempty, exceeds, window_size, check_vmrss, check_fd_growth, check_fd,
  check_server, on_step,
}

-- The events of the rules (a) and (c).
abbrev pub without_fd : List ContagionEvent → List ContagionEvent
without_fd [] = []
without_fd (e ∷ es) = elim e.kind [
  | fd_leak _ _ _ ↦ without_fd es
  | vmrss_spike _ _ ↦ e ∷ without_fd es
  | server_reported _ ↦ e ∷ without_fd es
]

pub without_fd-append :
    (xs ys : List ContagionEvent) → without_fd (xs ++ ys) ≡ without_fd xs ++ without_fd ys
without_fd-append [] ys = refl
without_fd-append (e ∷ xs) ys = ground (arith, without_fd-append xs ys)

without_fd-leak :
    (xs : List ContagionEvent) (step baseline current elapsed : ℕ)
    → without_fd (xs ++ record { step = step; kind = fd_leak baseline current elapsed } ∷ [])
      ≡ without_fd xs
without_fd-leak xs step baseline current elapsed =
    without_fd-append xs _ ∙ append-nil (without_fd xs)

check_fd_growth-without_fd :
    (d : ContagionDetector) (step fd_size baseline : ℕ)
    → (without_fd (check_fd_growth d step fd_size baseline).events ≡ without_fd d.events)
      × ((check_fd_growth d step fd_size baseline).vmrss_window ≡ d.vmrss_window)
      × ((check_fd_growth d step fd_size baseline).started ≡ d.started)
unfolding check_fd_growth
check_fd_growth-without_fd d step fd_size baseline = elim (Option-cases d.fd_onset_step) [
  | inl idle ↦ ground (arith, idle)
  | inr (onset, active) ↦
      ground (arith, active, without_fd-leak d.events step baseline fd_size (step - onset))
]

check_fd-without_fd :
    (d : ContagionDetector) (step fd_size : ℕ)
    → (without_fd (check_fd d step fd_size).events ≡ without_fd d.events)
      × ((check_fd d step fd_size).vmrss_window ≡ d.vmrss_window)
      × ((check_fd d step fd_size).started ≡ d.started)
unfolding check_fd
check_fd-without_fd d step fd_size = elim (Option-cases d.fd_baseline) [
  | inl first ↦ ground (arith, first)
  | inr (baseline, known) ↦
      ground (arith, known, check_fd_growth-without_fd d step fd_size baseline)
]

module _ (F : Float) where
  -- Rule (a) for a reading `vmrss` after the readings `window`.
  abbrev pub spikes : List ℕ → Call → ℕ → List ContagionEvent
  spikes window c vmrss =
      if nonempty window && (flag c.backend_stats.is_adversarial && exceeds F window vmrss)
      then record { step = c.step_idx; kind = vmrss_spike window vmrss } ∷ []
      else []

  -- Rule (c).
  abbrev pub reports : Call → List ContagionEvent
  reports c =
      if ltb 0 (number c.backend_stats.contagion_events)
      then record {
        step = c.step_idx;
        kind = server_reported (number c.backend_stats.contagion_events);
      }
        ∷ []
      else []

  check_server-reports :
      (d : ContagionDetector) (c : Call)
      → let d' = check_server d c.step_idx (number c.backend_stats.contagion_events) in
        (without_fd d'.events ≡ without_fd d.events ++ reports c)
        × (d'.vmrss_window ≡ d.vmrss_window)
        × (d'.started ≡ d.started)
  unfolding check_server
  check_server-reports d c =
      let e : ContagionEvent = record {
        step = c.step_idx;
        kind = server_reported (number c.backend_stats.contagion_events);
      } in
      ground (arith, without_fd-append d.events (e ∷ []), append-nil (without_fd d.events))

  check_vmrss-spikes :
      (d d' : ContagionDetector) (c : Call) (vmrss : ℕ)
      → check_vmrss F d c.step_idx (flag c.backend_stats.is_adversarial) vmrss ≡ ok d'
      → (without_fd d'.events ≡ without_fd d.events ++ spikes d.vmrss_window c vmrss)
        × (d'.vmrss_window ≡ push_bounded window_size d.vmrss_window vmrss)
        × (d'.started ≡ d.started)
  unfolding check_vmrss
  check_vmrss-spikes d d' c vmrss e =
      let spike : ContagionEvent = record {
        step = c.step_idx;
        kind = vmrss_spike d.vmrss_window vmrss;
      } in
      ground (arith, without_fd-append d.events (spike ∷ []), append-nil (without_fd d.events))

  -- A step that does not raise: the detector was started, the reader returned, and the rules were
  -- applied in order.
  pub record Steps (d d' : ContagionDetector) (c : Call) : Type 0 where
    pub proc : ProcStats
    pub checked : ContagionDetector
    pub is_started : d.started ≡ true
    pub was_read : c.proc_stats ≡ some proc
    pub vmrss_checked :
        check_vmrss F d c.step_idx (flag c.backend_stats.is_adversarial) proc.vmrss_kb ≡ ok checked
    pub all_checked :
        d'
        ≡ check_server
            (check_fd checked c.step_idx proc.fd_size)
            c.step_idx
            (number c.backend_stats.contagion_events)

  pub on_step-Steps : (d d' : ContagionDetector) (c : Call) → on_step F d c ≡ ok d' → Steps d d' c
  unfolding on_step
  on_step-Steps d d' c e = elim (Option-cases c.proc_stats) [
    | inl lost ↦ absurd (ground (arith, lost))
    | inr (p, read) ↦
        go p read (check_vmrss F d c.step_idx (flag c.backend_stats.is_adversarial) p.vmrss_kb) refl
  ]
    where
      go :
          (p : ProcStats)
          → c.proc_stats ≡ some p
          → (r : Result Error ContagionDetector)
          → check_vmrss F d c.step_idx (flag c.backend_stats.is_adversarial) p.vmrss_kb ≡ r
          → Steps d d' c
      go p read (raised x) q = absurd (ground (arith, read, q))
      go p read (ok d₁) q = record {
        proc = p;
        checked = d₁;
        is_started = ground (arith, read, q);
        was_read = read;
        vmrss_checked = q;
        all_checked = ground (arith, read, q);
      }

  pub on_step-without_fd :
      (d d' : ContagionDetector) (c : Call)
      → on_step F d c ≡ ok d'
      → (p : ProcStats) × (c.proc_stats ≡ some p)
        × (without_fd d'.events
            ≡ without_fd d.events ++ (spikes d.vmrss_window c p.vmrss_kb ++ reports c))
        × (d'.vmrss_window ≡ push_bounded window_size d.vmrss_window p.vmrss_kb)
        × (d'.started ≡ true)
  on_step-without_fd d d' c e =
      let s = on_step-Steps d d' c e in
      let p = s.proc in
      let d₁ = s.checked in
      let d₂ = check_fd d₁ c.step_idx p.fd_size in
      let (ev₁, w₁, st₁) = check_vmrss-spikes d d₁ c p.vmrss_kb s.vmrss_checked in
      let (ev₂, w₂, st₂) = check_fd-without_fd d₁ c.step_idx p.fd_size in
      let (ev₃, w₃, st₃) = check_server-reports d₂ c in
      (
        p,
        s.was_read,
        ap (λ (x : ContagionDetector). without_fd x.events) s.all_checked
            ∙ ev₃
            ∙ ap (λ l. l ++ reports c) (ev₂ ∙ ev₁)
            ∙ append_assoc (without_fd d.events) (spikes d.vmrss_window c p.vmrss_kb) (reports c),
        ap (λ (x : ContagionDetector). x.vmrss_window) s.all_checked ∙ w₃ ∙ w₂ ∙ w₁,
        ap (λ (x : ContagionDetector). x.started) s.all_checked ∙ st₃ ∙ st₂ ∙ st₁ ∙ s.is_started,
      )
