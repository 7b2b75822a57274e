-- ===== src/Contagion/Failures.antt =====
-- python/rlox_agent/contagion_detector.py: when a run of steps raises.
use rlox.Base.{
  ◌≡◌, refl, sym, ap, ◌∙◌, Bool, true, false, ◌&&◌, if◌then◌else◌, Option, none, some, List, [],
  ◌∷◌, ◌++◌, ℕ, Result, ok, raised, last_n, push_bounded, push_bounded-last_n, Bool-cases,
  Option-cases, Result-cases, subst, inl, inr, arith,
}
use rlox.Base.Float.{Float}
use rlox.Contagion.{
  ContagionDetector, Call, ProcStats, Error, window_size, on_step, run, start, flag, nonempty, mean,
  exceeds, zero_division, reader_error, check_vmrss,
}
use rlox.Contagion.Window.{on_step-without_fd}

abbrev pub error_of {ℓ} : {A : Type ℓ} → Result Error A → Option Error
error_of (raised e) = some e
error_of (ok a) = none

module _ (F : Float) where
  open F use {of_ℕ, eq}

  -- A reading that is a spike of a flagged step above readings whose mean is zero
  abbrev pub is_above_zero : List ℕ → Call → ℕ → Bool
  is_above_zero window c vmrss =
      (nonempty window && (flag c.backend_stats.is_adversarial && exceeds F window vmrss))
      && eq (mean F window) (of_ℕ 0)

  -- The exception of some calls, where `seen` are all the memory readings before them: that of
  -- the first call whose reader fails, or whose reading would divide by a mean of zero.
  abbrev pub first_failure : List ℕ → List Call → Option Error
  first_failure seen [] = none
  first_failure seen (c ∷ cs) = elim c.proc_stats [
    | none ↦ some reader_error
    | some p ↦
        let rest = first_failure (seen ++ p.vmrss_kb ∷ []) cs in
        if is_above_zero (last_n window_size seen) c p.vmrss_kb then some zero_division else rest
  ]

  on_step_unread :
      (d : ContagionDetector) (c : Call)
      → d.started ≡ true
      → c.proc_stats ≡ none
      → on_step F d c ≡ raised reader_error
  unfolding on_step
  on_step_unread d c st unread = ground (arith, st, unread)

  on_step-raised :
      (d : ContagionDetector) (c : Call) (p : ProcStats)
      → d.started ≡ true
      → c.proc_stats ≡ some p
      → is_above_zero d.vmrss_window c p.vmrss_kb ≡ true
      → on_step F d c ≡ raised zero_division
  unfolding on_step check_vmrss
  on_step-raised d c p st read above = ground (arith, st, read, above)

  on_step-ok :
      (d : ContagionDetector) (c : Call) (p : ProcStats)
      → d.started ≡ true
      → c.proc_stats ≡ some p
      → is_above_zero d.vmrss_window c p.vmrss_kb ≡ false
      → (d₁ : ContagionDetector) × (on_step F d c ≡ ok d₁)
  unfolding on_step check_vmrss
  on_step-ok d c p st read above = elim (Result-cases (on_step F d c)) [
    | inl (e, fails) ↦ absurd (ground (arith, st, read, above, fails))
    | inr (d₁, done) ↦ (d₁, done)
  ]

  error_of-run :
      (calls : List Call) (seen : List ℕ) (d : ContagionDetector)
      → d.started ≡ true
      → d.vmrss_window ≡ last_n window_size seen
      → error_of (run F d calls) ≡ first_failure seen calls
  unfolding run
  error_of-run [] seen d st w = refl
  error_of-run (c ∷ cs) seen d st w = elim (Option-cases c.proc_stats) [
    | inl unread ↦ rw (run, on_step_unread d c st unread, unread) refl
    | inr (p, read) ↦
        let v = p.vmrss_kb in
        elim (Bool-cases (is_above_zero (last_n window_size seen) c v)) [
          | inl above ↦
              let fails : on_step F d c ≡ raised zero_division =
                on_step-raised d c p st read
                  (subst (λ l. is_above_zero l c v ≡ true) (sym w) above) in
              rw (run, fails, read, above) refl
          | inr not_above ↦
              let (d₁, done) =
                on_step-ok d c p st read
                  (subst (λ l. is_above_zero l c v ≡ false) (sym w) not_above) in
              let (q, read', ev, wd, st') = on_step-without_fd F d d₁ c done in
              let same : q ≡ p = some_injective q p (sym read' ∙ read) in
              let w' : d₁.vmrss_window ≡ last_n window_size (seen ++ v ∷ []) =
                wd
                ∙ ap (λ (r : ProcStats). push_bounded window_size d.vmrss_window r.vmrss_kb) same
                ∙ ap (λ l. push_bounded window_size l v) w
                ∙ push_bounded-last_n window_size seen v in
              rw (run, done, read, not_above) (error_of-run cs (seen ++ v ∷ []) d₁ st' w')
        ]
  ]
    where
      some_injective : (x y : ProcStats) → some x ≡ some y → x ≡ y
      some_injective x y e = cc

  -- From `start` on, some steps raise exactly if one of them has a reader that fails, or is
  -- flagged adversarial and reads more than a fifth above the mean of the (at most ten) readings
  -- before it, where this mean is zero; the exception is that of the first such step: the
  -- reader's, or ZeroDivisionError.
  pub run-failure :
      (d : ContagionDetector) (calls : List Call)
      → error_of (run F (start d) calls) ≡ first_failure [] calls
  unfolding start
  run-failure d calls = error_of-run calls [] (start d) refl refl
