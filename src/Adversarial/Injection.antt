-- ===== src/Adversarial/Injection.antt =====
-- python/rlox_agent/adversarial_corpus.py: the injector over the tasks of a run.
use rlox.Base.{get_elem?-below}
use rlox.Base.{
  ℕ, ◌≡◌, refl, Bool, true, false, some, ◌⊎◌, inl, inr, Bool-cases, length, get_elem?, ok, ◌<◌,
}
use rlox.Base.Float.{Float}
use rlox.Adversarial.{
  AdversarialSample, AdversarialInjector, Injected, kept, replaced, choose, maybe_inject,
}

module _ (F : Float) (Rng : Type 0) (random : Rng → F.Carrier × Rng) (choice : ℕ → Rng → ℕ × Rng)
    (Task : Type 0) where
  -- The flag says whether the task was replaced; a replacement is a sample of the corpus, at a
  -- fraction above zero, and only the same task is kept, at a fraction below one.
  abbrev pub IsInjection : AdversarialInjector F Rng → Task → Injected Task × Bool → Type 0
  IsInjection i task (kept t, flag) =
      (flag ≡ false)
      × ((t ≡ task) × ((F.le i.fraction (F.of_ℕ 0) ≡ true) ⊎ (F.le (F.of_ℕ 1) i.fraction ≡ false)))
  IsInjection i task (replaced s, flag) =
      (flag ≡ true)
      × (((k : ℕ) × (get_elem? i.corpus.samples k ≡ some s)) × (F.le i.fraction (F.of_ℕ 0) ≡ false))

  -- `random.choice` of a list that has elements gives one of them.
  abbrev pub IsChoice : Type 0
  IsChoice = (n : ℕ) (r : Rng) → 0 < n → (choice n r).0 < n

  choose-total :
      (i : AdversarialInjector F Rng)
      → IsChoice
      → 0 < length i.corpus.samples
      → (s : AdversarialSample) × (k : ℕ) × (rng : Rng) × (get_elem? i.corpus.samples k ≡ some s)
        × (choose F Rng random choice {Task = Task} i
            ≡ ok ((replaced s, true), record i { rng = rng }))
  unfolding choose
  choose-total i fair h =
      let k = (choice (length i.corpus.samples) i.rng).0 in
      let (s, e) = get_elem?-below i.corpus.samples k (fair (length i.corpus.samples) i.rng h) in
      (s, k, (choice (length i.corpus.samples) i.rng).1, e, rw (choose, e) refl)

  -- With a corpus that has samples, and a `random.choice` that gives an element of a list that has
  -- elements, every call returns, and only the generator's state changes. The flag says whether
  -- the task was replaced. A replacement is a sample of the corpus and there is none at a
  -- fraction of zero or less; what is not replaced is the task itself, which does not happen at a
  -- fraction of one or more (unless that is also zero or less).
  pub maybe_inject-IsInjection :
      (i : AdversarialInjector F Rng) (task : Task)
      → IsChoice
      → 0 < length i.corpus.samples
      → (r : Injected Task × Bool) × (rng : Rng) × (maybe_inject F Rng random choice i task
          ≡ ok (r, record i { rng = rng }))
        × IsInjection i task r
  unfolding maybe_inject
  maybe_inject-IsInjection i task fair h = elim (Bool-cases (F.le i.fraction (F.of_ℕ 0))) [
    | inl low ↦ ((kept task, false), i.rng, rw low refl, (refl, (refl, inl low)))
    | inr above ↦ elim (Bool-cases (F.le (F.of_ℕ 1) i.fraction)) [
      | inl high ↦
          let (s, k, rng, e, call) = choose-total i fair h in
          ((replaced s, true), rng, rw (above, high) call, (refl, ((k, e), above)))
      | inr below ↦
          let drawn : AdversarialInjector F Rng = record i { rng = (random i.rng).1 } in
          elim (Bool-cases (F.lt (random i.rng).0 i.fraction)) [
            | inl hit ↦
                let (s, k, rng, e, call) = choose-total drawn fair h in
                ((replaced s, true), rng, rw (above, below, hit) call, (refl, ((k, e), above)))
            | inr passed ↦ (
              (kept task, false),
              (random i.rng).1,
              rw (above, below, passed) refl,
              (refl, (refl, inr below)),
            )
          ]
    ]
  ]
