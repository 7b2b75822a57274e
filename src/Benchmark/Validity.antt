-- ===== src/Benchmark/Validity.antt =====
-- python/rlox_agent/config.py: which configurations `validate_config` accepts.
use rlox.Base.{
  ℕ, zero, suc, ◌≡◌, ◌≢◌, refl, ap, ◌↔◌, true, false, Option, none, some, List, [], ◌∷◌,
  if◌then◌else◌, get_elem?, String, All, Bool-cases, inl, inr, arith,
}
use rlox.Base.Float.{Float}
use rlox.Base.Dict.{string_eq, Dict, lookup}
use rlox.Benchmark.{
  BenchmarkConfig, ConfigValidationError, pin_mismatch, required_string_fields,
  required_numeric_fields, must_be_positive_fields, version_pin_fields, is_set, check_strings,
  check_numbers, check_positive, check_seeds, has_baseline, check_fractions, is_pinned, check_pins,
  then_check, validate_config,
}

module _ (F : Float) where
  abbrev pub IsNonempty : Option String → Type 0
  IsNonempty none = ⊥
  IsNonempty (some s) = s ≢ ""

  abbrev pub IsGiven : Option F.Carrier → Type 0
  IsGiven none = ⊥
  IsGiven (some x) = Unit

  -- Not zero or less, if it is given.
  abbrev pub IsPositive : Option F.Carrier → Type 0
  IsPositive none = Unit
  IsPositive (some x) = F.le x (F.of_ℕ 0) ≡ false

  -- Given, and at least three.
  abbrev pub HasSeeds : Option F.Carrier → Type 0
  HasSeeds none = ⊥
  HasSeeds (some n) = F.lt n (F.of_ℕ 3) ≡ false

  -- One of the fractions is zero.
  abbrev pub HasBaseline : List F.Carrier → Type 0
  HasBaseline xs =
      (i : ℕ) × (x : F.Carrier) × (get_elem? xs i ≡ some x) × (F.eq x (F.of_ℕ 0) ≡ true)

  abbrev pub HasFractions : Option (List F.Carrier) → Type 0
  HasFractions none = ⊥
  HasFractions (some xs) = HasBaseline xs

  -- What the environment reports for a pin, if it does, is what the configuration says.
  abbrev pub IsReported : Option String → Option String → Type 0
  IsReported none v = Unit
  IsReported (some e) none = ⊥
  IsReported (some e) (some v) = v ≡ e

  -- A configuration fit for the benchmark in an environment with these versions.
  abbrev pub IsValid : BenchmarkConfig F → Dict String String → Type 0
  IsValid c env =
      All (λ f. IsNonempty f.1) (required_string_fields F c)
      × (All (λ f. IsGiven f.1) (required_numeric_fields F c)
          × (All (λ f. IsPositive f.1) (must_be_positive_fields F c)
              × (HasSeeds c.n_seeds
                  × (HasFractions c.adversarial_fractions
                      × All (λ f. IsReported (lookup f.0 env) f.1) (version_pin_fields F c)))))

  is_set-IsNonempty : (v : Option String) → (is_set F v ≡ true) ↔ IsNonempty v
  is_set-IsNonempty none = ((λ h. cc), (λ h. elim h [ ]))
  is_set-IsNonempty (some s) = elim (Bool-cases (string_eq.beq s "")) [
    | inl e ↦
        ((λ h. absurd (ground (arith, h, e))), (λ ne. absurd (ne ((string_eq.beq_iff s "").0 e))))
    | inr e ↦ ((λ h p. ground (arith, e, (string_eq.beq_iff s "").1 p)), (λ h. rw e refl))
  ]

  check_strings-All :
      (fs : List (String × Option String))
      → (check_strings F fs ≡ none) ↔ All (λ f. IsNonempty f.1) fs
  unfolding check_strings
  check_strings-All [] = ((λ h. tt), (λ h. refl))
  check_strings-All ((name, v) ∷ fs) =
      let rest = check_strings-All fs in
      let here = is_set-IsNonempty v in
      elim (Bool-cases (is_set F v)) [
        | inl e ↦ ((λ h. (here.0 e, rest.0 (ground (arith, e, h)))), (λ h. rw e (rest.1 h.1)))
        | inr e ↦
            ((λ h. absurd (ground (arith, e, h))), (λ h. absurd (ground (arith, e, here.1 h.0))))
      ]

  check_numbers-All :
      (fs : List (String × Option F.Carrier))
      → (check_numbers F fs ≡ none) ↔ All (λ f. IsGiven f.1) fs
  unfolding check_numbers
  check_numbers-All [] = ((λ h. tt), (λ h. refl))
  check_numbers-All ((name, none) ∷ fs) = ((λ h. cc), (λ h. elim h.0 [ ]))
  check_numbers-All ((name, some x) ∷ fs) =
      let rest = check_numbers-All fs in ((λ h. (tt, rest.0 h)), (λ h. rest.1 h.1))

  check_positive-All :
      (fs : List (String × Option F.Carrier))
      → (check_positive F fs ≡ none) ↔ All (λ f. IsPositive f.1) fs
  unfolding check_positive
  check_positive-All [] = ((λ h. tt), (λ h. refl))
  check_positive-All ((name, none) ∷ fs) =
      let rest = check_positive-All fs in ((λ h. (tt, rest.0 h)), (λ h. rest.1 h.1))
  check_positive-All ((name, some x) ∷ fs) =
      let rest = check_positive-All fs in
      elim (Bool-cases (F.le x (F.of_ℕ 0))) [
        | inl e ↦ ((λ h. absurd (ground (arith, e, h))), (λ h. absurd (ground (arith, e, h.0))))
        | inr e ↦ ((λ h. (e, rest.0 (ground (arith, e, h)))), (λ h. rw e (rest.1 h.1)))
      ]

  check_seeds-HasSeeds : (v : Option F.Carrier) → (check_seeds F v ≡ none) ↔ HasSeeds v
  unfolding check_seeds
  check_seeds-HasSeeds none = ((λ h. cc), (λ h. elim h [ ]))
  check_seeds-HasSeeds (some n) = elim (Bool-cases (F.lt n (F.of_ℕ 3))) [
    | inl e ↦ ((λ h. absurd (ground (arith, e, h))), (λ h. absurd (ground (arith, e, h))))
    | inr e ↦ ((λ h. e), (λ h. rw e refl))
  ]

  has_baseline-HasBaseline : (xs : List F.Carrier) → (has_baseline F xs ≡ true) ↔ HasBaseline xs
  has_baseline-HasBaseline [] = ((λ h. cc), (λ h. absurd (nothing h.0 h.1 h.2)))
    where
      nothing : (i : ℕ) (x : F.Carrier) → get_elem? [] i ≡ some x → ⊥
      nothing i x h = cc
  has_baseline-HasBaseline (x ∷ xs) =
      let rest = has_baseline-HasBaseline xs in
      elim (Bool-cases (F.eq x (F.of_ℕ 0))) [
        | inl e ↦ ((λ h. (0, x, refl, e)), (λ h. rw e refl))
        | inr e ↦ (
          (λ h. let (i, y, g, z) = rest.0 (ground (arith, e, h)) in (suc i, y, g, z)),
          (λ h. rw e (rest.1 (later e h.0 h.1 h.2 h.3))),
        )
      ]
    where
      value : Option F.Carrier → F.Carrier
      value none = x
      value (some y) = y

      later :
          F.eq x (F.of_ℕ 0) ≡ false
          → (i : ℕ) (y : F.Carrier) → get_elem? (x ∷ xs) i ≡ some y
          → F.eq y (F.of_ℕ 0) ≡ true
          → HasBaseline xs
      later e zero y g z = absurd (ground (arith, e, z, ap value g))
      later e (suc i) y g z = (i, y, g, z)

  check_fractions-HasFractions :
      (v : Option (List F.Carrier)) → (check_fractions F v ≡ none) ↔ HasFractions v
  unfolding check_fractions
  check_fractions-HasFractions none = ((λ h. cc), (λ h. elim h [ ]))
  check_fractions-HasFractions (some []) =
      ((λ h. cc), (λ h. absurd (ground (arith, (has_baseline-HasBaseline []).1 h))))
  check_fractions-HasFractions (some (x ∷ xs)) =
      let here = has_baseline-HasBaseline (x ∷ xs) in
      elim (Bool-cases (has_baseline F (x ∷ xs))) [
        | inl e ↦ ((λ h. here.0 e), (λ h. rw e refl))
        | inr e ↦
            ((λ h. absurd (ground (arith, e, h))), (λ h. absurd (ground (arith, e, here.1 h))))
      ]

  is_pinned-IsReported :
      (v : Option String) (e : String) → (is_pinned F v e ≡ true) ↔ IsReported (some e) v
  is_pinned-IsReported none e = ((λ h. cc), (λ h. elim h [ ]))
  is_pinned-IsReported (some v) e = string_eq.beq_iff v e

  check_pins-All :
      (env : Dict String String) (fs : List (String × Option String))
      → (check_pins F env fs ≡ none) ↔ All (λ f. IsReported (lookup f.0 env) f.1) fs
  unfolding check_pins
  check_pins-All env [] = ((λ h. tt), (λ h. refl))
  check_pins-All env ((name, v) ∷ fs) = reported (lookup name env) (check_pins-All env fs)
    where
      reported :
          (found : Option String)
          → ((check_pins F env fs ≡ none) ↔ All (λ f. IsReported (lookup f.0 env) f.1) fs)
          → (elim found [
            | none ↦ check_pins F env fs
            | some e ↦ if is_pinned F v e then check_pins F env fs else some (pin_mismatch name)
          ]
              ≡ none)
            ↔ (IsReported found v × All (λ f. IsReported (lookup f.0 env) f.1) fs)
      reported none rest = ((λ h. (tt, rest.0 h)), (λ h. rest.1 h.1))
      reported (some e) rest =
          let here = is_pinned-IsReported v e in
          elim (Bool-cases (is_pinned F v e)) [
            | inl y ↦ ((λ h. (here.0 y, rest.0 (ground (arith, y, h)))), (λ h. rw y (rest.1 h.1)))
            | inr n ↦ (
              (λ h. absurd (ground (arith, n, h))),
              (λ h. absurd (ground (arith, n, here.1 h.0))),
            )
          ]

  then_check-none :
      {P Q : Type 0} (a b : Option ConfigValidationError)
      → ((a ≡ none) ↔ P)
      → ((b ≡ none) ↔ Q)
      → (then_check F a b ≡ none) ↔ (P × Q)
  then_check-none none b p q = ((λ h. (p.0 refl, q.0 h)), (λ h. q.1 h.1))
  then_check-none (some e) b p q = ((λ h. cc), (λ h. absurd (raises (p.1 h.0))))
    where
      raises : some e ≡ none → ⊥
      raises h = cc

  -- `validate_config` raises nothing exactly when: every required text is given and not empty,
  -- every required number is given, none of those that must be positive is zero or less, there
  -- are at least three seeds, some adversarial fraction is zero, and each pinned version that the
  -- environment reports is the one of the configuration.
  pub validate_config-IsValid :
      (c : BenchmarkConfig F) (env : Dict String String)
      → (validate_config F c env ≡ none) ↔ IsValid c env
  unfolding validate_config
  validate_config-IsValid c env =
      then_check-none (check_strings F (required_string_fields F c)) _
        (check_strings-All (required_string_fields F c))
        (then_check-none (check_numbers F (required_numeric_fields F c)) _
          (check_numbers-All (required_numeric_fields F c))
          (then_check-none (check_positive F (must_be_positive_fields F c)) _
            (check_positive-All (must_be_positive_fields F c))
            (then_check-none (check_seeds F c.n_seeds) _ (check_seeds-HasSeeds c.n_seeds) (
              then_check-none (check_fractions F c.adversarial_fractions) _
                (check_fractions-HasFractions c.adversarial_fractions)
                (check_pins-All env (version_pin_fields F c))))))
