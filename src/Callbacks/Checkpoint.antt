-- ===== src/Callbacks/Checkpoint.antt =====
-- python/rlox/callbacks.py, class CheckpointCallback. The file name is kept as its two parts, and
-- the calls of `algo.save` are a list, the first call first.
use rlox.Base.{
  ℕ, zero, suc, ◌+◌, ◌-◌, ◌*◌, ◌/◌, ◌%◌, ◌≤◌, ◌<◌, ◌≡◌, refl, Bool, true, false, Option, none, some,
  List, [], ◌∷◌, ◌++◌, arith, if◌then◌else◌, ◌==◌, ap, sym, map, String, Result, ok, raised, ◌⊎◌,
  inl, inr, Bool-cases,
}
use native.Mathlib.Nat.{
  div-eq_of_lt-le, div-add-mod', mod-lt, div-eq_of_eq-mul_left, le-div_iff_mul-le, div-mul-le_self,
  add-zero, zero-div,
}
use native.Mathlib.Decide.{dec_lt}
use rlox.Callbacks.Kwargs.{Error, zero_division, next_step}

pub record CheckpointCallback : Type 0 where
  pub save_freq : ℕ
  pub save_path : String
  pub step_count : ℕ

-- `os.path.join(folder, f"checkpoint_{step}.pt")`
pub data CheckpointFile : Type 0 where
  checkpoint : (folder : String) (step : ℕ) → CheckpointFile

-- What a call of the hook leaves: its result, the object, and the files saved.
pub record Outcome : Type 0 where
  pub result : Result Error Bool
  pub callback : CheckpointCallback
  pub saved : List CheckpointFile

-- `CheckpointCallback(save_freq, save_path)`
abbrev pub init : ℕ → String → CheckpointCallback
init save_freq save_path = record { save_freq = save_freq; save_path = save_path; step_count = 0 }

-- `algo` is none if the loop passed no algorithm, and otherwise says if it has a `save`.
unfoldable pub on_step : CheckpointCallback → (step : Option ℕ) (algo : Option Bool) → Outcome
on_step c step algo =
    let c' = record c { step_count = next_step step c.step_count } in
    if c.save_freq == 0
    then record { result = raised zero_division; callback = c'; saved = [] }
    else if c'.step_count % c'.save_freq == 0
    then elim algo [
      | some true ↦ record {
        result = ok true;
        callback = c';
        saved = checkpoint c'.save_path c'.step_count ∷ [];
      }
      | _ ↦ record { result = ok true; callback = c'; saved = [] }
    ]
    else record { result = ok true; callback = c'; saved = [] }

-- The files of n steps of a loop that passes the algorithm and no step number.
unfoldable pub save_steps : CheckpointCallback → ℕ → List CheckpointFile
unfolding on_step
save_steps c zero = []
save_steps c (suc n) = let o = on_step c none (some true) in o.saved ++ save_steps o.callback n

-- first, first + 1, …, for `count` numbers.
abbrev pub upto : (first count : ℕ) → List ℕ
upto first zero = []
upto first (suc count) = first ∷ upto (first + 1) count

abbrev pub multiple_files : CheckpointCallback → List ℕ → List CheckpointFile
multiple_files c = map (λ i. checkpoint c.save_path (i * c.save_freq))

abbrev advanced : CheckpointCallback → CheckpointCallback
advanced c = record c { step_count = c.step_count + 1 }

module _ (c : CheckpointCallback) (pos : 0 < c.save_freq) where
  -- One step writes a file exactly when the quotient grows.
  on_step_hit :
      (c.step_count + 1) % c.save_freq ≡ 0
      → on_step c none (some true) ≡ record {
        result = ok true;
        callback = advanced c;
        saved = checkpoint c.save_path (c.step_count + 1) ∷ [];
      }
  unfolding on_step
  on_step_hit h = ground arith

  on_step_miss :
      ((c.step_count + 1) % c.save_freq == 0) ≡ false
      → on_step c none (some true) ≡ record { result = ok true; callback = advanced c; saved = [] }
  unfolding on_step
  on_step_miss h = ground arith

-- Division steps: at a multiple the quotient grows by one, elsewhere it stays.
quotient_step :
    (c k : ℕ)
    → 0 < k
    → ((c + 1) / k ≡ c / k + 1) × ((c / k + 1) * k ≡ c + 1)
      ⊎ ((c + 1) / k ≡ c / k) × (c / k * k < c + 1)
quotient_step c k pos = elim (dec_lt (c % k + 1) k) [
  | yes below ↦ inr (
    div-eq_of_lt-le k (omega (arith, div-add-mod' c k)) (omega (arith, div-add-mod' c k)),
    omega (arith, div-add-mod' c k),
  )
  | no full ↦
      let e : (c / k + 1) * k ≡ c + 1 = omega (arith, div-add-mod' c k, mod-lt c pos) in
      inl (div-eq_of_eq-mul_left pos (sym e), e)
]

quotient_hit :
    (c k : ℕ) → 0 < k → (c + 1) % k ≡ 0 → ((c + 1) / k ≡ c / k + 1) × ((c / k + 1) * k ≡ c + 1)
quotient_hit c k pos h = elim (quotient_step c k pos) [
  | inl p ↦ p
  | inr (same, below) ↦
      let d : (c + 1) / k * k + (c + 1) % k ≡ c + 1 = div-add-mod' (c + 1) k in
      absurd (omega (arith, ap (λ (q : ℕ). q * k) same))
]

quotient_miss : (c k : ℕ) → 0 < k → 0 < (c + 1) % k → (c + 1) / k ≡ c / k
quotient_miss c k pos h = elim (quotient_step c k pos) [
  | inl (grown, e) ↦
      let d : (c + 1) / k * k + (c + 1) % k ≡ c + 1 = div-add-mod' (c + 1) k in
      absurd (omega (arith, ap (λ (q : ℕ). q * k) grown))
  | inr (same, below) ↦ same
]

quotient_le : (c n k : ℕ) → 0 < k → c / k ≤ (c + n) / k
quotient_le c n k pos = (le-div_iff_mul-le pos).1 (omega (arith, div-mul-le_self c k))

-- The files of n steps are those of the multiples of `save_freq` that the count passes.
save_steps-multiples :
    (c : CheckpointCallback) (n : ℕ)
    → 0 < c.save_freq
    → let q = c.step_count / c.save_freq in
      save_steps c n ≡ multiple_files c (upto (q + 1) ((c.step_count + n) / c.save_freq - q))
unfolding save_steps
save_steps-multiples c zero pos =
    let e : (c.step_count + 0) / c.save_freq - c.step_count / c.save_freq ≡ 0 =
      omega (arith, ap (λ (m : ℕ). m / c.save_freq) (add-zero c.step_count)) in
    rw e refl
save_steps-multiples c (suc n) pos =
    let count = c.step_count in
    let k = c.save_freq in
    let ih = save_steps-multiples (advanced c) n pos in
    let shift : count + suc n ≡ count + 1 + n = omega arith in
    let grows : (count + 1) / k ≤ (count + 1 + n) / k = quotient_le (count + 1) n k pos in
    elim (Bool-cases ((count + 1) % k == 0)) [
      | inl hit ↦
          let (grown, e) = quotient_hit count k pos (ground arith) in
          let more : (count + 1 + n) / k - count / k ≡ suc ((count + 1 + n) / k - (count + 1) / k) =
            omega (arith, grown, grows) in
          rw (on_step_hit c pos (ground arith), ih, shift, more, grown, e) refl
      | inr miss ↦
          let same = quotient_miss count k pos (ground arith) in
          rw (on_step_miss c pos miss, ih, shift, same) refl
    ]

-- With a positive frequency, an algorithm that can save and a loop that passes no step number,
-- a new callback writes during n steps exactly the files of the n / save_freq multiples
-- of the frequency up to n, once each and in order.
pub checkpoint_schedule :
    (save_freq : ℕ) (save_path : String) (n : ℕ)
    → 0 < save_freq
    → save_steps (init save_freq save_path) n
      ≡ map (λ i. checkpoint save_path (i * save_freq)) (upto 1 (n / save_freq))
checkpoint_schedule save_freq save_path n pos =
    let e₁ : 0 / save_freq ≡ 0 = zero-div save_freq in
    let e₂ : 0 + n ≡ n = omega arith in
    let all = save_steps-multiples (init save_freq save_path) n pos in
    let e₃ : n / save_freq - 0 ≡ n / save_freq = omega arith in rw (e₁, e₂, e₃) at all
