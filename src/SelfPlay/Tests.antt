-- ===== src/SelfPlay/Tests.antt =====
-- python/rlox/self_play.py on small inputs.
use rlox.Base.{
  ℕ, zero, suc, ◌+◌, ◌-◌, ◌*◌, ◌/◌, ◌<◌, max, ◌≤◌, ltb, leb, true, map, subst, ◌≡◌, refl, ◌⊎◌,
  Option, none, some, List, [], ◌∷◌, length, ok, raised, arith,
}
use native.Mathlib.Nat.{le-div_iff_mul-le, mul-div-le, mul_comm}
use rlox.Base.Float.{Float}
use rlox.Base.Samples.{counting}
use rlox.SelfPlay.{
  SelfPlay, Numpy, runtime_error, probabilities, weight, Op, take_snapshot, record_match, run, step,
  snapshot, evict, append, update_elo, exchanged, expected_score, sample_opponent,
}
use rlox.SelfPlay.Matchmaking.{IsMonotone, IsNumpy, Favours, Draws, sample_opponent-Favours}
use rlox.SelfPlay.Pool.{HasLast, HasStranger, snapshots, empty_pool, run-last_n}

abbrev power : ℕ → ℕ
power x = 1

abbrev ops : List (Op counting ℕ power)
ops = take_snapshot 1 ∷ take_snapshot 2 ∷ record_match 1 0 ∷ take_snapshot 3 ∷ []

-- The oldest snapshot leaves, with its rating.
run-ops :
    run counting ℕ power (empty_pool counting ℕ 2 1000 32 "latest") ops
    ≡ ok (record {
      pool_size = 2;
      initial_elo = 1000;
      elo_k = 32;
      matchmaking = "latest";
      opponent_pool = 2 ∷ 3 ∷ [];
      elo_ratings = 1032 ∷ 1000 ∷ [];
    })
unfolding run step snapshot evict append update_elo exchanged expected_score
run-ops = refl

-- Percentages: differences are counted from a hundred below.
abbrev percents : Float
percents = record counting { sub = λ a b. a + 100 - b; div = λ a d. a * 100 / d }

abbrev greatest : List ℕ → Option ℕ
greatest [] = none
greatest (x ∷ xs) = elim (greatest xs) [ none ↦ some x | some m ↦ some (max x m) ]

abbrev added : List ℕ → ℕ
added [] = 0
added (x ∷ xs) = x + added xs

-- The last index is drawn.
abbrev last_index : ℕ → Option ℕ
last_index zero = none
last_index (suc n) = some n

abbrev numpy : Numpy percents
numpy = record { maximum = greatest; exp = λ x. x; sum = added; choice = λ n ps. last_index n }

numpy-IsNumpy : IsNumpy percents numpy
numpy-IsNumpy = record {
  maximum-cons = λ x xs. either x (greatest xs);
  choice-below = λ n i ps e. below n i e;
}
  where
    either :
        (x : ℕ) (o : Option ℕ)
        → (m : ℕ) × (elim o as (λ _. Option ℕ) [ none ↦ some x | some m ↦ some (max x m) ] ≡ some m)
    either x none = (x, refl)
    either x (some m) = (max x m, refl)

    below : (n i : ℕ) → last_index n ≡ some i → i < n
    below zero i e = absurd cc
    below (suc n) i e = ground (arith, e)

div_mono : (x y d : ℕ) → 0 < d → x ≤ y → x / d ≤ y / d
div_mono x y d pos h =
    (le-div_iff_mul-le pos).1
      (subst (λ z. z ≤ y) (mul_comm d (x / d)) (omega (arith, mul-div-le x d, h)))

lt_of_ltb : {d : ℕ} → ltb 0 d ≡ true → 0 < d
lt_of_ltb {d} h = ground (arith, h)

scaled : (a b : ℕ) → leb a b ≡ true → a * 100 ≤ b * 100
scaled a b h = ground (arith, h)

leb-true : {x y : ℕ} → x ≤ y → leb x y ≡ true
leb-true {x} {y} h = ground (arith, h)

numpy-IsMonotone : IsMonotone percents numpy (λ n. Unit)
numpy-IsMonotone = record {
  sub-mono = λ a b m fin h. ground arith;
  div-mono =
      λ a b d fin pos h. leb-true (div_mono (a * 100) (b * 100) d (lt_of_ltb pos) (scaled a b h));
  exp-mono = λ a b h. h;
}

abbrev three : SelfPlay percents ℕ
three = record {
  pool_size = 4;
  initial_elo = 1000;
  elo_k = 10;
  matchmaking = "elo";
  opponent_pool = 5 ∷ 6 ∷ 7 ∷ [];
  elo_ratings = 1000 ∷ 1020 ∷ 980 ∷ [];
}

positive :
    (m : ℕ)
    → numpy.maximum three.elo_ratings ≡ some m
    → ltb 0 (added (map (weight percents ℕ numpy 10 m) three.elo_ratings)) ≡ true
positive m e =
    subst (λ k. ltb 0 (added (map (weight percents ℕ numpy 10 k) three.elo_ratings)) ≡ true)
      (greatest_is m e) refl
  where
    greatest_is : (m : ℕ) → numpy.maximum three.elo_ratings ≡ some m → 1020 ≡ m
    greatest_is m e = cc

sample_opponent-Favours_example :
    (probs : List ℕ) × (length probs ≡ 3)
    × Favours percents ℕ numpy (λ n. Unit) three.elo_ratings probs
    × Draws percents ℕ numpy (λ n. Unit) (λ n. 0) three (some 2)
sample_opponent-Favours_example =
    sample_opponent-Favours percents ℕ numpy (λ n. Unit) (λ n. 0) three 5 (6 ∷ 7 ∷ []) refl refl
      refl numpy-IsMonotone numpy-IsNumpy ((tt, refl), λ m e. (tt, (tt, positive m e)))

three_weighted : probabilities percents ℕ numpy 10 three.elo_ratings ≡ some (33 ∷ 41 ∷ 25 ∷ [])
unfolding probabilities
three_weighted = refl

empty_refused :
    sample_opponent percents ℕ numpy (λ n. 0) (empty_pool percents ℕ 2 1000 32 "latest")
    ≡ raised runtime_error
unfolding sample_opponent
empty_refused = refl

run-last_n_example :
    ((q : SelfPlay counting ℕ) × (run counting ℕ power
          (empty_pool counting ℕ 2 1000 32 "latest")
          ops
        ≡ ok q)
      × HasLast counting ℕ q (snapshots counting ℕ power ops))
    ⊎ HasStranger counting ℕ power (empty_pool counting ℕ 2 1000 32 "latest") ops
run-last_n_example = run-last_n counting ℕ power ops 2 1000 32 "latest" (omega arith)
