-- ===== src/Batch/Tests.antt =====
-- python/rlox/batch.py on a small batch.
use rlox.Base.{
  ℕ, ◌≡◌, refl, ◌*◌, ◌/◌, true, false, some, List, [], ◌∷◌, length, ok, raised, All, arith,
}
use rlox.Batch.{
  RolloutBatch, reordered, slice_batch, sample_minibatches, index_error, zero_division,
}
use rlox.Batch.Minibatches.{HasRows, concat_batches, sample_minibatches_partition}

abbrev column : List ℕ → RolloutBatch ℕ ℕ ℕ
column xs = record {
  obs = xs;
  actions = xs;
  rewards = xs;
  dones = xs;
  log_probs = xs;
  values = xs;
  advantages = xs;
  returns = xs;
}

abbrev five : RolloutBatch ℕ ℕ ℕ
five = column (10 ∷ 11 ∷ 12 ∷ 13 ∷ 14 ∷ [])

abbrev perm : List ℕ
perm = 3 ∷ 0 ∷ 4 ∷ 1 ∷ 2 ∷ []

five-HasRows : HasRows 5 five
five-HasRows = omega arith

sample_minibatches_partition_example :
    (s : RolloutBatch ℕ ℕ ℕ) × (bs : List (RolloutBatch ℕ ℕ ℕ)) × (reordered five true perm
      ≡ some s)
    × (sample_minibatches five 2 true perm ≡ ok bs)
    × (length bs ≡ 5 / 2)
    × All (HasRows 2) bs
    × (concat_batches bs ≡ slice_batch s 0 (5 / 2 * 2))
sample_minibatches_partition_example =
    sample_minibatches_partition five 2 true perm five-HasRows (omega arith) refl (omega arith)

sample_shuffled :
    sample_minibatches five 2 true perm ≡ ok (column (13 ∷ 10 ∷ []) ∷ column (14 ∷ 11 ∷ []) ∷ [])
unfolding sample_minibatches
sample_shuffled = refl

sample_out_of_range : sample_minibatches five 2 true (7 ∷ []) ≡ raised index_error
unfolding sample_minibatches
sample_out_of_range = refl

sample_of_none : sample_minibatches five 0 false [] ≡ raised zero_division
unfolding sample_minibatches
sample_of_none = refl
