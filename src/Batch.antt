-- ===== src/Batch.antt =====
-- python/rlox/batch.py: the rollout batch and its division into minibatches.
-- A tensor is the list of its rows; what `torch.randperm` returned is an argument.
pub mod Minibatches
mod Tests
use rlox.Base.{
  ℕ, zero, suc, ◌+◌, ◌*◌, ◌/◌, ◌-◌, Bool, Option, none, some, List, [], ◌∷◌, Result, ok, raised,
  length, get_elem?, take, drop, if◌then◌else◌, ◌==◌,
}

-- O, A and F are the types of a row of observations, of actions and of numbers.
pub record RolloutBatch (O A F : Type 0) : Type 0 where
  pub obs : List O
  pub actions : List A
  pub rewards : List F
  pub dones : List F
  pub log_probs : List F
  pub values : List F
  pub advantages : List F
  pub returns : List F

pub data Error : Type 0 where
  zero_division index_error : Error

infixl 5 ◌>>=◌
abbrev ◌>>=◌ {ℓ κ} : {B : Type ℓ} {C : Type κ} → Option B → (B → Option C) → Option C
m >>= f = elim m [ none ↦ none | some x ↦ f x ]

-- `xs[perm]`: a row out of range raises IndexError.
unfoldable pub index {ℓ} : {A : Type ℓ} → List A → List ℕ → Option (List A)
index xs [] = some []
index xs (i ∷ is) = do x ← get_elem? xs i; ys ← index xs is; some (x ∷ ys)

-- `xs[start:end]`
abbrev pub slice {ℓ} : {A : Type ℓ} → List A → ℕ → ℕ → List A
slice xs start end = take (end - start) (drop start xs)

module _ {O A F : Type 0} where
  abbrev pub slice_batch : RolloutBatch O A F → ℕ → ℕ → RolloutBatch O A F
  slice_batch b start end = record {
    obs = slice b.obs start end;
    actions = slice b.actions start end;
    rewards = slice b.rewards start end;
    dones = slice b.dones start end;
    log_probs = slice b.log_probs start end;
    values = slice b.values start end;
    advantages = slice b.advantages start end;
    returns = slice b.returns start end;
  }

  -- All eight fields are reordered by the one permutation.
  unfoldable pub shuffled : RolloutBatch O A F → List ℕ → Option (RolloutBatch O A F)
  shuffled b perm = do
    obs ← index b.obs perm
    actions ← index b.actions perm
    rewards ← index b.rewards perm
    dones ← index b.dones perm
    log_probs ← index b.log_probs perm
    values ← index b.values perm
    advantages ← index b.advantages perm
    returns ← index b.returns perm
    some (record {
      obs = obs;
      actions = actions;
      rewards = rewards;
      dones = dones;
      log_probs = log_probs;
      values = values;
      advantages = advantages;
      returns = returns;
    })

  -- `for start in range(0, n_complete, batch_size)`, with the rounds that are left.
  unfoldable pub minibatches_from : ℕ → ℕ → ℕ → RolloutBatch O A F → List (RolloutBatch O A F)
  minibatches_from zero start batch_size b = []
  minibatches_from (suc rounds) start batch_size b =
      slice_batch b start (start + batch_size)
      ∷ minibatches_from rounds (start + batch_size) batch_size b

  -- The batch that is cut up. `perm` is what `torch.randperm(n)` returned.
  unfoldable pub reordered : RolloutBatch O A F → Bool → List ℕ → Option (RolloutBatch O A F)
  unfolding shuffled index
  reordered b shuffle perm = if shuffle then shuffled b perm else some b

  unfoldable pub sample_minibatches :
      RolloutBatch O A F → ℕ → Bool → List ℕ → Result Error (List (RolloutBatch O A F))
  unfolding reordered minibatches_from
  sample_minibatches b batch_size shuffle perm =
      let n = length b.obs in
      elim (reordered b shuffle perm) [
        | none ↦ raised index_error
        | some s ↦
            if batch_size == 0
            then raised zero_division
            else ok (minibatches_from (n / batch_size) 0 batch_size s)
      ]
