-- ===== src/Batch/Minibatches.antt =====
-- The minibatches of `sample_minibatches` are consecutive pieces of the reordered batch.
use rlox.Base.{get_elem?-below}
use rlox.Base.{
  ℕ, zero, suc, ◌+◌, ◌*◌, ◌/◌, ◌-◌, ◌≤◌, ◌<◌, ◌≡◌, refl, ap, sym, ◌∙◌, Bool, true, false, some,
  List, [], ◌∷◌, ◌++◌, ok, length, drop, All, take-add, drop-drop, length-take, length-drop, arith,
}
use rlox.Batch.{
  RolloutBatch, index, slice, reordered, slice_batch, shuffled, minibatches_from,
  sample_minibatches,
}

module _ {O A F : Type 0} where
  abbrev empty_batch : RolloutBatch O A F
  empty_batch = record {
    obs = [];
    actions = [];
    rewards = [];
    dones = [];
    log_probs = [];
    values = [];
    advantages = [];
    returns = [];
  }

  abbrev append_batch : RolloutBatch O A F → RolloutBatch O A F → RolloutBatch O A F
  append_batch a b = record {
    obs = a.obs ++ b.obs;
    actions = a.actions ++ b.actions;
    rewards = a.rewards ++ b.rewards;
    dones = a.dones ++ b.dones;
    log_probs = a.log_probs ++ b.log_probs;
    values = a.values ++ b.values;
    advantages = a.advantages ++ b.advantages;
    returns = a.returns ++ b.returns;
  }

  -- The field-wise concatenation of batches.
  abbrev pub concat_batches : List (RolloutBatch O A F) → RolloutBatch O A F
  concat_batches [] = empty_batch
  concat_batches (b ∷ bs) = append_batch b (concat_batches bs)

  -- All eight fields have n rows.
  pub record HasRows (n : ℕ) (b : RolloutBatch O A F) : Type 0 where
    pub obs : length b.obs ≡ n
    pub actions : length b.actions ≡ n
    pub rewards : length b.rewards ≡ n
    pub dones : length b.dones ≡ n
    pub log_probs : length b.log_probs ≡ n
    pub values : length b.values ≡ n
    pub advantages : length b.advantages ≡ n
    pub returns : length b.returns ≡ n

module _ {ℓ} {B : Type ℓ} where
  -- Indexing by indices in range succeeds, with one row for each index.
  pub index_total :
      (xs : List B) (is : List ℕ)
      → All (λ i. i < length xs) is
      → (ys : List B) × (index xs is ≡ some ys) × (length ys ≡ length is)
  unfolding index
  index_total xs [] h = ([], refl, refl)
  index_total xs (i ∷ is) h =
      let (x, e) = get_elem?-below xs i h.0 in
      let (ys, es, len) = index_total xs is h.1 in (x ∷ ys, rw (e, es) refl, ap suc len)

  index_rows :
      (xs : List B) (is : List ℕ) {n : ℕ}
      → length xs ≡ n
      → All (λ i. i < n) is
      → (ys : List B) × (index xs is ≡ some ys) × (length ys ≡ length is)
  index_rows xs is e h = index_total xs is (rw e h)

  slice_empty : (xs : List B) (start : ℕ) → slice xs start (start + 0) ≡ []
  slice_empty xs start = let e : start + 0 - start ≡ 0 = omega arith in rw e

  slice-append_slice :
      (xs : List B) (start m k : ℕ)
      → slice xs start (start + m) ++ slice xs (start + m) (start + m + k)
        ≡ slice xs start (start + (m + k))
  slice-append_slice xs start m k =
      let e₁ : start + m - start ≡ m = omega arith in
      let e₂ : start + m + k - (start + m) ≡ k = omega arith in
      let e₃ : start + (m + k) - start ≡ m + k = omega arith in
      rw (e₁, e₂, e₃, ← drop-drop start m xs) (sym (take-add m k (drop start xs)))

  length-slice :
      (xs : List B) (start m : ℕ) → start + m ≤ length xs → length (slice xs start (start + m)) ≡ m
  length-slice xs start m h =
      omega (arith, length-take (start + m - start) (drop start xs), length-drop start xs)

module _ {O A F : Type 0} where
  shuffled-HasRows :
      (b : RolloutBatch O A F) (perm : List ℕ) {n : ℕ}
      → HasRows n b
      → length perm ≡ n
      → All (λ i. i < n) perm
      → (s : RolloutBatch O A F) × (shuffled b perm ≡ some s) × HasRows n s
  unfolding shuffled
  shuffled-HasRows b perm {n} h len bound =
      let (obs, e₁, l₁) = index_rows b.obs perm h.obs bound in
      let (actions, e₂, l₂) = index_rows b.actions perm h.actions bound in
      let (rewards, e₃, l₃) = index_rows b.rewards perm h.rewards bound in
      let (dones, e₄, l₄) = index_rows b.dones perm h.dones bound in
      let (log_probs, e₅, l₅) = index_rows b.log_probs perm h.log_probs bound in
      let (values, e₆, l₆) = index_rows b.values perm h.values bound in
      let (advantages, e₇, l₇) = index_rows b.advantages perm h.advantages bound in
      let (returns, e₈, l₈) = index_rows b.returns perm h.returns bound in
      (
        record {
          obs = obs;
          actions = actions;
          rewards = rewards;
          dones = dones;
          log_probs = log_probs;
          values = values;
          advantages = advantages;
          returns = returns;
        },
        rw (e₁, e₂, e₃, e₄, e₅, e₆, e₇, e₈) refl,
        record {
          obs = l₁ ∙ len;
          actions = l₂ ∙ len;
          rewards = l₃ ∙ len;
          dones = l₄ ∙ len;
          log_probs = l₅ ∙ len;
          values = l₆ ∙ len;
          advantages = l₇ ∙ len;
          returns = l₈ ∙ len;
        },
      )

  reordered-HasRows :
      (b : RolloutBatch O A F) (shuffle : Bool) (perm : List ℕ) {n : ℕ}
      → HasRows n b
      → length perm ≡ n
      → All (λ i. i < n) perm
      → (s : RolloutBatch O A F) × (reordered b shuffle perm ≡ some s) × HasRows n s
  unfolding reordered
  reordered-HasRows b true perm h len bound = shuffled-HasRows b perm h len bound
  reordered-HasRows b false perm h len bound = (b, refl, h)

  slice_batch_empty :
      (b : RolloutBatch O A F) (start : ℕ) → slice_batch b start (start + 0) ≡ empty_batch
  slice_batch_empty b start = λ i. record {
    obs = slice_empty b.obs start i;
    actions = slice_empty b.actions start i;
    rewards = slice_empty b.rewards start i;
    dones = slice_empty b.dones start i;
    log_probs = slice_empty b.log_probs start i;
    values = slice_empty b.values start i;
    advantages = slice_empty b.advantages start i;
    returns = slice_empty b.returns start i;
  }

  slice_batch-append :
      (b : RolloutBatch O A F) (start m k : ℕ)
      → append_batch (slice_batch b start (start + m)) (slice_batch b (start + m) (start + m + k))
        ≡ slice_batch b start (start + (m + k))
  slice_batch-append b start m k = λ i. record {
    obs = slice-append_slice b.obs start m k i;
    actions = slice-append_slice b.actions start m k i;
    rewards = slice-append_slice b.rewards start m k i;
    dones = slice-append_slice b.dones start m k i;
    log_probs = slice-append_slice b.log_probs start m k i;
    values = slice-append_slice b.values start m k i;
    advantages = slice-append_slice b.advantages start m k i;
    returns = slice-append_slice b.returns start m k i;
  }

  concat-minibatches_from :
      (rounds start size : ℕ) (b : RolloutBatch O A F)
      → concat_batches (minibatches_from rounds start size b)
        ≡ slice_batch b start (start + rounds * size)
  unfolding minibatches_from
  concat-minibatches_from zero start size b =
      let e : start + 0 * size ≡ start + 0 = omega arith in rw e (sym (slice_batch_empty b start))
  concat-minibatches_from (suc rounds) start size b =
      let e : start + suc rounds * size ≡ start + (size + rounds * size) = omega arith in
      rw e (
        ap (append_batch (slice_batch b start (start + size)))
          (concat-minibatches_from rounds (start + size) size b)
        ∙ slice_batch-append b start size (rounds * size))

  slice_batch-HasRows :
      (b : RolloutBatch O A F) (n start m : ℕ)
      → HasRows n b
      → start + m ≤ n
      → HasRows m (slice_batch b start (start + m))
  slice_batch-HasRows b n start m h fits = record {
    obs = length-slice b.obs start m (omega arith);
    actions = length-slice b.actions start m (omega arith);
    rewards = length-slice b.rewards start m (omega arith);
    dones = length-slice b.dones start m (omega arith);
    log_probs = length-slice b.log_probs start m (omega arith);
    values = length-slice b.values start m (omega arith);
    advantages = length-slice b.advantages start m (omega arith);
    returns = length-slice b.returns start m (omega arith);
  }

  minibatches_from-HasRows :
      (rounds start size n : ℕ) (b : RolloutBatch O A F)
      → HasRows n b
      → start + rounds * size ≤ n
      → All (HasRows size) (minibatches_from rounds start size b)
  unfolding minibatches_from
  minibatches_from-HasRows zero start size n b h fits = tt
  minibatches_from-HasRows (suc rounds) start size n b h fits = (
    slice_batch-HasRows b n start size h (omega arith),
    minibatches_from-HasRows rounds (start + size) size n b h (omega arith),
  )

  length-minibatches_from :
      (rounds start size : ℕ) (b : RolloutBatch O A F)
      → length (minibatches_from rounds start size b) ≡ rounds
  unfolding minibatches_from
  length-minibatches_from zero start size b = refl
  length-minibatches_from (suc rounds) start size b =
      ap suc (length-minibatches_from rounds (start + size) size b)

  sample_minibatches-reordered :
      (b s : RolloutBatch O A F) (size : ℕ) (shuffle : Bool) (perm : List ℕ) {n : ℕ}
      → length b.obs ≡ n
      → 0 < size
      → reordered b shuffle perm ≡ some s
      → sample_minibatches b size shuffle perm ≡ ok (minibatches_from (n / size) 0 size s)
  unfolding sample_minibatches
  sample_minibatches-reordered b s size shuffle perm rows pos e =
      rw (e, sample_minibatches) (ground arith)

  -- On a batch of n rows and with a batch size that is not zero, `sample_minibatches` succeeds,
  -- with or without shuffling (shuffling by n indices below n): its minibatches are
  -- n / batch_size in number, each has batch_size rows in all eight fields, and joined field by
  -- field they are the first (n / batch_size) * batch_size rows of the reordered batch, in order.
  pub sample_minibatches_partition :
      (b : RolloutBatch O A F) (size : ℕ) (shuffle : Bool) (perm : List ℕ) {n : ℕ}
      → HasRows n b
      → 0 < size
      → length perm ≡ n
      → All (λ i. i < n) perm
      → (s : RolloutBatch O A F) × (bs : List (RolloutBatch O A F)) × (reordered b shuffle perm
          ≡ some s)
        × (sample_minibatches b size shuffle perm ≡ ok bs)
        × (length bs ≡ n / size)
        × All (HasRows size) bs
        × (concat_batches bs ≡ slice_batch s 0 (n / size * size))
  sample_minibatches_partition b size shuffle perm {n} h pos len bound =
      let (s, e, hs) = reordered-HasRows b shuffle perm h len bound in
      let rounds : ℕ = n / size in
      let whole : concat_batches (minibatches_from rounds 0 size s)
          ≡ slice_batch s 0 (0 + rounds * size) =
        concat-minibatches_from rounds 0 size s in
      let zero_plus : 0 + rounds * size ≡ rounds * size = omega arith in
      let fits : 0 + rounds * size ≤ n = grind arith in
      (
        s,
        minibatches_from rounds 0 size s,
        e,
        sample_minibatches-reordered b s size shuffle perm h.obs pos e,
        length-minibatches_from rounds 0 size s,
        minibatches_from-HasRows rounds 0 size n s hs fits,
        rw zero_plus at whole,
      )
