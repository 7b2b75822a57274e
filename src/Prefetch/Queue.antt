-- ===== src/Prefetch/Queue.antt =====
-- python/rlox/gpu_buffer.py: which batches samples get after a prefetch.
use rlox.Base.{
  ℕ, zero, suc, ◌-◌, ◌≡◌, refl, sym, ap, ◌∙◌, Option, none, some, List, [], ◌∷◌, ◌++◌, append-nil,
  append_assoc, map, length, take, drop, last_n, push_bounded-last_n, drop-nil, Result, ok, raised,
}
use rlox.Prefetch.{
  Error, sample_error, ReplayBuffer, Batch, GpuReplayBuffer, sample_to_gpu, sample, prefetch,
  sample_each, push,
}

module _ (Inner Array Transition : Type 0) (R : ReplayBuffer Inner Array Transition) where
  -- A sample that does not use the queue
  abbrev pub fresh :
      GpuReplayBuffer Inner Array Transition → ℕ × ℕ → Result Error (Batch Inner Array Transition)
  fresh b (batch_size, seed) = elim (sample_to_gpu Inner Array Transition R b batch_size seed) [
    | none ↦ raised sample_error
    | some batch ↦ ok batch
  ]

  abbrev with_queue :
      GpuReplayBuffer Inner Array Transition
      → List (Batch Inner Array Transition)
      → GpuReplayBuffer Inner Array Transition
  with_queue b q = record b { prefetch_queue = q }

  -- Some pushes
  unfoldable pub push_each :
      List Transition
      → GpuReplayBuffer Inner Array Transition
      → GpuReplayBuffer Inner Array Transition
  unfolding push
  push_each [] b = b
  push_each (t ∷ ts) b = push_each ts (push Inner Array Transition R t b)

  -- The batches are what samples with the seeds from `seed` on give.
  abbrev pub AreSamples :
      GpuReplayBuffer Inner Array Transition → ℕ → ℕ → List (Batch Inner Array Transition) → Type 0
  AreSamples b batch_size seed [] = Unit
  AreSamples b batch_size seed (x ∷ xs) =
      (sample_to_gpu Inner Array Transition R b batch_size seed ≡ some x)
      × AreSamples b batch_size (suc seed) xs

  sample_to_gpu-with_queue :
      (b : GpuReplayBuffer Inner Array Transition) (q : List (Batch Inner Array Transition))
      (batch_size seed : ℕ)
      → sample_to_gpu Inner Array Transition R (with_queue b q) batch_size seed
        ≡ sample_to_gpu Inner Array Transition R b batch_size seed
  unfolding sample_to_gpu
  sample_to_gpu-with_queue b q batch_size seed = refl

  sample-fresh :
      (b : GpuReplayBuffer Inner Array Transition) (batch_size seed : ℕ)
      → sample Inner Array Transition R batch_size seed (with_queue b [])
        ≡ (fresh b (batch_size, seed), with_queue b [])
  unfolding sample
  sample-fresh b batch_size seed =
      ap given (sample_to_gpu-with_queue b [] batch_size seed)
      ∙ either (sample_to_gpu Inner Array Transition R b batch_size seed)
    where
      given :
          Option (Batch Inner Array Transition)
          → Result Error (Batch Inner Array Transition) × GpuReplayBuffer Inner Array Transition
      given none = (raised sample_error, with_queue b [])
      given (some batch) = (ok batch, with_queue b [])

      answer : Option (Batch Inner Array Transition) → Result Error (Batch Inner Array Transition)
      answer none = raised sample_error
      answer (some batch) = ok batch

      either : (o : Option (Batch Inner Array Transition)) → given o ≡ (answer o, with_queue b [])
      either none = refl
      either (some batch) = refl

  no_queue :
      {C : Type 0} (rs : List C) (f : Batch Inner Array Transition → C) (n : ℕ)
      → map f (take n []) ++ rs ≡ rs
  no_queue rs f zero = refl
  no_queue rs f (suc n) = refl

  -- Samples take the queue from the front; those past its end are fresh.
  sample_each-append :
      (b : GpuReplayBuffer Inner Array Transition) (q : List (Batch Inner Array Transition))
      (calls : List (ℕ × ℕ))
      → sample_each Inner Array Transition R calls (with_queue b q)
        ≡ map ok (take (length calls) q) ++ map (fresh b) (drop (length q) calls)
  unfolding sample_each
  sample_each-append b [] [] = refl
  sample_each-append b (x ∷ q) [] = refl
  sample_each-append b [] ((batch_size, seed) ∷ calls) =
      rw (sample_each, sample-fresh b batch_size seed)
        (ap (λ rs. fresh b (batch_size, seed) ∷ rs)
          (sample_each-append b [] calls ∙ no_queue (map (fresh b) calls) ok (length calls)))
  sample_each-append b (x ∷ q) ((batch_size, seed) ∷ calls) =
      ap (λ rs. ok x ∷ rs) (sample_each-append b q calls)

  prefetch-last_n :
      (b : GpuReplayBuffer Inner Array Transition) (batch_size seed : ℕ)
      (taken xs : List (Batch Inner Array Transition))
      → AreSamples b batch_size seed xs
      → prefetch Inner Array Transition R batch_size
          (length xs)
          seed
          (with_queue b (last_n b.prefetch_size taken))
        ≡ (ok tt, with_queue b (last_n b.prefetch_size (taken ++ xs)))
  unfolding prefetch
  prefetch-last_n b batch_size seed taken [] h = rw (append-nil taken) refl
  prefetch-last_n b batch_size seed taken (x ∷ xs) h =
      let q = last_n b.prefetch_size taken in
      let first = sample_to_gpu-with_queue b q batch_size seed ∙ h.0 in
      rw (prefetch, first, push_bounded-last_n b.prefetch_size taken x)
        (prefetch-last_n b batch_size (suc seed) (taken ++ x ∷ []) xs h.1
          ∙ ap (λ ys. (ok tt, with_queue b (last_n b.prefetch_size ys)))
              (append_assoc taken (x ∷ []) xs))

  -- Pushes leave the queue as it is.
  push_each-with_queue :
      (ts : List Transition) (b : GpuReplayBuffer Inner Array Transition)
      (q : List (Batch Inner Array Transition))
      → push_each ts (with_queue b q) ≡ with_queue (push_each ts b) q
  unfolding push_each push
  push_each-with_queue [] b q = refl
  push_each-with_queue (t ∷ ts) b q = push_each-with_queue ts (push Inner Array Transition R t b) q

  -- A buffer with an empty queue, a prefetch of batches none of which raises, then any pushes and
  -- any samples: the prefetch succeeds; the samples get the last of the prefetched batches, as many
  -- as the queue holds, in their order and as they were before the pushes, whatever sizes and seeds
  -- are asked for; the samples after those are taken from the buffer as it is then.
  pub prefetch-sample_each :
      (b : GpuReplayBuffer Inner Array Transition) (batch_size seed : ℕ)
      (xs : List (Batch Inner Array Transition)) (ts : List Transition) (calls : List (ℕ × ℕ))
      → b.prefetch_queue ≡ []
      → AreSamples b batch_size seed xs
      → (b' : GpuReplayBuffer Inner Array Transition) × (prefetch Inner Array Transition R
            batch_size
            (length xs)
            seed
            b
          ≡ (ok tt, b'))
        × (sample_each Inner Array Transition R calls (push_each ts b')
            ≡ map ok (take (length calls) (last_n b.prefetch_size xs))
              ++ map (fresh (push_each ts b)) (drop (length (last_n b.prefetch_size xs)) calls))
  prefetch-sample_each b batch_size seed xs ts calls none_yet h =
      let q = last_n b.prefetch_size xs in
      let start : with_queue b (last_n b.prefetch_size []) ≡ b =
        ap (with_queue b) (drop-nil (0 - b.prefetch_size) ∙ sym none_yet) in
      (
        with_queue b q,
        ap (prefetch Inner Array Transition R batch_size (length xs) seed) (sym start)
            ∙ prefetch-last_n b batch_size seed [] xs h,
        ap (sample_each Inner Array Transition R calls) (push_each-with_queue ts b q)
            ∙ sample_each-append (push_each ts b) q calls,
      )
