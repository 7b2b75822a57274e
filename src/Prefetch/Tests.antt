-- ===== src/Prefetch/Tests.antt =====
-- python/rlox/gpu_buffer.py on small inputs.
use rlox.Base.{
  ℕ, ◌+◌, ◌≡◌, refl, true, false, some, none, List, [], ◌∷◌, ◌++◌, map, length, take, drop, last_n,
  ok, raised,
}
use rlox.Prefetch.{
  import_error, ReplayBuffer, Batch, GpuReplayBuffer, init, push, sample, prefetch, sample_to_gpu,
  sample_each,
}
use rlox.Prefetch.Queue.{fresh, push_each, AreSamples, prefetch-sample_each}

-- A buffer that counts its transitions; a sample is the count plus the seed.
abbrev counter : ReplayBuffer ℕ ℕ ℕ
counter = record {
  push = λ t n. n + 1;
  push_batch = λ ts n. n + length ts;
  len = λ n. n;
  sample = λ n batch_size seed. some (("obs", n + seed) ∷ []);
  sample_flat = none;
}

abbrev buffer : GpuReplayBuffer ℕ ℕ ℕ
buffer = record { inner = 100; device = "cpu"; prefetch_size = 2; prefetch_queue = [] }

abbrev holding : ℕ → Batch ℕ ℕ ℕ
holding v = ("obs", record { values = v; device = none }) ∷ []

abbrev batches : List (Batch ℕ ℕ ℕ)
batches = holding 107 ∷ holding 108 ∷ holding 109 ∷ []

batches-AreSamples : AreSamples ℕ ℕ ℕ counter buffer 32 7 batches
unfolding sample_to_gpu
batches-AreSamples = (refl, (refl, (refl, tt)))

prefetch-sample_each_example :
    (b' : GpuReplayBuffer ℕ ℕ ℕ) × (prefetch ℕ ℕ ℕ counter 32 3 7 buffer ≡ (ok tt, b'))
    × (sample_each ℕ ℕ ℕ counter
          ((1, 0) ∷ (1, 0) ∷ (1, 5) ∷ [])
          (push_each ℕ ℕ ℕ counter (4 ∷ []) b')
        ≡ map ok (take 3 (last_n 2 batches))
          ++ map
              (fresh ℕ ℕ ℕ counter (push_each ℕ ℕ ℕ counter (4 ∷ []) buffer))
              (drop (length (last_n 2 batches)) ((1, 0) ∷ (1, 0) ∷ (1, 5) ∷ [])))
prefetch-sample_each_example =
    prefetch-sample_each ℕ ℕ ℕ counter buffer 32 7 batches (4 ∷ []) ((1, 0) ∷ (1, 0) ∷ (1, 5) ∷ [])
      refl batches-AreSamples

-- Of three prefetched batches, a queue for two loses the first.
first_lost :
    sample_each ℕ ℕ ℕ counter
      ((1, 0) ∷ (1, 0) ∷ (1, 5) ∷ [])
      (push_each ℕ ℕ ℕ counter (4 ∷ []) (prefetch ℕ ℕ ℕ counter 32 3 7 buffer).1)
    ≡ ok (holding 108) ∷ ok (holding 109) ∷ ok (holding 106) ∷ []
unfolding sample_each sample prefetch sample_to_gpu push_each push
first_lost = refl

no_cuda :
    init ℕ ℕ ℕ true false 100 "cuda:0" 4
    ≡ ok (record { inner = 100; device = "cpu"; prefetch_size = 4; prefetch_queue = [] })
unfolding init
no_cuda = refl

no_torch : init ℕ ℕ ℕ false false 100 "cpu" 4 ≡ raised import_error
unfolding init
no_torch = refl
