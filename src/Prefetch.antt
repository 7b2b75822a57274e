-- ===== src/Prefetch.antt =====
-- python/rlox/gpu_buffer.py: `GPUReplayBuffer` and its queue of prefetched batches.
-- The replay buffer inside comes from the Rust extension and is a parameter. A tensor is its values
-- with the device they are on; CUDA streams change when a transfer runs, not what it gives.
pub mod Queue
mod Tests
use rlox.Base.{
  ℕ, zero, suc, ◌+◌, Bool, true, false, not, ◌&&◌, Option, none, some, List, [], ◌∷◌, map,
  if◌then◌else◌, length, push_bounded, String, Result, ok, raised,
}
use rlox.Base.Dict.{Dict}
use text.Mathlib.Text.{starts_with}

pub data Error : Type 0 where
  import_error sample_error : Error

module _ (Inner Array Transition : Type 0) where
  -- The methods of `rlox.ReplayBuffer`; a sample may raise.
  pub record ReplayBuffer : Type 0 where
    pub push : Transition → Inner → Inner
    pub push_batch : List Transition → Inner → Inner
    pub len : Inner → ℕ
    pub sample : Inner → (batch_size seed : ℕ) → Option (Dict String Array)
    -- `sample_flat`, where the extension has it
    pub sample_flat : Option (Inner → (batch_size seed : ℕ) → Option (Dict String Array))

  -- `none` where the tensor was not moved from the memory of the host
  pub record Tensor : Type 0 where
    pub values : Array
    pub device : Option String

  abbrev pub Batch : Type 0
  Batch = Dict String Tensor

  pub record GpuReplayBuffer : Type 0 where
    pub inner : Inner
    pub device : String
    pub prefetch_size : ℕ
    pub prefetch_queue : List Batch

  unfoldable pub init :
      (has_torch is_available : Bool) → Inner → String → ℕ → Result Error GpuReplayBuffer
  init has_torch is_available inner device prefetch_size =
      if has_torch
      then ok (record {
        inner = inner;
        device = if starts_with device "cuda" && not is_available then "cpu" else device;
        prefetch_size = prefetch_size;
        prefetch_queue = [];
      })
      else raised import_error

  module _ (R : ReplayBuffer) where
    unfoldable pub push : Transition → GpuReplayBuffer → GpuReplayBuffer
    push t b = record b { inner = R.push t b.inner }

    unfoldable pub push_batch : List Transition → GpuReplayBuffer → GpuReplayBuffer
    push_batch ts b = record b { inner = R.push_batch ts b.inner }

    -- `__len__`
    abbrev pub len : GpuReplayBuffer → ℕ
    len b = R.len b.inner

    abbrev pub raw_sample : Inner → ℕ → ℕ → Option (Dict String Array)
    raw_sample i batch_size seed = elim R.sample_flat [
      | none ↦ R.sample i batch_size seed
      | some flat ↦ flat i batch_size seed
    ]

    -- The type of a device is "cpu" also where a number follows it.
    abbrev pub moved : String → String × Array → String × Tensor
    moved device (k, a) =
        (k, record { values = a; device = if starts_with device "cpu" then none else some device })

    unfoldable pub sample_to_gpu : GpuReplayBuffer → ℕ → ℕ → Option Batch
    sample_to_gpu b batch_size seed = elim (raw_sample b.inner batch_size seed) [
      | none ↦ none
      | some raw ↦ some (map (moved b.device) raw)
    ]

    unfoldable pub sample : ℕ → ℕ → GpuReplayBuffer → Result Error Batch × GpuReplayBuffer
    unfolding sample_to_gpu
    sample batch_size seed b = elim b.prefetch_queue [
      | [] ↦ elim (sample_to_gpu b batch_size seed) [
        | none ↦ (raised sample_error, b)
        | some batch ↦ (ok batch, b)
      ]
      | batch ∷ queue ↦ (ok batch, record b { prefetch_queue = queue })
    ]

    -- `prefetch`, with the batches that are left; a sample that raises leaves what came before it.
    unfoldable pub prefetch :
        ℕ → ℕ → ℕ → GpuReplayBuffer → Result Error (Unit {0}) × GpuReplayBuffer
    unfolding sample_to_gpu
    prefetch batch_size zero seed b = (ok tt, b)
    prefetch batch_size (suc n) seed b = elim (sample_to_gpu b batch_size seed) [
      | none ↦ (raised sample_error, b)
      | some batch ↦
          prefetch batch_size n (suc seed)
            (record b { prefetch_queue = push_bounded b.prefetch_size b.prefetch_queue batch })
    ]

    abbrev pub prefetch_queue_size : GpuReplayBuffer → ℕ
    prefetch_queue_size b = length b.prefetch_queue

    -- Calls of `sample` one after another, with what they give
    unfoldable pub sample_each : List (ℕ × ℕ) → GpuReplayBuffer → List (Result Error Batch)
    unfolding sample
    sample_each [] b = []
    sample_each ((batch_size, seed) ∷ calls) b =
        let (r, b') = sample batch_size seed b in r ∷ sample_each calls b'
