-- ===== src/Metrics.antt =====
-- python/rlox_agent/metric_collector.py: the per-step metrics of a training run.
-- The file is the list of the records written to it; `open_` says whether `_file` is there. What
-- the GPU sampler gave is an argument of each call, and `statistics.mean` is a parameter.
pub mod Recording
mod Tests
use rlox.Base.{
  ℕ, Bool, true, false, not, Option, none, some, List, [], ◌∷◌, ◌++◌, if◌then◌else◌, Result, ok,
  raised,
}
use rlox.Base.Float.{Float}

pub data Error : Type 0 where
  runtime_error attribute_error key_error value_error sampler_error : Error

module _ (F : Float) where
  pub record Record : Type 0 where
    pub step_idx : ℕ
    pub gpu_util : F.Carrier
    pub rollouts_per_sec : F.Carrier
    pub tool_calls_per_sec : F.Carrier
    pub wall_secs : F.Carrier
    pub warmup : Bool

  -- The arguments of `on_step`: the two entries of the statistics may be missing; and what the
  -- sampler gave, `none` if it raised.
  pub record Call : Type 0 where
    pub step_idx : ℕ
    pub rollouts_per_sec : Option F.Carrier
    pub tool_calls_per_sec : Option F.Carrier
    pub warmup : Bool
    pub wall_secs : F.Carrier
    pub sampled : Option F.Carrier

  pub record MetricCollector : Type 0 where
    pub open_ : Bool
    pub file : List Record
    pub started : Bool
    pub non_warmup_gpu_utils : List F.Carrier
    pub non_warmup_rollouts_per_sec : List F.Carrier
    pub non_warmup_tool_calls_per_sec : List F.Carrier

  pub record Summary : Type 0 where
    pub mean_gpu_util : F.Carrier
    pub mean_rollouts_per_sec : F.Carrier
    pub mean_tool_calls_per_sec : F.Carrier

  -- Before `start`, with what is on the disk.
  abbrev pub init : List Record → MetricCollector
  init file = record {
    open_ = false;
    file = file;
    started = false;
    non_warmup_gpu_utils = [];
    non_warmup_rollouts_per_sec = [];
    non_warmup_tool_calls_per_sec = [];
  }

  -- The file is opened for writing, which empties it.
  unfoldable pub start : MetricCollector → MetricCollector
  start m = record {
    open_ = true;
    file = [];
    started = true;
    non_warmup_gpu_utils = [];
    non_warmup_rollouts_per_sec = [];
    non_warmup_tool_calls_per_sec = [];
  }

  unfoldable pub stop : MetricCollector → MetricCollector
  stop m = if m.open_ then record m { open_ = false } else m

  -- The record of a step, or the first exception on the way to it.
  unfoldable pub make_record : Call → Result Error Record
  make_record c = elim c.sampled [
    | none ↦ raised sampler_error
    | some gpu ↦ elim c.rollouts_per_sec [
      | none ↦ raised key_error
      | some rollouts ↦ elim c.tool_calls_per_sec [
        | none ↦ raised key_error
        | some tools ↦ ok (record {
          step_idx = c.step_idx;
          gpu_util = gpu;
          rollouts_per_sec = rollouts;
          tool_calls_per_sec = tools;
          wall_secs = c.wall_secs;
          warmup = c.warmup;
        })
      ]
    ]
  ]

  -- The lists of the steps that are no warm-up.
  unfoldable pub add_measured : MetricCollector → Record → MetricCollector
  add_measured m r = if r.warmup then m else record m {
    non_warmup_gpu_utils = m.non_warmup_gpu_utils ++ r.gpu_util ∷ [];
    non_warmup_rollouts_per_sec = m.non_warmup_rollouts_per_sec ++ r.rollouts_per_sec ∷ [];
    non_warmup_tool_calls_per_sec = m.non_warmup_tool_calls_per_sec ++ r.tool_calls_per_sec ∷ [];
  }

  unfoldable pub on_step : MetricCollector → Call → Result Error MetricCollector
  unfolding make_record add_measured
  on_step m c =
      if m.started
      then elim (make_record c) [
        | raised e ↦ raised e
        | ok r ↦
            if m.open_
            then ok (add_measured (record m { file = m.file ++ r ∷ [] }) r)
            else raised attribute_error
      ]
      else raised runtime_error

  -- Several steps; the first that raises ends them.
  unfoldable pub run : MetricCollector → List Call → Result Error MetricCollector
  unfolding on_step
  run m [] = ok m
  run m (c ∷ cs) = elim (on_step m c) [ raised e ↦ raised e | ok m' ↦ run m' cs ]

  abbrev nonempty : List F.Carrier → Bool
  nonempty [] = false
  nonempty (_ ∷ _) = true

  module _ (mean : List F.Carrier → F.Carrier) where
    unfoldable pub summary : MetricCollector → Result Error Summary
    summary m =
        if nonempty m.non_warmup_gpu_utils
        then ok (record {
          mean_gpu_util = mean m.non_warmup_gpu_utils;
          mean_rollouts_per_sec = mean m.non_warmup_rollouts_per_sec;
          mean_tool_calls_per_sec = mean m.non_warmup_tool_calls_per_sec;
        })
        else raised value_error
