-- ===== src/Contagion.antt =====
-- python/rlox_agent/contagion_detector.py: the monitor of a training process.
-- What the injected reader of /proc returned is an argument of each call. Growth and elapsed steps
-- are compared as sums, since the differences may be negative. The text of an event is kept as
-- the numbers that it is made of.
pub mod Window
pub mod FdLeak
pub mod Report
pub mod Failures
mod Tests
use rlox.Base.{
  ℕ, ◌+◌, ◌-◌, Bool, true, false, ◌&&◌, Option, none, some, List, [], ◌∷◌, ◌++◌, length,
  if◌then◌else◌, ltb, leb, Result, ok, raised, push_bounded,
}
use rlox.Base.Float.{Float}

pub data EventKind : Type 0 where
  -- the window whose mean was passed, and the reading
  vmrss_spike : (window : List ℕ) (current : ℕ) → EventKind
  fd_leak : (baseline current steps_elevated : ℕ) → EventKind
  server_reported : (count : ℕ) → EventKind

pub record ContagionEvent : Type 0 where
  pub step : ℕ
  pub kind : EventKind

pub record ContagionReport : Type 0 where
  pub total_events : ℕ
  pub events : List ContagionEvent

pub data Error : Type 0 where
  runtime_error zero_division reader_error : Error

pub record ProcStats : Type 0 where
  pub vmrss_kb : ℕ
  pub fd_size : ℕ

-- The entries of `backend_stats` that are read; each may be missing.
pub record BackendStats : Type 0 where
  pub is_adversarial : Option Bool
  pub contagion_events : Option ℕ

pub record ContagionDetector : Type 0 where
  pub started : Bool
  pub events : List ContagionEvent
  pub vmrss_window : List ℕ
  pub fd_baseline : Option ℕ
  pub fd_onset_step : Option ℕ

-- The arguments of `on_step`, and what the reader returned (`none` if it raised).
pub record Call : Type 0 where
  pub step_idx : ℕ
  pub backend_stats : BackendStats
  pub proc_stats : Option ProcStats

abbrev pub window_size : ℕ
window_size = 10

abbrev pub fd_growth_threshold : ℕ
fd_growth_threshold = 100

abbrev pub fd_grace_steps : ℕ
fd_grace_steps = 2

-- `ContagionDetector()`
abbrev pub init : ContagionDetector
init = record {
  started = false;
  events = [];
  vmrss_window = [];
  fd_baseline = none;
  fd_onset_step = none;
}

unfoldable pub start : ContagionDetector → ContagionDetector
start d = record {
  started = true;
  events = [];
  vmrss_window = [];
  fd_baseline = none;
  fd_onset_step = none;
}

-- The report, and the detector that is left.
unfoldable pub stop : ContagionDetector → Result Error (ContagionReport × ContagionDetector)
stop d =
    if d.started
    then ok
        (record { total_events = length d.events; events = d.events }, record d { started = false })
    else raised runtime_error

abbrev pub emit : ContagionDetector → ℕ → EventKind → ContagionDetector
emit d step kind = record d { events = d.events ++ record { step = step; kind = kind } ∷ [] }

abbrev pub flag : Option Bool → Bool
flag none = false
flag (some b) = b

abbrev pub number : Option ℕ → ℕ
number none = 0
number (some n) = n

abbrev pub sum : List ℕ → ℕ
sum [] = 0
sum (x ∷ xs) = x + sum xs

abbrev pub nonempty : List ℕ → Bool
nonempty [] = false
nonempty (x ∷ xs) = true

module _ (F : Float) where
  open F use {Carrier, of_ℕ, ratio, add, mul, div, lt, eq}

  -- `statistics.mean` of a window
  abbrev pub mean : List ℕ → Carrier
  mean window = div (of_ℕ (sum window)) (of_ℕ (length window))

  -- `vmrss_kb > vmrss_baseline * (1.0 + _VMRSS_SPIKE_THRESHOLD)`
  abbrev pub exceeds : List ℕ → ℕ → Bool
  exceeds window vmrss = lt (mul (mean window) (add (of_ℕ 1) (ratio 20 100))) (of_ℕ vmrss)

  -- Rule (a). The percentage of the message divides by the baseline.
  unfoldable pub check_vmrss : ContagionDetector → ℕ → Bool → ℕ → Result Error ContagionDetector
  check_vmrss d step is_adversarial vmrss =
      let next = λ (e : ContagionDetector). record e {
        vmrss_window = push_bounded window_size e.vmrss_window vmrss;
      } in
      if nonempty d.vmrss_window && (is_adversarial && exceeds d.vmrss_window vmrss)
      then if eq (mean d.vmrss_window) (of_ℕ 0)
        then raised zero_division
        else ok (next (emit d step (vmrss_spike d.vmrss_window vmrss)))
      else ok (next d)

-- Rule (b), where a baseline is there.
unfoldable pub check_fd_growth : ContagionDetector → ℕ → ℕ → ℕ → ContagionDetector
check_fd_growth d step fd_size baseline =
    let grown = ltb (baseline + fd_growth_threshold) fd_size in
    elim d.fd_onset_step [
      | none ↦ if grown then record d { fd_onset_step = some step } else d
      | some onset ↦
          if grown
          then if ltb (onset + fd_grace_steps) step
            then record (emit d step (fd_leak baseline fd_size (step - onset))) {
              fd_onset_step = none;
              fd_baseline = some fd_size;
            }
            else d
          else record d { fd_onset_step = none; fd_baseline = some fd_size }
    ]

unfoldable pub check_fd : ContagionDetector → ℕ → ℕ → ContagionDetector
unfolding check_fd_growth
check_fd d step fd_size = elim d.fd_baseline [
  | none ↦ record d { fd_baseline = some fd_size }
  | some baseline ↦ check_fd_growth d step fd_size baseline
]

-- Rule (c).
unfoldable pub check_server : ContagionDetector → ℕ → ℕ → ContagionDetector
check_server d step count = if ltb 0 count then emit d step (server_reported count) else d

module _ (F : Float) where
  unfoldable pub on_step : ContagionDetector → Call → Result Error ContagionDetector
  on_step d c =
      if d.started
      then elim c.proc_stats [
        | none ↦ raised reader_error
        | some p ↦
            let adversarial = flag c.backend_stats.is_adversarial in
            elim (check_vmrss F d c.step_idx adversarial p.vmrss_kb) [
              | raised e ↦ raised e
              | ok d' ↦ ok (
                  check_server (check_fd d' c.step_idx p.fd_size) c.step_idx
                    (number c.backend_stats.contagion_events))
            ]
      ]
      else raised runtime_error

  -- Several steps; the first that raises ends them.
  unfoldable pub run : ContagionDetector → List Call → Result Error ContagionDetector
  run d [] = ok d
  run d (c ∷ cs) = elim (on_step d c) [ raised e ↦ raised e | ok d' ↦ run d' cs ]
