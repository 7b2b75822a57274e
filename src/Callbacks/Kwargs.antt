-- ===== src/Callbacks/Kwargs.antt =====
-- python/rlox/callbacks.py: what the hooks share.
use rlox.Base.{ℕ, ◌+◌, Option, none, some}

-- `kwargs.get("step")`, or one more than the count so far.
abbrev pub next_step : Option ℕ → ℕ → ℕ
next_step none count = count + 1
next_step (some step) count = step

pub data Error : Type 0 where
  zero_division : Error
