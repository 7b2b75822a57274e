-- ===== src/Callbacks/Tests.antt =====
-- python/rlox/callbacks.py on small inputs.
use rlox.Base.{
  ℕ, if◌then◌else◌, leb, ◌≡◌, refl, ◌≤◌, ◌↔◌, ◌+◌, ◌-◌, Bool, true, false, none, some, List, [],
  ◌∷◌, arith, map, ◌*◌, ok, ◌/◌,
}
use rlox.Base.Dict.{lookup}
use rlox.Base.Samples.{counting, counting-IsOrdered, counting-IsStrictOrder}
use rlox.Callbacks.EarlyStopping
use rlox.Callbacks.EarlyStopping.{observe, Tracks, early_stopping_peak}
use rlox.Callbacks.Checkpoint
use rlox.Callbacks.Checkpoint.{CheckpointFile, checkpoint, save_steps, upto, checkpoint_schedule}
use rlox.Callbacks.Timing
use rlox.Callbacks.Timing.{
  env_step, added, periods_of, run_hooks, on_training_start, Hook, phase_key, timing_accounts,
}
use rlox.Callbacks.Chain
use rlox.Callbacks.Chain.{Ends, on_step-Ends}
use rlox.Callbacks.Evaluation
use rlox.Callbacks.Evaluation.{Gym, EvalCallback, Algo}
use rlox.Callbacks.Evaluation.Termination
use rlox.Callbacks.Evaluation.Episodes.{HasTimeLimit}
use rlox.Callbacks.Evaluation.Best
use rlox.Callbacks.Evaluation.Best.{IsBestOf, eval_callback_best}

early_stopping_peak_example :
    let (go_on, c) =
      EarlyStopping.on_step counting
        (observe counting (EarlyStopping.init counting 2 0) (3 ∷ 5 ∷ 4 ∷ []))
        (some 5) in
    Tracks counting (λ n. Unit) counting-IsOrdered (3 ∷ 5 ∷ 4 ∷ 5 ∷ []) c.best_reward c.wait
    × ((go_on ≡ false) ↔ (2 ≤ c.wait))
early_stopping_peak_example =
    early_stopping_peak counting (λ n. Unit) counting-IsOrdered 2 0 (3 ∷ 5 ∷ 4 ∷ []) 5
      (λ a b. ground arith) (tt, (tt, (tt, tt))) tt

early_stopping_stops :
    (EarlyStopping.on_step counting
      (observe counting (EarlyStopping.init counting 2 0) (3 ∷ 5 ∷ 4 ∷ []))
      (some 5)).0
    ≡ false
unfolding EarlyStopping.on_step observe
early_stopping_stops = refl

checkpoint_schedule_example :
    save_steps (Checkpoint.init 3 "runs") 7 ≡ map (λ i. checkpoint "runs" (i * 3)) (upto 1 (7 / 3))
checkpoint_schedule_example = checkpoint_schedule 3 "runs" 7 (omega arith)

save_seven :
    save_steps (Checkpoint.init 3 "runs") 7 ≡ checkpoint "runs" 3 ∷ checkpoint "runs" 6 ∷ []
unfolding save_steps Checkpoint.on_step
save_seven = refl

abbrev calls : List (Hook × ℕ)
calls =
    (Hook.on_step, 5)
    ∷ (Hook.on_rollout_end, 7)
    ∷ (Hook.on_train_batch, 8)
    ∷ (Hook.on_step, 12)
    ∷ (Hook.on_training_end, 13)
    ∷ []

timing_accounts_example :
    lookup env_step
      (run_hooks counting (on_training_start counting (Timing.init counting) 2) calls).phase_times
    ≡ added counting none (periods_of counting env_step env_step 2 calls)
timing_accounts_example = timing_accounts counting 2 calls env_step

-- Up to the first call, from it to the next one, and from the last step to the end
env_steps_timed :
    added counting none (periods_of counting env_step env_step 2 calls) ≡ some (3 + 2 + 1)
env_steps_timed = refl

-- A callback is a number of steps left; the world counts the calls.
abbrev countdown : ℕ → ℕ → Bool × ℕ × ℕ
countdown left world = (if leb left 1 then false else true, left - 1, world + 1)

on_step-Ends_example :
    Ends countdown (3 ∷ 1 ∷ 2 ∷ []) 0 (Chain.on_step countdown (3 ∷ 1 ∷ 2 ∷ []) 0)
on_step-Ends_example = on_step-Ends countdown (3 ∷ 1 ∷ 2 ∷ []) 0

chain_stops : Chain.on_step countdown (3 ∷ 1 ∷ 2 ∷ []) 0 ≡ (false, 2 ∷ 0 ∷ 2 ∷ [], 2)
unfolding Chain.on_step
chain_stops = refl

-- An environment of three steps; the reward is the action.
abbrev gym : Gym counting
gym = record {
  Env = ℕ;
  Obs = ℕ;
  Act = ℕ;
  make = λ name. 0;
  reset = λ env. (3, 3);
  step = λ env a. (env - 1, env - 1, a, leb env 1, false);
}

gym-HasTimeLimit : HasTimeLimit counting gym
gym-HasTimeLimit = record {
  limit = 3;
  left = λ env. env;
  left-reset = λ env. omega arith;
  left-step = λ env a. ground arith;
}

abbrev evaluator : EvalCallback counting gym
evaluator = Best.init counting gym counting-IsStrictOrder (some 0) 2 2 (some "best.pt")

abbrev algo : Algo ℕ ℕ
algo = record {
  predict = some (λ obs. obs + 1);
  can_save = true;
  env_id = none;
  vec_normalize = some (record { training = false; normalize_obs = none });
}

abbrev after : Evaluation.Outcome counting gym
after = record {
  result = ok true;
  callback = record evaluator {
    eval_env = some 0;
    best_reward = 9;
    step_count = 2;
    eval_results = (2, 9) ∷ [];
  };
  algo = some (Evaluation.set_training counting gym true algo);
  saved = "best.pt" ∷ [];
}

evaluates_once : Evaluation.on_step counting gym 4 evaluator (some 2) (some algo) ≡ some after
unfolding Evaluation.on_step
evaluates_once = refl

eval_callback_best_example : IsBestOf counting gym counting-IsStrictOrder 9 ((2, 9) ∷ [])
eval_callback_best_example =
    eval_callback_best counting gym counting-IsStrictOrder "best.pt" (some 0) 2 2
      {c = after.callback} refl
      (Best.again 4 (some 2) (some algo) {o = after} Best.not_yet evaluates_once)
