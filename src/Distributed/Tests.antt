-- ===== src/Distributed/Tests.antt =====
-- python/rlox/distributed/pipeline.py on small inputs: batches that are numbered, and two
-- environments that count.
use rlox.Base.{
  ℕ, ◌+◌, ◌*◌, ◌≤◌, ◌≡◌, ◌≢◌, refl, true, false, Option, some, List, [], ◌∷◌, length, map,
  replicate, length-map, length-replicate, arith, ◌==◌,
}
use rlox.Base.Samples.{counting}
use rlox.Batch.{RolloutBatch}
use rlox.Batch.Minibatches.{HasRows}
use rlox.Collector.{Row}
use rlox.Distributed.Threads.{
  checking, putting, ended, Pipeline, init, Action, collector_turn, call_next_batch,
  call_try_next_batch, call_close, run,
}
use rlox.Distributed.Fifo.{Do, channel, run-Do}
use rlox.Distributed.Delivery.{InOrder, run-InOrder, run-bounded}
use rlox.Distributed.Shutdown.{close-ended, Serves, collector_step-Serves}
use rlox.Distributed.Collection.{Parts, Loop, turns, collect}
use rlox.Distributed.Rows.{IsRow, collect-IsRow}
use rlox.Distributed.Estimates.{IsVectorised}

abbrev numbered : ℕ → Option (ℕ × ℕ)
numbered n = some (n, n + 1)

abbrev start : Pipeline ℕ ℕ
start = init ℕ ℕ 1 5

-- Two batches are made, the second waits for room, and the learner takes the first.
abbrev schedule : List (Action ℕ ℕ)
schedule =
    collector_turn ∷ call_next_batch ∷ collector_turn ∷ collector_turn ∷ collector_turn
    ∷ collector_turn ∷ collector_turn ∷ collector_turn ∷ collector_turn ∷ call_try_next_batch
    ∷ call_close ∷ collector_turn ∷ []

after : run ℕ ℕ numbered schedule start ≡ (
  5 ∷ [],
  record { channel_capacity = 1; queue = []; stop_event = true; thread = checking; loop = 7 },
)
unfolding run init
after = refl

run-Do_example :
    Do ℕ ℕ numbered
      (channel ℕ ℕ numbered start)
      (run ℕ ℕ numbered schedule start).0
      (channel ℕ ℕ numbered (run ℕ ℕ numbered schedule start).1)
run-Do_example = run-Do ℕ ℕ numbered schedule start

run-InOrder_example :
    InOrder ℕ ℕ numbered 1 5 (run ℕ ℕ numbered schedule start).0 (run ℕ ℕ numbered schedule start).1
run-InOrder_example = run-InOrder ℕ ℕ numbered 1 5 schedule

run-bounded_example : length (run ℕ ℕ numbered schedule start).1.queue ≤ 1
run-bounded_example = run-bounded ℕ ℕ numbered 1 5 schedule (omega arith)

-- A thread in a put to a full queue
abbrev blocked : Pipeline ℕ ℕ
blocked = record {
  channel_capacity = 1;
  queue = 5 ∷ [];
  stop_event = false;
  thread = putting 6;
  loop = 7;
}

close-ended_example :
    (run ℕ ℕ numbered
      (call_close ∷ collector_turn ∷ call_try_next_batch ∷ collector_turn ∷ collector_turn ∷ [])
      blocked).1.thread
    ≡ ended
close-ended_example =
    close-ended ℕ ℕ numbered blocked
      (collector_turn ∷ call_try_next_batch ∷ collector_turn ∷ collector_turn ∷ []) (omega arith)

alive : start.thread ≢ ended
unfolding init
alive h = cc

collector_step-Serves_example : Serves ℕ ℕ numbered start
unfolding init
collector_step-Serves_example =
    collector_step-Serves ℕ ℕ numbered (λ l. (l, l + 1, refl)) start refl refl alive

-- Environments whose rows depend on the action only, and that cut an episode short at action 1
abbrev counters : List ℕ → List ℕ → List (Row counting ℕ) × List ℕ
counters [] env = ([], env)
counters (a ∷ actions) env =
    let rest = counters actions env in
    (
      record { next_obs = a + 1; reward = a + 4; terminated = false; truncated = a == 1 } ∷ rest.0,
      rest.1,
    )

abbrev parts : Parts counting (List ℕ) ℕ ℕ
parts = record {
  step_all = counters;
  randint = λ high n rng. (replicate n rng, rng + 1);
  compute_gae = λ r v d last gamma lam. (map (λ x. x * 2) r, map (λ x. x * 3) r);
  cast_obs = λ o. o;
  cast = λ x. x;
}

counters-length : (actions env : List ℕ) → length (counters actions env).0 ≡ length actions
counters-length [] env = refl
counters-length (a ∷ actions) env = omega (arith, counters-length actions env)

parts-IsVectorised : IsVectorised counting (List ℕ) ℕ ℕ parts 2
parts-IsVectorised = record {
  draws = λ high n rng. length-replicate n rng;
  steps = λ actions env h. omega (arith, counters-length actions env);
  estimates = λ r v d last gamma lam. (length-map r _, length-map r _);
}

abbrev at_start : Loop counting (List ℕ) ℕ ℕ
at_start = record { env = []; obs = 8 ∷ 9 ∷ []; rng = 0 }

collect-IsRow_example :
    (b : RolloutBatch ℕ ℕ ℕ) × (collect counting (List ℕ) ℕ ℕ parts 2 3 at_start
      ≡ some (b, (turns counting (List ℕ) ℕ ℕ parts 2 3 at_start).1))
    × HasRows (3 * 2) b
    × IsRow counting (List ℕ) ℕ ℕ parts 2 (turns counting (List ℕ) ℕ ℕ parts 2 3 at_start).0 b 1 1
collect-IsRow_example =
    collect-IsRow counting (List ℕ) ℕ ℕ parts 3 2 1 1 at_start parts-IsVectorised refl (omega arith)
      (omega arith)
