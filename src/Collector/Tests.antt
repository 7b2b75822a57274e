-- ===== src/Collector/Tests.antt =====
-- python/rlox/off_policy_collector.py on small runs.
use rlox.Base.{ℕ, suc, ◌+◌, ◌≡◌, refl, true, false, some, List, [], ◌∷◌, ◌++◌, map, replicate, ◌==◌}
use rlox.Base.Samples.{counting}
use rlox.Collector.{
  Row, OffPolicyCollector, Parts, track, interact, pushes, reset, mean_reward, collect_step,
  collect_steps, collect_n_steps,
}
use rlox.Collector.Episodes.{
  return_of, histories, ended, turns, all_pushes, reset_world, collect_n_steps-ended,
}

-- Two environments that count their steps; the first ends its episodes at every second step.
abbrev rows : ℕ → List (Row counting ℕ)
rows n =
    record { next_obs = n + 1; reward = n + 1; terminated = n == 1; truncated = n == 3 }
    ∷ record { next_obs = n + 11; reward = 5; terminated = false; truncated = false }
    ∷ []

abbrev parts : Parts counting ℕ ℕ ℕ ℕ
parts = record {
  reset_all = λ e. (0 ∷ 10 ∷ [], 0);
  step_all = λ as_ e. (rows e, suc e);
  select_action = λ x as_ step total. (as_, suc x);
  reset_exploration = λ x. 0;
  clip = λ a. a;
  cast_obs = λ o. o;
  cast_action = λ a. a;
  cast_reward = λ r. r;
  mean = λ rs. 7;
}

abbrev policy : List ℕ → List ℕ
policy obs = obs

abbrev collector : OffPolicyCollector counting ℕ ℕ ℕ ℕ
collector = record {
  n_envs = 2;
  has_obs = false;
  world = record { env = 4; obs = []; exploration = some 3 };
  is_continuous = true;
  ep_rewards = 0 ∷ 0 ∷ [];
  completed_rewards = [];
  buffer = some [];
  has_push_batch = true;
}

completed :
    (collect_n_steps counting ℕ ℕ ℕ ℕ parts policy collector 4 0 100).0.completed_rewards
    ≡ 3 ∷ 7 ∷ []
unfolding collect_n_steps collect_steps collect_step track interact pushes reset
completed = refl

collect_n_steps-ended_example :
    (q : OffPolicyCollector counting ℕ ℕ ℕ ℕ) × (collect_n_steps counting ℕ ℕ ℕ ℕ parts policy
        (reset counting ℕ ℕ ℕ ℕ parts collector)
        4
        0
        100
      ≡ (
        q,
        mean_reward counting ℕ ℕ ℕ ℕ parts (
            ended counting ℕ ℕ ℕ ℕ (replicate 2 []) (
              turns counting ℕ ℕ ℕ ℕ parts policy true
                (reset_world counting ℕ ℕ ℕ ℕ parts policy collector.world)
                4
                0
                100)),
      ))
    × (q.completed_rewards
        ≡ ended counting ℕ ℕ ℕ ℕ (replicate 2 []) (
            turns counting ℕ ℕ ℕ ℕ parts policy true
              (reset_world counting ℕ ℕ ℕ ℕ parts policy collector.world)
              4
              0
              100))
    × (q.ep_rewards
        ≡ map (return_of counting ℕ ℕ ℕ ℕ) (
            histories counting ℕ ℕ ℕ ℕ (replicate 2 []) (
              turns counting ℕ ℕ ℕ ℕ parts policy true
                (reset_world counting ℕ ℕ ℕ ℕ parts policy collector.world)
                4
                0
                100)))
    × (q.buffer
        ≡ some (
            []
            ++ all_pushes counting ℕ ℕ ℕ ℕ parts policy 2 true (
                turns counting ℕ ℕ ℕ ℕ parts policy true
                  (reset_world counting ℕ ℕ ℕ ℕ parts policy collector.world)
                  4
                  0
                  100)))
collect_n_steps-ended_example =
    collect_n_steps-ended counting ℕ ℕ ℕ ℕ parts policy collector [] 4 0 100 refl
