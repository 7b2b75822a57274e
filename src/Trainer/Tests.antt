-- ===== src/Trainer/Tests.antt =====
-- python/rlox/trainer.py on small inputs.
use rlox.Base.{
  Result, leb, if◌then◌else◌, arith, ◌⊎◌, ◌<◌, ◌||◌, ◌-◌, ℕ, ◌+◌, ◌≡◌, ◌↔◌, refl, true, false, none,
  some, List, [], ◌∷◌, String, ok, raised,
}
use rlox.Base.Dict.{string_eq, Dict, lookup, contains}
use rlox.Base.Updates.{or_else}
use rlox.Trainer.{
  validated, Error, other_error, builtin_names, value_error, Registry, register_builtins, statuses,
  algorithm_status, resolve_env_id, Value, number, Kwargs, Parts, base_kwargs,
}
use rlox.Base.Samples.{counting}
use rlox.Trainer.Evaluation.{Arrays, Gym, Agent, Policy, Stats, evaluate}
use rlox.Trainer.Episodes.{HasTimeLimit}
use rlox.Trainer.Freezing.{Ends, evaluate-Ends}
use rlox.Trainer.Resolution.{table, registry, kwargs_of, Created, init-Created}

-- A class is a number, an algorithm the class with what it was called with; names are in lower case.
abbrev Call : Type 0
Call = ℕ × Dict String (Value ℕ ℕ ℕ)

abbrev parts : Parts ℕ Call ℕ ℕ ℕ
parts = record {
  lower = λ s. s;
  class_name = λ c. "Class";
  parameters = λ c. some ("self" ∷ "env_id" ∷ "seed" ∷ "compile" ∷ []);
  construct = λ c kwargs. ok (c, kwargs);
  has_logger = λ a. false;
  set_logger = λ l a. a;
  restore = λ c path env. ok (c, []);
  env_id = λ a. "CartPole-v1";
}

abbrev numbered : List String → ℕ → List (String × ℕ)
numbered [] n = []
numbered (s ∷ ss) n = (s, n) ∷ numbered ss (n + 1)

abbrev at_import : Registry ℕ
at_import = numbered builtin_names 0

builtins_registered : register_builtins ℕ (numbered builtin_names 0) [] ≡ at_import
unfolding register_builtins
builtins_registered = refl

abbrev mine : List (String × ℕ)
mine = ("mine", 90) ∷ ("ppo", 91) ∷ []

abbrev config : Kwargs ℕ Call ℕ ℕ ℕ
config = ("seed", number 7) ∷ ("n_envs", number 16) ∷ []

init-Created_example :
    Created ℕ Call ℕ ℕ ℕ parts at_import mine "mine" "CartPole-v1" config none none 42 true
    × (lookup "seed" (
          kwargs_of ℕ Call ℕ ℕ ℕ parts at_import mine "mine" "CartPole-v1" config none none 42 true
            90)
        ≡ or_else (lookup "seed" config) (
            lookup "seed" (
              base_kwargs ℕ Call ℕ ℕ ℕ parts
                (registry ℕ Call ℕ ℕ ℕ parts at_import mine)
                (table ℕ Call ℕ ℕ ℕ parts at_import mine)
                90
                "CartPole-v1"
                none
                none
                42
                true)))
    × ((algorithm_status (λ s. s) (table ℕ Call ℕ ℕ ℕ parts at_import mine) "mine"
          ≡ raised (value_error "mine"))
        ↔ (contains "mine" at_import ≡ false))
init-Created_example =
    init-Created ℕ Call ℕ ℕ ℕ parts at_import mine "mine" "CartPole-v1" config none none 42 true 90
      "seed" (refl, (refl, tt))

-- The name works, but has no status.
registered_later :
    algorithm_status (λ s. s) (statuses ℕ at_import) "mine" ≡ raised (value_error "mine")
unfolding algorithm_status statuses
registered_later = refl

-- A class that takes the name of a validated one has its status.
status_inherited : algorithm_status (λ s. s) (statuses ℕ at_import) "ppo" ≡ ok validated
unfolding algorithm_status statuses
status_inherited = refl

kept_in_gym :
    resolve_env_id (record { envs = []; buffers = []; rewards = [] }) [] "CartPole-v1" ≡ []
unfolding resolve_env_id
kept_in_gym = refl

-- An environment counts its steps down; the sixth action that the algorithm is asked for raises.
abbrev arrays : Arrays
arrays = record {
  Arr = ℕ;
  Shape = Unit;
  Dtype = Unit;
  Int = ℕ;
  first_int = λ a. ok a;
  reshape = λ s a. ok a;
  astype = λ d a. ok a;
}

abbrev countdown : Gym counting arrays
countdown = record {
  Env = ℕ;
  Obs = ℕ;
  make = λ name render. 0;
  action_space = λ n. record { has_n = true; shape = none; dtype = none };
  reset = λ seed n. (2, seed);
  step = λ n a. (n - 1, n, 1, leb n 1, false);
}

counted : (n : ℕ) → (leb n 1 || false ≡ true) ⊎ (n - 1 < n)
counted n = ground arith

abbrev countdown_limited : HasTimeLimit counting arrays countdown
countdown_limited = record {
  limit = 3;
  left = λ n. n;
  left-reset = λ seed n. omega arith;
  left-step = λ n a. counted n;
}

abbrev policy : Policy counting arrays countdown ℕ
policy = record {
  predict = λ s obs. (s + 1, if leb s 4 then ok obs else raised other_error);
  reset_predict_state = none;
}

abbrev stats : Stats counting arrays countdown ℕ
stats = record { Summary = List ℕ × List ℕ; summary = λ r rs ls n. (r ∷ rs, ls) }

abbrev agent : Agent ℕ ℕ
agent = record {
  state = 0;
  vec_normalize = some (record { training = true; normalize_obs = none });
}

evaluate-Ends_example :
    (a' : Agent ℕ ℕ) × (res : Result Error (List ℕ × List ℕ)) × (evaluate counting arrays countdown
        ℕ policy stats 3 "CartPole-v1" 2 7 false agent
      ≡ some (a', res))
    × Ends counting arrays countdown ℕ policy 3 stats 2 7 0 agent a' res
evaluate-Ends_example =
    evaluate-Ends counting arrays countdown ℕ policy countdown_limited stats "CartPole-v1" 2 7 false
      agent

two_evaluated :
    evaluate counting arrays countdown ℕ policy stats 3 "CartPole-v1" 2 7 false agent
    ≡ some (record agent { state = 4 }, ok (2 ∷ 2 ∷ [], 2 ∷ 2 ∷ []))
unfolding evaluate
two_evaluated = refl

-- The sixth action raises, and the statistics stay frozen.
third_interrupted :
    evaluate counting arrays countdown ℕ policy stats 3 "CartPole-v1" 3 7 false agent
    ≡ some (
      record {
        state = 6;
        vec_normalize = some (record { training = false; normalize_obs = none });
      },
      raised other_error,
    )
unfolding evaluate
third_interrupted = refl
