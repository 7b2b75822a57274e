-- ===== src/Trainer.antt =====
-- python/rlox/trainer.py: the registry of algorithms, their statuses, and `Trainer`.
-- The classes of the algorithms, `str.lower`, `inspect.signature` and gymnasium are parameters. A
-- message is left out, a warning is a flag of the result.
pub mod Resolution
pub mod Evaluation
pub mod Episodes
pub mod Freezing
mod Tests
use rlox.Base.{
  ℕ, Bool, true, false, not, ◌&&◌, Option, none, some, List, [], ◌∷◌, ◌++◌, map, if◌then◌else◌,
  String, Result, ok, raised,
}
use rlox.Base.Dict.{string_eq, Dict, lookup, contains, insert}
use rlox.Base.Updates.{update}
use rlox.Plugins.{Class, Registries, elem}

pub data Status : Type 0 where
  validated experimental : Status

-- `_VALIDATED`
abbrev pub validated_names : List String
validated_names = "ppo" ∷ "sac" ∷ "td3" ∷ "dqn" ∷ "a2c" ∷ "trpo" ∷ []

-- The names under which `_register_builtins` registers its classes, in its order
abbrev pub builtin_names : List String
builtin_names =
    "ppo" ∷ "sac" ∷ "dqn" ∷ "a2c" ∷ "td3" ∷ "mappo" ∷ "dreamer" ∷ "impala" ∷ "dt" ∷ "qmix" ∷ "calql"
    ∷ "trpo" ∷ "diffusion" ∷ "mpo" ∷ "rwdtp" ∷ "rcdtp" ∷ "pqn" ∷ "crossq" ∷ "tqc" ∷ "recurrent_ppo"
    ∷ []

pub data Error : Type 0 where
  value_error : String → Error
  -- raised by the class or a method of it
  other_error : Error

module _ (Cls : Type 0) where
  abbrev pub Registry : Type 0
  Registry = Dict String Cls

  -- `register_algorithm`
  unfoldable pub register_algorithm : (String → String) → String → Cls → Registry → Registry
  register_algorithm lower name c r = insert (lower name) c r

  -- The loop of `_register_builtins`, with the class of each name
  unfoldable pub register_builtins : List (String × Cls) → Registry → Registry
  register_builtins [] r = r
  register_builtins ((name, c) ∷ classes) r =
      register_builtins classes (if contains name r then r else insert name c r)

  abbrev pub status_of_name : String → Status
  status_of_name name = if elem name validated_names then validated else experimental

  -- `ALGORITHM_STATUS`, filled at the import
  unfoldable pub statuses : Registry → Dict String Status
  statuses [] = []
  statuses ((name, c) ∷ r) = (name, status_of_name name) ∷ statuses r

unfoldable pub algorithm_status :
    (String → String) → Dict String Status → String → Result Error Status
algorithm_status lower table name = elim (lookup (lower name) table) [
  | none ↦ raised (value_error name)
  | some s ↦ ok s
]

-- `resolve_env_id`: the environments that gymnasium has after it.
unfoldable pub resolve_env_id : Registries → Dict String Class → String → Dict String Class
resolve_env_id plugins gym env_id = elim (lookup env_id plugins.envs) [
  | none ↦ gym
  | some c ↦ if contains env_id gym then gym else insert env_id c gym
]

-- What the constructor of an algorithm is called with.
pub data Value (Logger Callback Other : Type 0) : Type 0 where
  text : String → Value Logger Callback Other
  number : ℕ → Value Logger Callback Other
  logger : Option Logger → Value Logger Callback Other
  callbacks : Option (List Callback) → Value Logger Callback Other
  flag : Bool → Value Logger Callback Other
  other : Other → Value Logger Callback Other

pub data Algorithm (Cls : Type 0) : Type 0 where
  by_name : String → Algorithm Cls
  by_class : Cls → Algorithm Cls

module _ (Cls Algo Logger Callback Other : Type 0) where
  abbrev pub Kwargs : Type 0
  Kwargs = Dict String (Value Logger Callback Other)

  pub record Parts : Type 0 where
    pub lower : String → String
    pub class_name : Cls → String
    -- the parameters of `__init__`, if there is a signature
    pub parameters : Cls → Option (List String)
    pub construct : Cls → Kwargs → Result Error Algo
    pub has_logger : Algo → Bool
    pub set_logger : Logger → Algo → Algo
    -- `from_checkpoint(path, env_id=env)`
    pub restore : Cls → String → Option String → Result Error Algo
    pub env_id : Algo → String

  pub record Trainer : Type 0 where
    pub algo : Algo
    pub env : String
    pub logger : Option Logger
    pub callbacks : List Callback
    pub algo_label : String
    pub status : Status

  module _ (P : Parts) (registry : Registry Cls) (table : Dict String Status) where
    abbrev pub accepts_param : Cls → String → Bool
    accepts_param c param = elim (P.parameters c) [ none ↦ false | some ps ↦ elem param ps ]

    -- The class, its label and its status
    unfoldable pub resolve : Algorithm Cls → Result Error (Cls × String × Status)
    resolve (by_class c) = ok (c, P.class_name c, experimental)
    resolve (by_name name) = elim (lookup (P.lower name) registry) [
      | none ↦ raised (value_error name)
      | some c ↦
          ok (
            c,
            P.lower name,
            elim (lookup (P.lower name) table) [ none ↦ experimental | some s ↦ s ],
          )
    ]

    -- A name is warned about if it is experimental.
    abbrev pub is_warned : Algorithm Cls → Status → Bool
    is_warned (by_class c) s = false
    is_warned (by_name name) validated = false
    is_warned (by_name name) experimental = true

    abbrev pub accepted : Cls → String → Value Logger Callback Other → Kwargs
    accepted c param v = if accepts_param c param then (param, v) ∷ [] else []

    -- `algo_kwargs` before the update by the configuration
    abbrev pub base_kwargs :
        Cls → String → Option (List Callback) → Option Logger → ℕ → Bool → Kwargs
    base_kwargs c env cbs log seed compile =
        ("env_id", text env)
        ∷ ("seed", number seed)
        ∷ (accepted c "logger" (logger log)
            ++ (accepted c "callbacks" (callbacks cbs) ++ accepted c "compile" (flag compile)))

    unfoldable pub algo_kwargs :
        Cls → String → Kwargs → Option (List Callback) → Option Logger → ℕ → Bool → Kwargs
    algo_kwargs c env config cbs log seed compile =
        update (base_kwargs c env cbs log seed compile) config

    -- The logger is attached where the constructor does not take it.
    abbrev pub attached : Cls → Option Logger → Algo → Algo
    attached c none a = a
    attached c (some l) a =
        if not (accepts_param c "logger") && P.has_logger a then P.set_logger l a else a

    abbrev pub listed : Option (List Callback) → List Callback
    listed none = []
    listed (some cbs) = cbs

    -- `__init__`, after `resolve_env_id`: the trainer, and whether it warned
    unfoldable pub init :
        Algorithm Cls
        → String
        → Kwargs
        → Option (List Callback)
        → Option Logger
        → ℕ
        → Bool
        → Result Error (Trainer × Bool)
    unfolding resolve algo_kwargs
    init algorithm env config cbs log seed compile = elim (resolve algorithm) [
      | raised e ↦ raised e
      | ok (c, label, status) ↦
          elim (P.construct c (algo_kwargs c env config cbs log seed compile)) [
            | raised e ↦ raised e
            | ok a ↦ ok (
              record {
                algo = attached c log a;
                env = env;
                logger = log;
                callbacks = listed cbs;
                algo_label = label;
                status = status;
              },
              is_warned algorithm status,
            )
          ]
    ]

    -- `env or trainer.algo.env_id`
    abbrev pub env_or : Option String → Algo → String
    env_or none a = P.env_id a
    env_or (some env) a = if string_eq.beq env "" then P.env_id a else env

    unfoldable pub from_checkpoint : String → Algorithm Cls → Option String → Result Error Trainer
    unfolding resolve
    from_checkpoint path algorithm env = elim (resolve algorithm) [
      | raised e ↦ raised e
      | ok (c, label, status) ↦ elim (P.restore c path env) [
        | raised e ↦ raised e
        | ok a ↦ ok (record {
          algo = a;
          env = env_or env a;
          logger = none;
          callbacks = [];
          algo_label = label;
          status = status;
        })
      ]
    ]
