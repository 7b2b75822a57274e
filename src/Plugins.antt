-- ===== src/Plugins.antt =====
-- python/rlox/plugins.py: the registries of environments, buffers and reward shapers.
-- A class is what the decorators read of it; `difflib`, entry points and constructors of classes are
-- parameters. The text of a message is left out but for the suggestions.
pub mod Loading
pub mod Registration
mod Tests
use Prim.Native.Nat.{Ordering}
use Prim.Native.String.{compare}
use rlox.Base.{
  ℕ, Bool, true, false, ◌||◌, Option, none, some, List, [], ◌∷◌, map, if◌then◌else◌, String, Result,
  ok, raised,
}
use rlox.Base.Updates.{update}
use rlox.Base.Dict.{string_eq, Dict, lookup, insert}

pub record Class : Type 0 where
  -- `cls.__name__`
  pub name : String
  -- what `hasattr` finds
  pub attributes : List String
  -- the keys of `cls.__dict__`
  pub own : List String

pub record Registries : Type 0 where
  pub envs : Dict String Class
  pub buffers : Dict String Class
  pub rewards : Dict String Class

pub data Error : Type 0 where
  -- the class and the method that it misses
  type_error : (cls method : String) → Error
  -- the name and its suggestions
  value_error : String → List String → Error

-- `name in names`
abbrev pub elem : String → List String → Bool
elem s [] = false
elem s (t ∷ ts) = if string_eq.beq s t then true else elem s ts

-- The first of the methods that the class does not have
abbrev pub first_missing : Class → List String → Option String
first_missing c [] = none
first_missing c (m ∷ ms) = if elem m c.attributes then first_missing c ms else some m

unfoldable pub register_env : String → Class → Registries → Result Error Registries
register_env name c r = elim (first_missing c ("step" ∷ "reset" ∷ [])) [
  | some m ↦ raised (type_error c.name m)
  | none ↦ ok (record r { envs = insert name c r.envs })
]

unfoldable pub register_buffer : String → Class → Registries → Result Error Registries
register_buffer name c r = elim (first_missing c ("push" ∷ "sample" ∷ "__len__" ∷ [])) [
  | some m ↦ raised (type_error c.name m)
  | none ↦ ok (record r { buffers = insert name c r.buffers })
]

unfoldable pub register_reward : String → Class → Registries → Result Error Registries
register_reward name c r =
    if elem "shape" c.own || elem "__call__" c.own
    then ok (record r { rewards = insert name c r.rewards })
    else raised (type_error c.name "shape or __call__")

-- `sorted(names)`
abbrev pub insert_sorted : String → List String → List String
insert_sorted s [] = s ∷ []
insert_sorted s (t ∷ ts) =
    let rest = insert_sorted s ts in elim (compare s t) [ Ordering.gt ↦ t ∷ rest | _ ↦ s ∷ t ∷ ts ]

unfoldable pub sorted : List String → List String
sorted [] = []
sorted (s ∷ ss) = insert_sorted s (sorted ss)

abbrev pub keys : Dict String Class → List String
keys d = map (λ (e : String × Class). e.0) d

module _ (close_matches : String → List String → List String) where
  abbrev pub chosen : String → Dict String Class → Result Error Class
  chosen name all = elim (lookup name all) [
    | none ↦ raised (value_error name (close_matches name (keys all)))
    | some c ↦ ok c
  ]

  -- The class that `get_buffer` applies to its other arguments
  unfoldable pub get_buffer :
      (replay prioritized : Class) → String → Registries → Result Error Class
  unfolding update
  get_buffer replay prioritized name r =
      chosen name (update (("replay", replay) ∷ ("prioritized", prioritized) ∷ []) r.buffers)

  -- The class that `get_reward_shaper` applies to its other arguments
  unfoldable pub get_reward_shaper :
      (potential goal_distance : Class) → String → Registries → Result Error Class
  unfolding update
  get_reward_shaper potential goal_distance name r =
      chosen name
        (update (("potential", potential) ∷ ("goal_distance", goal_distance) ∷ []) r.rewards)

-- A decorated class
pub data Op : Type 0 where
  env_op buffer_op reward_op : String → Class → Op

unfoldable pub apply : Op → Registries → Result Error Registries
unfolding register_env register_buffer register_reward
apply (env_op name c) r = register_env name c r
apply (buffer_op name c) r = register_buffer name c r
apply (reward_op name c) r = register_reward name c r

-- The classes of a module in order, up to the first that raises
unfoldable pub load : List Op → Registries → Result Error (Unit {0}) × Registries
unfolding apply
load [] r = (ok tt, r)
load (op ∷ ops) r = elim (apply op r) [ raised e ↦ (raised e, r) | ok r' ↦ load ops r' ]

-- `discover_plugins`, with the modules of the entry points
unfoldable pub discover_plugins : List (List Op) → Registries → Result Error (Unit {0}) × Registries
unfolding load
discover_plugins [] r = (ok tt, r)
discover_plugins (ops ∷ modules) r =
    let (result, r') = load ops r in
    elim result [ raised e ↦ (raised e, r') | ok _ ↦ discover_plugins modules r' ]

-- `list_registered`, with the algorithms that are registered
unfoldable pub list_registered : List String → Registries → Dict String (List String)
unfolding sorted
list_registered algorithms r =
    ("algorithms", sorted algorithms)
    ∷ ("environments", sorted (keys r.envs))
    ∷ ("buffers", sorted (keys r.buffers))
    ∷ ("rewards", sorted (keys r.rewards))
    ∷ []
