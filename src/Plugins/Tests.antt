-- ===== src/Plugins/Tests.antt =====
-- python/rlox/plugins.py on small inputs.
use rlox.Base.{◌≡◌, refl, List, [], ◌∷◌, String, ok, raised}
use rlox.Base.Dict.{string_eq}
use rlox.Base.Updates.{update}
use rlox.Plugins.{
  Class, register_env, register_buffer, register_reward, sorted, get_buffer, get_reward_shaper, Op,
  env_op, buffer_op, apply, load, discover_plugins, type_error, value_error,
}
use rlox.Plugins.Loading.{Loaded, concat}
use rlox.Plugins.Registration.{empty, Gives, discover_plugins-Gives}

abbrev buffer : String → Class
buffer name = record { name = name; attributes = "push" ∷ "sample" ∷ "__len__" ∷ []; own = [] }

abbrev shapeless : Class
shapeless = record { name = "Shapeless"; attributes = "__call__" ∷ []; own = [] }

-- A plugin that takes the name of a built-in buffer, and one whose environment is none
abbrev modules : List (List Op)
modules =
    (buffer_op "replay" (buffer "Mine") ∷ buffer_op "ring" (buffer "Ring") ∷ [])
    ∷ (env_op "cart" (buffer "Cart") ∷ [])
    ∷ []

abbrev no_matches : String → List String → List String
no_matches name names = []

discover_plugins-Gives_example :
    (l : Loaded (concat modules) empty (discover_plugins modules empty)) × Gives no_matches
      (buffer "ReplayBuffer")
      (buffer "PrioritizedReplayBuffer")
      "replay"
      l.done
      (get_buffer no_matches
        (buffer "ReplayBuffer")
        (buffer "PrioritizedReplayBuffer")
        "replay"
        (discover_plugins modules empty).1)
discover_plugins-Gives_example =
    discover_plugins-Gives no_matches (buffer "ReplayBuffer") (buffer "PrioritizedReplayBuffer")
      modules "replay"

-- The registered class hides the built-in one.
built_in_hidden :
    get_buffer no_matches
      (buffer "ReplayBuffer")
      (buffer "PrioritizedReplayBuffer")
      "replay"
      (discover_plugins modules empty).1
    ≡ ok (buffer "Mine")
unfolding get_buffer update discover_plugins load apply register_env register_buffer
built_in_hidden = refl

second_plugin_fails : (discover_plugins modules empty).0 ≡ raised (type_error "Cart" "step")
unfolding discover_plugins load apply register_env register_buffer
second_plugin_fails = refl

inherited_call :
    register_reward "r" shapeless empty ≡ raised (type_error "Shapeless" "shape or __call__")
unfolding register_reward
inherited_call = refl

buffers_sorted : sorted ("b" ∷ "c" ∷ "a" ∷ []) ≡ "a" ∷ "b" ∷ "c" ∷ []
unfolding sorted
buffers_sorted = refl

unknown_shaper :
    get_reward_shaper no_matches (buffer "P") (buffer "G") "x" empty ≡ raised (value_error "x" [])
unfolding get_reward_shaper update
unknown_shaper = refl
