-- ===== src/Config/Mixin.antt =====
-- python/rlox/config.py, `ConfigMixin`: reading, merging and writing a configuration.
use rlox.Base.{
  Bool, true, false, Option, none, some, List, [], ◌∷◌, if◌then◌else◌, String, Result, ok, raised,
}
use rlox.Base.Float.{Float}
use rlox.Base.Dict.{string_eq, Dict, lookup, contains, insert}
use rlox.Config.Values.{
  Error, type_error, Value, missing, boolean, number, string, sequence, tuple, Rule, check_rules,
}

module _ (F : Float) where
  -- A class: its fields with their defaults, `_KEY_ALIASES`, and the checks of `__post_init__`.
  pub record Schema : Type 0 where
    pub fields : Dict String (Value F)
    pub aliases : Dict String String
    pub rules : List (Rule F)

  pub data Warning : Type 0 where
    alias : (key canonical : String) → Warning
    unknown_key : (key : String) → Warning

  -- The field that a key of the dict is for.
  abbrev pub canonical : Schema → String → Option String
  canonical s k = if contains k s.fields then some k else lookup k s.aliases

  -- `filtered`, from what it holds already.
  unfoldable pub filter_keys :
      Schema → Dict String (Value F) → Dict String (Value F) → Dict String (Value F)
  filter_keys s [] filtered = filtered
  filter_keys s ((k, v) ∷ d) filtered = elim (canonical s k) [
    | some c ↦ filter_keys s d (insert c v filtered)
    | none ↦ filter_keys s d filtered
  ]

  -- What the loop of `from_dict` warns of.
  unfoldable pub warnings : Schema → Dict String (Value F) → List Warning
  warnings s [] = []
  warnings s ((k, v) ∷ d) =
      let rest = warnings s d in
      if contains k s.fields
      then rest
      else elim (lookup k s.aliases) [ some c ↦ alias k c ∷ rest | none ↦ unknown_key k ∷ rest ]

  -- Every keyword argument is the name of a field.
  abbrev pub all_fields : Dict String (Value F) → Dict String (Value F) → Bool
  all_fields fields [] = true
  all_fields fields ((k, v) ∷ d) = if contains k fields then all_fields fields d else false

  abbrev pub value_or : Value F → Option (Value F) → Value F
  value_or v none = v
  value_or v (some w) = w

  -- The fields of an instance, from keyword arguments and the defaults.
  abbrev pub fill : Dict String (Value F) → Dict String (Value F) → Dict String (Value F)
  fill [] kwargs = []
  fill ((k, v) ∷ fields) kwargs = (k, value_or v (lookup k kwargs)) ∷ fill fields kwargs

  -- An instance with these fields, if `__post_init__` lets it be.
  unfoldable pub post_init : Schema → Dict String (Value F) → Result Error (Dict String (Value F))
  post_init s c = elim (check_rules F s.rules c) [ some e ↦ raised e | none ↦ ok c ]

  -- `cls(**kwargs)`
  unfoldable pub construct : Schema → Dict String (Value F) → Result Error (Dict String (Value F))
  unfolding post_init
  construct s kwargs =
      if all_fields s.fields kwargs then post_init s (fill s.fields kwargs) else raised type_error

  unfoldable pub from_dict : Schema → Dict String (Value F) → Result Error (Dict String (Value F))
  unfolding construct filter_keys
  from_dict s d = construct s (filter_keys s d [])

  -- `d.update(overrides)`
  unfoldable pub update : Dict String (Value F) → Dict String (Value F) → Dict String (Value F)
  update d [] = d
  update d ((k, v) ∷ overrides) = update (insert k v d) overrides

  unfoldable pub merge :
      Schema → Dict String (Value F) → Dict String (Value F) → Result Error (Dict String (Value F))
  unfolding from_dict update
  merge s config overrides = from_dict s (update config overrides)

  abbrev pub is_missing : Value F → Bool
  is_missing missing = true
  is_missing (boolean b) = false
  is_missing (number x) = false
  is_missing (string t) = false
  is_missing (sequence xs) = false
  is_missing (tuple xs) = false

  -- `_strip_none`, of a dict without dicts in it, as no field of these classes holds one. `to_toml`
  -- gives this dict to its writer.
  unfoldable pub strip_none : Dict String (Value F) → Dict String (Value F)
  strip_none [] = []
  strip_none ((k, v) ∷ d) = let rest = strip_none d in if is_missing v then rest else (k, v) ∷ rest
