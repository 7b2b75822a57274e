-- ===== src/Trainer/Resolution.antt =====
-- python/rlox/trainer.py: which class, status and arguments a trainer gets.
use rlox.Base.{
  ℕ, ◌≡◌, refl, sym, ap, ◌∙◌, ◌↔◌, subst, inl, inr, Bool, true, false, ◌&&◌, Option, none, some,
  List, [], ◌∷◌, if◌then◌else◌, Bool-cases, Option-cases, String, Result, Result-cases, ok, raised,
}
use rlox.Base.Dict.{string_eq, Dict, lookup, contains, insert, HasUniqueKeys}
use rlox.Base.Updates.{or_else, or_else_assoc, lookup-insert, lookup-update}
use rlox.Plugins.{elem}
use rlox.Trainer.{
  Status, validated, experimental, validated_names, Error, value_error, Registry,
  register_algorithm, status_of_name, statuses, algorithm_status, by_name, Kwargs, Parts, Trainer,
  base_kwargs, algo_kwargs, attached, listed, resolve, is_warned, init,
}

module _ (Cls : Type 0) (lower : String → String) where
  -- Registrations by the decorator, one after another
  abbrev pub register_each : List (String × Cls) → Registry Cls → Registry Cls
  register_each [] r = r
  register_each ((name, c) ∷ later) r = register_each later (register_algorithm Cls lower name c r)

  -- The last of them whose name is `key` in lower case
  abbrev pub last_under : String → List (String × Cls) → Option Cls
  last_under key [] = none
  last_under key ((name, c) ∷ later) =
      or_else (last_under key later) (if string_eq.beq (lower name) key then some c else none)

  lookup-register_each :
      (key : String) (later : List (String × Cls)) (r : Registry Cls)
      → lookup key (register_each later r) ≡ or_else (last_under key later) (lookup key r)
  unfolding register_algorithm
  lookup-register_each key [] r = refl
  lookup-register_each key ((name, c) ∷ later) r =
      lookup-register_each key later (insert (lower name) c r)
      ∙ ap (or_else (last_under key later)) (lookup-insert (lower name) key c r)
      ∙ or_else_assoc (last_under key later)
          (if string_eq.beq (lower name) key then some c else none) (lookup key r)

  -- The status of a name that is registered at the import
  lookup-statuses :
      (key : String) (r : Registry Cls)
      → lookup key (statuses Cls r)
        ≡ (if contains key r then some (status_of_name Cls key) else none)
  unfolding statuses
  lookup-statuses key [] = refl
  lookup-statuses key ((name, c) ∷ r) = elim (Bool-cases (string_eq.beq name key)) [
    | inl same ↦
        rw same (ap (λ n. some (status_of_name Cls n)) ((string_eq.beq_iff name key).0 same))
    | inr other ↦ rw other (lookup-statuses key r)
  ]

  -- Which names have a status
  status-unknown :
      (name : String) (r : Registry Cls)
      → (algorithm_status lower (statuses Cls r) name ≡ raised (value_error name))
        ↔ (contains (lower name) r ≡ false)
  unfolding algorithm_status
  status-unknown name r =
      subst (λ o. (answered o ≡ raised (value_error name)) ↔ (contains (lower name) r ≡ false))
        (sym (lookup-statuses (lower name) r)) (either (contains (lower name) r))
    where
      answered : Option Status → Result Error Status
      answered o = elim o [ none ↦ raised (value_error name) | some s ↦ ok s ]

      either :
          (b : Bool)
          → (answered (if b then some (status_of_name Cls (lower name)) else none)
              ≡ raised (value_error name))
            ↔ (b ≡ false)
      either true = (λ h. absurd cc, λ h. absurd cc)
      either false = (λ h. refl, λ h. refl)

module _ (Cls Algo Logger Callback Other : Type 0) (P : Parts Cls Algo Logger Callback Other)
    (at_import : Registry Cls) (later : List (String × Cls)) where
  -- The registry and the statuses once the later classes are registered
  abbrev pub registry : Registry Cls
  registry = register_each Cls P.lower later at_import

  abbrev pub table : Dict String Status
  table = statuses Cls at_import

  -- The class that a name stands for
  abbrev pub class_of : String → Option Cls
  class_of name =
      or_else (last_under Cls P.lower (P.lower name) later) (lookup (P.lower name) at_import)

  -- The name was registered at the import, and it is among the validated.
  abbrev pub is_validated : String → Bool
  is_validated name = contains (P.lower name) at_import && elem (P.lower name) validated_names

  module _ (name env : String) (config : Kwargs Cls Algo Logger Callback Other)
      (cbs : Option (List Callback)) (log : Option Logger) (seed : ℕ) (compile : Bool) where
    abbrev pub made : Result Error (Trainer Cls Algo Logger Callback Other × Bool)
    made =
        init Cls Algo Logger Callback Other P registry table (by_name name) env config cbs log seed
          compile

    abbrev pub kwargs_of : Cls → Kwargs Cls Algo Logger Callback Other
    kwargs_of c =
        algo_kwargs Cls Algo Logger Callback Other P registry table c env config cbs log seed
          compile

    -- What creating a trainer by a name comes to
    pub data Created : Type 0 where
      unknown : class_of name ≡ none → made ≡ raised (value_error name) → Created
      failed :
          (c : Cls) (e : Error)
          → class_of name ≡ some c
          → P.construct c (kwargs_of c) ≡ raised e
          → made ≡ raised e
          → Created
      created :
          (c : Cls) (a : Algo)
          → class_of name ≡ some c
          → P.construct c (kwargs_of c) ≡ ok a
          → made
            ≡ ok (
              record {
                algo = attached Cls Algo Logger Callback Other P registry table c log a;
                env = env;
                logger = log;
                callbacks = listed Cls Algo Logger Callback Other P registry table cbs;
                algo_label = P.lower name;
                status = if is_validated name then validated else experimental;
              },
              if is_validated name then false else true,
            )
          → Created

    found : lookup (P.lower name) registry ≡ class_of name
    found = lookup-register_each Cls P.lower (P.lower name) later at_import

    status_found :
        elim (lookup (P.lower name) table) [ none ↦ experimental | some s ↦ s ]
        ≡ (if is_validated name then validated else experimental)
    status_found =
        ap (λ o. elim o [ none ↦ experimental | some s ↦ s ])
          (lookup-statuses Cls P.lower (P.lower name) at_import)
        ∙ either (contains (P.lower name) at_import) (elem (P.lower name) validated_names)
      where
        either :
            (b v : Bool)
            → elim (if b then some (if v then validated else experimental) else none) [
              | none ↦ experimental
              | some s ↦ s
            ]
              ≡ (if b && v then validated else experimental)
        either true true = refl
        either true false = refl
        either false v = refl

    resolved :
        (c : Cls)
        → class_of name ≡ some c
        → resolve Cls Algo Logger Callback Other P registry table (by_name name)
          ≡ ok (c, P.lower name, if is_validated name then validated else experimental)
    unfolding resolve
    resolved c e = ap given (found ∙ e) ∙ ap (λ s. ok (c, P.lower name, s)) status_found
      where
        given : Option Cls → Result Error (Cls × String × Status)
        given o = elim o [
          | none ↦ raised (value_error name)
          | some d ↦ ok (
            d,
            P.lower name,
            elim (lookup (P.lower name) table) [ none ↦ experimental | some s ↦ s ],
          )
        ]

    not_resolved :
        class_of name ≡ none
        → resolve Cls Algo Logger Callback Other P registry table (by_name name)
          ≡ raised (value_error name)
    unfolding resolve
    not_resolved e = rw (resolve, found ∙ e) refl

    warned :
        (b : Bool)
        → is_warned Cls Algo Logger Callback Other P registry table
            (by_name name)
            (if b then validated else experimental)
          ≡ (if b then false else true)
    warned true = refl
    warned false = refl

    -- A trainer that is created by a name, after classes were registered: the class is the last one
    -- registered under the name in lower case, else the one of the import; without one ValueError is
    -- raised, and what the class raises is raised on. Its status is "validated" exactly where the
    -- name was there at the import and is among the validated ones, and it warns where it is not.
    -- The class is called with the entries of the configuration, and where those have none with
    -- env_id, seed and those of logger, callbacks and compile that it accepts. And
    -- `algorithm_status` does not know the name exactly where it was not there at the import, even if
    -- the trainer finds it.
    pub init-Created :
        (c : Cls) (k : String)
        → HasUniqueKeys config
        → Created
          × (lookup k (kwargs_of c)
              ≡ or_else (lookup k config) (
                  lookup k (
                    base_kwargs Cls Algo Logger Callback Other P registry table c env cbs log seed
                      compile)))
          × ((algorithm_status P.lower table name ≡ raised (value_error name))
              ↔ (contains (P.lower name) at_import ≡ false))
    unfolding init algo_kwargs
    init-Created c k unique = (
      elim (Option-cases (class_of name)) [
        | inl e ↦ unknown e (rw (init, not_resolved e) refl)
        | inr (d, e) ↦ elim (Result-cases (P.construct d (kwargs_of d))) [
          | inl (x, r) ↦ failed d x e r (rw (init, resolved d e, r) refl)
          | inr (a, r) ↦
              created d a e r (rw (init, resolved d e, r, warned (is_validated name)) refl)
        ]
      ],
      lookup-update k _ config unique,
      status-unknown Cls P.lower name at_import,
    )
