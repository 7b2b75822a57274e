-- ===== src/Plugins/Loading.antt =====
-- python/rlox/plugins.py: what loading plugins does to the registry of buffers.
use rlox.Base.{
  ◌≡◌, refl, sym, ap, ◌∙◌, subst, ◌⊎◌, inl, inr, ◌&&◌, ◌||◌, All, Bool, true, false, Option, none,
  some, List, [], ◌∷◌, ◌++◌, if◌then◌else◌, String, Result, ok, raised,
}
use rlox.Base.Dict.{string_eq, lookup, insert, HasUniqueKeys, insert-HasUniqueKeys}
use rlox.Base.Updates.{or_else, or_else_assoc, lookup-insert}
use rlox.Plugins.{
  Class, Registries, Error, elem, first_missing, register_env, register_buffer, register_reward,
  type_error, Op, env_op, buffer_op, reward_op, apply, load, discover_plugins,
}

-- The class has the methods of a buffer.
abbrev pub is_buffer : Class → Bool
is_buffer c =
    elem "push" c.attributes && (elem "sample" c.attributes && elem "__len__" c.attributes)

-- The last class that is registered as a buffer under the name
abbrev pub latest : String → List Op → Option Class
latest name [] = none
latest name (buffer_op n c ∷ ops) =
    or_else (latest name ops) (if string_eq.beq n name then some c else none)
latest name (env_op n c ∷ ops) = latest name ops
latest name (reward_op n c ∷ ops) = latest name ops

abbrev pub concat : List (List Op) → List Op
concat [] = []
concat (ops ∷ modules) = ops ++ concat modules

outcome_of :
    (op : Op) (r : Registries)
    → ((e : Error) × (apply op r ≡ raised e)) ⊎ ((r' : Registries) × (apply op r ≡ ok r'))
outcome_of op r = either (apply op r)
  where
    either :
        (x : Result Error Registries)
        → ((e : Error) × (x ≡ raised e)) ⊎ ((r' : Registries) × (x ≡ ok r'))
    either (raised e) = inl (e, refl)
    either (ok r') = inr (r', refl)

load_raised :
    (op : Op) (ops : List Op) (r : Registries) (e : Error)
    → apply op r ≡ raised e
    → load (op ∷ ops) r ≡ (raised e, r)
unfolding load
load_raised op ops r e q = rw (load, q) refl

load_ok :
    (op : Op) (ops : List Op) (r r' : Registries)
    → apply op r ≡ ok r'
    → load (op ∷ ops) r ≡ load ops r'
unfolding load
load_ok op ops r r' q = rw (load, q) refl

discover_then_load :
    (modules : List (List Op))
    → ((r : Registries) → discover_plugins modules r ≡ load (concat modules) r)
    → (ops : List Op) (r : Registries)
    → discover_plugins (ops ∷ modules) r ≡ load (ops ++ concat modules) r
unfolding discover_plugins
discover_then_load modules rest [] r = rest r
discover_then_load modules rest (op ∷ ops) r = elim (outcome_of op r) [
  | inl (e, q) ↦
      ap then_discover (load_raised op ops r e q)
      ∙ sym (load_raised op (ops ++ concat modules) r e q)
  | inr (r', q) ↦
      ap then_discover (load_ok op ops r r' q)
      ∙ discover_then_load modules rest ops r'
      ∙ sym (load_ok op (ops ++ concat modules) r r' q)
]
  where
    then_discover : Result Error (Unit {0}) × Registries → Result Error (Unit {0}) × Registries
    then_discover out = elim out.0 [
      | raised e ↦ (raised e, out.1)
      | ok _ ↦ discover_plugins modules out.1
    ]

-- Loading the modules is loading their classes one after another.
pub discover_plugins-concat :
    (modules : List (List Op)) (r : Registries)
    → discover_plugins modules r ≡ load (concat modules) r
unfolding discover_plugins load
discover_plugins-concat [] r = refl
discover_plugins-concat (ops ∷ modules) r =
    discover_then_load modules (discover_plugins-concat modules) ops r

-- A class that is registered as a buffer is one.
abbrev pub IsValid : Op → Type 0
IsValid (buffer_op n c) = is_buffer c ≡ true
IsValid (env_op n c) = Unit
IsValid (reward_op n c) = Unit

-- What an operation that succeeds does to the buffers
abbrev Grows : Op → Registries → Registries → Type 0
Grows op r r' =
    ((j : String) → lookup j r'.buffers ≡ or_else (latest j (op ∷ [])) (lookup j r.buffers))
    × (HasUniqueKeys r.buffers → HasUniqueKeys r'.buffers)
    × IsValid op

none_missing :
    (c : Class) → first_missing c ("push" ∷ "sample" ∷ "__len__" ∷ []) ≡ none → is_buffer c ≡ true
none_missing c h =
    either (elem "push" c.attributes) (elem "sample" c.attributes) (elem "__len__" c.attributes) h
  where
    either :
        (a b d : Bool)
        → ◌≡◌ {A = Option String}
            (if a
              then if b then if d then none else some "__len__" else some "sample"
              else some "push")
            none
        → (a && (b && d)) ≡ true
    either true true true h = refl
    either true true false h = absurd cc
    either true false d h = absurd cc
    either false b d h = absurd cc

apply-Grows : (op : Op) (r r' : Registries) → apply op r ≡ ok r' → Grows op r r'
unfolding apply register_env register_buffer register_reward
apply-Grows (env_op n c) r r' h = either (first_missing c ("step" ∷ "reset" ∷ [])) h
  where
    after : Registries
    after = record r { envs = insert n c r.envs }

    either :
        (o : Option String)
        → ◌≡◌ {A = Result Error Registries}
            (elim o [ some m ↦ raised (type_error c.name m) | none ↦ ok after ])
            (ok r')
        → Grows (env_op n c) r r'
    either (some m) h = absurd cc
    either none h =
        let path : after ≡ r' = cc in subst (Grows (env_op n c) r) path (λ j. refl, λ u. u, tt)
apply-Grows (buffer_op n c) r r' h =
    either (first_missing c ("push" ∷ "sample" ∷ "__len__" ∷ [])) refl h
  where
    after : Registries
    after = record r { buffers = insert n c r.buffers }

    either :
        (o : Option String)
        → first_missing c ("push" ∷ "sample" ∷ "__len__" ∷ []) ≡ o
        → ◌≡◌ {A = Result Error Registries}
            (elim o [ some m ↦ raised (type_error c.name m) | none ↦ ok after ])
            (ok r')
        → Grows (buffer_op n c) r r'
    either (some m) e h = absurd cc
    either none e h =
        let path : after ≡ r' = cc in
        subst (Grows (buffer_op n c) r) path
          (λ j. lookup-insert n j c r.buffers, insert-HasUniqueKeys n c r.buffers, none_missing c e)
apply-Grows (reward_op n c) r r' h = either (elem "shape" c.own || elem "__call__" c.own) h
  where
    after : Registries
    after = record r { rewards = insert n c r.rewards }

    either :
        (b : Bool)
        → ◌≡◌ {A = Result Error Registries}
            (if b then ok after else raised (type_error c.name "shape or __call__"))
            (ok r')
        → Grows (reward_op n c) r r'
    either true h =
        let path : after ≡ r' = cc in subst (Grows (reward_op n c) r) path (λ j. refl, λ u. u, tt)
    either false h = absurd cc

-- What came of loading some classes: those that were registered, and where it stopped
pub record Loaded (ops : List Op) (r : Registries) (out : Result Error (Unit {0}) × Registries)
    : Type 0 where
  pub done : List Op
  pub rest : List Op
  pub split : ops ≡ done ++ rest
  pub stopped :
      ((rest ≡ []) × (out.0 ≡ ok tt))
      ⊎ ((op : Op) × (later : List Op) × (e : Error) × (rest ≡ op ∷ later)
          × (apply op out.1 ≡ raised e)
          × (out.0 ≡ raised e))
  pub found : (j : String) → lookup j out.1.buffers ≡ or_else (latest j done) (lookup j r.buffers)
  pub unique : HasUniqueKeys r.buffers → HasUniqueKeys out.1.buffers
  pub valid : All IsValid done

latest-cons :
    (j : String) (op : Op) (ops : List Op)
    → latest j (op ∷ ops) ≡ or_else (latest j ops) (latest j (op ∷ []))
latest-cons j (buffer_op n c) ops = refl
latest-cons j (env_op n c) ops = nothing (latest j ops)
  where
    nothing : (o : Option Class) → o ≡ or_else o none
    nothing none = refl
    nothing (some c) = refl
latest-cons j (reward_op n c) ops = nothing (latest j ops)
  where
    nothing : (o : Option Class) → o ≡ or_else o none
    nothing none = refl
    nothing (some c) = refl

pub load-Loaded : (ops : List Op) (r : Registries) → Loaded ops r (load ops r)
unfolding load
load-Loaded [] r = record {
  done = [];
  rest = [];
  split = refl;
  stopped = inl (refl, refl);
  found = λ j. refl;
  unique = λ u. u;
  valid = tt;
}
load-Loaded (op ∷ ops) r = elim (outcome_of op r) [
  | inl (e, q) ↦
      rw (load, q)
        (record {
          done = [];
          rest = op ∷ ops;
          split = refl;
          stopped = inr (op, ops, e, refl, q, refl);
          found = λ j. refl;
          unique = λ u. u;
          valid = tt;
        })
  | inr (r', q) ↦
      let (found, unique, valid) = apply-Grows op r r' q in
      let l = load-Loaded ops r' in
      rw (load, q)
        (record {
          done = op ∷ l.done;
          rest = l.rest;
          split = ap (λ (os : List Op). op ∷ os) l.split;
          stopped = l.stopped;
          found = λ j.
              l.found j
              ∙ ap (or_else (latest j l.done)) (found j)
              ∙ or_else_assoc (latest j l.done) (latest j (op ∷ [])) (lookup j r.buffers)
              ∙ ap (λ o. or_else o (lookup j r.buffers)) (sym (latest-cons j op l.done));
          unique = λ u. l.unique (unique u);
          valid = (valid, l.valid);
        })
]
