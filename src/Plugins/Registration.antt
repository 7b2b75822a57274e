-- ===== src/Plugins/Registration.antt =====
-- python/rlox/plugins.py: which class a name stands for after plugins were discovered.
use rlox.Base.{
  ◌≡◌, refl, sym, ap, ◌∙◌, subst, ◌⊎◌, inl, inr, Option, none, some, List, [], ◌∷◌, String, Result,
  ok, raised,
}
use rlox.Base.Dict.{string_eq, Dict, lookup}
use rlox.Base.Updates.{or_else, or_else-none, update, lookup-update}
use rlox.Plugins.{
  Class, Registries, Error, keys, chosen, get_buffer, Op, discover_plugins, value_error,
}
use rlox.Plugins.Loading.{latest, concat, discover_plugins-concat, Loaded, load-Loaded}

abbrev pub empty : Registries
empty = record { envs = []; buffers = []; rewards = [] }

abbrev pub builtins : Class → Class → Dict String Class
builtins replay prioritized = ("replay", replay) ∷ ("prioritized", prioritized) ∷ []

module _ (close_matches : String → List String → List String) (replay prioritized : Class) where
  -- The buffer of a name is the last that was registered under it, or else the one that is built in.
  abbrev pub Gives : String → List Op → Result Error Class → Type 0
  Gives name done result =
      ((c : Class) × (or_else (latest name done) (lookup name (builtins replay prioritized))
          ≡ some c)
        × (result ≡ ok c))
      ⊎ ((hints : List String) × (or_else (latest name done)
              (lookup name (builtins replay prioritized))
            ≡ none)
          × (result ≡ raised (value_error name hints)))

  chosen-cases :
      (name : String) (all : Dict String Class) (o : Option Class)
      → lookup name all ≡ o
      → ((c : Class) × (o ≡ some c) × (chosen close_matches name all ≡ ok c))
        ⊎ ((hints : List String) × (o ≡ none)
            × (chosen close_matches name all ≡ raised (value_error name hints)))
  chosen-cases name all none e = inr (close_matches name (keys all), refl, rw (chosen, e) refl)
  chosen-cases name all (some c) e = inl (c, refl, rw (chosen, e) refl)

  -- From empty registries, after the plugins were discovered: the classes of their modules were
  -- registered in order up to the first that misses a method, which raises, or all of them; each
  -- that was registered as a buffer has push, sample and __len__. Then get_buffer gives the class
  -- that was last registered under the name, also where the name is built in; else the built-in one;
  -- else it raises ValueError.
  pub discover_plugins-Gives :
      (modules : List (List Op)) (name : String)
      → (l : Loaded (concat modules) empty (discover_plugins modules empty)) × Gives name l.done
          (get_buffer close_matches replay prioritized name (discover_plugins modules empty).1)
  unfolding get_buffer
  discover_plugins-Gives modules name =
      let l =
        subst (Loaded (concat modules) empty) (sym (discover_plugins-concat modules empty))
          (load-Loaded (concat modules) empty) in
      let all = update (builtins replay prioritized) (discover_plugins modules empty).1.buffers in
      let o = or_else (latest name l.done) (lookup name (builtins replay prioritized)) in
      let found : lookup name all ≡ o =
        lookup-update name (builtins replay prioritized) (discover_plugins modules empty).1.buffers
          (l.unique tt)
        ∙ ap (λ x. or_else x (lookup name (builtins replay prioritized)))
            (l.found name ∙ or_else-none (latest name l.done)) in
      (l, chosen-cases name all o found)
