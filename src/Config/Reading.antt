-- ===== src/Config/Reading.antt =====
-- python/rlox/config.py, `ConfigMixin.from_dict`: which value each field gets.
use rlox.Base.{
  ◌≡◌, ◌≢◌, refl, sym, ap, ◌∙◌, Bool, true, false, Option, none, some, [], ◌∷◌, if◌then◌else◌,
  String, inl, inr, Bool-cases, Option-cases, arith, All,
}
use rlox.Base.Float.{Float}
use rlox.Base.Dict.{
  string_eq, Dict, lookup, contains, insert, lookup-insert_self, lookup-insert_ne, HasUniqueKeys,
}
use rlox.Config.Values.{Value}
use rlox.Config.Mixin.{
  Schema, canonical, filter_keys, all_fields, value_or, fill, post_init, construct, from_dict,
}

module _ (F : Float) where
  -- No field is declared twice, and every alias is for a field.
  abbrev pub IsWellFormed : Schema F → Type 0
  IsWellFormed s = HasUniqueKeys s.fields × All (λ a. contains a.1 s.fields ≡ true) s.aliases

  abbrev pub or_else : Option (Value F) → Option (Value F) → Option (Value F)
  or_else none w = w
  or_else (some v) w = some v

  abbrev names_field : Option String → String → Bool
  names_field none k = false
  names_field (some c) k = string_eq.beq c k

  -- The last value that a dict has for a field, under its name or an alias of it.
  unfoldable pub last_value : Schema F → String → Dict String (Value F) → Option (Value F)
  last_value s k [] = none
  last_value s k ((j, v) ∷ d) =
      or_else (last_value s k d) (if names_field (canonical F s j) k then some v else none)

  -- The instance that a dict describes.
  abbrev pub described :
      Schema F → Dict String (Value F) → Dict String (Value F) → Dict String (Value F)
  described s [] d = []
  described s ((k, v) ∷ fields) d = (k, value_or F v (last_value s k d)) ∷ described s fields d

  lookup-insert :
      (c k : String) (v : Value F) (d : Dict String (Value F))
      → lookup k (insert c v d) ≡ (if string_eq.beq c k then some v else lookup k d)
  lookup-insert c k v d = elim (Bool-cases (string_eq.beq c k)) [
    | inl e ↦ rw (e, sym ((string_eq.beq_iff c k).0 e)) (lookup-insert_self c v d)
    | inr e ↦
        let ne : c ≢ k = λ p. (ground (arith, e, (string_eq.beq_iff c k).1 p)) in
        rw e (lookup-insert_ne c k v d ne)
  ]

  or_else-cases :
      (a : Option (Value F)) (b : Bool) (v : Value F) (w : Option (Value F))
      → or_else a (if b then some v else w) ≡ or_else (or_else a (if b then some v else none)) w
  or_else-cases none true v w = refl
  or_else-cases none false v w = refl
  or_else-cases (some a) true v w = refl
  or_else-cases (some a) false v w = refl

  pub or_else-none : (a : Option (Value F)) → or_else a none ≡ a
  or_else-none none = refl
  or_else-none (some a) = refl

  lookup-filter_keys :
      (s : Schema F) (k : String) (d filtered : Dict String (Value F))
      → lookup k (filter_keys F s d filtered) ≡ or_else (last_value s k d) (lookup k filtered)
  unfolding filter_keys last_value
  lookup-filter_keys s k [] filtered = refl
  lookup-filter_keys s k ((j, v) ∷ d) filtered = elim (Option-cases (canonical F s j)) [
    | inl e ↦
        rw (filter_keys, last_value, e)
          (lookup-filter_keys s k d filtered
            ∙ ap (λ o. or_else o (lookup k filtered)) (sym (or_else-none (last_value s k d))))
    | inr (c, e) ↦
        rw (filter_keys, last_value, e)
          (lookup-filter_keys s k d (insert c v filtered)
            ∙ ap (or_else (last_value s k d)) (lookup-insert c k v filtered)
            ∙ or_else-cases (last_value s k d) (string_eq.beq c k) v (lookup k filtered))
  ]

  fill-filter_keys :
      (s : Schema F) (fields d : Dict String (Value F))
      → fill F fields (filter_keys F s d []) ≡ described s fields d
  fill-filter_keys s [] d = refl
  fill-filter_keys s ((k, v) ∷ fields) d =
      ap (λ (o : Option (Value F)). (k, value_or F v o) ∷ fill F fields (filter_keys F s d []))
        (lookup-filter_keys s k d [] ∙ or_else-none (last_value s k d))
      ∙ ap (λ (c : Dict String (Value F)). (k, value_or F v (last_value s k d)) ∷ c)
          (fill-filter_keys s fields d)

  lookup-aliases :
      (fields : Dict String (Value F)) (aliases : Dict String String) (k c : String)
      → All (λ a. contains a.1 fields ≡ true) aliases
      → lookup k aliases ≡ some c
      → contains c fields ≡ true
  lookup-aliases fields [] k c h e = cc
  lookup-aliases fields ((a, b) ∷ aliases) k c h e = elim (Bool-cases (string_eq.beq a k)) [
    | inl t ↦ ground (arith, t, e, h.0)
    | inr t ↦ lookup-aliases fields aliases k c h.1 (ground (arith, t, e))
  ]

  canonical-contains :
      (s : Schema F) (j c : String)
      → IsWellFormed s
      → canonical F s j ≡ some c
      → contains c s.fields ≡ true
  canonical-contains s j c w e = elim (Bool-cases (contains j s.fields)) [
    | inl t ↦ ground (arith, t, e)
    | inr t ↦ lookup-aliases s.fields s.aliases j c w.1 (ground (arith, t, e))
  ]

  all_fields-insert :
      (fields : Dict String (Value F)) (c : String) (v : Value F) (d : Dict String (Value F))
      → contains c fields ≡ true
      → all_fields F fields d ≡ true
      → all_fields F fields (insert c v d) ≡ true
  all_fields-insert fields c v [] h a = rw h refl
  all_fields-insert fields c v ((j, w) ∷ d) h a =
      ground (arith, h, a, all_fields-insert fields c v d h)

  all_fields-filter_keys :
      (s : Schema F) (d filtered : Dict String (Value F))
      → IsWellFormed s
      → all_fields F s.fields filtered ≡ true
      → all_fields F s.fields (filter_keys F s d filtered) ≡ true
  unfolding filter_keys
  all_fields-filter_keys s [] filtered w a = a
  all_fields-filter_keys s ((j, v) ∷ d) filtered w a = elim (Option-cases (canonical F s j)) [
    | inl e ↦ rw (filter_keys, e) (all_fields-filter_keys s d filtered w a)
    | inr (c, e) ↦
        rw (filter_keys, e)
          (all_fields-filter_keys s d (insert c v filtered) w
            (all_fields-insert s.fields c v filtered (canonical-contains s j c w e) a))
  ]

  -- For a class whose fields are declared once and whose aliases are for fields, `from_dict` is
  -- the check of `__post_init__` on the instance in which each field has the last value that
  -- the dict has for it, under its name or an alias of it, and its default where the dict has
  -- none. No other key has an effect, and no key makes the call fail.
  pub from_dict-described :
      (s : Schema F) (d : Dict String (Value F))
      → IsWellFormed s
      → from_dict F s d ≡ post_init F s (described s s.fields d)
  unfolding from_dict construct
  from_dict-described s d w =
      rw (from_dict, construct, all_fields-filter_keys s d [] w refl)
        (ap (post_init F s) (fill-filter_keys s s.fields d))
