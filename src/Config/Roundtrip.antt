-- ===== src/Config/Roundtrip.antt =====
-- python/rlox/config.py, `ConfigMixin`: leaving out None and reading back, and merging.
use rlox.Base.{
  ◌≡◌, refl, sym, ap, ◌∙◌, subst, Bool, true, false, none, [], ◌∷◌, if◌then◌else◌, String, ok, inl,
  inr, Bool-cases, arith,
}
use rlox.Base.Float.{Float}
use rlox.Base.Dict.{string_eq, Dict, lookup, contains, HasUniqueKeys}
use rlox.Config.Values.{Value, missing, boolean, number, string, sequence, tuple}
use rlox.Config.Mixin.{Schema, all_fields, fill, post_init, from_dict, strip_none, is_missing}
use rlox.Config.Reading.{or_else-none, IsWellFormed, last_value, described, from_dict-described}

module _ (F : Float) where
  -- A dict with exactly the fields of a class, in their order.
  abbrev pub IsInstance : Dict String (Value F) → Dict String (Value F) → Type 0
  IsInstance [] [] = Unit
  IsInstance [] (_ ∷ _) = ⊥
  IsInstance (_ ∷ _) [] = ⊥
  IsInstance ((k, v) ∷ fields) ((j, w) ∷ c) = (k ≡ j) × IsInstance fields c

  -- A field that holds None has None as its default.
  abbrev pub HasNullDefaults : Dict String (Value F) → Dict String (Value F) → Type 0
  HasNullDefaults [] c = Unit
  HasNullDefaults (_ ∷ _) [] = Unit
  HasNullDefaults ((k, v) ∷ fields) ((j, w) ∷ c) =
      (if is_missing F w then v ≡ missing else Unit) × HasNullDefaults fields c

  missing_of_is_missing : (v : Value F) → is_missing F v ≡ true → v ≡ missing
  missing_of_is_missing missing h = refl
  missing_of_is_missing (boolean b) h = cc
  missing_of_is_missing (number x) h = cc
  missing_of_is_missing (string t) h = cc
  missing_of_is_missing (sequence xs) h = cc
  missing_of_is_missing (tuple xs) h = cc

  pub lookup-absent :
      (k : String) (d : Dict String (Value F)) → contains k d ≡ false → lookup k d ≡ none
  lookup-absent k [] h = refl
  lookup-absent k ((j, v) ∷ d) h = ground (arith, h, lookup-absent k d)

  last_value-lookup :
      (s : Schema F) (k : String) (d : Dict String (Value F))
      → all_fields F s.fields d ≡ true
      → HasUniqueKeys d
      → last_value F s k d ≡ lookup k d
  unfolding last_value
  last_value-lookup s k [] a u = refl
  last_value-lookup s k ((j, v) ∷ d) a u = elim (Bool-cases (contains j s.fields)) [
    | inr n ↦ absurd (ground (arith, n, a))
    | inl y ↦
        let rest : all_fields F s.fields d ≡ true = ground (arith, y, a) in
        elim (Bool-cases (string_eq.beq j k)) [
          | inl e ↦
              let gone : lookup k d ≡ none =
                lookup-absent k d
                  (subst (λ i. contains i d ≡ false) ((string_eq.beq_iff j k).0 e) u.0) in
              rw (y, e, last_value-lookup s k d rest u.1, gone) refl
          | inr e ↦ rw (y, e, last_value-lookup s k d rest u.1) (or_else-none F (lookup k d))
        ]
  ]

  pub described-fill :
      (s : Schema F) (fields d : Dict String (Value F))
      → all_fields F s.fields d ≡ true
      → HasUniqueKeys d
      → described F s fields d ≡ fill F fields d
  described-fill s [] d a u = refl
  described-fill s ((k, v) ∷ fields) d a u =
      rw (last_value-lookup s k d a u, described-fill s fields d a u) refl

  pub fill-absent :
      (fields : Dict String (Value F)) (k : String) (v : Value F) (d : Dict String (Value F))
      → contains k fields ≡ false
      → fill F fields ((k, v) ∷ d) ≡ fill F fields d
  fill-absent [] k v d h = refl
  fill-absent ((j, w) ∷ fields) k v d h = elim (Bool-cases (string_eq.beq j k)) [
    | inl e ↦ absurd (ground (arith, e, h))
    | inr e ↦
        let other : string_eq.beq k j ≡ false =
          ground (arith, e, string_eq.beq_iff j k, string_eq.beq_iff k j) in
        rw (other, fill-absent fields k v d (ground (arith, e, h))) refl
  ]

  pub contains-instance :
      (k : String) (fields c : Dict String (Value F))
      → IsInstance fields c
      → contains k c ≡ contains k fields
  contains-instance k [] [] i = refl
  contains-instance k [] (_ ∷ c) i = elim i [ ]
  contains-instance k (_ ∷ fields) [] i = elim i [ ]
  contains-instance k ((j, v) ∷ fields) ((l, w) ∷ c) i =
      rw (sym i.0, contains-instance k fields c i.1) refl

  pub instance-HasUniqueKeys :
      (fields c : Dict String (Value F))
      → IsInstance fields c
      → HasUniqueKeys fields
      → HasUniqueKeys c
  instance-HasUniqueKeys [] [] i u = tt
  instance-HasUniqueKeys [] (_ ∷ c) i u = elim i [ ]
  instance-HasUniqueKeys (_ ∷ fields) [] i u = elim i [ ]
  instance-HasUniqueKeys ((k, v) ∷ fields) ((j, w) ∷ c) i u = (
    contains-instance j fields c i.1 ∙ subst (λ l. contains l fields ≡ false) i.0 u.0,
    instance-HasUniqueKeys fields c i.1 u.1,
  )

  contains-strip_none :
      (k : String) (d : Dict String (Value F))
      → contains k d ≡ false
      → contains k (strip_none F d) ≡ false
  unfolding strip_none
  contains-strip_none k [] h = refl
  contains-strip_none k ((j, v) ∷ d) h = ground (arith, h, contains-strip_none k d)

  strip_none-HasUniqueKeys :
      (d : Dict String (Value F)) → HasUniqueKeys d → HasUniqueKeys (strip_none F d)
  unfolding strip_none
  strip_none-HasUniqueKeys [] u = tt
  strip_none-HasUniqueKeys ((j, v) ∷ d) u =
      ground (arith, contains-strip_none j d u.0, strip_none-HasUniqueKeys d u.1)

  all_fields-strip_none :
      (fields d : Dict String (Value F))
      → all_fields F fields d ≡ true
      → all_fields F fields (strip_none F d) ≡ true
  unfolding strip_none
  all_fields-strip_none fields [] a = refl
  all_fields-strip_none fields ((j, v) ∷ d) a = ground (arith, a, all_fields-strip_none fields d)

  all_fields-grown :
      (k : String) (v : Value F) (fields d : Dict String (Value F))
      → all_fields F fields d ≡ true
      → all_fields F ((k, v) ∷ fields) d ≡ true
  all_fields-grown k v fields [] a = refl
  all_fields-grown k v fields ((j, w) ∷ d) a = ground (arith, a, all_fields-grown k v fields d)

  pub instance-all_fields :
      (fields c : Dict String (Value F)) → IsInstance fields c → all_fields F fields c ≡ true
  instance-all_fields [] [] i = refl
  instance-all_fields [] (_ ∷ c) i = elim i [ ]
  instance-all_fields (_ ∷ fields) [] i = elim i [ ]
  instance-all_fields ((k, v) ∷ fields) ((j, w) ∷ c) i =
      let same : string_eq.beq k j ≡ true = (string_eq.beq_iff k j).1 i.0 in
      rw same (all_fields-grown k v fields c (instance-all_fields fields c i.1))

  -- What None leaves out comes back as the default.
  fill-strip_none :
      (fields c : Dict String (Value F))
      → IsInstance fields c
      → HasUniqueKeys fields
      → HasNullDefaults fields c
      → fill F fields (strip_none F c) ≡ c
  unfolding strip_none
  fill-strip_none [] [] i u n = refl
  fill-strip_none [] (_ ∷ c) i u n = elim i [ ]
  fill-strip_none (_ ∷ fields) [] i u n = elim i [ ]
  fill-strip_none ((k, v) ∷ fields) ((j, w) ∷ c) i u n =
      let rest = fill-strip_none fields c i.1 u.1 n.1 in
      let same : string_eq.beq j k ≡ true = (string_eq.beq_iff j k).1 (sym i.0) in
      let absent : contains j fields ≡ false = subst (λ l. contains l fields ≡ false) i.0 u.0 in
      elim (Bool-cases (is_missing F w)) [
        | inl m ↦
            let gone : lookup k (strip_none F c) ≡ none =
              lookup-absent k (strip_none F c)
                (contains-strip_none k c (contains-instance k fields c i.1 ∙ u.0)) in
            let null : v ≡ missing = subst (λ (b : Bool). if b then v ≡ missing else Unit) m n.0 in
            rw (m, gone, rest)
              (ap (λ (l : String × Value F). l ∷ c)
                (pair i.0 (null ∙ sym (missing_of_is_missing w m))))
        | inr m ↦
            rw (m, same, fill-absent fields j w (strip_none F c) absent, rest)
              (ap (λ (l : String). (l, w) ∷ c) i.0)
      ]
    where
      pair :
          {a b : String} {x y : Value F} → a ≡ b → x ≡ y → ◌≡◌ {A = String × Value F} (a, x) (b, y)
      pair p q = cc

  -- For a class whose fields are declared once and whose aliases are for fields, and an instance
  -- of it that the class's checks accept and in which a field that holds None has None as its
  -- default: `from_dict` of the dict that is left of the instance without its fields that hold None
  -- (the dict that `to_toml` writes) gives back the same instance. The text of the file is not
  -- part of this.
  pub from_dict-strip_none :
      (s : Schema F) (c : Dict String (Value F))
      → IsWellFormed F s
      → IsInstance s.fields c
      → HasNullDefaults s.fields c
      → post_init F s c ≡ ok c
      → from_dict F s (strip_none F c) ≡ ok c
  from_dict-strip_none s c w i n valid =
      from_dict-described F s (strip_none F c) w
      ∙ ap (post_init F s) (
          described-fill s s.fields (strip_none F c)
            (all_fields-strip_none s.fields c (instance-all_fields s.fields c i))
            (strip_none-HasUniqueKeys c (instance-HasUniqueKeys s.fields c i w.0))
          ∙ fill-strip_none s.fields c i w.0 n)
      ∙ valid
