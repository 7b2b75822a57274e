-- ===== src/Config/Merging.antt =====
-- python/rlox/config.py, `ConfigMixin.merge`.
use rlox.Base.{
  ◌≡◌, refl, sym, ap, ◌∙◌, subst, true, false, none, [], ◌∷◌, String, inl, inr, Bool-cases, arith,
}
use rlox.Base.Float.{Float}
use rlox.Base.Dict.{string_eq, Dict, lookup, contains, insert, insert-HasUniqueKeys, HasUniqueKeys}
use rlox.Config.Values.{Value}
use rlox.Config.Mixin.{Schema, all_fields, fill, post_init, from_dict, merge, update}
use rlox.Config.Reading.{IsWellFormed, from_dict-described}
use rlox.Config.Roundtrip.{
  IsInstance, lookup-absent, described-fill, fill-absent, contains-instance, instance-HasUniqueKeys,
  instance-all_fields,
}

module _ (F : Float) where
  fill-insert :
      (k : String) (v : Value F) (c d : Dict String (Value F))
      → contains k c ≡ true
      → HasUniqueKeys c
      → contains k d ≡ false
      → fill F (insert k v c) d ≡ fill F c ((k, v) ∷ d)
  fill-insert k v [] d h u n = cc
  fill-insert k v ((j, w) ∷ c) d h u n = elim (Bool-cases (string_eq.beq j k)) [
    | inl e ↦
        let same : string_eq.beq k j ≡ true =
          (string_eq.beq_iff k j).1 (sym ((string_eq.beq_iff j k).0 e)) in
        let at : j ≡ k = (string_eq.beq_iff j k).0 e in
        let gone : lookup j d ≡ none =
          lookup-absent F j d (subst (λ i. contains i d ≡ false) (sym at) n) in
        let away : contains k c ≡ false = subst (λ i. contains i c ≡ false) at u.0 in
        rw (e, same, gone, fill-absent F c k v d away) refl
    | inr e ↦
        let other : string_eq.beq k j ≡ false =
          ground (arith, e, string_eq.beq_iff j k, string_eq.beq_iff k j) in
        rw (e, other, fill-insert k v c d (ground (arith, e, h)) u.1 n) refl
  ]

  contains-insert_kept :
      (j k : String) (v : Value F) (c : Dict String (Value F))
      → contains j c ≡ true
      → contains j (insert k v c) ≡ true
  contains-insert_kept j k v [] h = cc
  contains-insert_kept j k v ((i, w) ∷ c) h = ground (arith, h, contains-insert_kept j k v c)

  all_fields-insert_kept :
      (k : String) (v : Value F) (c d : Dict String (Value F))
      → all_fields F c d ≡ true
      → all_fields F (insert k v c) d ≡ true
  all_fields-insert_kept k v c [] a = refl
  all_fields-insert_kept k v c ((j, w) ∷ d) a =
      ground (arith, a, contains-insert_kept j k v c, all_fields-insert_kept k v c d)

  fill-nil : (c : Dict String (Value F)) → fill F c [] ≡ c
  fill-nil [] = refl
  fill-nil ((k, v) ∷ c) = ap (λ (d : Dict String (Value F)). (k, v) ∷ d) (fill-nil c)

  update-fill :
      (c d : Dict String (Value F))
      → HasUniqueKeys c
      → all_fields F c d ≡ true
      → HasUniqueKeys d
      → update F c d ≡ fill F c d
  unfolding update
  update-fill c [] u a ud = sym (fill-nil c)
  update-fill c ((k, v) ∷ d) u a ud =
      let there : contains k c ≡ true = ground (arith, a) in
      let rest : all_fields F c d ≡ true = ground (arith, a) in
      update-fill (insert k v c) d (insert-HasUniqueKeys k v c u)
        (all_fields-insert_kept k v c d rest) ud.1
      ∙ fill-insert k v c d there u ud.0

  fill-IsInstance :
      (fields c d : Dict String (Value F))
      → IsInstance F fields c
      → IsInstance F fields (fill F c d)
  fill-IsInstance [] [] d i = tt
  fill-IsInstance [] (_ ∷ c) d i = elim i [ ]
  fill-IsInstance (_ ∷ fields) [] d i = elim i [ ]
  fill-IsInstance ((k, v) ∷ fields) ((j, w) ∷ c) d i = (i.0, fill-IsInstance fields c d i.1)

  -- An instance, read as keyword arguments, fills every field.
  fill-instance :
      (fields c : Dict String (Value F))
      → IsInstance F fields c
      → HasUniqueKeys fields
      → fill F fields c ≡ c
  fill-instance [] [] i u = refl
  fill-instance [] (_ ∷ c) i u = elim i [ ]
  fill-instance (_ ∷ fields) [] i u = elim i [ ]
  fill-instance ((k, v) ∷ fields) ((j, w) ∷ c) i u =
      let same : string_eq.beq j k ≡ true = (string_eq.beq_iff j k).1 (sym i.0) in
      let absent : contains j fields ≡ false = subst (λ l. contains l fields ≡ false) i.0 u.0 in
      rw (same, fill-absent F fields j w c absent, fill-instance fields c i.1 u.1)
        (ap (λ (l : String). (l, w) ∷ c) i.0)

  all_fields-instance :
      (fields c d : Dict String (Value F))
      → IsInstance F fields c
      → all_fields F fields d ≡ true
      → all_fields F c d ≡ true
  all_fields-instance fields c [] i a = refl
  all_fields-instance fields c ((k, v) ∷ d) i a =
      rw (contains-instance F k fields c i) (ground (arith, a, all_fields-instance fields c d i))

  from_dict-instance :
      (s : Schema F) (c : Dict String (Value F))
      → IsWellFormed F s
      → IsInstance F s.fields c
      → from_dict F s c ≡ post_init F s c
  from_dict-instance s c w i =
      from_dict-described F s c w
      ∙ ap (post_init F s) (
          described-fill F s s.fields c (instance-all_fields F s.fields c i)
            (instance-HasUniqueKeys F s.fields c i w.0)
          ∙ fill-instance s.fields c i w.0)

  -- For a class whose fields are declared once and whose aliases are for fields, an instance of
  -- it, and overrides that are all for fields by their names, no field twice: `merge` is the
  -- check of `__post_init__` on the instance in which each overridden field has its override and
  -- every other field the value that it had.
  pub merge-fill :
      (s : Schema F) (c overrides : Dict String (Value F))
      → IsWellFormed F s
      → IsInstance F s.fields c
      → all_fields F s.fields overrides ≡ true
      → HasUniqueKeys overrides
      → merge F s c overrides ≡ post_init F s (fill F c overrides)
  unfolding merge
  merge-fill s c overrides w i a u =
      let instance_keys : HasUniqueKeys c = instance-HasUniqueKeys F s.fields c i w.0 in
      let known : all_fields F c overrides ≡ true = all_fields-instance s.fields c overrides i a in
      ap (from_dict F s) (update-fill c overrides instance_keys known u)
      ∙ from_dict-instance s (fill F c overrides) w (fill-IsInstance s.fields c overrides i)
