-- ===== src/Config/Tests.antt =====
-- python/rlox/config.py on small inputs.
use rlox.Base.{ℕ, ◌≡◌, refl, ◌-◌, ◌*◌, Bool, true, false, not, List, [], ◌∷◌, String, ok, leb}
use rlox.Base.Float.{Float}
use rlox.Base.{some, none}
use rlox.Base.Samples.{counting}
use rlox.Base.Dict.{Dict}
use rlox.Config.Values.{
  Value, missing, boolean, number, check_rules, check_rule, validate_positive, validate_min,
  as_number, value_le,
}
use rlox.Config.Mixin.{
  Schema, alias, unknown_key, fill, post_init, from_dict, warnings, merge, strip_none,
}
use rlox.Config.Schemas.OnPolicy.{ppo_config}
use rlox.Config.Schemas.OffPolicy.{sac_config}
use rlox.Config.Schemas.{classes}
use rlox.Config.Reading.{described, from_dict-described}
use rlox.Config.Roundtrip.{from_dict-strip_none}
use rlox.Config.Merging.{merge-fill}
use rlox.Config.Classes.{classes-IsWellFormed}

-- Fractions with an infinity on both sides
data Fraction : Type 0 where
  fraction : ℕ → ℕ → Fraction
  infinite : (positive : Bool) → Fraction

abbrev fraction_le : Fraction → Fraction → Bool
fraction_le (fraction a b) (fraction c d) = leb (a * d) (c * b)
fraction_le (fraction a b) (infinite s) = s
fraction_le (infinite s) (fraction a b) = not s
fraction_le (infinite false) (infinite s) = true
fraction_le (infinite true) (infinite s) = s

abbrev fraction_sub : Fraction → Fraction → Fraction
fraction_sub (fraction a b) (fraction c d) = fraction (a * d - c * b) (b * d)
fraction_sub x (infinite s) = infinite (not s)
fraction_sub (infinite s) (fraction a b) = infinite s

abbrev fractions : Float
fractions = record {
  Carrier = Fraction;
  neg_inf = infinite false;
  of_ℕ = λ n. fraction n 1;
  ratio = λ a b. fraction a b;
  trunc = λ x. 0;
  add = λ a b. a;
  sub = fraction_sub;
  mul = λ a b. a;
  div = λ a b. a;
  lt = λ a b. not (fraction_le b a);
  le = fraction_le;
  eq = λ a b. false;
}

abbrev accept_defaults : List (Schema fractions) → Bool
accept_defaults [] = true
accept_defaults (s ∷ ss) = elim (check_rules fractions s.rules s.fields) [
  | some e ↦ false
  | none ↦ accept_defaults ss
]

-- The defaults of every class pass its checks.
defaults_accepted : accept_defaults (classes fractions) ≡ true
unfolding check_rules check_rule validate_positive validate_min as_number value_le
defaults_accepted = refl

abbrev written : Dict String (Value counting)
written =
    ("clip_range", number 3)
    ∷ ("gamma", missing)
    ∷ ("clip", number 4)
    ∷ ("learning_rate", number 1)
    ∷ []

alias_warned :
    warnings counting (ppo_config counting) written
    ≡ alias "clip_range" "clip_eps" ∷ unknown_key "clip" ∷ []
unfolding warnings
alias_warned = refl

from_dict-described_example :
    from_dict counting (ppo_config counting) written
    ≡ post_init counting
        (ppo_config counting)
        (described counting (ppo_config counting) (ppo_config counting).fields written)
from_dict-described_example =
    from_dict-described counting (ppo_config counting) written (classes-IsWellFormed counting).0

abbrev instance_of_sac : Dict String (Value counting)
instance_of_sac =
    ("learning_rate", number 1)
    ∷ ("buffer_size", number 10)
    ∷ ("batch_size", number 4)
    ∷ ("tau", number 0)
    ∷ ("gamma", number 1)
    ∷ ("target_entropy", missing)
    ∷ ("auto_entropy", boolean false)
    ∷ ("learning_starts", number 7)
    ∷ ("hidden", number 8)
    ∷ []

instance_of_sac-valid :
    post_init counting (sac_config counting) instance_of_sac ≡ ok instance_of_sac
unfolding post_init check_rules check_rule validate_positive validate_min as_number
instance_of_sac-valid = refl

from_dict-strip_none_example :
    from_dict counting (sac_config counting) (strip_none counting instance_of_sac)
    ≡ ok instance_of_sac
from_dict-strip_none_example =
    from_dict-strip_none counting (sac_config counting) instance_of_sac
      (classes-IsWellFormed counting).1.0
      (refl, (refl, (refl, (refl, (refl, (refl, (refl, (refl, (refl, tt)))))))))
      (tt, (tt, (tt, (tt, (tt, (refl, (tt, (tt, (tt, tt))))))))) instance_of_sac-valid

merge-fill_example :
    merge counting
      (sac_config counting)
      instance_of_sac
      (("tau", number 5) ∷ ("hidden", number 9) ∷ [])
    ≡ post_init counting
        (sac_config counting)
        (fill counting instance_of_sac (("tau", number 5) ∷ ("hidden", number 9) ∷ []))
merge-fill_example =
    merge-fill counting (sac_config counting) instance_of_sac
      (("tau", number 5) ∷ ("hidden", number 9) ∷ []) (classes-IsWellFormed counting).1.0
      (refl, (refl, (refl, (refl, (refl, (refl, (refl, (refl, (refl, tt))))))))) refl
      (refl, (refl, tt))
