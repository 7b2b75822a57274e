-- ===== src/Config/Classes.antt =====
-- python/rlox/config.py: what every configuration class satisfies.
use rlox.Base.{
  ◌≡◌, refl, Bool, true, ◌&&◌, not, List, [], ◌∷◌, String, inl, inr, Bool-cases, arith, All,
}
use rlox.Base.Float.{Float}
use rlox.Base.Dict.{string_eq, Dict, contains, HasUniqueKeys}
use rlox.Config.Values.{Value}
use rlox.Config.Mixin.{Schema}
use rlox.Config.Reading.{IsWellFormed}
use rlox.Config.Schemas.{classes}

module _ (F : Float) where
  unfoldable keys_unique : Dict String (Value F) → Bool
  keys_unique [] = true
  keys_unique ((k, v) ∷ d) = not (contains k d) && keys_unique d

  unfoldable aliases_known : Dict String (Value F) → Dict String String → Bool
  aliases_known fields [] = true
  aliases_known fields ((k, c) ∷ aliases) = contains c fields && aliases_known fields aliases

  keys_unique-HasUniqueKeys : (d : Dict String (Value F)) → keys_unique d ≡ true → HasUniqueKeys d
  unfolding keys_unique
  keys_unique-HasUniqueKeys [] h = tt
  keys_unique-HasUniqueKeys ((k, v) ∷ d) h = ground (arith, h, keys_unique-HasUniqueKeys d)

  aliases_known-All :
      (fields : Dict String (Value F)) (aliases : Dict String String)
      → aliases_known fields aliases ≡ true
      → All (λ a. contains a.1 fields ≡ true) aliases
  unfolding aliases_known
  aliases_known-All fields [] h = tt
  aliases_known-All fields ((k, c) ∷ aliases) h =
      ground (arith, h, aliases_known-All fields aliases)

  well_formed : List (Schema F) → Bool
  unfolding keys_unique aliases_known
  well_formed [] = true
  well_formed (s ∷ ss) =
      (keys_unique s.fields && aliases_known s.fields s.aliases) && well_formed ss

  well_formed-All : (ss : List (Schema F)) → well_formed ss ≡ true → All (IsWellFormed F) ss
  unfolding well_formed
  well_formed-All [] h = tt
  well_formed-All (s ∷ ss) h =
      elim (Bool-cases (keys_unique s.fields && aliases_known s.fields s.aliases)) [
        | inr n ↦ absurd (ground (arith, n, h))
        | inl y ↦ (
          (
            keys_unique-HasUniqueKeys s.fields (ground (arith, y)),
            aliases_known-All s.fields s.aliases (ground (arith, y)),
          ),
          well_formed-All ss (ground (arith, y, h)),
        )
      ]

  -- Each of the configuration classes declares its fields once, and each of its aliases is for
  -- one of its fields.
  pub classes-IsWellFormed : All (IsWellFormed F) (classes F)
  unfolding well_formed
  classes-IsWellFormed = well_formed-All (classes F) refl
