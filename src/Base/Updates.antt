-- ===== src/Base/Updates.antt =====
-- Dict merging, `{**d, **e}` and `d.update(e)`, and what a merged dict holds.
use mathlib.Core.Path.{◌≡◌, refl, ap, ◌∙◌, subst}
use mathlib.Core.Bool.{true, false}
use mathlib.Core.Logic.{inl, inr}
use mathlib.Core.List.{[], ◌∷◌}
use mathlib.Core.Option.{Option, none, some}
use native.Mathlib.Omega.{arith}
use rlox.Base.Tests.{if◌then◌else◌, Bool-cases}
use rlox.Base.Dict.{
  Eq, Dict, lookup, contains, insert, HasUniqueKeys, lookup-insert_self, lookup-insert_ne,
}

module _ {ℓ} {V : Type ℓ} where
  -- `o` if it holds something, else `d`
  abbrev pub or_else : Option V → Option V → Option V
  or_else none d = d
  or_else (some v) d = some v

  pub or_else_assoc : (a b c : Option V) → or_else a (or_else b c) ≡ or_else (or_else a b) c
  or_else_assoc none b c = refl
  or_else_assoc (some x) b c = refl

  pub or_else-none : (o : Option V) → or_else o none ≡ o
  or_else-none none = refl
  or_else-none (some v) = refl

module _ {ℓ κ} {K : Type ℓ} {V : Type κ} ⦃e : Eq K⦄ where
  -- `{**d, **u}`
  unfoldable pub update : Dict K V → Dict K V → Dict K V
  update d [] = d
  update d ((k, v) ∷ u) = update (insert k v d) u

  pub lookup-insert :
      (k j : K) (v : V) (d : Dict K V)
      → lookup j (insert k v d) ≡ or_else (if e.beq k j then some v else none) (lookup j d)
  lookup-insert k j v d = elim (Bool-cases (e.beq k j)) [
    | inl same ↦ rw same (
        subst (λ x. lookup x (insert k v d) ≡ some v) ((e.beq_iff k j).0 same)
          (lookup-insert_self k v d))
    | inr other ↦ rw other (lookup-insert_ne k j v d (λ q. differs ((e.beq_iff k j).1 q) other))
  ]
    where
      differs : e.beq k j ≡ true → e.beq k j ≡ false → ⊥
      differs p q = cc

  lookup_of_contains :
      (k j : K) (d : Dict K V) → contains k d ≡ false → e.beq k j ≡ true → lookup j d ≡ none
  lookup_of_contains k j d h same =
      subst (λ x. lookup x d ≡ none) ((e.beq_iff k j).0 same) (absent d h)
    where
      absent : (d : Dict K V) → contains k d ≡ false → lookup k d ≡ none
      absent [] h = refl
      absent ((i, v) ∷ d) h = ground (arith, absent d)

  -- The later dict goes first.
  pub lookup-update :
      (j : K) (d u : Dict K V)
      → HasUniqueKeys u
      → lookup j (update d u) ≡ or_else (lookup j u) (lookup j d)
  unfolding update
  lookup-update j d [] h = refl
  lookup-update j d ((k, v) ∷ u) h =
      lookup-update j (insert k v d) u h.1
      ∙ ap (or_else (lookup j u)) (lookup-insert k j v d)
      ∙ elim (Bool-cases (e.beq k j)) [
        | inl same ↦ rw (same, lookup_of_contains k j u h.0 same) refl
        | inr other ↦ rw other refl
      ]
