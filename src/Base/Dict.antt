-- ===== src/Base/Dict.antt =====
-- A Python dict: its entries in the order in which their keys first came in.
use Prim.Native.Nat.{suc}
use Prim.Native.String.{String}
use mathlib.Core.Path.{◌≡◌, refl}
use mathlib.Core.Logic.{◌≢◌, ◌↔◌}
use mathlib.Core.Bool.{Bool, true, false}
use mathlib.Core.Option.{Option, none, some}
use mathlib.Core.List.{List, [], ◌∷◌}
use native.Mathlib.Omega.{arith}
use text.Mathlib.Text.{◌==◌ as str_eq}
use text.Mathlib.TextEquality.{eq_iff}
use rlox.Base.Tests.{if◌then◌else◌}
use rlox.Base.Lists.{length}

pub record Eq {ℓ} (A : Type ℓ) : Type ℓ where
  pub beq : A → A → Bool
  pub beq_iff : (a b : A) → (beq a b ≡ true) ↔ (a ≡ b)

instance abbrev pub string_eq : Eq String
string_eq = record { beq = str_eq; beq_iff = eq_iff }

abbrev pub Dict {ℓ κ} : Type ℓ → Type κ → Type (ℓ ⊔ κ)
Dict K V = List (K × V)

pub beq_refl {ℓ} : {K : Type ℓ} ⦃e : Eq K⦄ (k : K) → e.beq k k ≡ true
beq_refl ⦃e⦄ k = (e.beq_iff k k).1 refl

module _ {ℓ κ} {K : Type ℓ} {V : Type κ} ⦃e : Eq K⦄ where
  -- `d.get(k)`
  abbrev pub lookup : K → Dict K V → Option V
  lookup k [] = none
  lookup k ((j, v) ∷ d) = if e.beq j k then some v else lookup k d

  -- `k in d`
  abbrev pub contains : K → Dict K V → Bool
  contains k [] = false
  contains k ((j, v) ∷ d) = if e.beq j k then true else contains k d

  -- `d[k] = v`
  abbrev pub insert : K → V → Dict K V → Dict K V
  insert k v [] = (k, v) ∷ []
  insert k v ((j, w) ∷ d) = if e.beq j k then (j, v) ∷ d else (j, w) ∷ insert k v d

  -- `del d[k]`
  abbrev pub erase : K → Dict K V → Dict K V
  erase k [] = []
  erase k ((j, w) ∷ d) = if e.beq j k then d else (j, w) ∷ erase k d

  -- No key stands twice.
  abbrev pub HasUniqueKeys : Dict K V → Type 0
  HasUniqueKeys [] = Unit
  HasUniqueKeys ((k, v) ∷ d) = (contains k d ≡ false) × HasUniqueKeys d

  pub lookup-insert_self : (k : K) (v : V) (d : Dict K V) → lookup k (insert k v d) ≡ some v
  lookup-insert_self k v [] = ground (arith, beq_refl k)
  lookup-insert_self k v ((j, w) ∷ d) = ground (arith, lookup-insert_self k v d)

  pub lookup-insert_ne :
      (k j : K) (v : V) (d : Dict K V) → k ≢ j → lookup j (insert k v d) ≡ lookup j d
  lookup-insert_ne k j v [] ne = ground (arith, e.beq_iff k j)
  lookup-insert_ne k j v ((i, w) ∷ d) ne =
      ground (arith, e.beq_iff i k, e.beq_iff i j, lookup-insert_ne k j v d ne)

  pub contains-insert :
      (k j : K) (v : V) (d : Dict K V)
      → contains j d ≡ false
      → k ≢ j
      → contains j (insert k v d) ≡ false
  contains-insert k j v [] h ne = ground (arith, e.beq_iff k j)
  contains-insert k j v ((i, w) ∷ d) h ne =
      ground (arith, e.beq_iff i k, e.beq_iff i j, contains-insert k j v d)

  pub insert-HasUniqueKeys :
      (k : K) (v : V) (d : Dict K V) → HasUniqueKeys d → HasUniqueKeys (insert k v d)
  insert-HasUniqueKeys k v [] h = (refl, tt)
  insert-HasUniqueKeys k v ((i, w) ∷ d) h = ground (
    arith,
    e.beq_iff i k,
    e.beq_iff k i,
    insert-HasUniqueKeys k v d h.1,
    contains-insert k i v d h.0,
  )

  pub contains-erase :
      (k j : K) (d : Dict K V) → contains j d ≡ false → contains j (erase k d) ≡ false
  contains-erase k j [] h = refl
  contains-erase k j ((i, w) ∷ d) h = ground (arith, contains-erase k j d)

  pub erase-HasUniqueKeys : (k : K) (d : Dict K V) → HasUniqueKeys d → HasUniqueKeys (erase k d)
  erase-HasUniqueKeys k [] h = tt
  erase-HasUniqueKeys k ((i, w) ∷ d) h =
      ground (arith, erase-HasUniqueKeys k d h.1, contains-erase k i d h.0)

  pub length-insert_new :
      (k : K) (v : V) (d : Dict K V) → contains k d ≡ false → length (insert k v d) ≡ suc (length d)
  length-insert_new k v [] h = refl
  length-insert_new k v ((i, w) ∷ d) h = ground (arith, length-insert_new k v d)

  pub length-insert_old :
      (k : K) (v : V) (d : Dict K V) → contains k d ≡ true → length (insert k v d) ≡ length d
  length-insert_old k v [] h = cc
  length-insert_old k v ((i, w) ∷ d) h = ground (arith, length-insert_old k v d)

  pub length-erase :
      (k : K) (d : Dict K V) → contains k d ≡ true → suc (length (erase k d)) ≡ length d
  length-erase k [] h = cc
  length-erase k ((i, w) ∷ d) h = ground (arith, length-erase k d)
