-- ===== src/Base/Positions.antt =====
-- The elements of a list at their positions: what is there, and what a change at one leaves.
use Prim.Native.Nat.{ℕ, zero, suc, ◌<◌}
use mathlib.Core.Path.{◌≡◌, refl, ap, ◌∙◌, subst}
use mathlib.Core.Logic.{◌≢◌}
use mathlib.Core.List.{List, [], ◌∷◌, map}
use mathlib.Core.Option.{Option, none, some}
use native.Mathlib.Omega.{arith}
use rlox.Base.Lists.{length, get_elem?, set, drop, All}

module _ {ℓ} {A : Type ℓ} where
  pub get_elem?-set_self :
      (xs : List A) (i : ℕ) (x v : A) → get_elem? xs i ≡ some x → get_elem? (set xs i v) i ≡ some v
  get_elem?-set_self [] i x v h = cc
  get_elem?-set_self (y ∷ ys) zero x v h = refl
  get_elem?-set_self (y ∷ ys) (suc i) x v h = get_elem?-set_self ys i x v h

  pub get_elem?-set_ne :
      (xs : List A) (i j : ℕ) (v : A) → i ≢ j → get_elem? (set xs i v) j ≡ get_elem? xs j
  get_elem?-set_ne [] i j v ne = refl
  get_elem?-set_ne (y ∷ ys) zero zero v ne = absurd (ne refl)
  get_elem?-set_ne (y ∷ ys) zero (suc j) v ne = refl
  get_elem?-set_ne (y ∷ ys) (suc i) zero v ne = refl
  get_elem?-set_ne (y ∷ ys) (suc i) (suc j) v ne = get_elem?-set_ne ys i j v (λ e. ne (ap suc e))

  pub drop-cons :
      (xs : List A) (i : ℕ) (x : A) (rest : List A)
      → drop i xs ≡ x ∷ rest
      → (get_elem? xs i ≡ some x) × (drop (suc i) xs ≡ rest)
  drop-cons [] zero x rest h = absurd (nothing h)
    where
      nothing : ◌≡◌ {A = List A} [] (x ∷ rest) → ⊥
      nothing h = cc
  drop-cons [] (suc i) x rest h = absurd (nothing h)
    where
      nothing : ◌≡◌ {A = List A} [] (x ∷ rest) → ⊥
      nothing h = cc
  drop-cons (y ∷ ys) zero x rest h = (cc, cc)
  drop-cons (y ∷ ys) (suc i) x rest h = drop-cons ys i x rest h

  pub get_elem?-below : (xs : List A) (i : ℕ) → i < length xs → (x : A) × (get_elem? xs i ≡ some x)
  get_elem?-below [] i h = absurd (omega arith)
  get_elem?-below (x ∷ xs) zero h = (x, refl)
  get_elem?-below (x ∷ xs) (suc i) h = get_elem?-below xs i (omega arith)

  pub All-get_elem? :
      (P : A → Type 0) (xs : List A) (i : ℕ) (x : A) → All P xs → get_elem? xs i ≡ some x → P x
  All-get_elem? P [] i x h e = absurd cc
  All-get_elem? P (y ∷ ys) zero x h e = subst (from y P) e h.0
    where
      from : A → (A → Type 0) → Option A → Type 0
      from y P none = P y
      from y P (some z) = P z
  All-get_elem? P (y ∷ ys) (suc i) x h e = All-get_elem? P ys i x h.1 e

  pub All-set : (P : A → Type 0) (xs : List A) (i : ℕ) (v : A) → All P xs → P v → All P (set xs i v)
  All-set P [] i v h p = tt
  All-set P (x ∷ xs) zero v h p = (p, h.1)
  All-set P (x ∷ xs) (suc i) v h p = (h.0, All-set P xs i v h.1 p)

  pub map-set :
      {B : Type 0} (f : A → B) (xs : List A) (i : ℕ) (x v : A)
      → get_elem? xs i ≡ some x
      → f v ≡ f x
      → map f (set xs i v) ≡ map f xs
  map-set f [] i x v h e = refl
  map-set f (y ∷ ys) zero x v h e = let same : x ≡ y = cc in ap (λ z. z ∷ map f ys) (e ∙ ap f same)
  map-set f (y ∷ ys) (suc i) x v h e = ap (λ zs. f y ∷ zs) (map-set f ys i x v h e)
