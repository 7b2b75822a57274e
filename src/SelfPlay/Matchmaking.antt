-- ===== src/SelfPlay/Matchmaking.antt =====
-- python/rlox/self_play.py: which opponents are sampled by their Elo ratings.
use rlox.Base.{
  Option-cases, inl, inr, ℕ, zero, suc, ◌<◌, ◌≡◌, refl, sym, ap, ◌∙◌, subst, true, Option, none,
  some, List, [], ◌∷◌, map, length, length-map, get_elem?, get_elem?-below, ok, raised, arith,
}
use mathlib.Core.List.{map-map}
use rlox.Base.Float.{Float}
use rlox.SelfPlay.{
  SelfPlay, Numpy, value_error, last, indexed, scale, weight, probabilities, sample_elo_weighted,
  sample_opponent,
}

-- The operations of the weighting do not turn an order round, as rounded ones do not, if what is
-- subtracted or divided by is finite.
pub record IsMonotone (F : Float) (np : Numpy F) (IsFinite : F.Carrier → Type 0) : Type 0 where
  pub sub-mono :
      (a b m : F.Carrier) → IsFinite m → F.le a b ≡ true → F.le (F.sub a m) (F.sub b m) ≡ true
  pub div-mono :
      (a b d : F.Carrier)
      → IsFinite d
      → F.lt (F.of_ℕ 0) d ≡ true
      → F.le a b ≡ true
      → F.le (F.div a d) (F.div b d) ≡ true
  pub exp-mono : (a b : F.Carrier) → F.le a b ≡ true → F.le (np.exp a) (np.exp b) ≡ true

-- What numpy documents of the calls: a list that is not empty has a greatest element, and an index
-- that is drawn among `n` is below `n`.
pub record IsNumpy (F : Float) (np : Numpy F) : Type 0 where
  pub maximum-cons :
      (x : F.Carrier) (xs : List F.Carrier) → (m : F.Carrier) × (np.maximum (x ∷ xs) ≡ some m)
  pub choice-below : (n i : ℕ) (ps : List F.Carrier) → np.choice n ps ≡ some i → i < n

module _ (F : Float) (StateDict : Type 0) (np : Numpy F) (IsFinite : F.Carrier → Type 0) where
  open F use {Carrier, of_ℕ, le, lt, div}

  get_elem?-map :
      (f : Carrier → Carrier) (xs : List Carrier) (i : ℕ) (x : Carrier)
      → get_elem? xs i ≡ some x
      → get_elem? (map f xs) i ≡ some (f x)
  get_elem?-map f [] i x h = absurd cc
  get_elem?-map f (y ∷ xs) zero x h = cc
  get_elem?-map f (y ∷ xs) (suc i) x h = get_elem?-map f xs i x h

  -- The greater rating is not less likely.
  abbrev pub Favours : List Carrier → List Carrier → Type 0
  Favours ratings probs =
      (i j : ℕ) (r s a b : Carrier)
      → get_elem? ratings i ≡ some r
      → get_elem? ratings j ≡ some s
      → le r s ≡ true
      → get_elem? probs i ≡ some a
      → get_elem? probs j ≡ some b
      → le a b ≡ true

  map-Favours :
      (f : Carrier → Carrier) (ratings : List Carrier)
      → ((a b : Carrier) → le a b ≡ true → le (f a) (f b) ≡ true)
      → Favours ratings (map f ratings)
  map-Favours f ratings mono i j r s a b hr hs below ha hb =
      let at_i : f r ≡ a = some_injective (f r) a (sym (get_elem?-map f ratings i r hr) ∙ ha) in
      let at_j : f s ≡ b = some_injective (f s) b (sym (get_elem?-map f ratings j s hs) ∙ hb) in
      rw (sym at_i, sym at_j) (mono r s below)
    where
      some_injective : (x y : Carrier) → some x ≡ some y → x ≡ y
      some_injective x y e = cc

  indexed-ok :
      (pool : List StateDict) (i : ℕ)
      → i < length pool
      → (y : StateDict) × (get_elem? pool i ≡ some y) × (indexed F StateDict pool i ≡ ok y)
  indexed-ok pool i h = let (y, e) = get_elem?-below pool i h in (y, e, rw (indexed, e) refl)

  last-cons :
      (x : StateDict) (xs : List StateDict) → (y : StateDict) × (last F StateDict (x ∷ xs) ≡ some y)
  last-cons x [] = (x, refl)
  last-cons x (z ∷ xs) = last-cons z xs

  abbrev pub IsPositive : Carrier → Type 0
  IsPositive d = IsFinite d × (lt (of_ℕ 0) d ≡ true)

  -- The scale and the sum of the weights are finite and positive, and the greatest rating is finite.
  abbrev pub IsWeighable : Carrier → List Carrier → Type 0
  IsWeighable elo_k ratings =
      IsPositive (scale F StateDict np elo_k)
      × ((m : Carrier)
          → np.maximum ratings ≡ some m
          → IsFinite m × IsPositive (np.sum (map (weight F StateDict np elo_k m) ratings)))

  probabilities-Favours :
      (elo_k m : Carrier) (ratings : List Carrier)
      → IsMonotone F np IsFinite
      → np.maximum ratings ≡ some m
      → IsWeighable elo_k ratings
      → (probs : List Carrier) × (probabilities F StateDict np elo_k ratings ≡ some probs)
        × (length probs ≡ length ratings)
        × Favours ratings probs
  unfolding probabilities
  probabilities-Favours elo_k m ratings mono max (pos_scale, weighable) =
      let weighted = weight F StateDict np elo_k m in
      let total = np.sum (map weighted ratings) in
      let (finite, pos_sum) = weighable m max in
      let divided : Carrier → Carrier = λ w. div w total in
      (
        map divided (map weighted ratings),
        rw (probabilities, max) refl,
        length-map (map weighted ratings) divided ∙ length-map ratings weighted,
        subst (λ ps. Favours ratings ps) (sym (map-map divided weighted ratings))
            (map-Favours (λ r. divided (weighted r)) ratings
              (λ a b below. mono.div-mono (weighted a) (weighted b) total pos_sum.0 pos_sum.1 (
                mono.exp-mono _ _ (
                  mono.div-mono _ _ (scale F StateDict np elo_k) pos_scale.0 pos_scale.1
                    (mono.sub-mono a b m finite below))))),
      )

  -- What the call gives for a draw.
  abbrev pub Draws : (ℕ → ℕ) → SelfPlay F StateDict → Option ℕ → Type 0
  Draws randrange p none = sample_opponent F StateDict np randrange p ≡ raised value_error
  Draws randrange p (some i) =
      (y : StateDict) × (get_elem? p.opponent_pool i ≡ some y)
      × (sample_opponent F StateDict np randrange p ≡ ok y)

  Draws-choice :
      (randrange : ℕ → ℕ) (p : SelfPlay F StateDict) (latest : StateDict) (probs : List Carrier)
      → last F StateDict p.opponent_pool ≡ some latest
      → p.matchmaking ≡ "elo"
      → probabilities F StateDict np p.elo_k p.elo_ratings ≡ some probs
      → IsNumpy F np
      → Draws randrange p (np.choice (length p.opponent_pool) probs)
  unfolding sample_opponent sample_elo_weighted
  Draws-choice randrange p latest probs some_latest elo e numpy =
      elim (Option-cases (np.choice (length p.opponent_pool) probs)) [
        | inl fails ↦
            rw fails (rw (sample_opponent, some_latest, elo, sample_elo_weighted, e, fails) refl)
        | inr (i, drawn) ↦
            let (y, at_i, found) =
              indexed-ok p.opponent_pool i
                (numpy.choice-below (length p.opponent_pool) i probs drawn) in
            rw drawn
              (y, at_i, rw (sample_opponent, some_latest, elo, sample_elo_weighted, e, drawn) found)
      ]

  -- From a pool with at least one opponent and a rating for each, under "elo", where the operations
  -- keep the order of numbers, numpy does as documented, the greatest rating is finite, and the
  -- scale and the sum of the weights are finite and positive: the draw is among the whole pool, with a
  -- probability for each opponent, and none has a smaller one than an opponent whose rating
  -- is not above its own. The opponent at the index that is drawn is returned; if the draw raises,
  -- so does the call.
  pub sample_opponent-Favours :
      (randrange : ℕ → ℕ) (p : SelfPlay F StateDict) (x : StateDict) (xs : List StateDict)
      → p.opponent_pool ≡ x ∷ xs
      → length p.elo_ratings ≡ length p.opponent_pool
      → p.matchmaking ≡ "elo"
      → IsMonotone F np IsFinite
      → IsNumpy F np
      → IsWeighable p.elo_k p.elo_ratings
      → (probs : List Carrier) × (length probs ≡ length p.opponent_pool)
        × Favours p.elo_ratings probs
        × Draws randrange p (np.choice (length p.opponent_pool) probs)
  sample_opponent-Favours randrange p x xs pool sizes elo mono numpy weighable =
      let (latest, e) = last-cons x xs in
      let some_latest : last F StateDict p.opponent_pool ≡ some latest =
        ap (last F StateDict) pool ∙ e in
      let (m, max) =
        maximum_of p.elo_ratings (sizes ∙ ap (λ (l : List StateDict). length l) pool) in
      let (probs, made, len, favours) =
        probabilities-Favours p.elo_k m p.elo_ratings mono max weighable in
      (
        probs,
        len ∙ sizes,
        favours,
        Draws-choice randrange p latest probs some_latest elo made numpy,
      )
    where
      maximum_of :
          (ratings : List Carrier)
          → length ratings ≡ suc (length xs)
          → (m : Carrier) × (np.maximum ratings ≡ some m)
      maximum_of [] h = absurd (omega (arith, h))
      maximum_of (r ∷ rs) h = numpy.maximum-cons r rs
