-- ===== src/SelfPlay.antt =====
-- python/rlox/self_play.py: the pool of opponents.
-- The state dict of a policy is a parameter, and so are `10.0 ** x`, the index that
-- `random.randrange` draws, and what is called of numpy.
pub mod Pool
pub mod Matchmaking
mod Tests
use rlox.Base.{
  ℕ, zero, suc, Bool, true, false, Option, none, some, List, [], ◌∷◌, ◌++◌, map, if◌then◌else◌, leb,
  length, get_elem?, set, drop, Result, ok, raised, String, ◌-◌,
}
use rlox.Base.Float.{Float}
use rlox.Base.Dict.{Eq, string_eq}

pub data Error : Type 0 where
  runtime_error index_error value_error : Error

-- What the code calls of numpy; `none` is a ValueError.
pub record Numpy (F : Float) : Type 0 where
  -- `ratings.max()`
  pub maximum : List F.Carrier → Option F.Carrier
  pub exp : F.Carrier → F.Carrier
  -- `weights.sum()`
  pub sum : List F.Carrier → F.Carrier
  -- `random.choice(n, p=probs)`
  pub choice : ℕ → List F.Carrier → Option ℕ

module _ (F : Float) (StateDict : Type 0) where
  pub record SelfPlay : Type 0 where
    pub pool_size : ℕ
    pub initial_elo : F.Carrier
    pub elo_k : F.Carrier
    pub matchmaking : String
    pub opponent_pool : List StateDict
    pub elo_ratings : List F.Carrier

  -- `pop(0)` of both lists.
  unfoldable pub evict : SelfPlay → Result Error SelfPlay
  evict p = elim p.opponent_pool [
    | [] ↦ raised index_error
    | _ ∷ pool ↦ elim p.elo_ratings [
      | [] ↦ raised index_error
      | _ ∷ ratings ↦ ok (record p { opponent_pool = pool; elo_ratings = ratings })
    ]
  ]

  unfoldable pub append : SelfPlay → StateDict → SelfPlay
  append p sd = record p {
    opponent_pool = p.opponent_pool ++ sd ∷ [];
    elo_ratings = p.elo_ratings ++ p.initial_elo ∷ [];
  }

  unfoldable pub snapshot : SelfPlay → StateDict → Result Error SelfPlay
  unfolding evict append
  snapshot p sd =
      if leb p.pool_size (length p.opponent_pool)
      then elim (evict p) [ raised e ↦ raised e | ok q ↦ ok (append q sd) ]
      else ok (append p sd)

  -- The last of a list.
  abbrev pub last : List StateDict → Option StateDict
  last [] = none
  last (x ∷ []) = some x
  last (x ∷ y ∷ xs) = last (y ∷ xs)

  abbrev pub indexed : List StateDict → ℕ → Result Error StateDict
  indexed pool i = elim (get_elem? pool i) [ none ↦ raised index_error | some sd ↦ ok sd ]

  module _ (np : Numpy F) where
    -- `max(self.config.elo_k, 1.0)`
    abbrev pub scale : F.Carrier → F.Carrier
    scale elo_k = if F.lt elo_k (F.of_ℕ 1) then F.of_ℕ 1 else elo_k

    -- The weight of a rating, from the greatest one
    abbrev pub weight : F.Carrier → F.Carrier → F.Carrier → F.Carrier
    weight elo_k m r = np.exp (F.div (F.sub r m) (scale elo_k))

    -- `probs`
    unfoldable pub probabilities : F.Carrier → List F.Carrier → Option (List F.Carrier)
    probabilities elo_k ratings = elim (np.maximum ratings) [
      | none ↦ none
      | some m ↦
          let weights = map (weight elo_k m) ratings in
          let total = np.sum weights in some (map (λ w. F.div w total) weights)
    ]

    unfoldable pub sample_elo_weighted : SelfPlay → Result Error StateDict
    unfolding probabilities
    sample_elo_weighted p = elim (probabilities p.elo_k p.elo_ratings) [
      | none ↦ raised value_error
      | some probs ↦ elim (np.choice (length p.opponent_pool) probs) [
        | none ↦ raised value_error
        | some idx ↦ indexed p.opponent_pool idx
      ]
    ]

    -- `randrange` is given the length of the pool.
    unfoldable pub sample_opponent : (ℕ → ℕ) → SelfPlay → Result Error StateDict
    unfolding sample_elo_weighted
    sample_opponent randrange p = elim (last p.opponent_pool) [
      | none ↦ raised runtime_error
      | some latest ↦
          if string_eq.beq p.matchmaking "latest"
          then ok latest
          else if string_eq.beq p.matchmaking "elo"
          then sample_elo_weighted p
          else indexed p.opponent_pool (randrange (length p.opponent_pool))
    ]

  module _ (power_of_ten : F.Carrier → F.Carrier) where
    open F use {Carrier, of_ℕ, add, sub, mul, div}

    -- The probability that a player with the first rating beats one with the second.
    unfoldable pub expected_score : Carrier → Carrier → Carrier
    expected_score r_w r_l =
        div (of_ℕ 1) (add (of_ℕ 1) (power_of_ten (div (sub r_l r_w) (of_ℕ 400))))

    -- The winner's rating is written, then the loser's.
    unfoldable pub exchanged : Carrier → List Carrier → ℕ → ℕ → Carrier → Carrier → List Carrier
    unfolding expected_score
    exchanged k ratings winner_idx loser_idx r_w r_l =
        let expected_w = expected_score r_w r_l in
        let expected_l = sub (of_ℕ 1) expected_w in
        set (set ratings winner_idx (add r_w (mul k (sub (of_ℕ 1) expected_w)))) loser_idx
          (add r_l (mul k (sub (of_ℕ 0) expected_l)))

    -- Both ratings are read first.
    unfoldable pub update_elo : SelfPlay → ℕ → ℕ → Result Error SelfPlay
    unfolding exchanged
    update_elo p winner_idx loser_idx = elim (get_elem? p.elo_ratings winner_idx) [
      | none ↦ raised index_error
      | some r_w ↦ elim (get_elem? p.elo_ratings loser_idx) [
        | none ↦ raised index_error
        | some r_l ↦ ok (record p {
          elo_ratings = exchanged p.elo_k p.elo_ratings winner_idx loser_idx r_w r_l;
        })
      ]
    ]

    pub data Op : Type 0 where
      take_snapshot : StateDict → Op
      record_match : (winner_idx loser_idx : ℕ) → Op

    unfoldable pub step : SelfPlay → Op → Result Error SelfPlay
    unfolding snapshot update_elo
    step p (take_snapshot sd) = snapshot p sd
    step p (record_match w l) = update_elo p w l

    -- Several operations; the first that raises ends them.
    unfoldable pub run : SelfPlay → List Op → Result Error SelfPlay
    unfolding step
    run p [] = ok p
    run p (o ∷ os) = elim (step p o) [ raised e ↦ raised e | ok q ↦ run q os ]
