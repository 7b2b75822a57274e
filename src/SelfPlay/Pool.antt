-- ===== src/SelfPlay/Pool.antt =====
-- python/rlox/self_play.py: the pool after any operations.
use rlox.Base.{
  ℕ, zero, suc, ◌-◌, ◌≤◌, ◌<◌, ◌≡◌, refl, sym, ap, ◌∙◌, subst, true, none, some, List, [], ◌∷◌,
  ◌++◌, leb, length, get_elem?, drop, drop-nil, last_n, push_bounded, push_bounded-last_n,
  length-last_n, length-append, length-set, append-nil, append_assoc, ok, Bool-cases, Option-cases,
  inl, inr, arith, max, ◌⊎◌, String,
}
use rlox.Base.Float.{Float}
use rlox.Base.Dict.{string_eq}
use rlox.SelfPlay.{
  SelfPlay, evict, append, snapshot, exchanged, update_elo, Op, take_snapshot, record_match, step,
  run,
}

module _ (F : Float) (StateDict : Type 0) where
  -- The pool is the last snapshots of `taken`, as many as fit, and each has a rating.
  abbrev pub HasLast : SelfPlay F StateDict → List StateDict → Type 0
  HasLast p taken =
      (p.opponent_pool ≡ last_n p.pool_size taken)
      × ((length p.elo_ratings ≡ length p.opponent_pool) × (0 < p.pool_size))

  made : ℕ → F.Carrier → F.Carrier → String → List StateDict → List F.Carrier → SelfPlay F StateDict
  made size elo k m pool ratings = record {
    pool_size = size;
    initial_elo = elo;
    elo_k = k;
    matchmaking = m;
    opponent_pool = pool;
    elo_ratings = ratings;
  }

  -- `SelfPlay(config)`
  abbrev pub empty_pool : ℕ → F.Carrier → F.Carrier → String → SelfPlay F StateDict
  empty_pool size elo k m = record {
    pool_size = size;
    initial_elo = elo;
    elo_k = k;
    matchmaking = m;
    opponent_pool = [];
    elo_ratings = [];
  }

  last_n-nil : (n : ℕ) → [] ≡ last_n {A = StateDict} n []
  last_n-nil n = sym (drop-nil (0 - n))

  push_bounded-room :
      (n : ℕ) (xs : List StateDict) (x : StateDict)
      → length xs < n
      → push_bounded n xs x ≡ xs ++ x ∷ []
  push_bounded-room n xs x h =
      let e : length (xs ++ x ∷ []) - n ≡ 0 = omega (arith, length-append xs (x ∷ [])) in
      ap (λ k. drop k (xs ++ x ∷ [])) e

  push_bounded-full :
      (n : ℕ) (y : StateDict) (xs : List StateDict) (x : StateDict)
      → suc (length xs) ≡ n
      → push_bounded n (y ∷ xs) x ≡ xs ++ x ∷ []
  push_bounded-full n y xs x h =
      let e : length (y ∷ xs ++ x ∷ []) - n ≡ 1 = omega (arith, length-append (y ∷ xs) (x ∷ [])) in
      ap (λ k. drop k (y ∷ xs ++ x ∷ [])) e

  -- A snapshot never raises, and is pushed to the bounded pool with a rating.
  snapshot-pushed :
      (size : ℕ) (elo k : F.Carrier) (m : String) (pool : List StateDict) (ratings : List F.Carrier)
      (sd : StateDict)
      → length ratings ≡ length pool
      → length pool ≤ size
      → 0 < size
      → (ratings' : List F.Carrier) × (snapshot F StateDict (made size elo k m pool ratings) sd
          ≡ ok (made size elo k m (push_bounded size pool sd) ratings'))
        × (length ratings' ≡ length (push_bounded size pool sd))
  unfolding snapshot evict append made
  snapshot-pushed size elo k m pool ratings sd l le pos =
      elim (Bool-cases (leb size (length pool))) [
        | inr room ↦
            let e : push_bounded size pool sd ≡ pool ++ sd ∷ [] =
              push_bounded-room size pool sd (ground arith) in
            (
              ratings ++ elo ∷ [],
              rw (snapshot, room, e) refl,
              rw e (omega (arith, length-append ratings (elo ∷ []), length-append pool (sd ∷ []))),
            )
        | inl full ↦ evicted pool ratings l (ground arith)
      ]
    where
      evicted :
          (pool : List StateDict) (ratings : List F.Carrier)
          → length ratings ≡ length pool
          → length pool ≡ size
          → (ratings' : List F.Carrier) × (snapshot F StateDict (made size elo k m pool ratings) sd
              ≡ ok (made size elo k m (push_bounded size pool sd) ratings'))
            × (length ratings' ≡ length (push_bounded size pool sd))
      evicted [] ratings l e = absurd (omega arith)
      evicted (x ∷ xs) [] l e = absurd (omega arith)
      evicted (x ∷ xs) (y ∷ ys) l e =
          let full : leb size (suc (length xs)) ≡ true = ground arith in
          let p : push_bounded size (x ∷ xs) sd ≡ xs ++ sd ∷ [] =
            push_bounded-full size x xs sd e in
          (
            ys ++ elo ∷ [],
            rw (snapshot, full, p) refl,
            rw p (omega (arith, length-append ys (elo ∷ []), length-append xs (sd ∷ []))),
          )

  get_elem?-out : {A : Type 0} (xs : List A) (i : ℕ) → get_elem? xs i ≡ none → length xs ≤ i
  get_elem?-out [] i h = omega arith
  get_elem?-out (x ∷ xs) zero h = absurd (raises h)
    where
      raises : some x ≡ none → ⊥
      raises h = cc
  get_elem?-out (x ∷ xs) (suc i) h = omega (arith, get_elem?-out xs i h)

  module _ (power_of_ten : F.Carrier → F.Carrier) where
    -- The snapshots among some operations
    abbrev pub snapshots : List (Op F StateDict power_of_ten) → List StateDict
    snapshots [] = []
    snapshots (take_snapshot sd ∷ os) = sd ∷ snapshots os
    snapshots (record_match w l ∷ os) = snapshots os

    -- Some operation is a match of a player that the pool does not have when it comes.
    abbrev pub HasStranger : SelfPlay F StateDict → List (Op F StateDict power_of_ten) → Type 0
    HasStranger p ops =
        (before : List (Op F StateDict power_of_ten)) × (w : ℕ) × (l : ℕ) × (after : List
          (Op F StateDict power_of_ten))
        × (q : SelfPlay F StateDict) × (ops ≡ before ++ record_match w l ∷ after)
        × (run F StateDict power_of_ten p before ≡ ok q)
        × (length q.opponent_pool ≤ max w l)

    exchanged-length :
        (k : F.Carrier) (ratings : List F.Carrier) (w l : ℕ) (r_w r_l : F.Carrier)
        → length (exchanged F StateDict power_of_ten k ratings w l r_w r_l) ≡ length ratings
    unfolding exchanged
    exchanged-length k ratings w l r_w r_l = length-set _ l _ ∙ length-set ratings w _

    -- A match changes ratings only, or a player is not in the pool.
    update_elo-ratings :
        (size : ℕ) (elo k : F.Carrier) (m : String) (pool : List StateDict)
        (ratings : List F.Carrier) (w l : ℕ)
        → ((ratings' : List F.Carrier) × (update_elo F StateDict power_of_ten
                (made size elo k m pool ratings)
                w
                l
              ≡ ok (made size elo k m pool ratings'))
            × (length ratings' ≡ length ratings))
          ⊎ (length ratings ≤ max w l)
    unfolding update_elo made
    update_elo-ratings size elo k m pool ratings w l = elim (Option-cases (get_elem? ratings w)) [
      | inl out ↦ inr (omega (arith, get_elem?-out ratings w out))
      | inr (r_w, e) ↦ elim (Option-cases (get_elem? ratings l)) [
        | inl out ↦ inr (omega (arith, get_elem?-out ratings l out))
        | inr (r_l, g) ↦ inl (
          exchanged F StateDict power_of_ten k ratings w l r_w r_l,
          rw (update_elo, e, g) refl,
          exchanged-length k ratings w l r_w r_l,
        )
      ]
    ]

    run-HasLast :
        (ops : List (Op F StateDict power_of_ten)) (size : ℕ) (elo k : F.Carrier) (m : String)
        (pool : List StateDict) (ratings : List F.Carrier) (taken : List StateDict)
        → HasLast (made size elo k m pool ratings) taken
        → ((q : SelfPlay F StateDict) × (run F StateDict power_of_ten
                (made size elo k m pool ratings)
                ops
              ≡ ok q)
            × HasLast q (taken ++ snapshots ops))
          ⊎ HasStranger (made size elo k m pool ratings) ops
    unfolding run step made
    run-HasLast [] size elo k m pool ratings taken h =
        inl (made size elo k m pool ratings, refl, rw (append-nil taken) h)
    run-HasLast (take_snapshot sd ∷ ops) size elo k m pool ratings taken h =
        let fits : length pool ≤ size = omega (arith, ap length h.0, length-last_n size taken) in
        let (ratings', e, l) = snapshot-pushed size elo k m pool ratings sd h.1.0 fits h.1.1 in
        let pushed : push_bounded size pool sd ≡ last_n size (taken ++ sd ∷ []) =
          ap (λ (ps : List StateDict). push_bounded size ps sd) h.0
          ∙ push_bounded-last_n size taken sd in
        elim (run-HasLast ops size elo k m (push_bounded size pool sd) ratings' (taken ++ sd ∷ [])
          (pushed, (l, h.1.1))) [
            | inl (q, r, hq) ↦ inl (
              q,
              rw (run, step, e) r,
              subst (HasLast q) (append_assoc taken (sd ∷ []) (snapshots ops)) hq,
            )
            | inr (before, w, l, after, q, split, r, out) ↦ inr (
              take_snapshot sd ∷ before,
              w,
              l,
              after,
              q,
              ap (λ (os : List (Op F StateDict power_of_ten)). take_snapshot sd ∷ os) split,
              rw (run, step, e) r,
              out,
            )
          ]
    run-HasLast (record_match w l ∷ ops) size elo k m pool ratings taken h =
        elim (update_elo-ratings size elo k m pool ratings w l) [
          | inr out ↦
              inr (
                [],
                w,
                l,
                ops,
                made size elo k m pool ratings,
                refl,
                refl,
                omega (arith, h.1.0, out),
              )
          | inl (ratings', e, same) ↦
              elim (run-HasLast ops size elo k m pool ratings' taken (h.0, (same ∙ h.1.0, h.1.1))) [
                | inl (q, r, hq) ↦ inl (q, rw (run, step, e) r, hq)
                | inr (before, w', l', after, q, split, r, out) ↦ inr (
                  record_match w l ∷ before,
                  w',
                  l',
                  after,
                  q,
                  ap (λ (os : List (Op F StateDict power_of_ten)). record_match w l ∷ os) split,
                  rw (run, step, e) r,
                  out,
                )
              ]
        ]

    -- A pool that starts empty, with room for one snapshot at least, after any snapshots and
    -- matches: either it holds exactly the last snapshots, as many as fit, in their order, each
    -- with a rating; or some match was of a player that the pool did not have when it came.
    pub run-last_n :
        (ops : List (Op F StateDict power_of_ten)) (size : ℕ) (elo k : F.Carrier) (m : String)
        → 0 < size
        → ((q : SelfPlay F StateDict) × (run F StateDict power_of_ten (empty_pool size elo k m) ops
              ≡ ok q)
            × HasLast q (snapshots ops))
          ⊎ HasStranger (empty_pool size elo k m) ops
    unfolding made
    run-last_n ops size elo k m pos =
        run-HasLast ops size elo k m [] [] [] (last_n-nil size, (refl, pos))
