-- ===== src/Distributed/Estimates.antt =====
-- python/rlox/distributed/pipeline.py: the estimates for the environments of a round.
use rlox.Base.{
  ℕ, zero, suc, ◌+◌, ◌*◌, ◌≤◌, ◌<◌, ◌≡◌, refl, sym, ap, ◌∙◌, subst, some, List, [], ◌∷◌, map,
  length, length-map, length-replicate, get_elem?, replicate, ◌>>=◌, arith,
}
use rlox.Base.Float.{Float}
use rlox.Distributed.Collection.{
  column, stack, stack_scalars, transposed, concat, reshape, Parts, Loop, Turn, turn, turns, gae_of,
  gae_from,
}
use rlox.Distributed.Layout.{at, HaveLength, IsColumn-exists, columns-exist, stacked, reshaped}

module _ {A : Type 0} where
  stack_scalars-some : (xs : List A) (m : ℕ) → length xs ≡ suc m → stack_scalars xs ≡ some xs
  unfolding stack_scalars
  stack_scalars-some [] m h = absurd (omega arith)
  stack_scalars-some (x ∷ xs) m h = refl

  get_elem?-replicate : (n i : ℕ) (a : A) → i < n → get_elem? (replicate n a) i ≡ some a
  get_elem?-replicate zero i a h = absurd (omega arith)
  get_elem?-replicate (suc n) zero a h = refl
  get_elem?-replicate (suc n) (suc i) a h = get_elem?-replicate n i a (omega arith)

  -- A column of a constant table
  column-replicate :
      (k n j : ℕ) (a : A) → j < n → column j (replicate k (replicate n a)) ≡ some (replicate k a)
  unfolding column
  column-replicate zero n j a h = refl
  column-replicate (suc k) n j a h =
      rw (column, get_elem?-replicate n j a h, column-replicate k n j a h) refl

  pub replicate-HaveLength : (k n : ℕ) (a : A) → HaveLength n (replicate k (replicate n a))
  replicate-HaveLength zero n a = tt
  replicate-HaveLength (suc k) n a = (length-replicate n a, replicate-HaveLength k n a)

  -- Transposed, `m` columns of `n` entries are flattened to all their entries by rows.
  pub transposed_flat :
      (m n : ℕ) (cs : List (List A))
      → HaveLength (suc m) cs
      → length cs ≡ suc n
      → (rows : List (List A)) × ((stack cs >>= transposed >>= reshape (suc m * suc n))
          ≡ some (concat rows))
        × (length rows ≡ suc m)
        × HaveLength (suc n) rows
        × ((i j : ℕ) → i < suc m → at i j rows ≡ at j i cs)
  unfolding transposed
  transposed_flat m n [] h l = absurd (omega arith)
  transposed_flat m n (c ∷ cs) h l =
      let (rows, e, len, wide, get) = columns-exist (suc m) (suc m) 0 (c ∷ cs) h (omega arith) in
      let wide' : HaveLength (suc n) rows = subst (λ k. HaveLength k rows) l wide in
      (
        rows,
        rw (stacked (suc m) c cs h, transposed, h.0, e) (reshaped (suc m) (suc n) rows wide' len),
        len,
        wide',
        λ i j lt. get j i lt ∙ ap (λ k. at j k (c ∷ cs)) (omega arith),
      )

module _ (F : Float) (Env Rng Obs : Type 0) (P : Parts F Env Rng Obs) where
  -- The environments give a row each, numpy the actions asked for, and the advantage estimator an
  -- advantage and a return for each reward.
  pub record IsVectorised (n_envs : ℕ) : Type 0 where
    pub draws : (high n : ℕ) (rng : Rng) → length (P.randint high n rng).0 ≡ n
    pub steps :
        (actions : List ℕ) (env : Env)
        → length actions ≡ n_envs
        → length (P.step_all actions env).0 ≡ n_envs
    pub estimates :
        (rewards values dones : List F.Carrier) (last gamma lam : F.Carrier)
        → (length (P.compute_gae rewards values dones last gamma lam).0 ≡ length rewards)
          × (length (P.compute_gae rewards values dones last gamma lam).1 ≡ length rewards)

  -- A table of the turns, one row per step
  abbrev pub table :
      {A : Type 0} → (Turn F Env Rng Obs → List A) → List (Turn F Env Rng Obs) → List (List A)
  table field ts = map field ts

  abbrev pub IsTable : ℕ → ℕ → List (Turn F Env Rng Obs) → Type 0
  IsTable k n ts =
      (length ts ≡ k)
      × HaveLength n (map (λ (t : Turn F Env Rng Obs). t.obs) ts)
      × HaveLength n (map (λ (t : Turn F Env Rng Obs). t.actions) ts)
      × HaveLength n (map (λ (t : Turn F Env Rng Obs). t.rewards) ts)
      × HaveLength n (map (λ (t : Turn F Env Rng Obs). t.dones) ts)

  pub turns-IsTable :
      (n k : ℕ) (l : Loop F Env Rng Obs)
      → IsVectorised n
      → length l.obs ≡ n
      → IsTable k n (turns F Env Rng Obs P n k l).0
  unfolding turns
  turns-IsTable n zero l v h = (refl, tt, tt, tt, tt)
  turns-IsTable n (suc k) l v h =
      let drawn = v.draws 2 n l.rng in
      let given = v.steps (P.randint 2 n l.rng).0 l.env drawn in
      let next = (turn F Env Rng Obs P n l).1 in
      let (len, o, a, r, d) = turns-IsTable n k next v (length-map _ _ ∙ given) in
      (
        ap suc len,
        (length-map l.obs P.cast_obs ∙ h, o),
        (drawn, a),
        (length-map _ _ ∙ given, r),
        (length-map _ _ ∙ given, d),
      )

  abbrev zeros : ℕ → List F.Carrier
  zeros k = replicate k (F.of_ℕ 0)

  -- What the estimator gives for an environment, cast to float32
  abbrev pub estimate : List F.Carrier → List F.Carrier → List F.Carrier × List F.Carrier
  estimate r d =
      let g = P.compute_gae r (zeros (length r)) d (F.of_ℕ 0) (F.ratio 99 100) (F.ratio 95 100) in
      (map P.cast g.0, map P.cast g.1)

  module _ (m n : ℕ) (v : IsVectorised (suc n)) (rs ds : List (List F.Carrier)) where
    abbrev pub values : List (List F.Carrier)
    values = replicate (suc m) (replicate (suc n) (F.of_ℕ 0))

    -- The results of environment `e`
    abbrev pub IsEstimate : ℕ → List F.Carrier → List F.Carrier → Type 0
    IsEstimate e adv ret =
        (r : List F.Carrier) × (d : List F.Carrier) × (column e rs ≡ some r)
        × (column e ds ≡ some d)
        × (adv ≡ (estimate r d).0)
        × (ret ≡ (estimate r d).1)

    gae_of-IsEstimate :
        (e : ℕ)
        → HaveLength (suc n) rs
        → HaveLength (suc n) ds
        → length rs ≡ suc m
        → length ds ≡ suc m
        → e < suc n
        → (adv : List F.Carrier) × (ret : List F.Carrier) × (gae_of F Env Rng Obs P e rs values ds
            ≡ some (adv, ret))
          × (length adv ≡ suc m)
          × (length ret ≡ suc m)
          × IsEstimate e adv ret
    unfolding gae_of
    gae_of-IsEstimate e hr hd lr ld lt =
        let (r, (er, nr, _)) = IsColumn-exists (suc n) e rs hr lt in
        let (d, (ed, nd, _)) = IsColumn-exists (suc n) e ds hd lt in
        let ev : column e values ≡ some (zeros (suc m)) =
          column-replicate (suc m) (suc n) e (F.of_ℕ 0) lt in
        let lens =
          v.estimates r (zeros (length r)) d (F.of_ℕ 0) (F.ratio 99 100) (F.ratio 95 100) in
        let same : zeros (suc m) ≡ zeros (length r) = ap zeros (sym (nr ∙ lr)) in
        (
          (estimate r d).0,
          (estimate r d).1,
          rw
              (
                gae_of,
                er,
                ed,
                ev,
                stack_scalars-some r m (nr ∙ lr),
                stack_scalars-some d m (nd ∙ ld),
                stack_scalars-some (zeros (suc m)) m (length-replicate (suc m) (F.of_ℕ 0)),
                same,
              )
              refl,
          length-map _ P.cast ∙ lens.0 ∙ nr ∙ lr,
          length-map _ P.cast ∙ lens.1 ∙ nr ∙ lr,
          (r, d, er, ed, refl, refl),
        )

    -- The results at position `j` are those of environment `e + j`.
    unfoldable pub Estimated : ℕ → List (List F.Carrier) → List (List F.Carrier) → ℕ → Type 0
    Estimated e advs rets j =
        (adv : List F.Carrier) × (ret : List F.Carrier) × (get_elem? advs j ≡ some adv)
        × (get_elem? rets j ≡ some ret)
        × IsEstimate (e + j) adv ret

    module _ (hr : HaveLength (suc n) rs) (hd : HaveLength (suc n) ds) (lr : length rs ≡ suc m)
        (ld : length ds ≡ suc m) where
      pub gae_from-Estimated :
          (k e : ℕ)
          → e + k ≤ suc n
          → (advs : List (List F.Carrier)) × (rets : List (List F.Carrier)) × (gae_from F Env Rng
                Obs P e k rs values ds
              ≡ some (advs, rets))
            × ((length advs ≡ k) × (length rets ≡ k))
            × (HaveLength (suc m) advs × HaveLength (suc m) rets)
            × ((j : ℕ) → j < k → Estimated e advs rets j)
      unfolding gae_from Estimated
      gae_from-Estimated zero e le =
          ([], [], refl, (refl, refl), (tt, tt), λ j lt. absurd (omega arith))
      gae_from-Estimated (suc k) e le =
          let (adv, ret, eq, la, lt, est) = gae_of-IsEstimate e hr hd lr ld (omega arith) in
          let (advs, rets, eqs, lens, wides, ests) = gae_from-Estimated k (suc e) (omega arith) in
          (
            adv ∷ advs,
            ret ∷ rets,
            rw (gae_from, eq, eqs) refl,
            (ap suc lens.0, ap suc lens.1),
            ((la, wides.0), (lt, wides.1)),
            under adv ret advs rets est ests,
          )
        where
          under :
              (adv ret : List F.Carrier) (advs rets : List (List F.Carrier))
              → IsEstimate e adv ret
              → ((j : ℕ) → j < k → Estimated (suc e) advs rets j)
              → (j : ℕ) → j < suc k
              → Estimated e (adv ∷ advs) (ret ∷ rets) j
          under adv ret advs rets est ests zero lt =
              let same : e + 0 ≡ e = omega arith in
              (adv, ret, refl, refl, subst (λ i. IsEstimate i adv ret) (sym same) est)
          under adv ret advs rets est ests (suc j) lt =
              let (a, r, ea, er, est') = ests j (omega arith) in
              let same : suc e + j ≡ e + suc j = omega arith in
              (a, r, ea, er, subst (λ i. IsEstimate i a r) same est')
