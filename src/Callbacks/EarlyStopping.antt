-- ===== src/Callbacks/EarlyStopping.antt =====
-- python/rlox/callbacks.py, class EarlyStoppingCallback.
use rlox.Base.{
  ℕ, ◌+◌, ◌≤◌, ◌≡◌, ◌⊎◌, inl, inr, refl, Bool, true, false, Option, none, some, List, [], ◌∷◌, ◌++◌,
  arith, length, if◌then◌else◌, leb, All, All-append, Bool-cases, length-append, ap, sym, ◌∙◌, ◌↔◌,
  append_assoc, append-nil,
}
use rlox.Base.Float.{Float, IsOrdered}

pub record EarlyStoppingCallback (F : Float) : Type 0 where
  pub patience : ℕ
  pub min_delta : F.Carrier
  pub best_reward : F.Carrier
  pub wait : ℕ

module _ (F : Float) where
  open F use {Carrier, neg_inf, add, lt}

  -- `EarlyStoppingCallback(patience, min_delta)`
  abbrev pub init : ℕ → Carrier → EarlyStoppingCallback F
  init patience min_delta = record {
    patience = patience;
    min_delta = min_delta;
    best_reward = neg_inf;
    wait = 0;
  }

  -- `if reward > self.best_reward + self.min_delta: … else: …`
  abbrev record_reward : EarlyStoppingCallback F → Carrier → EarlyStoppingCallback F
  record_reward c reward =
      if lt (add c.best_reward c.min_delta) reward
      then record c { best_reward = reward; wait = 0 }
      else record c { wait = c.wait + 1 }

  -- The hook gives `false` to stop training.
  unfoldable pub on_step : EarlyStoppingCallback F → Option Carrier → Bool × EarlyStoppingCallback F
  on_step c none = (true, c)
  on_step c (some reward) =
      let c' = record_reward c reward in if leb c'.patience c'.wait then (false, c') else (true, c')

  -- The callback after the rewards of several steps.
  unfoldable pub observe : EarlyStoppingCallback F → List Carrier → EarlyStoppingCallback F
  unfolding on_step
  observe c [] = c
  observe c (r ∷ rs) = observe (on_step c (some r)).1 rs

module _ (F : Float) (IsNumber : F.Carrier → Type 0) (order : IsOrdered F IsNumber) where
  open F use {Carrier, neg_inf, add, lt}
  open order use {lt_trans, lt_of_not_lt, neg_inf_number}

  -- `best` first stands behind `before`, where every reward is lower, and the `wait` rewards
  -- that follow it are not higher.
  pub record Peaks (rewards : List Carrier) (best : Carrier) (wait : ℕ) : Type 0 where
    pub before : List Carrier
    pub after : List Carrier
    pub split : rewards ≡ before ++ best ∷ after
    pub lower : All (λ r. lt r best ≡ true) before
    pub not_higher : All (λ r. lt best r ≡ false) after
    pub waited : length after ≡ wait

  -- Either no reward was above minus infinity, or the best reward is the first maximum.
  abbrev pub Tracks : List Carrier → Carrier → ℕ → Type 0
  Tracks rewards best wait =
      (best ≡ neg_inf) × (wait ≡ length rewards) × All (λ r. lt neg_inf r ≡ false) rewards
      ⊎ Peaks rewards best wait

  -- Rewards that do not pass `best` are below whatever passes it.
  All-lt_of_not_lt :
      (best reward : Carrier) (rs : List Carrier)
      → IsNumber best
      → IsNumber reward
      → All IsNumber rs
      → All (λ r. lt best r ≡ false) rs
      → lt best reward ≡ true
      → All (λ r. lt r reward ≡ true) rs
  All-lt_of_not_lt best reward [] nb nr ns h up = tt
  All-lt_of_not_lt best reward (r ∷ rs) nb nr ns h up = (
    lt_of_not_lt best r reward nb ns.0 nr h.0 up,
    All-lt_of_not_lt best reward rs nb nr ns.1 h.1 up,
  )

  All-lt_trans :
      (best reward : Carrier) (rs : List Carrier)
      → All (λ r. lt r best ≡ true) rs
      → lt best reward ≡ true
      → All (λ r. lt r reward ≡ true) rs
  All-lt_trans best reward [] h up = tt
  All-lt_trans best reward (r ∷ rs) h up =
      (lt_trans r best reward h.0 up, All-lt_trans best reward rs h.1 up)

  All-IsNumber_split :
      (xs ys : List Carrier) → All IsNumber (xs ++ ys) → All IsNumber xs × All IsNumber ys
  All-IsNumber_split [] ys h = (tt, h)
  All-IsNumber_split (x ∷ xs) ys h = let (hx, hy) = All-IsNumber_split xs ys h.1 in ((h.0, hx), hy)

  Tracks-improved :
      (rs : List Carrier) (best : Carrier) (wait : ℕ) (reward : Carrier)
      → All IsNumber rs
      → IsNumber reward
      → Tracks rs best wait
      → lt best reward ≡ true
      → Tracks (rs ++ reward ∷ []) reward 0
  Tracks-improved rs best wait reward ns n (inl (e, _, low)) up = inr (record {
    before = rs;
    after = [];
    split = refl;
    lower = All-lt_of_not_lt neg_inf reward rs neg_inf_number n ns low (rw e at up);
    not_higher = tt;
    waited = refl;
  })
  Tracks-improved rs best wait reward ns n (inr p) up =
      let (nb, na) = All-IsNumber_split p.before (best ∷ p.after) (rw p.split at ns) in
      inr (record {
        before = rs;
        after = [];
        split = refl;
        lower = rw p.split (
            All-append (λ r. lt r reward ≡ true) p.before (best ∷ p.after)
              (All-lt_trans best reward p.before p.lower up)
              (up, All-lt_of_not_lt best reward p.after na.0 n na.1 p.not_higher up));
        not_higher = tt;
        waited = refl;
      })

  Tracks-stale :
      (rs : List Carrier) (best : Carrier) (wait : ℕ) (reward : Carrier)
      → Tracks rs best wait
      → lt best reward ≡ false
      → Tracks (rs ++ reward ∷ []) best (wait + 1)
  Tracks-stale rs best wait reward (inl (e, w, low)) stay = inl (
    e,
    omega (arith, length-append rs (reward ∷ []), w),
    All-append (λ r. lt neg_inf r ≡ false) rs (reward ∷ []) low (rw e at stay, tt),
  )
  Tracks-stale rs best wait reward (inr p) stay = inr (record {
    before = p.before;
    after = p.after ++ reward ∷ [];
    split =
        ap (λ l. l ++ reward ∷ []) p.split ∙ append_assoc p.before (best ∷ p.after) (reward ∷ []);
    lower = p.lower;
    not_higher = All-append (λ r. lt best r ≡ false) p.after (reward ∷ []) p.not_higher (stay, tt);
    waited = omega (arith, length-append p.after (reward ∷ []), p.waited);
  })

  -- A delta of zero: it changes no comparison.
  abbrev pub IsNeutral : Carrier → Type 0
  IsNeutral delta = (a b : Carrier) → lt (add a delta) b ≡ lt a b

  abbrev Follows : List Carrier → EarlyStoppingCallback F → Type 0
  Follows rs c = Tracks rs c.best_reward c.wait

  on_step-Follows :
      (rs : List Carrier) (c : EarlyStoppingCallback F) (reward : Carrier)
      → IsNeutral c.min_delta
      → All IsNumber rs
      → IsNumber reward
      → Follows rs c
      → Follows (rs ++ reward ∷ []) (on_step F c (some reward)).1
        × ((on_step F c (some reward)).1.min_delta ≡ c.min_delta)
        × ((on_step F c (some reward)).1.patience ≡ c.patience)
  unfolding on_step
  on_step-Follows rs c reward neutral ns n h =
      elim (Bool-cases (lt (add c.best_reward c.min_delta) reward)) [
        | inl up ↦
            let t =
              Tracks-improved rs c.best_reward c.wait reward ns n h
                (sym (neutral c.best_reward reward) ∙ up) in
            ground (arith, t)
        | inr stay ↦
            let t =
              Tracks-stale rs c.best_reward c.wait reward h
                (sym (neutral c.best_reward reward) ∙ stay) in
            ground (arith, t)
      ]

  on_step_verdict :
      (c : EarlyStoppingCallback F) (reward : Carrier)
      → ((on_step F c (some reward)).0 ≡ false)
        ↔ ((on_step F c (some reward)).1.patience ≤ (on_step F c (some reward)).1.wait)
  unfolding on_step
  on_step_verdict c reward = (λ h. ground arith, λ h. ground arith)

  observe-Follows :
      (seen rs : List Carrier) (c : EarlyStoppingCallback F)
      → IsNeutral c.min_delta
      → All IsNumber seen
      → All IsNumber rs
      → Follows seen c
      → Follows (seen ++ rs) (observe F c rs)
        × ((observe F c rs).min_delta ≡ c.min_delta)
        × ((observe F c rs).patience ≡ c.patience)
  unfolding observe
  observe-Follows seen [] c neutral ns nr h = (rw append-nil h, refl, refl)
  observe-Follows seen (r ∷ rs) c neutral ns nr h =
      let (h', d, p) = on_step-Follows seen c r neutral ns nr.0 h in
      let c' = (on_step F c (some r)).1 in
      let (h'', d', p') =
        observe-Follows (seen ++ r ∷ []) rs c' (rw d neutral)
          (All-append IsNumber seen (r ∷ []) ns (nr.0, tt)) nr.1 h' in
      (rw append_assoc at h'', d' ∙ d, p' ∙ p)

  -- With a minimum improvement of zero and rewards none of which is NaN: after any rewards, the
  -- callback holds the highest reward, with `wait` the number of rewards since that was first
  -- reached (or all rewards were minus infinity and it counts them all), and the hook asks to
  -- stop exactly when this number has reached the patience.
  pub early_stopping_peak :
      (patience : ℕ) (min_delta : Carrier) (rewards : List Carrier) (reward : Carrier)
      → IsNeutral min_delta
      → All IsNumber rewards
      → IsNumber reward
      → let (go_on, c) = on_step F (observe F (init F patience min_delta) rewards) (some reward) in
        Tracks (rewards ++ reward ∷ []) c.best_reward c.wait
        × ((go_on ≡ false) ↔ (patience ≤ c.wait))
  early_stopping_peak patience min_delta rewards reward neutral ns n =
      let start = init F patience min_delta in
      let (h, d, p) = observe-Follows [] rewards start neutral tt ns (inl (refl, refl, tt)) in
      let c = observe F start rewards in
      let (h', d', p') = on_step-Follows rewards c reward (rw d neutral) ns n h in
      (h', rw (p' ∙ p) at (on_step_verdict c reward))
