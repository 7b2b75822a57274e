-- ===== src/Pbt/Exploit.antt =====
-- python/rlox/pbt.py: `_exploit` keeps the best agents and copies their weights to the worst.
use rlox.Base.{
  ℕ, zero, suc, ◌+◌, ◌-◌, ◌≤◌, ◌<◌, ◌≡◌, ◌≢◌, refl, sym, ap, ◌∙◌, subst, Option, some, none, List,
  [], ◌∷◌, map, length, length-set, get_elem?-set_self, get_elem?-set_ne, drop-cons,
  get_elem?-below, All-get_elem?, All-set, map-set, length-drop, length-last_n, take-nil, get_elem?,
  set, take, drop, last_n, All, ◌>>=◌, arith,
}
use rlox.Base.Float.{Float, IsOrdered, IsStrictOrder}
use native.Mathlib.Decide.{dec_lt}
use rlox.Pbt.{Agent, Pbt, ranked, n_replace, copied, copy_each, exploit}
use rlox.Pbt.Ranking.{IsDistinct, IsDistinct-get_elem?, IsNumber, IsRanking, ranked-IsRanking}

module _ (F : Float) (Weights Rest : Type 0) where
  abbrev Agents : Type 0
  Agents = List (Agent F Weights Rest)

  abbrev pub weights_at : Agents → ℕ → Option Weights
  weights_at agents i = get_elem? agents i >>= λ a. a.policy

  abbrev pub HasPolicy : Agent F Weights Rest → Type 0
  HasPolicy a = (w : Weights) × (a.policy ≡ some w)

  -- All of an agent but its weights
  abbrev pub besides : Agent F Weights Rest → Option (List F.Carrier) × Rest
  besides a = (a.learning_rates, a.rest)

  -- The agents after the copies to the first `done` ranks from `m` on, in the order `o`.
  pub record IsCopied (o : List ℕ) (m done : ℕ) (before after : Agents) : Type 0 where
    pub same_size : length after ≡ length before
    pub policies : All HasPolicy after
    -- the best agents are as they were
    pub kept : (r x : ℕ) → r < m → get_elem? o r ≡ some x → get_elem? after x ≡ get_elem? before x
    -- each that was replaced has the weights of the agent `m` ranks above it
    pub shared :
        (r x y : ℕ)
        → r < done
        → get_elem? o (m + r) ≡ some x
        → get_elem? o r ≡ some y
        → weights_at after x ≡ weights_at after y
    -- nothing but weights was changed
    pub only_weights : map besides after ≡ map besides before

  copied-HasPolicy :
      (worst best : Agent F Weights Rest)
      → HasPolicy worst
      → HasPolicy best
      → ((copied F Weights Rest worst best).policy ≡ best.policy)
        × (besides (copied F Weights Rest worst best) ≡ besides worst)
  copied-HasPolicy worst best hw hb = either worst.policy best.policy hw.1 hb.1
    where
      either :
          (p q : Option Weights)
          → p ≡ some hw.0
          → q ≡ some hb.0
          → ((copied F Weights Rest
                (record worst { policy = p })
                (record best { policy = q })).policy
              ≡ q)
            × (besides
                  (copied F Weights Rest (record worst { policy = p }) (record best { policy = q }))
                ≡ besides worst)
      either none q hp hq = absurd cc
      either (some u) none hp hq = absurd cc
      either (some u) (some v) hp hq = (refl, refl)

  module _ (o : List ℕ) (m : ℕ) (before : Agents) (once : IsDistinct o) (pos : 0 < m) where
    -- Another rank is another agent.
    apart : (i j x y : ℕ) → i < j → get_elem? o i ≡ some x → get_elem? o j ≡ some y → y ≢ x
    apart i j x y lt ex ey e = IsDistinct-get_elem? o i j x once lt ex (ey ∙ ap some e)

    copy_step :
        (done w b : ℕ) (agents : Agents) (worst best : Agent F Weights Rest)
        → get_elem? o (m + done) ≡ some w
        → get_elem? o done ≡ some b
        → get_elem? agents w ≡ some worst
        → get_elem? agents b ≡ some best
        → IsCopied o m done before agents
        → IsCopied o m (suc done) before (set agents w (copied F Weights Rest worst best))
    copy_step done w b agents worst best ow ob gw gb c =
        let hw = All-get_elem? HasPolicy agents w worst c.policies gw in
        let hb = All-get_elem? HasPolicy agents b best c.policies gb in
        let (got, rest) = copied-HasPolicy worst best hw hb in
        let new = copied F Weights Rest worst best in
        let later : done < m + done = omega arith in
        record {
          same_size = length-set agents w new ∙ c.same_size;
          policies = All-set HasPolicy agents w new c.policies (hb.0, got ∙ hb.1);
          kept = λ r x lt e.
              get_elem?-set_ne agents w x new (apart r (m + done) x w (omega arith) e ow)
              ∙ c.kept r x lt e;
          shared = λ r x y lt ex ey. elim (dec_lt r done) [
            | yes before_now ↦
                other x (apart (m + r) (m + done) x w (omega arith) ex ow)
                ∙ c.shared r x y before_now ex ey
                ∙ sym (other y (apart r (m + done) y w (omega arith) ey ow))
            | no now ↦
                let same : r ≡ done = omega arith in
                let x_w : some x ≡ some w = sym ex ∙ ap (λ k. get_elem? o (m + k)) same ∙ ow in
                let y_b : some y ≡ some b = sym ey ∙ ap (get_elem? o) same ∙ ob in
                ap at_index x_w
                ∙ ap (λ g. g >>= λ a. a.policy) (get_elem?-set_self agents w worst new gw)
                ∙ got
                ∙ sym (ap (λ g. g >>= λ a. a.policy) gb)
                ∙ sym (other b (apart done (m + done) b w later ob ow))
                ∙ sym (ap at_index y_b)
          ];
          only_weights = map-set besides agents w worst new gw rest ∙ c.only_weights;
        }
      where
        other :
            (x : ℕ)
            → w ≢ x
            → weights_at (set agents w (copied F Weights Rest worst best)) x ≡ weights_at agents x
        other x ne = ap (λ g. g >>= λ a. a.policy) (get_elem?-set_ne agents w x _ ne)

        at_index : Option ℕ → Option Weights
        at_index none = none
        at_index (some x) = weights_at (set agents w (copied F Weights Rest worst best)) x

    copy_each-IsCopied :
        (ws bs : List ℕ) (done : ℕ) (agents : Agents)
        → All (λ i. i < length before) o
        → drop (m + done) o ≡ ws
        → drop done o ≡ bs
        → IsCopied o m done before agents
        → (after : Agents) × (copy_each F Weights Rest ws bs agents ≡ some after)
          × IsCopied o m (done + length ws) before after
    unfolding copy_each
    copy_each-IsCopied [] bs done agents range hw hb c =
        let same : done ≡ done + 0 = omega arith in
        (agents, refl, subst (λ d. IsCopied o m d before agents) same c)
    copy_each-IsCopied (w ∷ ws) [] done agents range hw hb c =
        absurd
          (omega (arith, ap length hw, ap length hb, length-drop (m + done) o, length-drop done o))
    copy_each-IsCopied (w ∷ ws) (b ∷ bs) done agents range hw hb c =
        let (ow, tail_w) = drop-cons o (m + done) w ws hw in
        let (ob, tail_b) = drop-cons o done b bs hb in
        let below_w = All-get_elem? (λ i. i < length before) o (m + done) w range ow in
        let below_b = All-get_elem? (λ i. i < length before) o done b range ob in
        let (worst, gw) = get_elem?-below agents w (omega (arith, c.same_size)) in
        let (best, gb) = get_elem?-below agents b (omega (arith, c.same_size)) in
        let next : suc (m + done) ≡ m + suc done = omega arith in
        let size : suc done + length ws ≡ done + suc (length ws) = omega arith in
        let (after, e, c') =
          copy_each-IsCopied ws bs (suc done) (set agents w (copied F Weights Rest worst best))
            range (ap (λ k. drop k o) (sym next) ∙ tail_w) tail_b
            (copy_step done w b agents worst best ow ob gw gb c) in
        (after, rw (copy_each, gb, gw) e, subst (λ d. IsCopied o m d before after) size c')

  copy_each-take :
      (ws bs : List ℕ) (k : ℕ) (agents : Agents)
      → length ws ≤ k
      → copy_each F Weights Rest ws (take k bs) agents ≡ copy_each F Weights Rest ws bs agents
  unfolding copy_each
  copy_each-take [] bs k agents h = refl
  copy_each-take (w ∷ ws) [] k agents h = rw (take-nil k) refl
  copy_each-take (w ∷ ws) (b ∷ bs) zero agents h = absurd (omega arith)
  copy_each-take (w ∷ ws) (b ∷ bs) (suc k) agents h =
      under (get_elem? agents b) (get_elem? agents w)
        (λ as_they_are. copy_each-take ws bs k as_they_are (omega arith))
    where
      under :
          (x y : Option (Agent F Weights Rest))
          → ((now : Agents)
              → copy_each F Weights Rest ws (take k bs) now ≡ copy_each F Weights Rest ws bs now)
          → (x >>= λ best. y >>= λ worst.
              copy_each F Weights Rest ws
                (take k bs)
                (set agents w (copied F Weights Rest worst best)))
            ≡ (x >>= λ best. y >>= λ worst.
                copy_each F Weights Rest ws bs (set agents w (copied F Weights Rest worst best)))
      under none y again = refl
      under (some best) none again = refl
      under (some best) (some worst) again = again (set agents w (copied F Weights Rest worst best))

  module _ (Rng : Type 0) where
    -- In a population whose agents all have a policy and a fitness that is not NaN, of which fewer
    -- than all are replaced: the exploit step never raises. It ranks each agent once, none before
    -- one of a greater fitness, and of equal ones the lower index first. The agents of the first ranks, all but the number that is replaced, are as
    -- they were; each of the others gets the weights of the agent that many ranks above it, and
    -- keeps its learning rates and all else; these are the exploited ones.
    pub exploit-IsCopied :
        (undetermined : List (ℕ × F.Carrier) → List (ℕ × F.Carrier)) (p : Pbt F Weights Rest Rng)
        → IsStrictOrder F
        → IsOrdered F (IsNumber F Weights Rest)
        → All (IsNumber F Weights Rest) p.fitnesses
        → length p.agents ≡ length p.fitnesses
        → All HasPolicy p.agents
        → n_replace F Weights Rest p.config < length p.agents
        → (after : Agents) × (exploit F Weights Rest Rng undetermined p
            ≡ some (record p {
              agents = after;
              exploited_indices =
                  last_n
                    (n_replace F Weights Rest p.config)
                    (ranked F Weights Rest undetermined p.fitnesses);
            }))
          × IsCopied
              (ranked F Weights Rest undetermined p.fitnesses)
              (length p.agents - n_replace F Weights Rest p.config)
              (n_replace F Weights Rest p.config)
              p.agents
              after
          × IsRanking F Weights Rest p.fitnesses (ranked F Weights Rest undetermined p.fitnesses)
    unfolding exploit
    exploit-IsCopied undetermined p strict order numbers sizes policies fewer =
        let k = n_replace F Weights Rest p.config in
        let o = ranked F Weights Rest undetermined p.fitnesses in
        let m = length p.agents - k in
        let ranking =
          ranked-IsRanking F Weights Rest undetermined p.fitnesses strict order numbers in
        let size : length o ≡ length p.agents = ranking.all_ranked ∙ sym sizes in
        let worst_first : drop (m + 0) o ≡ last_n k o = ap (λ i. drop i o) (omega (arith, size)) in
        let replaced : length (last_n k o) ≡ k = omega (arith, length-last_n k o, size) in
        let (after, e, c) =
          copy_each-IsCopied o m p.agents ranking.once (omega arith) (last_n k o) o 0 p.agents
            (subst (λ n. All (λ i. i < n) o) (sym sizes) ranking.in_range) worst_first refl
            (record {
              same_size = refl;
              policies = policies;
              kept = λ r x lt e. refl;
              shared = λ r x y lt ex ey. absurd (omega arith);
              only_weights = refl;
            }) in
        let call : copy_each F Weights Rest (last_n k o) (take k o) p.agents ≡ some after =
          copy_each-take (last_n k o) o k p.agents (omega (arith, replaced)) ∙ e in
        (
          after,
          rw (exploit, call) refl,
          subst (λ d. IsCopied o m d p.agents after) replaced
              (subst (λ d. IsCopied o m d p.agents after) (omega arith) c),
          ranking,
        )
