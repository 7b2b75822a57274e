-- ===== src/Pbt/Tests.antt =====
-- python/rlox/pbt.py on a small population.
use rlox.Base.{ℕ, ◌-◌, ◌*◌, ◌/◌, ◌≡◌, refl, some, none, List, [], ◌∷◌, last_n, length, arith}
use rlox.Base.Float.{Float, IsOrdered, IsStrictOrder}
use rlox.Base.Dict.{string_eq}
use rlox.Base.Samples.{counting, counting-IsStrictOrder}
use rlox.Pbt.{Agent, Pbt, n_replace, ranked, sort_ranked, insert_ranked, copy_each, exploit, init}
use rlox.Pbt.Ranking.{IsNumber, IsRanking}
use rlox.Pbt.Exploit.{IsCopied, exploit-IsCopied}

-- Natural numbers, of which a product is taken in tenths
abbrev tenths : Float
tenths = record counting { mul = λ a b. a * b / 10 }

tenths-IsStrictOrder : IsStrictOrder tenths
tenths-IsStrictOrder = record {
  lt_irrefl = counting-IsStrictOrder.lt_irrefl;
  lt_trans = counting-IsStrictOrder.lt_trans;
}

tenths-IsOrdered : IsOrdered tenths (IsNumber tenths ℕ ℕ)
tenths-IsOrdered = record {
  lt_trans = counting-IsStrictOrder.lt_trans;
  lt_of_not_lt = λ a b c na nb nc h k. ground arith;
  neg_inf_number = refl;
}

-- An order for lists with NaN
abbrev as_given : List (ℕ × ℕ) → List (ℕ × ℕ)
as_given ps = ps

abbrev agent : ℕ → Agent tenths ℕ ℕ
agent w = record { policy = some w; learning_rates = some (w * 100 ∷ []); rest = w }

abbrev population : Pbt tenths ℕ ℕ ℕ
population = record {
  config = record {
    population_size = 5;
    interval = 100;
    n_iterations = 2;
    exploit_fraction = 4;
    perturb_factor = 1;
  };
  agents = agent 10 ∷ agent 11 ∷ agent 12 ∷ agent 13 ∷ agent 14 ∷ [];
  fitnesses = 7 ∷ 9 ∷ 2 ∷ 9 ∷ 4 ∷ [];
  exploited_indices = [];
  rng = 0;
}

-- Agents 1 and 3 are the best, in this order; 4 and 2 get their weights.
exploited :
    exploit tenths ℕ ℕ ℕ as_given population
    ≡ some (record population {
      agents =
          agent 10
          ∷ agent 11
          ∷ record (agent 12) { policy = some 13 }
          ∷ agent 13
          ∷ record (agent 14) { policy = some 11 }
          ∷ [];
      exploited_indices = 4 ∷ 2 ∷ [];
    })
unfolding exploit ranked sort_ranked insert_ranked copy_each
exploited = refl

exploit-IsCopied_example :
    (after : List (Agent tenths ℕ ℕ)) × (exploit tenths ℕ ℕ ℕ as_given population
      ≡ some (record population {
        agents = after;
        exploited_indices =
            last_n
              (n_replace tenths ℕ ℕ population.config)
              (ranked tenths ℕ ℕ as_given population.fitnesses);
      }))
    × IsCopied tenths ℕ ℕ
        (ranked tenths ℕ ℕ as_given population.fitnesses)
        (length population.agents - n_replace tenths ℕ ℕ population.config)
        (n_replace tenths ℕ ℕ population.config)
        population.agents
        after
    × IsRanking tenths ℕ ℕ population.fitnesses (ranked tenths ℕ ℕ as_given population.fitnesses)
exploit-IsCopied_example =
    exploit-IsCopied tenths ℕ ℕ ℕ as_given population tenths-IsStrictOrder tenths-IsOrdered
      (refl, (refl, (refl, (refl, (refl, tt))))) refl
      ((10, refl), ((11, refl), ((12, refl), ((13, refl), ((14, refl), tt))))) (omega arith)

unknown_algorithm :
    init tenths ℕ ℕ ℕ (λ s. s) (λ seed. seed) (("ppo", agent) ∷ []) "dqn" population.config 42
    ≡ none
unfolding init
unknown_algorithm = refl
