-- ===== src/GoExplore.antt =====
-- python/rlox/exploration/go_explore.py: the archive of cells.
-- Observations and the computation of a cell's key from one (rounding and a hash) are parameters, and
-- so is the index that `numpy.random.choice` draws from the weights.
pub mod Archive
pub mod Eviction
mod Tests
use rlox.Base.{
  ℕ, zero, suc, ◌+◌, Bool, true, false, Option, none, some, List, [], ◌∷◌, map, if◌then◌else◌, leb,
  length, get_elem?, Result, ok, raised, String,
}
use rlox.Base.Float.{Float}
use rlox.Base.Dict.{Eq, string_eq, Dict, lookup, insert, erase}

pub data Error : Type 0 where
  runtime_error value_error index_error : Error

module _ (F : Float) (Obs : Type 0) where
  open F use {Carrier, of_ℕ, add, mul, div, lt}

  -- `_CellEntry`
  pub record CellEntry : Type 0 where
    pub obs : Obs
    pub score : Carrier
    pub visit_count : ℕ
    pub trajectory : List Obs

  pub record GoExplore : Type 0 where
    pub archive_size : ℕ
    pub score_weight : Carrier
    pub novelty_weight : Carrier
    pub archive : Dict String CellEntry

  -- `min` by the score: the first of the lowest, starting from one of the cells.
  unfoldable pub lowest : String → Carrier → Dict String CellEntry → String × Carrier
  lowest k s [] = (k, s)
  lowest k s ((j, e) ∷ d) =
      let lower = lt e.score s in lowest (if lower then j else k) (if lower then e.score else s) d

  -- A cell that is there already.
  unfoldable pub revisit : CellEntry → Obs → Carrier → List Obs → CellEntry
  revisit e obs score trajectory =
      if lt e.score score
      then record {
        obs = obs;
        score = score;
        visit_count = e.visit_count + 1;
        trajectory = trajectory;
      }
      else record e { visit_count = e.visit_count + 1 }

  -- Room for another cell.
  unfoldable pub make_room : ℕ → Dict String CellEntry → Result Error (Dict String CellEntry)
  unfolding lowest
  make_room size archive =
      if leb size (length archive)
      then elim archive [
        | [] ↦ raised value_error
        | (k, e) ∷ d ↦ ok (erase (lowest k e.score d).0 ((k, e) ∷ d))
      ]
      else ok archive

  module _ (compute_cell : Obs → String) where
    unfoldable pub add_to_archive : GoExplore → Obs → Carrier → List Obs → Result Error GoExplore
    unfolding revisit make_room
    add_to_archive g obs score trajectory =
        let key = compute_cell obs in
        elim (lookup key g.archive) [
          | some e ↦
              ok (record g { archive = insert key (revisit e obs score trajectory) g.archive })
          | none ↦ elim (make_room g.archive_size g.archive) [
            | raised x ↦ raised x
            | ok room ↦ ok (record g {
              archive =
                  insert key
                    (record { obs = obs; score = score; visit_count = 1; trajectory = trajectory })
                    room;
            })
          ]
        ]

    -- Several calls; the first that raises ends them.
    unfoldable pub add_all : GoExplore → List (Obs × Carrier × List Obs) → Result Error GoExplore
    unfolding add_to_archive
    add_all g [] = ok g
    add_all g ((obs, score, trajectory) ∷ calls) = elim (add_to_archive g obs score trajectory) [
      | raised x ↦ raised x
      | ok g' ↦ add_all g' calls
    ]

  -- The larger of a number and a bound, as `max(x, bound)` gives it.
  abbrev pub at_least : Carrier → Carrier → Carrier
  at_least x bound = if lt x bound then bound else x

  unfoldable pub weight : GoExplore → CellEntry → Carrier
  weight g e =
      at_least
        (add (div g.novelty_weight (of_ℕ e.visit_count))
          (mul g.score_weight (at_least e.score (of_ℕ 0))))
        (F.ratio 1 10000000000)

  unfoldable pub select_cell : (List Carrier → ℕ) → GoExplore → Result Error (String × CellEntry)
  unfolding weight
  select_cell choice g = elim g.archive [
    | [] ↦ raised runtime_error
    | c ∷ cs ↦
        elim (get_elem? (c ∷ cs)
          (choice (map (λ (c : String × CellEntry). weight g c.1) (c ∷ cs)))) [
            | none ↦ raised index_error
            | some entry ↦ ok entry
          ]
  ]
