-- ===== src/GoExplore/Tests.antt =====
-- python/rlox/exploration/go_explore.py on small inputs.
use rlox.Base.{ℕ, ◌≡◌, refl, List, [], ◌∷◌, some, String, ok, raised, if◌then◌else◌, ◌==◌, arith}
use rlox.Base.Samples.{counting, counting-IsOrdered, counting-IsStrictOrder}
use rlox.Base.Dict.{lookup, erase, string_eq}
use rlox.GoExplore.{
  CellEntry, GoExplore, runtime_error, lowest, revisit, make_room, add_to_archive, add_all,
  select_cell,
}
use rlox.GoExplore.Archive.{IsArchive, add_all-IsArchive}
use rlox.GoExplore.Eviction.{IsLowest, make_room-IsLowest}

abbrev cell : ℕ → String
cell n = if n == 1 then "a" else if n == 2 then "b" else "c"

abbrev calls : List (ℕ × ℕ × List ℕ)
calls = (1, 5, []) ∷ (2, 3, 1 ∷ []) ∷ (1, 9, 2 ∷ []) ∷ (3, 4, []) ∷ []

-- The cell with the lowest score leaves a full archive.
add_calls :
    add_all counting ℕ cell
      (record { archive_size = 2; score_weight = 1; novelty_weight = 1; archive = [] })
      calls
    ≡ ok (record {
      archive_size = 2;
      score_weight = 1;
      novelty_weight = 1;
      archive =
          ("a", record { obs = 1; score = 9; visit_count = 2; trajectory = 2 ∷ [] })
          ∷ ("c", record { obs = 3; score = 4; visit_count = 1; trajectory = [] })
          ∷ [];
    })
unfolding add_all add_to_archive make_room lowest revisit
add_calls = refl

empty_refused :
    select_cell counting ℕ
      (λ ws. 0)
      (record { archive_size = 2; score_weight = 1; novelty_weight = 1; archive = [] })
    ≡ raised runtime_error
unfolding select_cell
empty_refused = refl

add_all-IsArchive_example :
    (g : GoExplore counting ℕ) × (add_all counting ℕ cell
        (record { archive_size = 2; score_weight = 1; novelty_weight = 1; archive = [] })
        calls
      ≡ ok g)
    × IsArchive counting ℕ g
add_all-IsArchive_example = add_all-IsArchive counting ℕ cell calls 2 1 1 (omega arith)

abbrev entry : ℕ → CellEntry counting ℕ
entry n = record { obs = n; score = n; visit_count = 1; trajectory = [] }

make_room-IsLowest_example :
    (worst : String) × (found : CellEntry counting ℕ) × (make_room counting ℕ 2
        (("a", entry 7) ∷ ("b", entry 3) ∷ [])
      ≡ ok (erase worst (("a", entry 7) ∷ ("b", entry 3) ∷ [])))
    × (lookup worst (("a", entry 7) ∷ ("b", entry 3) ∷ []) ≡ some found)
    × IsLowest counting ℕ
        (λ n. Unit)
        counting-IsOrdered
        counting-IsStrictOrder
        found.score
        (("a", entry 7) ∷ ("b", entry 3) ∷ [])
make_room-IsLowest_example =
    make_room-IsLowest counting ℕ (λ n. Unit) counting-IsOrdered counting-IsStrictOrder 2 "a"
      (entry 7) (("b", entry 3) ∷ []) (tt, (tt, tt)) (refl, (refl, tt)) (omega arith)
