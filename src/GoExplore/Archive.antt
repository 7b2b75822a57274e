-- ===== src/GoExplore/Archive.antt =====
-- python/rlox/exploration/go_explore.py: the bound of the archive, and what it evicts.
use rlox.Base.{
  ℕ, suc, ◌≤◌, ◌<◌, ◌≡◌, ◌⊎◌, refl, Bool, true, false, none, some, List, [], ◌∷◌, if◌then◌else◌,
  leb, length, ok, String, Bool-cases, Option-cases, inl, inr, arith,
}
use rlox.Base.Float.{Float}
use rlox.Base.Dict.{
  string_eq, Dict, lookup, contains, insert, erase, HasUniqueKeys, insert-HasUniqueKeys,
  erase-HasUniqueKeys, contains-erase, length-insert_new, length-insert_old, length-erase,
}
use rlox.GoExplore.{CellEntry, GoExplore, lowest, revisit, make_room, add_to_archive, add_all}

module _ (F : Float) (Obs : Type 0) where
  contains-lookup :
      (k : String) (d : Dict String (CellEntry F Obs)) → lookup k d ≡ none → contains k d ≡ false
  contains-lookup k [] h = refl
  contains-lookup k ((j, e) ∷ d) h = elim (Bool-cases (string_eq.beq j k)) [
    | inl t ↦ absurd (ground (arith, t, h))
    | inr t ↦ ground (arith, t, h, contains-lookup k d)
  ]

  pub contains_of_lookup :
      (k : String) (d : Dict String (CellEntry F Obs)) (e : CellEntry F Obs)
      → lookup k d ≡ some e
      → contains k d ≡ true
  contains_of_lookup k [] e h = cc
  contains_of_lookup k ((j, c) ∷ d) e h = elim (Bool-cases (string_eq.beq j k)) [
    | inl t ↦ ground (arith, t)
    | inr t ↦ ground (arith, t, h, contains_of_lookup k d e)
  ]

  contains-here :
      (k j : String) (e : CellEntry F Obs) (d : Dict String (CellEntry F Obs))
      → j ≡ k
      → contains k ((j, e) ∷ d) ≡ true
  contains-here k j e d p = rw ((string_eq.beq_iff j k).1 p) refl

  contains-later :
      (k j : String) (e : CellEntry F Obs) (d : Dict String (CellEntry F Obs))
      → contains k d ≡ true
      → contains k ((j, e) ∷ d) ≡ true
  contains-later k j e d h = ground (arith, h)

  -- The key is the first cell's or a later one's.
  lowest-contains :
      (k : String) (s : F.Carrier) (d : Dict String (CellEntry F Obs))
      → (k ≡ (lowest F Obs k s d).0) ⊎ (contains (lowest F Obs k s d).0 d ≡ true)
  unfolding lowest
  lowest-contains k s [] = inl refl
  lowest-contains k s ((j, e) ∷ d) =
      from (F.lt e.score s) (
        lowest-contains (if F.lt e.score s then j else k) (if F.lt e.score s then e.score else s) d)
    where
      from :
          (b : Bool)
          → ((if b then j else k)
              ≡ (lowest F Obs (if b then j else k) (if b then e.score else s) d).0)
            ⊎ (contains (lowest F Obs (if b then j else k) (if b then e.score else s) d).0 d ≡ true)
          → (k ≡ (lowest F Obs (if b then j else k) (if b then e.score else s) d).0)
            ⊎ (contains
                  (lowest F Obs (if b then j else k) (if b then e.score else s) d).0
                  ((j, e) ∷ d)
                ≡ true)
      from true (inl p) = inr (contains-here (lowest F Obs j e.score d).0 j e d p)
      from true (inr c) = inr (contains-later (lowest F Obs j e.score d).0 j e d c)
      from false (inl p) = inl p
      from false (inr c) = inr (contains-later (lowest F Obs k s d).0 j e d c)

  -- Room is made where there is any to make, and a key that is not there stays away.
  make_room-room :
      (size : ℕ) (archive : Dict String (CellEntry F Obs))
      → HasUniqueKeys archive
      → length archive ≤ size
      → 0 < size
      → (room : Dict String (CellEntry F Obs)) × (make_room F Obs size archive ≡ ok room)
        × HasUniqueKeys room
        × (length room < size)
        × ((k : String) → contains k archive ≡ false → contains k room ≡ false)
  unfolding make_room
  make_room-room size archive u l pos = elim (Bool-cases (leb size (length archive))) [
    | inr more ↦ (archive, rw (make_room, more) refl, u, ground arith, λ k h. h)
    | inl full ↦ evicted archive u (ground arith)
  ]
    where
      evicted :
          (archive : Dict String (CellEntry F Obs))
          → HasUniqueKeys archive
          → length archive ≡ size
          → (room : Dict String (CellEntry F Obs)) × (make_room F Obs size archive ≡ ok room)
            × HasUniqueKeys room
            × (length room < size)
            × ((k : String) → contains k archive ≡ false → contains k room ≡ false)
      evicted [] u e = absurd (omega arith)
      evicted ((j, c) ∷ d) u e =
          let full : leb size (suc (length d)) ≡ true = ground arith in
          let w = (lowest F Obs j c.score d).0 in
          let there : contains w ((j, c) ∷ d) ≡ true = elim (lowest-contains j c.score d) [
            | inl p ↦ contains-here w j c d p
            | inr h ↦ contains-later w j c d h
          ] in
          (
            erase w ((j, c) ∷ d),
            rw (make_room, full) refl,
            erase-HasUniqueKeys w ((j, c) ∷ d) u,
            omega (arith, length-erase w ((j, c) ∷ d) there, e),
            λ k h. contains-erase w k ((j, c) ∷ d) h,
          )

  -- The keys of an archive are different, and it is not above its size.
  abbrev pub IsArchive : GoExplore F Obs → Type 0
  IsArchive g =
      HasUniqueKeys g.archive × ((length g.archive ≤ g.archive_size) × (0 < g.archive_size))

  module _ (compute_cell : Obs → String) where
    made : ℕ → F.Carrier → F.Carrier → Dict String (CellEntry F Obs) → GoExplore F Obs
    made size sw nw archive = record {
      archive_size = size;
      score_weight = sw;
      novelty_weight = nw;
      archive = archive;
    }

    -- The call returns, and the cell is in the archive.
    add_to_archive-made :
        (size : ℕ) (sw nw : F.Carrier) (archive : Dict String (CellEntry F Obs)) (obs : Obs)
        (score : F.Carrier) (trajectory : List Obs)
        → IsArchive (made size sw nw archive)
        → (after : Dict String (CellEntry F Obs)) × (add_to_archive F Obs compute_cell
              (made size sw nw archive)
              obs
              score
              trajectory
            ≡ ok (made size sw nw after))
          × IsArchive (made size sw nw after)
    unfolding add_to_archive made
    add_to_archive-made size sw nw archive obs score trajectory (u, (l, pos)) =
        let key = compute_cell obs in
        elim (Option-cases (lookup key archive)) [
          | inr (e, found) ↦ (
            insert key (revisit F Obs e obs score trajectory) archive,
            rw (add_to_archive, found) refl,
            (
              insert-HasUniqueKeys key (revisit F Obs e obs score trajectory) archive u,
              (
                omega (
                  arith,
                  length-insert_old key (revisit F Obs e obs score trajectory) archive
                      (contains_of_lookup key archive e found),
                  l,
                ),
                pos,
              ),
            ),
          )
          | inl absent ↦
              let new : CellEntry F Obs = record {
                obs = obs;
                score = score;
                visit_count = 1;
                trajectory = trajectory;
              } in
              let (room, call, unique, less, away) = make_room-room size archive u l pos in
              (
                insert key new room,
                rw (add_to_archive, absent, call) refl,
                (
                  insert-HasUniqueKeys key new room unique,
                  (
                    omega (
                      arith,
                      length-insert_new key new room
                          (away key (contains-lookup key archive absent)),
                      less,
                    ),
                    pos,
                  ),
                ),
              )
        ]

    add_all-made :
        (calls : List (Obs × F.Carrier × List Obs)) (size : ℕ) (sw nw : F.Carrier)
        (archive : Dict String (CellEntry F Obs))
        → IsArchive (made size sw nw archive)
        → (after : Dict String (CellEntry F Obs)) × (add_all F Obs compute_cell
              (made size sw nw archive)
              calls
            ≡ ok (made size sw nw after))
          × IsArchive (made size sw nw after)
    unfolding add_all
    add_all-made [] size sw nw archive h = (archive, refl, h)
    add_all-made ((obs, score, trajectory) ∷ calls) size sw nw archive h =
        let (next, call, h') = add_to_archive-made size sw nw archive obs score trajectory h in
        let (after, calls', h'') = add_all-made calls size sw nw next h' in
        (after, rw (add_all, call) calls', h'')

    -- An archive with room for one cell at least, empty at first: any calls of `add_to_archive`
    -- return, and leave an archive that is not above its size and has no key twice.
    pub add_all-IsArchive :
        (calls : List (Obs × F.Carrier × List Obs)) (size : ℕ) (sw nw : F.Carrier)
        → 0 < size
        → (g : GoExplore F Obs) × (add_all F Obs compute_cell
              (record { archive_size = size; score_weight = sw; novelty_weight = nw; archive = [] })
              calls
            ≡ ok g)
          × IsArchive g
    unfolding made
    add_all-IsArchive calls size sw nw pos =
        let (after, call, h) = add_all-made calls size sw nw [] (tt, (omega arith, pos)) in
        (made size sw nw after, call, h)
