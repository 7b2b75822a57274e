-- ===== src/GoExplore/Eviction.antt =====
-- python/rlox/exploration/go_explore.py: which cell a full archive evicts.
use rlox.Base.{
  ℕ, suc, ◌≤◌, ◌≡◌, ◌⊎◌, refl, sym, subst, Bool, true, false, some, [], ◌∷◌, if◌then◌else◌, leb,
  length, ok, String, Bool-cases, inl, inr, arith, All,
}
use rlox.Base.Float.{Float, IsOrdered, IsStrictOrder}
use rlox.Base.Dict.{string_eq, Dict, lookup, contains, erase, HasUniqueKeys}
use rlox.GoExplore.{CellEntry, lowest, make_room}
use rlox.GoExplore.Archive.{contains_of_lookup}

module _ (F : Float) (Obs : Type 0) where
  lookup-here :
      (k j : String) (e : CellEntry F Obs) (d : Dict String (CellEntry F Obs))
      → j ≡ k
      → lookup k ((j, e) ∷ d) ≡ some e
  lookup-here k j e d p = rw ((string_eq.beq_iff j k).1 p) refl

  lookup-later :
      (k j : String) (e c : CellEntry F Obs) (d : Dict String (CellEntry F Obs))
      → contains j d ≡ false
      → lookup k d ≡ some c
      → lookup k ((j, e) ∷ d) ≡ some c
  lookup-later k j e c d away h = elim (Bool-cases (string_eq.beq j k)) [
    | inr n ↦ rw n h
    | inl t ↦
        let gone : contains k d ≡ false =
          subst (λ i. contains i d ≡ false) ((string_eq.beq_iff j k).0 t) away in
        absurd (ground (arith, gone, contains_of_lookup F Obs k d c h))
  ]

  -- The cell that is found, by its key, and its score.
  lowest-lookup :
      (k : String) (s : F.Carrier) (d : Dict String (CellEntry F Obs))
      → HasUniqueKeys d
      → ((k ≡ (lowest F Obs k s d).0) × (s ≡ (lowest F Obs k s d).1))
        ⊎ ((c : CellEntry F Obs) × (lookup (lowest F Obs k s d).0 d ≡ some c)
            × (c.score ≡ (lowest F Obs k s d).1))
  unfolding lowest
  lowest-lookup k s [] u = inl (refl, refl)
  lowest-lookup k s ((j, e) ∷ d) u =
      let chosen = λ (b : Bool). lowest F Obs (if b then j else k) (if b then e.score else s) d in
      let Goal = λ (b : Bool).
        ((k ≡ (chosen b).0) × (s ≡ (chosen b).1))
        ⊎ ((c : CellEntry F Obs) × (lookup (chosen b).0 ((j, e) ∷ d) ≡ some c)
            × (c.score ≡ (chosen b).1)) in
      elim (Bool-cases (F.lt e.score s)) [
        | inl t ↦ subst Goal (sym t) (elim (lowest-lookup j e.score d u.1) [
          | inl (p, q) ↦ inr (e, lookup-here (lowest F Obs j e.score d).0 j e d p, q)
          | inr (c, g, q) ↦ inr (c, lookup-later (lowest F Obs j e.score d).0 j e c d u.0 g, q)
        ])
        | inr t ↦ subst Goal (sym t) (elim (lowest-lookup k s d u.1) [
          | inl (p, q) ↦ inl (p, q)
          | inr (c, g, q) ↦ inr (c, lookup-later (lowest F Obs k s d).0 j e c d u.0 g, q)
        ])
      ]

  module _ (IsNumber : F.Carrier → Type 0) (ordered : IsOrdered F IsNumber)
      (strict : IsStrictOrder F) where
    abbrev pub HasNumbers : Dict String (CellEntry F Obs) → Type 0
    HasNumbers = All (λ c. IsNumber c.1.score)

    abbrev pub IsLowest : F.Carrier → Dict String (CellEntry F Obs) → Type 0
    IsLowest s = All (λ c. F.lt c.1.score s ≡ false)

    not_lt_of_lt : (a s w : F.Carrier) → F.lt a s ≡ true → F.lt a w ≡ false → F.lt s w ≡ false
    not_lt_of_lt a s w h n = elim (Bool-cases (F.lt s w)) [
      | inr f ↦ f
      | inl t ↦ absurd (ground (arith, n, ordered.lt_trans a s w h t))
    ]

    not_lt_of_not_lt :
        (a s w : F.Carrier)
        → IsNumber a
        → IsNumber s
        → IsNumber w
        → F.lt a s ≡ false
        → F.lt s w ≡ false
        → F.lt a w ≡ false
    not_lt_of_not_lt a s w na ns nw h n = elim (Bool-cases (F.lt a w)) [
      | inr f ↦ f
      | inl t ↦ absurd (ground (arith, n, ordered.lt_of_not_lt a s w na ns nw h t))
    ]

    lowest-IsLowest :
        (k : String) (s : F.Carrier) (d : Dict String (CellEntry F Obs))
        → IsNumber s
        → HasNumbers d
        → IsNumber (lowest F Obs k s d).1
          × ((F.lt s (lowest F Obs k s d).1 ≡ false) × IsLowest (lowest F Obs k s d).1 d)
    unfolding lowest
    lowest-IsLowest k s [] ns nd = (ns, (strict.lt_irrefl s, tt))
    lowest-IsLowest k s ((j, e) ∷ d) ns nd =
        let Goal = λ (w : String × F.Carrier).
          IsNumber w.1 × ((F.lt s w.1 ≡ false) × IsLowest w.1 ((j, e) ∷ d)) in
        let chosen =
          λ (b : Bool). Goal (lowest F Obs (if b then j else k) (if b then e.score else s) d) in
        elim (Bool-cases (F.lt e.score s)) [
          | inl t ↦
              let (nw, (own, rest)) = lowest-IsLowest j e.score d nd.0 nd.1 in
              subst chosen (sym t)
                (nw, (not_lt_of_lt e.score s (lowest F Obs j e.score d).1 t own, (own, rest)))
          | inr t ↦
              let (nw, (own, rest)) = lowest-IsLowest k s d ns nd.1 in
              subst chosen (sym t) (
                nw,
                (own, (not_lt_of_not_lt e.score s (lowest F Obs k s d).1 nd.0 ns nw t own, rest)),
              )
        ]

    -- Where `<` is a strict order, and one that a cut by a number respects, and the scores are
    -- numbers: an archive with different keys that is full and not empty makes room by taking out
    -- exactly one cell, and no cell of the archive has a score below the score of that cell.
    pub make_room-IsLowest :
        (size : ℕ) (k : String) (e : CellEntry F Obs) (d : Dict String (CellEntry F Obs))
        → HasNumbers ((k, e) ∷ d)
        → HasUniqueKeys ((k, e) ∷ d)
        → size ≤ suc (length d)
        → (worst : String) × (cell : CellEntry F Obs) × (make_room F Obs size ((k, e) ∷ d)
            ≡ ok (erase worst ((k, e) ∷ d)))
          × (lookup worst ((k, e) ∷ d) ≡ some cell)
          × IsLowest cell.score ((k, e) ∷ d)
    unfolding make_room
    make_room-IsLowest size k e d n u full =
        let w = lowest F Obs k e.score d in
        let (nw, (own, rest)) = lowest-IsLowest k e.score d n.0 n.1 in
        let more : leb size (suc (length d)) ≡ true = ground arith in
        elim (lowest-lookup k e.score d u.1) [
          | inl (p, q) ↦ (
            w.0,
            e,
            rw (make_room, more) refl,
            lookup-here w.0 k e d p,
            subst (λ s. IsLowest s ((k, e) ∷ d)) (sym q) (own, rest),
          )
          | inr (c, g, q) ↦ (
            w.0,
            c,
            rw (make_room, more) refl,
            lookup-later w.0 k e c d u.0 g,
            subst (λ s. IsLowest s ((k, e) ∷ d)) (sym q) (own, rest),
          )
        ]
