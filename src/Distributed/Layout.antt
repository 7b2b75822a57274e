-- ===== src/Distributed/Layout.antt =====
-- python/rlox/distributed/pipeline.py: the rows of a collected batch.
use rlox.Base.{
  ℕ, zero, suc, ◌+◌, ◌*◌, ◌≤◌, ◌<◌, ◌≡◌, refl, sym, ap, ◌∙◌, true, Option, some, List, [], ◌∷◌,
  ◌++◌, ◌==◌, length, length-append, get_elem?, get_elem?-below, ◌>>=◌, All, arith,
}
use rlox.Distributed.Collection.{column, columns, have_length, stack, concat, reshape}

module _ {A : Type 0} where
  -- `rows[i][j]`
  abbrev pub at : ℕ → ℕ → List (List A) → Option A
  at i j rows = get_elem? rows i >>= λ r. get_elem? r j

  abbrev pub HaveLength : ℕ → List (List A) → Type 0
  HaveLength n rows = All (λ (r : List A). length r ≡ n) rows

  get_elem?-append_left :
      (xs ys : List A) (i : ℕ) → i < length xs → get_elem? (xs ++ ys) i ≡ get_elem? xs i
  get_elem?-append_left [] ys i h = absurd (omega arith)
  get_elem?-append_left (x ∷ xs) ys zero h = refl
  get_elem?-append_left (x ∷ xs) ys (suc i) h = get_elem?-append_left xs ys i (omega arith)

  get_elem?-append_right :
      (xs ys : List A) (i : ℕ) → get_elem? (xs ++ ys) (length xs + i) ≡ get_elem? ys i
  get_elem?-append_right [] ys i = ap (get_elem? ys) (omega arith)
  get_elem?-append_right (x ∷ xs) ys i =
      let e : suc (length xs) + i ≡ suc (length xs + i) = omega arith in
      rw e (get_elem?-append_right xs ys i)

  pub get_elem?-concat :
      (n : ℕ) (rows : List (List A)) (i j : ℕ)
      → HaveLength n rows
      → j < n
      → get_elem? (concat rows) (i * n + j) ≡ at i j rows
  get_elem?-concat n [] i j h lt = refl
  get_elem?-concat n (r ∷ rows) zero j h lt =
      ap (get_elem? (r ++ concat rows)) (omega arith)
      ∙ get_elem?-append_left r (concat rows) j (omega (arith, h.0))
  get_elem?-concat n (r ∷ rows) (suc i) j h lt =
      let e : suc i * n + j ≡ length r + (i * n + j) = omega (arith, h.0) in
      ap (get_elem? (r ++ concat rows)) e
      ∙ get_elem?-append_right r (concat rows) (i * n + j)
      ∙ get_elem?-concat n rows i j h.1 lt

  pub length-concat :
      (n : ℕ) (rows : List (List A)) → HaveLength n rows → length (concat rows) ≡ length rows * n
  length-concat n [] h = omega arith
  length-concat n (r ∷ rows) h =
      omega (arith, length-append r (concat rows), length-concat n rows h.1)

  -- A column that all the rows have
  abbrev pub IsColumn : ℕ → List (List A) → List A → Type 0
  IsColumn j rows c =
      (column j rows ≡ some c) × (length c ≡ length rows) × ((i : ℕ) → get_elem? c i ≡ at i j rows)

  pub IsColumn-exists :
      (n j : ℕ) (rows : List (List A))
      → HaveLength n rows
      → j < n
      → (c : List A) × IsColumn j rows c
  unfolding column
  IsColumn-exists n j [] h lt = ([], (refl, refl, λ i. refl))
  IsColumn-exists n j (r ∷ rows) h lt =
      let (x, e) = get_elem?-below r j (omega (arith, h.0)) in
      let (c, (f, l, get)) = IsColumn-exists n j rows h.1 lt in
      (x ∷ c, (rw (column, e, f) refl, ap suc l, under x c e get))
    where
      under :
          (x : A) (c : List A)
          → get_elem? r j ≡ some x
          → ((i : ℕ) → get_elem? c i ≡ at i j rows)
          → (i : ℕ) → get_elem? (x ∷ c) i ≡ at i j (r ∷ rows)
      under x c e get zero = sym e
      under x c e get (suc i) = get i

  pub columns-exist :
      (n m k : ℕ) (rows : List (List A))
      → HaveLength n rows
      → k + m ≤ n
      → (cs : List (List A)) × (columns k m rows ≡ some cs)
        × (length cs ≡ m)
        × HaveLength (length rows) cs
        × ((i j : ℕ) → j < m → at j i cs ≡ at i (k + j) rows)
  unfolding columns
  columns-exist n zero k rows h le = ([], refl, refl, tt, λ i j lt. absurd (omega arith))
  columns-exist n (suc m) k rows h le =
      let (c, (e, l, get)) = IsColumn-exists n k rows h (omega arith) in
      let (cs, f, len, all, gets) = columns-exist n m (suc k) rows h (omega arith) in
      (c ∷ cs, rw (columns, e, f) refl, ap suc len, (l, all), under c cs get gets)
    where
      under :
          (c : List A) (cs : List (List A))
          → ((i : ℕ) → get_elem? c i ≡ at i k rows)
          → ((i j : ℕ) → j < m → at j i cs ≡ at i (suc k + j) rows)
          → (i j : ℕ) → j < suc m
          → at j i (c ∷ cs) ≡ at i (k + j) rows
      under c cs get gets i zero lt = get i ∙ ap (λ j. at i j rows) (omega arith)
      under c cs get gets i (suc j) lt =
          gets i j (omega arith) ∙ ap (λ j. at i j rows) (omega arith)

  have_length-HaveLength :
      (n : ℕ) (rows : List (List A)) → HaveLength n rows → have_length n rows ≡ true
  have_length-HaveLength n [] h = refl
  have_length-HaveLength n (r ∷ rows) h = ground (arith, have_length-HaveLength n rows h.1)

  pub stacked :
      (n : ℕ) (r : List A) (rows : List (List A))
      → HaveLength n (r ∷ rows)
      → stack (r ∷ rows) ≡ some (r ∷ rows)
  unfolding stack
  stacked n r rows h =
      let s : have_length (length r) rows ≡ true = rw h.0 (have_length-HaveLength n rows h.1) in
      rw (stack, s) refl

  pub reshaped :
      (m n : ℕ) (rows : List (List A))
      → HaveLength n rows
      → length rows ≡ m
      → reshape (m * n) rows ≡ some (concat rows)
  unfolding reshape
  reshaped m n rows h l =
      let t : (length (concat rows) == m * n) ≡ true = ground (arith, length-concat n rows h) in
      rw (reshape, t) refl

  -- Rows of one length stack and flatten to all their entries.
  pub flattened :
      (m n : ℕ) (rows : List (List A))
      → HaveLength n rows
      → length rows ≡ suc m
      → (stack rows >>= reshape (suc m * n)) ≡ some (concat rows)
  flattened m n [] h l = absurd (omega arith)
  flattened m n (r ∷ rows) h l = rw (stacked n r rows h) (reshaped (suc m) n (r ∷ rows) h l)
