-- ===== src/Base/Windows.antt =====
-- The last elements of a list, as a bounded deque keeps them.
use Prim.Native.Nat.{ℕ, zero, suc, ◌+◌, ◌-◌, ◌≤◌, min}
use mathlib.Core.Path.{◌≡◌, refl, ap, sym, ◌∙◌}
use mathlib.Core.List.{List, [], ◌∷◌, ◌++◌}
use native.Mathlib.Omega.{arith}
use rlox.Base.Lists.{length, drop, length-drop, length-append, drop-drop}

module _ {ℓ} {A : Type ℓ} where
  -- `xs[-n:]` for n > 0, and what `deque(xs, maxlen=n)` holds.
  abbrev pub last_n : ℕ → List A → List A
  last_n n xs = drop (length xs - n) xs

  -- `deque(maxlen=n).append(x)`
  abbrev pub push_bounded : ℕ → List A → A → List A
  push_bounded n xs x = last_n n (xs ++ x ∷ [])

  pub length-last_n : (n : ℕ) (xs : List A) → length (last_n n xs) ≡ min n (length xs)
  length-last_n n xs = omega (arith, length-drop (length xs - n) xs)

  pub drop-append_le :
      (n : ℕ) (xs ys : List A) → n ≤ length xs → drop n (xs ++ ys) ≡ drop n xs ++ ys
  drop-append_le zero xs ys h = refl
  drop-append_le (suc n) [] ys h = absurd (omega arith)
  drop-append_le (suc n) (x ∷ xs) ys h = drop-append_le n xs ys (omega arith)

  -- A bounded deque of the last elements stays one when it takes another.
  pub push_bounded-last_n :
      (n : ℕ) (xs : List A) (x : A) → push_bounded n (last_n n xs) x ≡ last_n n (xs ++ x ∷ [])
  push_bounded-last_n n xs x =
      let skip : ℕ = length xs - n in
      let glue : drop skip (xs ++ x ∷ []) ≡ drop skip xs ++ x ∷ [] =
        drop-append_le skip xs (x ∷ []) (omega arith) in
      let e : skip + (length (drop skip xs ++ x ∷ []) - n) ≡ length (xs ++ x ∷ []) - n = omega (
        arith,
        length-append (drop skip xs) (x ∷ []),
        length-append xs (x ∷ []),
        length-drop skip xs,
      ) in
      ap (drop (length (drop skip xs ++ x ∷ []) - n)) (sym glue)
      ∙ drop-drop skip (length (drop skip xs ++ x ∷ []) - n) (xs ++ x ∷ [])
      ∙ ap (λ k. drop k (xs ++ x ∷ [])) e
