-- ===== src/Verifiers/Extraction/Blocks.antt =====
-- python/rlox_agent/verifiers_adapter.py, `extract_python_code` on a completion with fenced blocks.
use rlox.Base.{
  ℕ, zero, suc, ◌-◌, ◌≡◌, refl, sym, ap, ◌∙◌, false, none, some, List, [], ◌∷◌, ◌++◌, map,
  append-nil, append_assoc, subst, arith, ◌⊎◌, inl, inr, ◌==◌, length, drop, All, length-append,
  Bool-cases,
}
use mathlib.Core.List.{reverse}
use rlox.Verifiers.Messages.{Text, is_space, strip, lstrip}
use rlox.Verifiers.Extraction.{
  fence, python, strip_prefix, after_breaks, until_fence, match_block, find_from, findall, last_of,
  extract_python_code,
}

-- A text without a backtick.
abbrev pub IsPlain : Text → Type 0
IsPlain = All (λ c. (96 == c) ≡ false)

-- A completion: in front of each block some text, then its code in a Python fence.
abbrev pub completion : List (Text × Text) → Text → Text
completion [] post = post
completion ((pre, code) ∷ blocks) post =
    pre ++ (fence ++ (python ++ 10 ∷ (code ++ (fence ++ completion blocks post))))

-- No backtick is in the texts and the codes.
abbrev pub IsPlainBlocks : List (Text × Text) → Type 0
IsPlainBlocks = All (λ b. IsPlain b.0 × IsPlain b.1)

pub find_from-plain :
    (language pre s : Text) → IsPlain pre → find_from language 0 (pre ++ s) ≡ find_from language 0 s
unfolding find_from match_block strip_prefix
find_from-plain language [] s h = refl
find_from-plain language (c ∷ pre) s h = rw (h.0, find_from) (find_from-plain language pre s h.1)

find_from-drop : (n : ℕ) (s : Text) → find_from python n s ≡ find_from python 0 (drop n s)
unfolding find_from
find_from-drop zero s = refl
find_from-drop (suc n) [] = refl
find_from-drop (suc n) (c ∷ s) = find_from-drop n s

drop-append_all : (s t : Text) → drop (length (s ++ t) - length t) (s ++ t) ≡ t
drop-append_all s t =
    let e : length (s ++ t) - length t ≡ length s = omega (arith, length-append s t) in
    ap (λ n. drop n (s ++ t)) e ∙ skip s
  where
    skip : (s : Text) → drop (length s) (s ++ t) ≡ t
    skip [] = refl
    skip (c ∷ s) = skip s

-- The white space at the start of a code that the expression takes off.
after_breaks-code :
    (code r : Text)
    → IsPlain code
    → (after_breaks (code ++ 96 ∷ r) ≡ none)
      ⊎ ((body : Text) × (after_breaks (code ++ 96 ∷ r) ≡ some (body ++ 96 ∷ r))
          × (lstrip body ≡ lstrip code)
          × IsPlain body)
unfolding after_breaks lstrip
after_breaks-code [] r h = inl refl
after_breaks-code (c ∷ code) r h = elim (Bool-cases (is_space c)) [
  | inr shut ↦ inl (rw shut refl)
  | inl white ↦ elim (after_breaks-code code r h.1) [
    | inr (body, e, l, p) ↦ inr (body, rw (white, e) refl, rw white l, p)
    | inl e ↦ elim (Bool-cases (c == 10)) [
      | inl n ↦ inr (code, rw (white, e, n) refl, rw white refl, h.1)
      | inr n ↦ inl (rw (white, e, n) refl)
    ]
  ]
]

until_fence-plain :
    (body rest : Text) → IsPlain body → until_fence (body ++ (fence ++ rest)) ≡ some (body, rest)
unfolding until_fence strip_prefix
until_fence-plain [] rest h = refl
until_fence-plain (c ∷ body) rest h = rw (h.0, until_fence, until_fence-plain body rest h.1) refl

match_block-code :
    (code rest : Text)
    → IsPlain code
    → (body : Text) × (match_block python (fence ++ (python ++ 10 ∷ (code ++ (fence ++ rest))))
        ≡ some (body, rest))
      × (strip body ≡ strip code)
unfolding match_block strip_prefix after_breaks strip
match_block-code code rest h =
    let back = λ (t : Text). reverse (lstrip (reverse t)) in
    elim (after_breaks-code code (96 ∷ 96 ∷ rest) h) [
      | inl none_left ↦
          let e : after_breaks (code ++ (fence ++ rest)) ≡ none = none_left in
          (code, rw (match_block, e) (until_fence-plain code rest h), refl)
      | inr (body, left, l, p) ↦
          let e : after_breaks (code ++ (fence ++ rest)) ≡ some (body ++ (fence ++ rest)) = left in
          (body, rw (match_block, e) (until_fence-plain body rest p), ap back l)
    ]

find_from-nil : (post : Text) → IsPlain post → find_from python 0 post ≡ []
unfolding find_from
find_from-nil post p =
    ap (find_from python 0) (sym (append-nil post)) ∙ find_from-plain python post [] p

find_from-block :
    (body code rest : Text)
    → match_block python (fence ++ (python ++ 10 ∷ (code ++ (fence ++ rest)))) ≡ some (body, rest)
    → find_from python 0 (fence ++ (python ++ 10 ∷ (code ++ (fence ++ rest))))
      ≡ body ∷ find_from python 0 rest
unfolding find_from
find_from-block body code rest m =
    let s : Text = 96 ∷ 96 ∷ (python ++ 10 ∷ (code ++ fence)) in
    let tail : Text = 96 ∷ 96 ∷ (python ++ 10 ∷ (code ++ (fence ++ rest))) in
    let e : s ++ rest ≡ tail =
      ap (λ t. 96 ∷ 96 ∷ (python ++ 10 ∷ t)) (append_assoc code fence rest) in
    let skip : find_from python (length tail - length rest) tail ≡ find_from python 0 rest =
      find_from-drop (length tail - length rest) tail
      ∙ ap (find_from python 0)
          (subst (λ t. drop (length t - length rest) t ≡ rest) e (drop-append_all s rest)) in
    rw (find_from, m) (ap (λ c. body ∷ c) skip)

-- The codes that are found in a completion, as they are written but for white space around them.
findall-completion :
    (blocks : List (Text × Text)) (post : Text)
    → IsPlainBlocks blocks
    → IsPlain post
    → (found : List Text) × (findall python (completion blocks post) ≡ found)
      × (map strip found ≡ map (λ b. strip b.1) blocks)
unfolding findall
findall-completion [] post h p = ([], find_from-nil post p, refl)
findall-completion ((pre, code) ∷ blocks) post h p =
    let rest = completion blocks post in
    let (found, e, l) = findall-completion blocks post h.1 p in
    let (body, m, k) = match_block-code code rest h.0.1 in
    (
      body ∷ found,
      find_from-plain python pre (fence ++ (python ++ 10 ∷ (code ++ (fence ++ rest)))) h.0.0
          ∙ find_from-block body code rest m
          ∙ ap (λ bs. body ∷ bs) e,
      ap (λ c. c ∷ map strip found) k ∙ ap (λ cs. strip code ∷ cs) l,
    )

abbrev pub last_code : Text × Text → List (Text × Text) → Text
last_code b [] = b.1
last_code b (c ∷ bs) = last_code c bs

strip-last_of :
    (m : Text) (ms : List Text) (b : Text × Text) (bs : List (Text × Text))
    → map strip (m ∷ ms) ≡ map (λ b. strip b.1) (b ∷ bs)
    → strip (last_of m ms) ≡ strip (last_code b bs)
unfolding last_of
strip-last_of m [] b [] h = cc
strip-last_of m [] b (c ∷ bs) h = cc
strip-last_of m (n ∷ ms) b [] h = cc
strip-last_of m (n ∷ ms) b (c ∷ bs) h = strip-last_of n ms c bs (ap tail h)
  where
    tail : List Text → List Text
    tail [] = []
    tail (t ∷ ts) = ts

-- In a completion with at least one block of code in a Python fence, where no backtick stands in
-- the texts around the blocks or in the codes, `extract_python_code` gives the code of the last
-- block without the white space around it.
pub last_block_extracted :
    (b : Text × Text) (bs : List (Text × Text)) (post : Text)
    → IsPlainBlocks (b ∷ bs)
    → IsPlain post
    → extract_python_code (completion (b ∷ bs) post) ≡ strip (last_code b bs)
unfolding extract_python_code
last_block_extracted b bs post h p =
    let (found, e, l) = findall-completion (b ∷ bs) post h p in
    rw (extract_python_code, e) (pick _ found l)
  where
    pick :
        (other : Text) (found : List Text)
        → map strip found ≡ map (λ b. strip b.1) (b ∷ bs)
        → elim found [ m ∷ ms ↦ strip (last_of m ms) | [] ↦ other ] ≡ strip (last_code b bs)
    pick other [] l = cc
    pick other (m ∷ ms) l = strip-last_of m ms b bs l
