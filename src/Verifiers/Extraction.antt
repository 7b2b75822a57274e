-- ===== src/Verifiers/Extraction.antt =====
-- python/rlox_agent/verifiers_adapter.py, `extract_python_code`, with its two regular expressions
-- as matchers: a fence, white space up to the last line break of the run, and the shortest text up
-- to the closing fence.
pub mod Blocks
pub mod Unfenced
use rlox.Base.{
  ℕ, zero, suc, ◌+◌, ◌-◌, Bool, true, false, ◌||◌, ◌&&◌, Option, none, some, List, [], ◌∷◌, ◌++◌,
  if◌then◌else◌, leb, ◌==◌, length,
}
use rlox.Verifiers.Messages.{Text, is_space, strip, join_lines}

-- Three backticks
abbrev pub fence : Text
fence = 96 ∷ 96 ∷ 96 ∷ []

-- "python"
abbrev pub python : Text
python = 112 ∷ 121 ∷ 116 ∷ 104 ∷ 111 ∷ 110 ∷ []

-- The text behind a prefix, if the text starts with it.
unfoldable pub strip_prefix : Text → Text → Option Text
strip_prefix [] s = some s
strip_prefix (p ∷ ps) [] = none
strip_prefix (p ∷ ps) (c ∷ s) = if p == c then strip_prefix ps s else none

-- `\s*\n`: behind the last line break of the white space at the start.
unfoldable pub after_breaks : Text → Option Text
unfolding is_space
after_breaks [] = none
after_breaks (c ∷ s) =
    if is_space c
    then elim (after_breaks s) [ some r ↦ some r | none ↦ if c == 10 then some s else none ]
    else none

-- `(.*?)` and the closing fence: the text before the first fence, and the text behind it.
unfoldable pub until_fence : Text → Option (Text × Text)
unfolding strip_prefix
until_fence [] = none
until_fence (c ∷ s) = elim (strip_prefix fence (c ∷ s)) [
  | some rest ↦ some ([], rest)
  | none ↦ elim (until_fence s) [ none ↦ none | some (body, rest) ↦ some (c ∷ body, rest) ]
]

-- A match at the start of the text: the group, and the text behind the match. `language` is what
-- stands behind the opening fence.
unfoldable pub match_block : (language : Text) → Text → Option (Text × Text)
unfolding strip_prefix after_breaks until_fence
match_block language s = elim (strip_prefix (fence ++ language) s) [
  | none ↦ none
  | some s₁ ↦ elim (after_breaks s₁) [ none ↦ none | some s₂ ↦ until_fence s₂ ]
]

-- `pattern.findall(text)`, from where `skip` more characters belong to a match.
unfoldable pub find_from : Text → ℕ → Text → List Text
unfolding match_block
find_from language skip [] = []
find_from language (suc skip) (c ∷ s) = find_from language skip s
find_from language zero (c ∷ s) = elim (match_block language (c ∷ s)) [
  | none ↦ find_from language zero s
  | some (body, rest) ↦ body ∷ find_from language (length s - length rest) s
]

unfoldable pub findall : Text → Text → List Text
unfolding find_from
findall language s = find_from language 0 s

-- Where `str.splitlines` breaks a line; a carriage return takes a line feed behind it along.
unfoldable pub is_break : ℕ → Bool
is_break c =
    (leb 10 c && leb c 13) || ((leb 28 c && leb c 30) || (c == 133 || (c == 8232 || c == 8233)))

abbrev add_char : ℕ → List Text → List Text
add_char c [] = (c ∷ []) ∷ []
add_char c (l ∷ ls) = (c ∷ l) ∷ ls

-- A line break closes an empty line in front of the lines that follow.
unfoldable pub splitlines : Text → List Text
unfolding is_break
splitlines [] = []
splitlines (c ∷ []) = if is_break c then [] ∷ [] else (c ∷ []) ∷ []
splitlines (c ∷ d ∷ s) =
    let rest = splitlines (d ∷ s) in
    if c == 13 && d == 10 then rest else if is_break c then [] ∷ rest else add_char c rest

-- "def ", "import " and "from "
abbrev pub keywords : List Text
keywords =
    (100 ∷ 101 ∷ 102 ∷ 32 ∷ [])
    ∷ (105 ∷ 109 ∷ 112 ∷ 111 ∷ 114 ∷ 116 ∷ 32 ∷ [])
    ∷ (102 ∷ 114 ∷ 111 ∷ 109 ∷ 32 ∷ [])
    ∷ []

unfoldable pub starts_with_any : List Text → Text → Bool
unfolding strip_prefix
starts_with_any [] line = false
starts_with_any (k ∷ ks) line = elim (strip_prefix k line) [
  | some _ ↦ true
  | none ↦ starts_with_any ks line
]

-- The lines from the first one that starts with a keyword.
unfoldable pub from_code : List Text → Option (List Text)
unfolding starts_with_any
from_code [] = none
from_code (l ∷ ls) =
    let rest = from_code ls in if starts_with_any keywords l then some (l ∷ ls) else rest

unfoldable pub last_of : Text → List Text → Text
last_of t [] = t
last_of t (u ∷ us) = last_of u us

unfoldable pub fallback : Text → Text
unfolding from_code splitlines join_lines strip
fallback s = elim (from_code (splitlines s)) [ some ls ↦ strip (join_lines ls) | none ↦ s ]

unfoldable pub extract_python_code : Text → Text
unfolding findall fallback last_of strip
extract_python_code s = elim (findall python s) [
  | m ∷ ms ↦ strip (last_of m ms)
  | [] ↦ elim (findall [] s) [ m ∷ ms ↦ strip (last_of m ms) | [] ↦ fallback s ]
]
