-- ===== src/Verifiers/Extraction/Unfenced.antt =====
-- python/rlox_agent/verifiers_adapter.py, `extract_python_code` on a completion without a backtick.
use rlox.Base.{
  ◌≡◌, refl, sym, ap, ◌∙◌, true, false, none, some, List, [], ◌∷◌, ◌++◌, append-nil, All,
}
use rlox.Verifiers.Messages.{Text, strip, join_lines}
use rlox.Verifiers.Extraction.{
  python, find_from, findall, splitlines, keywords, starts_with_any, from_code, fallback,
  extract_python_code,
}
use rlox.Verifiers.Extraction.Blocks.{IsPlain, find_from-plain}

findall-plain : (language s : Text) → IsPlain s → findall language s ≡ []
unfolding findall find_from
findall-plain language s h =
    ap (find_from language 0) (sym (append-nil s)) ∙ find_from-plain language s [] h

-- No line starts with a keyword.
abbrev pub HasNoCode : List Text → Type 0
HasNoCode = All (λ l. starts_with_any keywords l ≡ false)

from_code-none : (lines : List Text) → HasNoCode lines → from_code lines ≡ none
unfolding from_code
from_code-none [] h = refl
from_code-none (l ∷ lines) h = rw h.0 (from_code-none lines h.1)

from_code-some :
    (before : List Text) (l : Text) (after : List Text)
    → HasNoCode before
    → starts_with_any keywords l ≡ true
    → from_code (before ++ l ∷ after) ≡ some (l ∷ after)
unfolding from_code
from_code-some [] l after h k = rw k refl
from_code-some (b ∷ before) l after h k = rw h.0 (from_code-some before l after h.1 k)

extract-fallback : (s : Text) → IsPlain s → extract_python_code s ≡ fallback s
unfolding extract_python_code
extract-fallback s h = rw (extract_python_code, findall-plain python s h, findall-plain [] s h) refl

-- In a completion without a backtick whose lines are some that start with none of "def ", "import "
-- and "from ", and then others: if the next line starts with one of them, the code is the text
-- from that line on, without the white space around it, and if there is no next line, it is the
-- whole completion as it is.
pub unfenced_extracted :
    (s : Text) (before rest : List Text)
    → IsPlain s
    → splitlines s ≡ before ++ rest
    → HasNoCode before
    → (elim rest [ [] ↦ true | l ∷ _ ↦ starts_with_any keywords l ]) ≡ true
    → extract_python_code s ≡ elim rest [ [] ↦ s | l ∷ after ↦ strip (join_lines (l ∷ after)) ]
unfolding fallback
unfenced_extracted s before [] h split none_there k =
    extract-fallback s h
    ∙ rw (fallback, split, append-nil before, from_code-none before none_there) refl
unfenced_extracted s before (l ∷ after) h split none_there k =
    extract-fallback s h ∙ rw (fallback, split, from_code-some before l after none_there k) refl
