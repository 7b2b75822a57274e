-- ===== src/Verifiers/Messages.antt =====
-- python/rlox_agent/verifiers_adapter.py, `extract_text`, and Python's operations on texts that
-- the module uses. A text is the list of its code points.
use rlox.Base.{
  ℕ, Bool, ◌||◌, ◌&&◌, Option, none, some, List, [], ◌∷◌, ◌++◌, if◌then◌else◌, leb, ◌==◌,
}
use mathlib.Core.List.{reverse}

abbrev pub Text : Type 0
Text = List ℕ

-- `str.isspace` of a character, which is also what `\s` matches.
unfoldable pub is_space : ℕ → Bool
is_space c =
    (leb 9 c && leb c 13)
    || ((leb 28 c && leb c 32)
        || (c == 133
            || (c == 160
                || (c == 5760
                    || ((leb 8192 c && leb c 8202)
                        || (c == 8232
                            || (c == 8233 || (c == 8239 || (c == 8287 || c == 12288)))))))))

unfoldable pub lstrip : Text → Text
lstrip [] = []
lstrip (c ∷ s) = if is_space c then lstrip s else c ∷ s

-- `s.strip()`
unfoldable pub strip : Text → Text
unfolding lstrip is_space
strip s = reverse (lstrip (reverse (lstrip s)))

-- `"\n".join(parts)`
unfoldable pub join_lines : List Text → Text
join_lines [] = []
join_lines (p ∷ []) = p
join_lines (p ∷ q ∷ ps) = p ++ 10 ∷ join_lines (q ∷ ps)

pub data Block : Type 0 where
  -- a dict, with its "text" entry if it has one
  dict_block : Option Text → Block
  text_block : Text → Block
  other_block : Block

pub data Content : Type 0 where
  missing : Content
  text : Text → Content
  blocks : List Block → Content
  other : Content

pub data Messages : Type 0 where
  plain : Text → Messages
  messages : List Content → Messages

abbrev block_parts : List Block → List Text
block_parts [] = []
block_parts (dict_block none ∷ bs) = [] ∷ block_parts bs
block_parts (dict_block (some t) ∷ bs) = t ∷ block_parts bs
block_parts (text_block t ∷ bs) = t ∷ block_parts bs
block_parts (other_block ∷ bs) = block_parts bs

abbrev content_parts : Content → List Text
content_parts missing = [] ∷ []
content_parts (text t) = t ∷ []
content_parts (blocks bs) = block_parts bs
content_parts other = []

abbrev parts : List Content → List Text
parts [] = []
parts (m ∷ ms) = content_parts m ++ parts ms

unfoldable pub extract_text : Messages → Text
unfolding join_lines
extract_text (plain t) = t
extract_text (messages ms) = join_lines (parts ms)
