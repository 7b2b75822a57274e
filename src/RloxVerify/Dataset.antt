-- ===== src/RloxVerify/Dataset.antt =====
-- environments/rlox_verify/rlox_verify/__init__.py: `_load_mbpp_problems` and `_build_dataset`.
-- The package `datasets`, the environment variable and `random.Random(seed).shuffle` are
-- parameters. Logging is left out. Texts are lists of code points; an embedded problem is written
-- as a string.
use Prim.Native.String.{String, [] as empty, ◌∷◌ as next}
use Prim.Native.Char.{code}
use rlox.Base.{
  ℕ, zero, suc, Bool, true, false, Option, none, some, List, [], ◌∷◌, ◌++◌, map, if◌then◌else◌,
  ◌==◌, length, take, ◌>>=◌,
}
use rlox.Batch.{index}
use rlox.Verifiers.Messages.{Text, strip, join_lines, Messages, messages, text}
use rlox.RloxVerify.Problems.{fallback_problems}
use rlox.RloxVerify.Problems.Rows.{Row, row}

-- `MBPP_SEED`
abbrev pub mbpp_seed : ℕ
mbpp_seed = 2024

-- `MBPP_DEFAULT_N`
abbrev pub mbpp_default_n : ℕ
mbpp_default_n = 50

abbrev pub text_of : String → Text
text_of empty = []
text_of (next c s) = code c ∷ text_of s

pub record Problem : Type 0 where
  pub prompt : Text
  pub answer : Text
  pub tests : Text

abbrev pub problem_of : Row → Problem
problem_of (row p a t) = record { prompt = text_of p; answer = text_of a; tests = text_of t }

unfoldable pub fallback : List Problem
fallback = map problem_of fallback_problems

-- A row of MBPP, with its "test_list" and "text", if it has them
pub record MbppRow : Type 0 where
  pub test_list : Option (List Text)
  pub text : Option Text

abbrev pub test_lines : MbppRow → List Text
test_lines r = elim r.test_list [ none ↦ [] | some ts ↦ ts ]

-- `"\n".join(test_lines) + "\n" if test_lines else ""`
abbrev pub tests_block : List Text → Text
tests_block [] = []
tests_block (t ∷ ts) = join_lines (t ∷ ts) ++ 10 ∷ []

abbrev pub instruction : String
instruction = "Write a Python function to solve the following problem:\n\n"

unfoldable pub mbpp_problem : MbppRow → Problem
unfolding join_lines
mbpp_problem r = record {
  prompt = text_of instruction ++ elim r.text [ none ↦ [] | some t ↦ t ];
  answer = [];
  tests = tests_block (test_lines r);
}

-- `os.environ.get("RLOX_NO_MBPP", "").strip() == "1"`
abbrev is_one : Text → Bool
is_one [] = false
is_one (c ∷ []) = c == 49
is_one (c ∷ d ∷ s) = false

unfoldable pub is_disabled : Option Text → Bool
unfolding strip
is_disabled none = false
is_disabled (some t) = is_one (strip t)

-- `list(range(start, start + n))`
abbrev pub range : ℕ → ℕ → List ℕ
range start zero = []
range start (suc n) = start ∷ range (suc start) n

pub record Datasets : Type 0 where
  -- whether `import datasets` succeeds
  pub installed : Bool
  -- what `load_dataset` of a name gives, if it does not raise
  pub load_dataset : String → Option (List MbppRow)
  -- `random.Random(seed).shuffle`
  pub shuffle : ℕ → List ℕ → List ℕ
  -- the environment variable RLOX_NO_MBPP
  pub no_mbpp : Option Text

module _ (D : Datasets) where
  unfoldable pub first_of : List String → Option (List MbppRow)
  first_of [] = none
  first_of (name ∷ names) = elim (D.load_dataset name) [
    | none ↦ first_of names
    | some rows ↦ some rows
  ]

  -- The dataset under the first name that it is found by
  abbrev pub mbpp : Option (List MbppRow)
  mbpp = if D.installed then first_of ("mbpp" ∷ "google-research-datasets/mbpp" ∷ []) else none

  -- `problems`; an index out of range raises IndexError.
  unfoldable pub selected : ℕ → ℕ → List MbppRow → Option (List Problem)
  unfolding mbpp_problem
  selected n seed ds = do
    rows ← index ds (take n (D.shuffle seed (range 0 (length ds))))
    some (map mbpp_problem rows)

  -- Any exception of the attempt leads to the embedded problems.
  unfoldable pub load_mbpp_problems : ℕ → ℕ → List Problem
  load_mbpp_problems n seed =
      if is_disabled D.no_mbpp
      then take n fallback
      else elim (mbpp >>= selected n seed) [ none ↦ take n fallback | some ps ↦ ps ]

  -- A row of the dataset that the environment gets
  pub record Example : Type 0 where
    pub prompt : Messages
    pub answer : Text
    pub tests : Text

  abbrev pub example_of : Problem → Example
  example_of p = record {
    prompt = messages (text p.prompt ∷ []);
    answer = p.answer;
    tests = p.tests;
  }

  abbrev pub raw_problems : Option ℕ → Bool → List Problem
  raw_problems none true = load_mbpp_problems mbpp_default_n mbpp_seed
  raw_problems (some n) true = load_mbpp_problems n mbpp_seed
  raw_problems none false = fallback
  raw_problems (some n) false = take n fallback

  abbrev pub examples : Option ℕ → Bool → List Example
  examples n_problems use_mbpp = map example_of (raw_problems n_problems use_mbpp)

  -- ImportError, where the package is missing, is `none`.
  unfoldable pub build_dataset : Option ℕ → Bool → Option (List Example)
  unfolding load_mbpp_problems
  build_dataset n_problems use_mbpp =
      if D.installed then some (examples n_problems use_mbpp) else none
