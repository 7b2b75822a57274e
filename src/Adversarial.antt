-- ===== src/Adversarial.antt =====
-- python/rlox_agent/adversarial_corpus.py: the corpus of adversarial samples and the injector.
-- A file is its parsed JSON object; SHA-256 and `json.dumps` are parameters, and so is the random
-- generator, whose state is passed on. `random.choice` is the choice of an index.
pub mod Injection
mod Tests
use rlox.Base.{
  ℕ, Bool, true, false, ◌&&◌, ◌||◌, Option, none, some, List, [], ◌∷◌, ◌++◌, if◌then◌else◌, ◌==◌,
  length, get_elem?, ◌>>=◌, String, Result, ok, raised,
}
use rlox.Base.Float.{Float}
use rlox.Base.Dict.{Eq, string_eq, Dict, lookup}
use rlox.Verifiers.Messages.{Text}

pub record AdversarialSample : Type 0 where
  pub id : Text
  pub category : Text
  pub language : Text
  pub code : Text
  pub expected_exit : Text

pub data Error : Type 0 where
  file_not_found corpus_integrity_error key_error index_error : Error

-- The object in a corpus file. `other` is what neither the digest's field nor the samples are.
pub record Document (Other : Type 0) : Type 0 where
  pub sha256 : Option Text
  pub samples : Option (List (Dict String Text))
  pub other : Other

pub record AdversarialCorpus : Type 0 where
  pub samples : List AdversarialSample
  pub categories : List Text

unfoldable pub text_eq : Text → Text → Bool
text_eq [] [] = true
text_eq [] (_ ∷ _) = false
text_eq (_ ∷ _) [] = false
text_eq (c ∷ s) (d ∷ t) = c == d && text_eq s t

abbrev is_in : Text → List Text → Bool
is_in t [] = false
is_in t (u ∷ us) = if text_eq t u then true else is_in t us

-- `{s.category for s in samples}`, without an order
categories_of : List AdversarialSample → List Text
unfolding text_eq
categories_of [] = []
categories_of (s ∷ ss) =
    let rest = categories_of ss in if is_in s.category rest then rest else s.category ∷ rest

-- A sample, if the object has its five entries.
unfoldable pub sample_of : Dict String Text → Option AdversarialSample
sample_of d = do
  id ← lookup "id" d
  category ← lookup "category" d
  language ← lookup "language" d
  code ← lookup "code" d
  expected_exit ← lookup "expected_exit" d
  some (record {
    id = id;
    category = category;
    language = language;
    code = code;
    expected_exit = expected_exit;
  })

unfoldable pub samples_of : List (Dict String Text) → Option (List AdversarialSample)
unfolding sample_of
samples_of [] = some []
samples_of (d ∷ ds) = do s ← sample_of d; ss ← samples_of ds; some (s ∷ ss)

module _ (Other : Type 0) (dumps : Document Other → Text) (sha256_hex : Text → Text) where
  unfoldable pub canonical_digest : Document Other → Text
  canonical_digest doc = sha256_hex (dumps (record doc { sha256 = some [] }))

  abbrev pub recorded : Option Text → Text
  recorded none = []
  recorded (some t) = t

  unfoldable pub parse : Document Other → Result Error AdversarialCorpus
  unfolding samples_of categories_of
  parse doc = elim doc.samples [
    | none ↦ raised key_error
    | some objects ↦ elim (samples_of objects) [
      | none ↦ raised key_error
      | some ss ↦ ok (record { samples = ss; categories = categories_of ss })
    ]
  ]

  -- `AdversarialCorpus.load`, from the file if it exists.
  unfoldable pub load : Option (Document Other) → Result Error AdversarialCorpus
  unfolding canonical_digest parse text_eq
  load none = raised file_not_found
  load (some doc) =
      if text_eq (canonical_digest doc) (recorded doc.sha256)
      then parse doc
      else raised corpus_integrity_error

pub record AdversarialInjector (F : Float) (Rng : Type 0) : Type 0 where
  pub corpus : AdversarialCorpus
  pub fraction : F.Carrier
  pub rng : Rng

-- What `maybe_inject` gives back, with the flag of the pair.
pub data Injected {ℓ} (Task : Type ℓ) : Type ℓ where
  kept : Task → Injected Task
  replaced : AdversarialSample → Injected Task

module _ (F : Float) (Rng : Type 0) (random : Rng → F.Carrier × Rng)
    (choice : ℕ → Rng → ℕ × Rng) where
  unfoldable pub choose :
      {Task : Type 0}
      → AdversarialInjector F Rng
      → Result Error ((Injected Task × Bool) × AdversarialInjector F Rng)
  choose i =
      let (k, rng) = choice (length i.corpus.samples) i.rng in
      elim (get_elem? i.corpus.samples k) [
        | none ↦ raised index_error
        | some s ↦ ok ((replaced s, true), record i { rng = rng })
      ]

  -- A fraction of one or more does not draw a number.
  unfoldable pub maybe_inject :
      {Task : Type 0}
      → AdversarialInjector F Rng
      → Task
      → Result Error ((Injected Task × Bool) × AdversarialInjector F Rng)
  unfolding choose
  maybe_inject i task =
      if F.le i.fraction (F.of_ℕ 0)
      then ok ((kept task, false), i)
      else if F.le (F.of_ℕ 1) i.fraction
      then choose i
      else let (x, rng) = random i.rng in
        let drawn = record i { rng = rng } in
        if F.lt x i.fraction then choose drawn else ok ((kept task, false), drawn)
