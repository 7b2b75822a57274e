-- ===== src/Adversarial/Tests.antt =====
-- python/rlox_agent/adversarial_corpus.py on small inputs.
use rlox.Base.{
  ℕ, suc, ◌≡◌, refl, Bool, true, none, some, [], ◌∷◌, length, String, ok, raised, arith,
}
use rlox.Base.Samples.{counting}
use rlox.Base.Dict.{Dict}
use rlox.Verifiers.Messages.{Text}
use rlox.Adversarial.{
  AdversarialSample, AdversarialCorpus, AdversarialInjector, Document, Injected,
  corpus_integrity_error, index_error, choose, maybe_inject, canonical_digest, parse, load,
  samples_of, sample_of, text_eq,
}
use rlox.Adversarial.Injection.{IsInjection, maybe_inject-IsInjection}

-- A content that is written as its number of samples and the text beside them.
abbrev dumps : Document Text → Text
dumps doc = elim doc.samples [ none ↦ doc.other | some ss ↦ length ss ∷ doc.other ]

abbrev digest : Text → Text
digest t = 7 ∷ t

abbrev entries : Dict String Text
entries =
    ("id", 1 ∷ [])
    ∷ ("category", 2 ∷ [])
    ∷ ("language", 3 ∷ [])
    ∷ ("code", 4 ∷ [])
    ∷ ("expected_exit", 5 ∷ [])
    ∷ []

abbrev document : Document Text
document = record { sha256 = some (7 ∷ 1 ∷ []); samples = some (entries ∷ []); other = [] }

abbrev sample : AdversarialSample
sample = record {
  id = 1 ∷ [];
  category = 2 ∷ [];
  language = 3 ∷ [];
  code = 4 ∷ [];
  expected_exit = 5 ∷ [];
}

load-document : (c : AdversarialCorpus) × (load Text dumps digest (some document) ≡ ok c)
unfolding load canonical_digest parse samples_of sample_of text_eq
load-document = (_, refl)

-- A sample that is added to the file is noticed.
load_tampered :
    load Text dumps digest (some (record document { samples = some (entries ∷ entries ∷ []) }))
    ≡ raised corpus_integrity_error
unfolding load canonical_digest text_eq
load_tampered = refl

abbrev injector : AdversarialInjector counting ℕ
injector = record {
  corpus = record { samples = sample ∷ []; categories = (2 ∷ []) ∷ [] };
  fraction = 1;
  rng = 5;
}

abbrev random : ℕ → ℕ × ℕ
random r = (r, suc r)

abbrev first : ℕ → ℕ → ℕ × ℕ
first n r = (0, suc r)

-- `random.choice` of an empty corpus raises.
empty_corpus :
    maybe_inject counting ℕ random first
      (record injector { corpus = record { samples = []; categories = [] } })
      true
    ≡ raised index_error
unfolding maybe_inject choose
empty_corpus = refl

maybe_inject-IsInjection_example :
    (r : Injected Bool × Bool) × (rng : ℕ) × (maybe_inject counting ℕ random first injector true
      ≡ ok (r, record injector { rng = rng }))
    × IsInjection counting ℕ random first Bool injector true r
maybe_inject-IsInjection_example =
    maybe_inject-IsInjection counting ℕ random first Bool injector true (λ n r h. h) (omega arith)
