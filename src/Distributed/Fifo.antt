-- ===== src/Distributed/Fifo.antt =====
-- python/rlox/distributed/pipeline.py: `Pipeline` as an unbounded channel that is lossless and in
-- order until it is closed.
use rlox.Base.{
  ℕ, ◌≡◌, refl, Bool, true, false, Option, some, List, [], ◌∷◌, ◌++◌, append-nil, Bool-cases,
  Option-cases, inl, inr,
}
use rlox.Distributed.Threads.{
  Phase, checking, collecting, holding, putting, ended, Pipeline, has_room, collector_step, get,
  next_batch, try_next_batch, close, received, Action, collector_turn, call_next_batch,
  call_try_next_batch, call_close, step, run,
}

module _ (Loop Batch : Type 0) (collect : Loop → Option (Batch × Loop)) where
  -- The specification: batches on their way, the rounds still to come, and whether it is closed.
  pub record Channel : Type 0 where
    pub waiting : List Batch
    pub source : Loop
    pub closed : Bool

  -- What it may do, with what the learner gets by it.
  pub data Does (c : Channel) : List Batch → Channel → Type 0 where
    rests : Does c [] c
    makes :
        (b : Batch) (l : Loop)
        → collect c.source ≡ some (b, l)
        → Does c [] (record c { waiting = c.waiting ++ b ∷ []; source = l })
    gives :
        (b : Batch) (bs : List Batch)
        → c.waiting ≡ b ∷ bs
        → Does c (b ∷ []) (record c { waiting = bs })
    closes : Does c [] (record c { closed = true })
    -- only a closed channel loses a batch, the one that came last
    loses :
        (b : Batch) (bs : List Batch)
        → c.closed ≡ true
        → c.waiting ≡ bs ++ b ∷ []
        → Does c [] (record c { waiting = bs })

  pub data Do : Channel → List Batch → Channel → Type 0 where
    nothing : {c : Channel} → Do c [] c
    then_does : {c d e : Channel} {bs cs : List Batch} → Does c bs d → Do d cs e → Do c (bs ++ cs) e

  -- The batch in the thread's hands
  abbrev pub in_hand : Phase Loop Batch → List Batch
  in_hand checking = []
  in_hand collecting = []
  in_hand (holding b) = b ∷ []
  in_hand (putting b) = b ∷ []
  in_hand ended = []

  abbrev pub channel : Pipeline Loop Batch → Channel
  channel p = record {
    waiting = p.queue ++ in_hand p.thread;
    source = p.loop;
    closed = p.stop_event;
  }

  abbrev made : ℕ → List Batch → Bool → Phase Loop Batch → Loop → Pipeline Loop Batch
  made cap q stop t l = record {
    channel_capacity = cap;
    queue = q;
    stop_event = stop;
    thread = t;
    loop = l;
  }

  collector_step-Does :
      (cap : ℕ) (q : List Batch) (stop : Bool) (t : Phase Loop Batch) (l : Loop)
      → Does
          (channel (made cap q stop t l))
          []
          (channel (collector_step Loop Batch collect (made cap q stop t l)))
  unfolding collector_step
  collector_step-Does cap q true checking l = rests
  collector_step-Does cap q false checking l = rests
  collector_step-Does cap q stop collecting l = elim (Option-cases (collect l)) [
    | inl e ↦ rw (collector_step, e) rests
    | inr ((b, l'), e) ↦ rw (collector_step, e, append-nil q) (makes b l' e)
  ]
  collector_step-Does cap q true (holding b) l = rw (append-nil q) (loses b q refl refl)
  collector_step-Does cap q false (holding b) l = rests
  collector_step-Does cap q stop (putting b) l =
      elim (Bool-cases (has_room Loop Batch (made cap q stop (putting b) l))) [
        | inl room ↦ rw (collector_step, room, append-nil (q ++ b ∷ [])) rests
        | inr full ↦ rw (collector_step, full) rests
      ]
  collector_step-Does cap q stop ended l = rests

  get-Does :
      (cap : ℕ) (q : List Batch) (stop : Bool) (t : Phase Loop Batch) (l : Loop)
      → Does
          (channel (made cap q stop t l))
          (received Loop Batch (get Loop Batch (made cap q stop t l)).0)
          (channel (get Loop Batch (made cap q stop t l)).1)
  unfolding get
  get-Does cap [] stop t l = rests
  get-Does cap (b ∷ q) stop t l = gives b (q ++ in_hand t) refl

  step-Does :
      (a : Action Loop Batch) (p : Pipeline Loop Batch)
      → Does (channel p) (step Loop Batch collect a p).0 (channel (step Loop Batch collect a p).1)
  unfolding step next_batch try_next_batch close
  step-Does collector_turn p =
      collector_step-Does p.channel_capacity p.queue p.stop_event p.thread p.loop
  step-Does call_next_batch p = get-Does p.channel_capacity p.queue p.stop_event p.thread p.loop
  step-Does call_try_next_batch p = get-Does p.channel_capacity p.queue p.stop_event p.thread p.loop
  step-Does call_close p = closes

  -- Any schedule of the thread's steps and the learner's calls is what the unbounded channel may
  -- do, with the same batches received: bounds, timeouts and retries show in nothing.
  pub run-Do :
      (schedule : List (Action Loop Batch)) (p : Pipeline Loop Batch)
      → Do
          (channel p)
          (run Loop Batch collect schedule p).0
          (channel (run Loop Batch collect schedule p).1)
  unfolding run
  run-Do [] p = nothing
  run-Do (a ∷ later) p = then_does (step-Does a p) (run-Do later (step Loop Batch collect a p).1)
