-- ===== src/Distributed/Shutdown.antt =====
-- python/rlox/distributed/pipeline.py: `Pipeline.close`, and how the collector thread comes to an end.
use rlox.Base.{
  ℕ, suc, ◌-◌, ◌≤◌, ◌≡◌, ◌≢◌, subst, refl, sym, ap, ◌∙◌, Bool, true, false, ◌||◌, Option, some,
  List, [], ◌∷◌, ltb, ◌==◌, Bool-cases, Option-cases, inl, inr, arith,
}
use rlox.Distributed.Threads.{
  Phase, checking, collecting, holding, putting, ended, Pipeline, has_room, collector_step, get,
  next_batch, try_next_batch, close, Action, collector_turn, call_next_batch, call_try_next_batch,
  call_close, step, run,
}

module _ (Loop Batch : Type 0) (collect : Loop → Option (Batch × Loop)) where
  -- The steps of the thread in a schedule
  abbrev pub collector_turns : List (Action Loop Batch) → ℕ
  collector_turns [] = 0
  collector_turns (collector_turn ∷ later) = suc (collector_turns later)
  collector_turns (call_next_batch ∷ later) = collector_turns later
  collector_turns (call_try_next_batch ∷ later) = collector_turns later
  collector_turns (call_close ∷ later) = collector_turns later

  -- How many steps a thread that is to stop has left
  steps_left : Phase Loop Batch → ℕ
  steps_left checking = 1
  steps_left collecting = 3
  steps_left (holding b) = 2
  steps_left (putting b) = 3
  steps_left ended = 0

  abbrev made : ℕ → List Batch → Bool → Phase Loop Batch → Loop → Pipeline Loop Batch
  made cap q stop t l = record {
    channel_capacity = cap;
    queue = q;
    stop_event = stop;
    thread = t;
    loop = l;
  }

  -- The stop event stays set, and the thread has a step fewer left.
  abbrev Closer : Phase Loop Batch → Pipeline Loop Batch → Type 0
  Closer t p = (p.stop_event ≡ true) × (steps_left p.thread ≤ steps_left t - 1)

  collector_step-Closer :
      (cap : ℕ) (q : List Batch) (t : Phase Loop Batch) (l : Loop)
      → Closer t (collector_step Loop Batch collect (made cap q true t l))
  unfolding collector_step steps_left
  collector_step-Closer cap q checking l = (refl, omega arith)
  collector_step-Closer cap q collecting l = elim (Option-cases (collect l)) [
    | inl e ↦ rw (collector_step, e) (refl, omega arith)
    | inr (_, e) ↦ rw (collector_step, e) (refl, omega arith)
  ]
  collector_step-Closer cap q (holding b) l = (refl, omega arith)
  collector_step-Closer cap q (putting b) l =
      elim (Bool-cases (has_room Loop Batch (made cap q true (putting b) l))) [
        | inl room ↦ rw (collector_step, room) (refl, omega arith)
        | inr full ↦ rw (collector_step, full) (refl, omega arith)
      ]
  collector_step-Closer cap q ended l = (refl, omega arith)

  Closer-of_stopped :
      (p : Pipeline Loop Batch)
      → p.stop_event ≡ true
      → Closer p.thread (collector_step Loop Batch collect p)
  Closer-of_stopped p s =
      subst
        (λ stop. Closer p.thread (
          collector_step Loop Batch collect (made p.channel_capacity p.queue stop p.thread p.loop)))
        (sym s) (collector_step-Closer p.channel_capacity p.queue p.thread p.loop)

  get-thread :
      (p : Pipeline Loop Batch)
      → ((get Loop Batch p).1.stop_event ≡ p.stop_event) × ((get Loop Batch p).1.thread ≡ p.thread)
  unfolding get
  get-thread p = either p.queue
    where
      either :
          (q : List Batch)
          → ((get Loop Batch (record p { queue = q })).1.stop_event ≡ p.stop_event)
            × ((get Loop Batch (record p { queue = q })).1.thread ≡ p.thread)
      either [] = (refl, refl)
      either (b ∷ q) = (refl, refl)

  ended_of_none_left : (t : Phase Loop Batch) → steps_left t ≤ 0 → t ≡ ended
  unfolding steps_left
  ended_of_none_left checking h = absurd (omega arith)
  ended_of_none_left collecting h = absurd (omega arith)
  ended_of_none_left (holding b) h = absurd (omega arith)
  ended_of_none_left (putting b) h = absurd (omega arith)
  ended_of_none_left ended h = refl

  run-ended :
      (schedule : List (Action Loop Batch)) (p : Pipeline Loop Batch)
      → p.stop_event ≡ true
      → steps_left p.thread ≤ collector_turns schedule
      → (run Loop Batch collect schedule p).1.thread ≡ ended
  unfolding run step next_batch try_next_batch close
  run-ended [] p s enough = ended_of_none_left p.thread enough
  run-ended (collector_turn ∷ later) p s enough =
      let (s', closer) = Closer-of_stopped p s in
      run-ended later (collector_step Loop Batch collect p) s' (omega arith)
  run-ended (call_next_batch ∷ later) p s enough =
      let (s', t') = get-thread p in run-ended later (get Loop Batch p).1 (s' ∙ s) (rw t' enough)
  run-ended (call_try_next_batch ∷ later) p s enough =
      let (s', t') = get-thread p in run-ended later (get Loop Batch p).1 (s' ∙ s) (rw t' enough)
  run-ended (call_close ∷ later) p s enough =
      run-ended later (record p { stop_event = true }) refl enough

  steps_left-le : (t : Phase Loop Batch) → steps_left t ≤ 3
  unfolding steps_left
  steps_left-le checking = omega arith
  steps_left-le collecting = omega arith
  steps_left-le (holding b) = omega arith
  steps_left-le (putting b) = omega arith
  steps_left-le ended = omega arith

  -- After `close`, whatever the thread is doing and whatever the learner does or leaves undone, the
  -- thread has left its loop when it has had three steps: a full queue does not keep it.
  pub close-ended :
      (p : Pipeline Loop Batch) (schedule : List (Action Loop Batch))
      → 3 ≤ collector_turns schedule
      → (run Loop Batch collect (call_close ∷ schedule) p).1.thread ≡ ended
  unfolding run step close
  close-ended p schedule enough =
      run-ended schedule (record p { stop_event = true }) refl
        (omega (arith, steps_left-le p.thread))

  abbrev turned : Pipeline Loop Batch → Pipeline Loop Batch
  turned p = collector_step Loop Batch collect p

  collects :
      (cap : ℕ) (q : List Batch) (l : Loop) (b : Batch) (l' : Loop)
      → collect l ≡ some (b, l')
      → turned (made cap q false collecting l) ≡ made cap q false (holding b) l'
  unfolding collector_step
  collects cap q l b l' e = rw (collector_step, e) refl

  puts :
      (cap : ℕ) (b : Batch) (l : Loop)
      → turned (made cap [] false (putting b) l) ≡ made cap (b ∷ []) false checking l
  unfolding collector_step
  puts cap b l =
      let room : ((cap == 0) || ltb 0 cap) ≡ true = ground arith in rw (collector_step, room) refl

  -- The next batch is there.
  abbrev pub Serves : Pipeline Loop Batch → Type 0
  Serves p =
      (b : Batch) × (p' : Pipeline Loop Batch) × (next_batch Loop Batch
          (run Loop Batch collect
            (collector_turn ∷ collector_turn ∷ collector_turn ∷ collector_turn ∷ []) p).1
        ≡ (some b, p'))

  module _ (succeeds : (l : Loop) → (b : Batch) × (l' : Loop) × (collect l ≡ some (b, l'))) where
    serves :
        (cap : ℕ) (t : Phase Loop Batch) (l : Loop) → t ≢ ended → Serves (made cap [] false t l)
    unfolding run step collector_step next_batch get
    serves cap checking l alive =
        let (b, l', e) = succeeds l in
        (
          b,
          made cap [] false checking l',
          ap (λ p. next_batch Loop Batch (turned (turned p))) (collects cap [] l b l' e)
              ∙ ap (next_batch Loop Batch) (puts cap b l'),
        )
    serves cap collecting l alive =
        let (b, l', e) = succeeds l in
        (
          b,
          made cap [] false collecting l',
          ap (λ p. next_batch Loop Batch (turned (turned (turned p)))) (collects cap [] l b l' e)
              ∙ ap (λ p. next_batch Loop Batch (turned p)) (puts cap b l'),
        )
    serves cap (holding b) l alive =
        let (b', l', e) = succeeds l in
        (
          b,
          made cap [] false (holding b') l',
          ap (λ p. next_batch Loop Batch (turned (turned p))) (puts cap b l)
              ∙ ap (next_batch Loop Batch) (collects cap (b ∷ []) l b' l' e),
        )
    serves cap (putting b) l alive =
        let (b', l', e) = succeeds l in
        (
          b,
          made cap [] false (putting b') l',
          ap (λ p. next_batch Loop Batch (turned (turned (turned p)))) (puts cap b l)
              ∙ ap (λ p. next_batch Loop Batch (turned p)) (collects cap (b ∷ []) l b' l' e),
        )
    serves cap ended l alive = absurd (alive refl)

    -- While every round succeeds: a thread that was not told to stop and has not ended puts a batch
    -- into an empty queue within four of its steps, so that the learner's next call gets one.
    pub collector_step-Serves :
        (p : Pipeline Loop Batch)
        → p.stop_event ≡ false
        → p.queue ≡ []
        → p.thread ≢ ended
        → Serves p
    collector_step-Serves p s q alive =
        subst (λ (stop : Bool). Serves (record p { stop_event = stop })) (sym s)
          (subst (λ (bs : List Batch). Serves (record p { stop_event = false; queue = bs })) (sym q)
            (serves p.channel_capacity p.thread p.loop alive))
