-- ===== src/Distributed/Delivery.antt =====
-- python/rlox/distributed/pipeline.py: which batches the learner gets from `Pipeline`.
use rlox.Base.{
  ℕ, suc, ◌≤◌, ◌<◌, ◌≡◌, refl, sym, ap, subst, Bool, true, false, Option, some, List, [], ◌∷◌, ◌++◌,
  append-nil, append_assoc, length, length-append, Bool-cases, Option-cases, inl, inr, ◌⊎◌, arith,
}
use rlox.Distributed.Threads.{
  Phase, checking, collecting, holding, putting, ended, Pipeline, init, has_room, collector_step,
  get, next_batch, try_next_batch, close, received, Action, collector_turn, call_next_batch,
  call_try_next_batch, call_close, step, run,
}
use rlox.Distributed.Fifo.{in_hand}

module _ (Loop Batch : Type 0) (collect : Loop → Option (Batch × Loop)) (capacity : ℕ) where
  -- The batches of the first rounds, and the loop's variables after them
  pub data Rounds (start : Loop) : List Batch → Loop → Type 0 where
    no_round : Rounds start [] start
    then_round :
        {bs : List Batch} {l : Loop}
        → Rounds start bs l
        → (b : Batch) (l' : Loop) → collect l ≡ some (b, l')
        → Rounds start (bs ++ b ∷ []) l'

  is_idle : Phase Loop Batch → Bool
  is_idle checking = true
  is_idle collecting = false
  is_idle (holding b) = false
  is_idle (putting b) = false
  is_idle ended = true

  -- What is known after `got` was received: at most the last batch is lost, and only after `close`.
  record Delivered (start : Loop) (got : List Batch) (p : Pipeline Loop Batch) : Type 0 where
    lost : List Batch
    rounds : Rounds start (got ++ (p.queue ++ (in_hand Loop Batch collect p.thread ++ lost))) p.loop
    kept : (lost ≡ []) ⊎ ((p.stop_event ≡ true) × (length lost ≡ 1) × (is_idle p.thread ≡ true))
    bounded : (p.channel_capacity ≡ capacity) × ((capacity ≡ 0) ⊎ (length p.queue ≤ capacity))

  module _ (start : Loop) (got : List Batch) (cap : ℕ) (q : List Batch) where
    abbrev made : Bool → Phase Loop Batch → Loop → Pipeline Loop Batch
    made stop t l = record {
      channel_capacity = cap;
      queue = q;
      stop_event = stop;
      thread = t;
      loop = l;
    }

    abbrev Next : Bool → Phase Loop Batch → Loop → Type 0
    Next stop t l = Delivered start got (collector_step Loop Batch collect (made stop t l))

    moved :
        (stop : Bool) (t u : Phase Loop Batch) (l : Loop)
        → is_idle t ≡ false
        → in_hand Loop Batch collect t ≡ in_hand Loop Batch collect u
        → Delivered start got (made stop t l)
        → Delivered start got (made stop u l)
    moved stop t u l busy same d = record {
      lost = d.lost;
      rounds = subst (λ h. Rounds start (got ++ (q ++ (h ++ d.lost))) l) same d.rounds;
      kept = elim d.kept [ inl e ↦ inl e | inr (s, one, idle) ↦ absurd cc ];
      bounded = d.bounded;
    }

    collected :
        (stop : Bool) (l : Loop) (b : Batch) (l' : Loop)
        → collect l ≡ some (b, l')
        → Delivered start got (made stop collecting l)
        → Delivered start got (made stop (holding b) l')
    unfolding is_idle
    collected stop l b l' e d = record {
      lost = [];
      rounds =
          subst (λ bs. Rounds start bs l') (rw (append-nil q) (append_assoc got q (b ∷ [])))
            (then_round
              (elim d.kept [
                | inl none_lost ↦ subst (λ x. Rounds start (got ++ (q ++ x)) l) none_lost d.rounds
                | inr (s, one, idle) ↦ absurd cc
              ])
              b l' e);
      kept = inl refl;
      bounded = d.bounded;
    }

    dropped :
        (b : Batch) (l : Loop)
        → Delivered start got (made true (holding b) l)
        → Delivered start got (made true checking l)
    unfolding is_idle
    dropped b l d = record {
      lost = b ∷ d.lost;
      rounds = d.rounds;
      kept = elim d.kept [
        | inl none_lost ↦ inr (refl, ap (λ x. suc (length x)) none_lost, refl)
        | inr (s, one, idle) ↦ absurd cc
      ];
      bounded = d.bounded;
    }

    put_done :
        (stop : Bool) (b : Batch) (l : Loop)
        → has_room Loop Batch (made stop (putting b) l) ≡ true
        → Delivered start got (made stop (putting b) l)
        → Delivered start got (record (made stop checking l) { queue = q ++ b ∷ [] })
    unfolding is_idle
    put_done stop b l room d = record {
      lost = d.lost;
      rounds =
          subst (λ (bs : List Batch). Rounds start (got ++ bs) l)
            (sym (append_assoc q (b ∷ []) d.lost)) d.rounds;
      kept = elim d.kept [ inl e ↦ inl e | inr (s, one, idle) ↦ absurd cc ];
      bounded = ground (arith, length-append q (b ∷ []));
    }

    checked :
        (stop : Bool) (l : Loop) → Delivered start got (made stop checking l) → Next stop checking l
    unfolding collector_step is_idle
    checked true l d = record {
      lost = d.lost;
      rounds = d.rounds;
      kept = d.kept;
      bounded = d.bounded;
    }
    checked false l d = record {
      lost = d.lost;
      rounds = d.rounds;
      kept = elim d.kept [ inl e ↦ inl e | inr (s, one, idle) ↦ absurd cc ];
      bounded = d.bounded;
    }

    crashed :
        (stop : Bool) (l : Loop)
        → Delivered start got (made stop collecting l)
        → Delivered start got (made stop ended l)
    unfolding is_idle
    crashed stop l d = record {
      lost = d.lost;
      rounds = d.rounds;
      kept = elim d.kept [ inl e ↦ inl e | inr (s, one, idle) ↦ absurd cc ];
      bounded = d.bounded;
    }

    collector_step-Delivered :
        (stop : Bool) (t : Phase Loop Batch) (l : Loop)
        → Delivered start got (made stop t l)
        → Next stop t l
    unfolding collector_step is_idle
    collector_step-Delivered stop checking l d = checked stop l d
    collector_step-Delivered stop collecting l d = elim (Option-cases (collect l)) [
      | inl e ↦ rw (collector_step, e) (crashed stop l d)
      | inr ((b, l'), e) ↦ rw (collector_step, e) (collected stop l b l' e d)
    ]
    collector_step-Delivered true (holding b) l d = dropped b l d
    collector_step-Delivered false (holding b) l d =
        moved false (holding b) (putting b) l refl refl d
    collector_step-Delivered stop (putting b) l d =
        elim (Bool-cases (has_room Loop Batch (made stop (putting b) l))) [
          | inl room ↦ rw (collector_step, room) (put_done stop b l room d)
          | inr full ↦ rw (collector_step, full) (moved stop (putting b) (holding b) l refl refl d)
        ]
    collector_step-Delivered stop ended l d = d

  get-Delivered :
      (start : Loop) (got : List Batch) (cap : ℕ) (q : List Batch) (stop : Bool)
      (t : Phase Loop Batch) (l : Loop)
      → Delivered start got (made start got cap q stop t l)
      → Delivered start
          (got ++ received Loop Batch (get Loop Batch (made start got cap q stop t l)).0)
          (get Loop Batch (made start got cap q stop t l)).1
  unfolding get
  get-Delivered start got cap [] stop t l d = rw (append-nil got) d
  get-Delivered start got cap (b ∷ q) stop t l d = record {
    lost = d.lost;
    rounds =
        subst (λ (bs : List Batch). Rounds start bs l)
          (sym (append_assoc got (b ∷ []) (q ++ (in_hand Loop Batch collect t ++ d.lost))))
          d.rounds;
    kept = d.kept;
    bounded = ground arith;
  }

  close-Delivered :
      (start : Loop) (got : List Batch) (p : Pipeline Loop Batch)
      → Delivered start got p
      → Delivered start got (close Loop Batch p)
  unfolding close
  close-Delivered start got p d = record {
    lost = d.lost;
    rounds = d.rounds;
    kept = elim d.kept [ inl e ↦ inl e | inr (s, one, idle) ↦ inr (refl, one, idle) ];
    bounded = d.bounded;
  }

  step-Delivered :
      (start : Loop) (got : List Batch) (a : Action Loop Batch) (p : Pipeline Loop Batch)
      → Delivered start got p
      → Delivered start (got ++ (step Loop Batch collect a p).0) (step Loop Batch collect a p).1
  unfolding step next_batch try_next_batch
  step-Delivered start got collector_turn p d =
      rw (append-nil got) (
        collector_step-Delivered start got p.channel_capacity p.queue p.stop_event p.thread p.loop
          d)
  step-Delivered start got call_next_batch p d =
      get-Delivered start got p.channel_capacity p.queue p.stop_event p.thread p.loop d
  step-Delivered start got call_try_next_batch p d =
      get-Delivered start got p.channel_capacity p.queue p.stop_event p.thread p.loop d
  step-Delivered start got call_close p d = rw (append-nil got) (close-Delivered start got p d)

  run-Delivered :
      (start : Loop) (got : List Batch) (schedule : List (Action Loop Batch))
      (p : Pipeline Loop Batch)
      → Delivered start got p
      → Delivered start
          (got ++ (run Loop Batch collect schedule p).0)
          (run Loop Batch collect schedule p).1
  unfolding run
  run-Delivered start got [] p d = rw (append-nil got) d
  run-Delivered start got (a ∷ later) p d =
      let s = step Loop Batch collect a p in
      subst (λ bs. Delivered start bs (run Loop Batch collect later s.1).1)
        (append_assoc got s.0 (run Loop Batch collect later s.1).0)
        (run-Delivered start (got ++ s.0) later s.1 (step-Delivered start got a p d))

  -- What came of the rounds: received, then queued, then in hand, then lost.
  abbrev pub InOrder : Loop → List Batch → Pipeline Loop Batch → Type 0
  InOrder start bs p =
      (lost : List Batch) × Rounds start
        (bs ++ (p.queue ++ (in_hand Loop Batch collect p.thread ++ lost))) p.loop
      × ((lost ≡ []) ⊎ ((p.stop_event ≡ true) × (length lost ≡ 1)))

  init-Delivered : (start : Loop) → Delivered start [] (init Loop Batch capacity start)
  unfolding init
  init-Delivered start = record {
    lost = [];
    rounds = no_round;
    kept = inl refl;
    bounded = (refl, ground arith);
  }

  -- In any schedule of a new pipeline: the batches that the learner got, then those in the queue,
  -- then the one in the thread's hands, then at most one that is lost, are the batches of the
  -- thread's rounds in their order. One is lost only after `close`.
  pub run-InOrder :
      (start : Loop) (schedule : List (Action Loop Batch))
      → InOrder start
          (run Loop Batch collect schedule (init Loop Batch capacity start)).0
          (run Loop Batch collect schedule (init Loop Batch capacity start)).1
  run-InOrder start schedule =
      let d =
        run-Delivered start [] schedule (init Loop Batch capacity start) (init-Delivered start) in
      (d.lost, d.rounds, elim d.kept [ inl e ↦ inl e | inr (s, one, idle) ↦ inr (s, one) ])

  -- The queue of a new pipeline with a positive capacity never holds more batches than that,
  -- whatever the schedule.
  pub run-bounded :
      (start : Loop) (schedule : List (Action Loop Batch))
      → 0 < capacity
      → length (run Loop Batch collect schedule (init Loop Batch capacity start)).1.queue ≤ capacity
  run-bounded start schedule pos =
      elim (run-Delivered start [] schedule (init Loop Batch capacity start)
        (init-Delivered start)).bounded.1 [ inl e ↦ absurd (omega arith) | inr h ↦ h ]
