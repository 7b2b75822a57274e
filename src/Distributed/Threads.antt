-- ===== src/Distributed/Threads.antt =====
-- python/rlox/distributed/pipeline.py: `Pipeline`, its collector thread and the learner's calls.
-- The threads' steps come in any order, a schedule; each touches the queue or the stop event once.
-- What a round of collection gives is a parameter (its model is in Collection).
use rlox.Base.{
  ℕ, Bool, true, false, ◌||◌, Option, none, some, List, [], ◌∷◌, ◌++◌, if◌then◌else◌, ltb, ◌==◌,
  length,
}

module _ (Loop Batch : Type 0) where
  -- Where the collector thread is.
  pub data Phase : Type 0 where
    -- before the test of the outer `while`
    checking : Phase
    -- making a batch
    collecting : Phase
    -- before the test of the inner `while`, with the batch
    holding : Batch → Phase
    -- in `self._queue.put(batch, timeout=0.1)`
    putting : Batch → Phase
    -- the loop was left, or the round raised
    ended : Phase

  pub record Pipeline : Type 0 where
    -- `maxsize` of the queue; 0, as a negative one, is for no bound
    pub channel_capacity : ℕ
    pub queue : List Batch
    pub stop_event : Bool
    pub thread : Phase
    -- the variables of the thread's loop
    pub loop : Loop

  -- After `__init__`, once the thread made its environments
  unfoldable pub init : ℕ → Loop → Pipeline
  init capacity l = record {
    channel_capacity = capacity;
    queue = [];
    stop_event = false;
    thread = checking;
    loop = l;
  }

  abbrev pub has_room : Pipeline → Bool
  has_room p = (p.channel_capacity == 0) || ltb (length p.queue) p.channel_capacity

  module _ (collect : Loop → Option (Batch × Loop)) where
    -- One step of the thread. A put without room waits, and goes back to the test on its timeout.
    unfoldable pub collector_step : Pipeline → Pipeline
    collector_step p = elim p.thread [
      | checking ↦ record p { thread = if p.stop_event then ended else collecting }
      | collecting ↦ elim (collect p.loop) [
        | none ↦ record p { thread = ended }
        | some (b, l) ↦ record p { thread = holding b; loop = l }
      ]
      | holding b ↦ record p { thread = if p.stop_event then checking else putting b }
      | putting b ↦
          if has_room p
          then record p { queue = p.queue ++ b ∷ []; thread = checking }
          else record p { thread = holding b }
      | ended ↦ p
    ]

  -- `self._queue.get_nowait()`, and `get` at the moment of its success or of its timeout
  unfoldable pub get : Pipeline → Option Batch × Pipeline
  get p = elim p.queue [ [] ↦ (none, p) | b ∷ bs ↦ (some b, record p { queue = bs }) ]

  unfoldable pub next_batch : Pipeline → Option Batch × Pipeline
  unfolding get
  next_batch p = get p

  unfoldable pub try_next_batch : Pipeline → Option Batch × Pipeline
  unfolding get
  try_next_batch p = get p

  -- `close`: the stop event; the `join` with a timeout waits while the thread goes on.
  unfoldable pub close : Pipeline → Pipeline
  close p = record p { stop_event = true }

  -- The batch, if there is one
  abbrev pub received : Option Batch → List Batch
  received none = []
  received (some b) = b ∷ []

  pub data Action : Type 0 where
    collector_turn call_next_batch call_try_next_batch call_close : Action

  module _ (collect : Loop → Option (Batch × Loop)) where
    -- The state after an action, and what the learner got by it
    unfoldable pub step : Action → Pipeline → List Batch × Pipeline
    unfolding collector_step next_batch try_next_batch close get
    step collector_turn p = ([], collector_step collect p)
    step call_next_batch p = (received (next_batch p).0, (next_batch p).1)
    step call_try_next_batch p = (received (try_next_batch p).0, (try_next_batch p).1)
    step call_close p = ([], close p)

    -- A schedule: what the learner got, in order, and the state after it
    unfoldable pub run : List Action → Pipeline → List Batch × Pipeline
    unfolding step
    run [] p = ([], p)
    run (a ∷ later) p = let (bs, p') = step a p in let (cs, p'') = run later p' in (bs ++ cs, p'')
