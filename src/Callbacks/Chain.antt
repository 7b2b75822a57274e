-- ===== src/Callbacks/Chain.antt =====
-- python/rlox/callbacks.py, class CallbackList. A callback is any object with the hooks of
-- `Callback`: a call may change the object and the world around it, which is passed along.
use rlox.Base.{◌≡◌, refl, Bool, true, false, List, [], ◌∷◌, ◌++◌, if◌then◌else◌, ap}

-- What the calls of one hook on a callback do.
module _ {C W : Type 0} (step : C → W → Bool × C × W) where
  -- `CallbackList.on_step`: the callbacks behind one that asks to stop are not called.
  unfoldable pub on_step : List C → W → Bool × List C × W
  on_step [] w = (true, [], w)
  on_step (cb ∷ cbs) w =
      let (go_on, cb', w') = step cb w in
      let rest = on_step cbs w' in
      if go_on then (rest.0, cb' ∷ rest.1, rest.2) else (false, cb' ∷ cbs, w')

  -- The callbacks `called` were called in order from `w`, all asked to go on, and left
  -- `changed` and the world `w'`.
  pub data Ran : W → List C → List C → W → Type 0 where
    none_left : (w : W) → Ran w [] [] w
    one_more :
        {cb cb' : C} {w w₁ w₂ : W} {called changed : List C}
        → step cb w ≡ (true, cb', w₁)
        → Ran w₁ called changed w₂
        → Ran w (cb ∷ called) (cb' ∷ changed) w₂

  -- How a call of the list's hook ends: all callbacks ran, or one asked to stop after those
  -- before it ran, and those behind it are as they were.
  pub data Ends (cbs : List C) (w : W) : Bool × List C × W → Type 0 where
    went_on : {changed : List C} {w' : W} → Ran w cbs changed w' → Ends cbs w (true, changed, w')
    stopped :
        {before changed : List C} (after : List C) {cb cb' : C} {w₁ w₂ : W}
        → cbs ≡ before ++ cb ∷ after
        → Ran w before changed w₁
        → step cb w₁ ≡ (false, cb', w₂)
        → Ends cbs w (false, changed ++ cb' ∷ after, w₂)

  Ends-cons :
      {cb cb' : C} {cbs : List C} {w w₁ : W} (r : Bool × List C × W)
      → step cb w ≡ (true, cb', w₁)
      → Ends cbs w₁ r
      → Ends (cb ∷ cbs) w (r.0, cb' ∷ r.1, r.2)
  Ends-cons r e (went_on ran) = went_on (one_more e ran)
  Ends-cons {cb} r e (stopped after split ran stop) =
      stopped after (ap (λ l. cb ∷ l) split) (one_more e ran) stop

  -- The hook of the list runs the callbacks in order, each in the world that the one before left,
  -- until one asks to stop: it gives `true` only if all ran and asked to go on, and on `false`
  -- the callbacks behind the one that stopped are not called.
  pub on_step-Ends : (cbs : List C) (w : W) → Ends cbs w (on_step cbs w)
  unfolding on_step
  on_step-Ends [] w = went_on (none_left w)
  on_step-Ends (cb ∷ cbs) w = go (step cb w) refl (on_step-Ends cbs)
    where
      go :
          (r : Bool × C × W)
          → step cb w ≡ r
          → ((w' : W) → Ends cbs w' (on_step cbs w'))
          → Ends (cb ∷ cbs) w (on_step (cb ∷ cbs) w)
      go (true, cb', w') e ends = rw (e, on_step) (Ends-cons (on_step cbs w') e (ends w'))
      go (false, cb', w') e ends = rw (e, on_step) (stopped cbs refl (none_left w) e)
