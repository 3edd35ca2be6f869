-- ===== src/Queue/Threads/Consumers.antt =====
-- The consumers that wait on `notEmpty_`: what each step keeps of them.
use cpp_logger.Base.{
  ℕ, suc, ◌+◌, ◌≤◌, ◌≡◌, ◌⊎◌, inl, refl, Bool, false, List, [], ◌∷◌, ◌++◌, arith, length,
  length-append, length-drop, ap, not,
}
use cpp_logger.Queue.{
  BlockingQueue, Push, Pop, push, push_waiting, replace_oldest, pop, pop_front, pop_batch_for,
  take_batch, is_empty,
}
use cpp_logger.Queue.Batch.{drain_lem}
use cpp_logger.Queue.Threads.Condition.{
  CondVar, Wakes, woken_one, lost_one, woken_all, spurious, signal, sleep,
}

items_none {ℓ} : {A : Type ℓ} (xs : List A) → not (is_empty xs) ≡ false → length xs ≡ 0
unfolding is_empty
items_none [] h = refl
items_none (x ∷ xs) h = cc

module _ {ℓ κ} {A : Type ℓ} {W : Type κ} where
  -- If a consumer sleeps, a `notify_all` is pending, or the queue is open and there are at least as
  -- many pending `notify_one`, woken consumers and `more` as items.
  abbrev pub EmptyCovered : BlockingQueue A → CondVar W → ℕ → Type κ
  EmptyCovered q c more =
      (c.asleep ≡ [])
      ⊎ ((1 ≤ c.alls) ⊎ ((q.is_closed ≡ false) × (length q.items ≤ c.ones + length c.awake + more)))

  abbrev pub PushServes : BlockingQueue A → CondVar W → Push A → Type κ
  PushServes q c (Push.returns q' r s) = EmptyCovered q' (signal s c) 0
  PushServes q c Push.waits = EmptyCovered q c 0
  PushServes q c Push.undefined = EmptyCovered q c 0

  pub push_waiting-PushServes :
      (q : BlockingQueue A) (c : CondVar W) (g : ℕ) (v : A)
      → EmptyCovered q c 0
      → PushServes q c (push_waiting q g v)
  unfolding push_waiting
  push_waiting-PushServes q c g v h = ground (arith, length-append q.items (v ∷ []))

  replace_oldest-PushServes :
      (q : BlockingQueue A) (c : CondVar W) (v : A) (xs : List A)
      → q.items ≡ xs
      → EmptyCovered q c 0
      → PushServes q c (replace_oldest q xs v)
  unfolding replace_oldest
  replace_oldest-PushServes q c v [] e h = h
  replace_oldest-PushServes q c v (x ∷ rest) e h =
      ground (arith, ap length e, length-append rest (v ∷ []))

  pub push-PushServes :
      (q : BlockingQueue A) (c : CondVar W) (g : ℕ) (v : A)
      → EmptyCovered q c 0
      → PushServes q c (push q g v)
  unfolding push
  push-PushServes q c g v h = ground (
    arith,
    length-append q.items (v ∷ []),
    push_waiting-PushServes q c g v h,
    replace_oldest-PushServes q c v q.items refl h,
  )

  -- A consumer that has the mutex; `w` is what it waits with, if it waits.
  abbrev pub TakeServes : {R : Type ℓ} → BlockingQueue A → CondVar W → W → Pop A R → Type κ
  TakeServes q c w (Pop.returns r q' s) = EmptyCovered q' c 0
  TakeServes q c w Pop.waits = EmptyCovered q (sleep w c) 0

  pop_front-TakeServes :
      (q : BlockingQueue A) (c : CondVar W) (w : W) (xs : List A)
      → q.items ≡ xs
      → EmptyCovered q c 1
      → TakeServes q c w (pop_front q xs)
  unfolding pop_front
  pop_front-TakeServes q c w [] e h = ground (arith, ap length e)
  pop_front-TakeServes q c w (x ∷ rest) e h = ground (arith, ap length e)

  pub pop-TakeServes :
      (q : BlockingQueue A) (c : CondVar W) (w : W) → EmptyCovered q c 1 → TakeServes q c w (pop q)
  unfolding pop
  pop-TakeServes q c w h =
      ground (arith, pop_front-TakeServes q c w q.items refl h, items_none q.items)

  take_batch-TakeServes :
      (q : BlockingQueue A) (c : CondVar W) (w : W) (n : ℕ) (xs : List A)
      → q.items ≡ xs
      → EmptyCovered q c 1
      → TakeServes q c w (take_batch q (suc n) xs)
  unfolding take_batch
  take_batch-TakeServes q c w n [] e h = ground (arith, ap length e)
  take_batch-TakeServes q c w n (x ∷ rest) e h =
      rw (drain_lem [] (suc n) (x ∷ rest)) (ground (arith, ap length e, length-drop n rest))

  pub batch-TakeServes :
      (q : BlockingQueue A) (c : CondVar W) (w : W) (n : ℕ) (timed_out : Bool)
      → EmptyCovered q c 1
      → TakeServes q c w (pop_batch_for q (suc n) timed_out)
  unfolding pop_batch_for
  batch-TakeServes q c w n timed_out h =
      ground (arith, take_batch-TakeServes q c w n q.items refl h, items_none q.items)

  pub resumed-EmptyCovered :
      (q : BlockingQueue A) (c : CondVar W) (before : List W) (w : W) (after : List W)
      → c.awake ≡ before ++ (w ∷ after)
      → EmptyCovered q c 0
      → EmptyCovered q (record c { awake = before ++ after }) 1
  resumed-EmptyCovered q c before w after e h =
      ground (arith, ap length e, length-append before (w ∷ after), length-append before after)

  pub Wakes-EmptyCovered :
      (q : BlockingQueue A) (c d : CondVar W) → Wakes c d → EmptyCovered q c 0 → EmptyCovered q d 0
  Wakes-EmptyCovered q c d (woken_one before w after pending e f) h =
      rw f (ground (arith, ap length e, length-append before (w ∷ after)))
  Wakes-EmptyCovered q c d (lost_one pending e f) h = rw f (inl e)
  Wakes-EmptyCovered q c d (woken_all pending f) h = rw f (inl refl)
  Wakes-EmptyCovered q c d (spurious before w after e f) h =
      rw f (ground (arith, ap length e, length-append before (w ∷ after)))
