-- ===== src/Queue/Invariant.antt =====
-- What every member function of the queue keeps.
use cpp_logger.Base.{
  ℕ, suc, ◌≤◌, ◌<◌, ◌≡◌, refl, ap, Bool, true, false, List, [], ◌∷◌, arith, length, length-append,
  length-drop, zero, Option, some, none, ◌≢◌, word_mod,
}
use cpp_logger.Queue.{
  BlockingQueue, OverflowPolicy, Push, Pop, new, push, push_waiting, replace_oldest, emplace_locked,
  pop, pop_batch_for, close, reset, take_batch, pop_batch_impl, Wait, woken, sleeps, enqueued,
  dropped_newest, dropped_oldest, closed,
}
use mathlib.Core.Path.{subst}
use cpp_logger.Queue.Batch.{drain_lem}
use cpp_logger.Queue.History.{
  after_push, popped, batched, Trace, Call, pushes, resumes, pops, batches, closes, resets, step,
  run, start,
}

pub record IsValid {ℓ} {A : Type ℓ} (q : BlockingQueue A) : Type 0 where
  pub positive : 1 ≤ q.capacity
  pub bounded : length q.items ≤ q.capacity
  pub marked : length q.items ≤ q.high_water_mark
  pub mark_bounded : q.high_water_mark ≤ q.capacity
  pub generation_fits : q.generation < word_mod
  pub count_fits : q.dropped_count < word_mod

module _ {ℓ} {A : Type ℓ} where
  emplace_locked-IsValid :
      (q : BlockingQueue A) (v : A)
      → IsValid q
      → length q.items < q.capacity
      → IsValid (emplace_locked q v)
  unfolding emplace_locked
  emplace_locked-IsValid q v h lt = ground (arith, length-append q.items (v ∷ []))

  -- What a push hands back is valid, and it never removes from an empty queue.
  abbrev PushIsValid : Push A → Type 0
  PushIsValid (Push.returns q r s) = IsValid q
  PushIsValid Push.waits = Unit
  PushIsValid Push.undefined = ⊥

  abbrev PopIsValid : {R : Type ℓ} → Pop A R → Type 0
  PopIsValid (Pop.returns r q s) = IsValid q
  PopIsValid Pop.waits = Unit

  push_waiting-IsValid :
      (q : BlockingQueue A) (g : ℕ) (v : A) → IsValid q → PushIsValid (push_waiting q g v)
  unfolding push_waiting
  push_waiting-IsValid q g v h = ground (arith, length-append q.items (v ∷ []))

  replace_oldest-IsValid :
      (q : BlockingQueue A) (xs : List A) (v : A)
      → q.items ≡ xs
      → 1 ≤ length xs
      → IsValid q
      → PushIsValid (replace_oldest q xs v)
  unfolding replace_oldest
  replace_oldest-IsValid q [] v e le h = absurd (omega arith)
  replace_oldest-IsValid q (x ∷ rest) v e le h =
      ground (arith, length-append rest (v ∷ []), ap length e)

  pub push-IsValid : (q : BlockingQueue A) (g : ℕ) (v : A) → IsValid q → PushIsValid (push q g v)
  unfolding push
  push-IsValid q g v h = ground (
    arith,
    length-append q.items (v ∷ []),
    push_waiting-IsValid q g v h,
    replace_oldest-IsValid q q.items v refl,
  )

  pop-IsValid : (q : BlockingQueue A) → IsValid q → PopIsValid (pop q)
  unfolding pop
  pop-IsValid q h = ground arith

  take_batch-IsValid :
      (q : BlockingQueue A) (n : ℕ) (xs : List A)
      → q.items ≡ xs
      → IsValid q
      → PopIsValid (take_batch q n xs)
  unfolding take_batch
  take_batch-IsValid q n [] e h = h
  take_batch-IsValid q n (x ∷ rest) e h =
      rw (drain_lem [] n (x ∷ rest)) (ground (arith, ap length e, length-drop n (x ∷ rest)))

  pop_batch_impl-IsValid :
      (q : BlockingQueue A) (n : ℕ) (w : Wait) → IsValid q → PopIsValid (pop_batch_impl q n w)
  unfolding pop_batch_impl
  pop_batch_impl-IsValid q zero w h = h
  pop_batch_impl-IsValid q (suc n) (woken true) h = take_batch-IsValid q (suc n) q.items refl h
  pop_batch_impl-IsValid q (suc n) (woken false) h = h
  pop_batch_impl-IsValid q (suc n) sleeps h = tt

  pub reset-IsValid :
      (q : BlockingQueue A) (capacity : ℕ) (policy : OverflowPolicy)
      → IsValid (reset q capacity policy)
  unfolding reset
  reset-IsValid q capacity policy = ground arith

  pub close-IsValid : (q : BlockingQueue A) → IsValid q → IsValid (close q)
  unfolding close
  close-IsValid q h = ground arith

  after_push-IsValid :
      (t : Trace A) (v : A) (p : Push A)
      → IsValid t.queue
      → PushIsValid p
      → IsValid (after_push t v p).queue
  unfolding after_push
  after_push-IsValid t v (Push.returns q enqueued s) h g = g
  after_push-IsValid t v (Push.returns q dropped_newest s) h g = g
  after_push-IsValid t v (Push.returns q dropped_oldest s) h g = g
  after_push-IsValid t v (Push.returns q closed s) h g = g
  after_push-IsValid t v Push.waits h g = h
  after_push-IsValid t v Push.undefined h g = h

  popped-IsValid :
      (t : Trace A) (p : Pop A (Option A))
      → IsValid t.queue
      → PopIsValid p
      → IsValid (popped t p).queue
  unfolding popped
  popped-IsValid t (Pop.returns (some x) q s) h g = g
  popped-IsValid t (Pop.returns none q s) h g = g
  popped-IsValid t Pop.waits h g = h

  batched-IsValid :
      (t : Trace A) (p : Pop A (List A × Bool))
      → IsValid t.queue
      → PopIsValid p
      → IsValid (batched t p).queue
  unfolding batched
  batched-IsValid t (Pop.returns r q s) h g = g
  batched-IsValid t Pop.waits h g = h

  -- Every turn with the mutex keeps the capacity positive, the queue within it, and the high-water
  -- mark between the size and the capacity.
  pub step-IsValid : (t : Trace A) (c : Call A) → IsValid t.queue → IsValid (step t c).queue
  unfolding step pop_batch_for
  step-IsValid t (pushes g v) h = after_push-IsValid t v _ h (push-IsValid t.queue g v h)
  step-IsValid t (resumes g v) h = after_push-IsValid t v _ h (push_waiting-IsValid t.queue g v h)
  step-IsValid t pops h = popped-IsValid t _ h (pop-IsValid t.queue h)
  step-IsValid t (batches n timed_out) h =
      batched-IsValid t _ h (pop_batch_impl-IsValid t.queue n _ h)
  step-IsValid t closes h = close-IsValid t.queue h
  step-IsValid t (resets capacity policy) h = reset-IsValid t.queue capacity policy

  pub run-IsValid : (t : Trace A) (cs : List (Call A)) → IsValid t.queue → IsValid (run t cs).queue
  unfolding run
  run-IsValid t [] h = h
  run-IsValid t (c ∷ cs) h = run-IsValid (step t c) cs (step-IsValid t c h)

  pub new-IsValid : IsValid (new {A = A})
  unfolding new
  new-IsValid = omega arith

  -- From the moment of construction, after any calls in any order: the queue is within its capacity,
  -- the high-water mark is at least the size and at most the capacity, and no push, whatever its
  -- generation, calls `queue_.pop()` on an empty queue.
  pub run-new-IsValid :
      (cs : List (Call A)) (g : ℕ) (v : A)
      → IsValid (run (start new) cs).queue × (push (run (start new) cs).queue g v ≢ Push.undefined)
  unfolding start
  run-new-IsValid cs g v =
      let valid : IsValid (run (start new) cs).queue = run-IsValid (start new) cs new-IsValid in
      (valid, λ e. subst PushIsValid e (push-IsValid _ g v valid))
