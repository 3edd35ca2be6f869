-- ===== src/Queue/Lossless.antt =====
-- The policy `Block` loses nothing.
use cpp_logger.Base.{
  ℕ, zero, suc, ◌≡◌, refl, ap, true, false, List, [], ◌∷◌, map, arith, append-nil,
}
use cpp_logger.Queue.{
  BlockingQueue, block, is_block, Wait, woken, sleeps, push, push_waiting, pop, pop_front,
  pop_batch_for, pop_batch_impl, close, reset, take_batch, drain,
}
use cpp_logger.Queue.Fifo.{run-Accounts, evictions-append, evictions-handed, reset-Accounts}
use cpp_logger.Queue.Lifecycle.{count_resets}
use cpp_logger.Queue.History.{
  Trace, Call, pushes, resumes, pops, batches, closes, resets, step, run, start, evictions, handed,
  pushed, after_push, popped, batched,
}

module _ {ℓ} {A : Type ℓ} where
  -- Nothing was dropped.
  pub record IsLossless (t : Trace A) : Type 0 where
    pub policy : t.queue.overflow_policy ≡ block
    pub evicted_none : evictions t.left ≡ 0
    pub refused_none : t.refused ≡ 0

  push-IsLossless :
      (t : Trace A) (g : ℕ) (v : A) → IsLossless t → IsLossless (after_push t v (push t.queue g v))
  unfolding push after_push pushed push_waiting
  push-IsLossless t g v h = ground (arith, ap is_block h.policy)

  resume-IsLossless :
      (t : Trace A) (g : ℕ) (v : A)
      → IsLossless t
      → IsLossless (after_push t v (push_waiting t.queue g v))
  unfolding after_push pushed push_waiting
  resume-IsLossless t g v h = ground arith

  pop-IsLossless :
      (t : Trace A) (xs : List A) → IsLossless t → IsLossless (popped t (pop_front t.queue xs))
  unfolding popped pop_front
  pop-IsLossless t [] h = h
  pop-IsLossless t (x ∷ rest) h = ground (arith, evictions-append t.left (handed x ∷ []))

  take_batch-IsLossless :
      (t : Trace A) (n : ℕ) (xs : List A)
      → IsLossless t
      → IsLossless (batched t (take_batch t.queue n xs))
  unfolding batched take_batch
  take_batch-IsLossless t n [] h = rw append-nil h
  take_batch-IsLossless t n (x ∷ rest) h =
      let values : List A = (drain [] n (x ∷ rest)).0 in
      record {
        policy = h.policy;
        evicted_none = omega (
          arith,
          evictions-append t.left (map handed values),
          evictions-handed values,
          h.evicted_none,
        );
        refused_none = h.refused_none;
      }

  batch-IsLossless :
      (t : Trace A) (n : ℕ) (w : Wait)
      → IsLossless t
      → IsLossless (batched t (pop_batch_impl t.queue n w))
  unfolding batched pop_batch_impl
  batch-IsLossless t zero w h = rw append-nil h
  batch-IsLossless t (suc n) (woken true) h = take_batch-IsLossless t (suc n) t.queue.items h
  batch-IsLossless t (suc n) (woken false) h = rw append-nil h
  batch-IsLossless t (suc n) sleeps h = h

  pub step-IsLossless :
      (t : Trace A) (c : Call A) → count_resets (c ∷ []) ≡ 0 → IsLossless t → IsLossless (step t c)
  unfolding step pop pop_batch_for close
  step-IsLossless t (pushes g v) e h = push-IsLossless t g v h
  step-IsLossless t (resumes g v) e h = resume-IsLossless t g v h
  step-IsLossless t pops e h = ground (arith, pop-IsLossless t t.queue.items h)
  step-IsLossless t (batches n timed_out) e h = batch-IsLossless t n _ h
  step-IsLossless t closes e h = ground arith
  step-IsLossless t (resets capacity policy) e h = absurd (omega arith)

  run-IsLossless :
      (t : Trace A) (cs : List (Call A))
      → count_resets cs ≡ 0
      → IsLossless t
      → IsLossless (run t cs)
  unfolding run
  run-IsLossless t [] e h = h
  run-IsLossless t (resets capacity policy ∷ cs) e h = absurd (omega arith)
  run-IsLossless t (c ∷ cs) e h = run-IsLossless (step t c) cs e (step-IsLossless t c refl h)

  -- After a reset to the policy `Block`, and until the next reset, no value is evicted or refused and
  -- `droppedCount_` stays 0, whatever the capacity and the calls.
  pub reset-block_lossless :
      (q : BlockingQueue A) (capacity : ℕ) (cs : List (Call A))
      → count_resets cs ≡ 0
      → let t = run (start (reset q capacity block)) cs in
        (evictions t.left ≡ 0) × (t.refused ≡ 0) × (t.queue.dropped_count ≡ 0)
  unfolding reset start
  reset-block_lossless q capacity cs e =
      let t : Trace A = run (start (reset q capacity block)) cs in
      let h : IsLossless t =
        run-IsLossless (start (reset q capacity block)) cs e
          (record { policy = refl; evicted_none = refl; refused_none = refl }) in
      (
        h.evicted_none,
        h.refused_none,
        omega (
          arith,
          (run-Accounts (start (reset q capacity block)) cs
              (reset-Accounts q capacity block)).counted,
          h.evicted_none,
          h.refused_none,
        ),
      )
