-- ===== src/Queue/Fifo.antt =====
-- The queue hands its values over in the order in which it took them in, and counts what it drops.
use mathlib.Core.List.{map-append}
use cpp_logger.Base.{
  ℕ, zero, suc, ◌+◌, ◌%◌, ◌≡◌, refl, ap, ◌∙◌, true, false, List, [], ◌∷◌, ◌++◌, map, arith, length,
  length-append, append-nil, append_assoc, take, take-append-drop, word_mod,
}
use cpp_logger.Queue.{
  BlockingQueue, OverflowPolicy, Wait, woken, sleeps, new, push, push_waiting, replace_oldest,
  emplace_locked, pop, pop_front, pop_batch_for, pop_batch_impl, close, reset, take_batch,
}
use cpp_logger.Queue.Batch.{drain_lem}
use cpp_logger.Queue.History.{
  Trace, Call, pushes, resumes, pops, batches, closes, resets, step, run, start, Exit, handed,
  evicted, value, evictions, deliveries, after_push, pushed, popped, batched, front,
}

module _ {ℓ} {A : Type ℓ} where
  pub evictions-append :
      (xs ys : List (Exit A)) → evictions (xs ++ ys) ≡ evictions xs + evictions ys
  evictions-append [] ys = omega arith
  evictions-append (handed x ∷ xs) ys = evictions-append xs ys
  evictions-append (evicted x ∷ xs) ys = omega (arith, evictions-append xs ys)

  pub evictions-handed : (xs : List A) → evictions (map handed xs) ≡ 0
  evictions-handed [] = refl
  evictions-handed (x ∷ xs) = evictions-handed xs

  value-handed : (xs : List A) → map value (map handed xs) ≡ xs
  value-handed [] = refl
  value-handed (x ∷ xs) = ap (◌∷◌ x) (value-handed xs)

  length-exits : (es : List (Exit A)) → length (map value es) ≡ deliveries es + evictions es
  length-exits [] = refl
  length-exits (handed x ∷ es) = omega (arith, length-exits es)
  length-exits (evicted x ∷ es) = omega (arith, length-exits es)

  pub record Accounts (t : Trace A) : Type ℓ where
    pub fifo : t.accepted ≡ map value t.left ++ t.queue.items
    pub counted : t.queue.dropped_count ≡ (evictions t.left + t.refused) % word_mod

  -- An operation that moves `out` from the front of the queue to the exits.
  moves_out :
      (t : Trace A) (q : BlockingQueue A) (out : List (Exit A))
      → Accounts t
      → t.queue.items ≡ map value out ++ q.items
      → q.dropped_count ≡ (t.queue.dropped_count + evictions out) % word_mod
      → Accounts (record t { queue = q; left = t.left ++ out })
  moves_out t q out h e c = record {
    fifo =
        rw
          (
            h.fifo,
            e,
            map-append value t.left out,
            append_assoc (map value t.left) (map value out) q.items,
          )
          refl;
    counted = omega (arith, c, h.counted, evictions-append t.left out);
  }

  -- An accepted value goes to the back.
  moves_in :
      (t : Trace A) (v : A)
      → Accounts t
      → Accounts (record t { queue = emplace_locked t.queue v; accepted = t.accepted ++ (v ∷ []) })
  unfolding emplace_locked
  moves_in t v h = record {
    fifo =
        ap (λ xs. xs ++ (v ∷ [])) h.fifo ∙ append_assoc (map value t.left) t.queue.items (v ∷ []);
    counted = h.counted;
  }

  replace_oldest-Accounts :
      (t : Trace A) (v : A) (xs : List A)
      → t.queue.items ≡ xs
      → Accounts t
      → Accounts (after_push t v (replace_oldest t.queue xs v))
  unfolding replace_oldest after_push pushed
  replace_oldest-Accounts t v [] e h = h
  replace_oldest-Accounts t v (x ∷ rest) e h =
      rw (e, front) (moves_in _ v (moves_out t _ (evicted x ∷ []) h e refl))

  push_waiting-Accounts :
      (t : Trace A) (g : ℕ) (v : A)
      → Accounts t
      → Accounts (after_push t v (push_waiting t.queue g v))
  unfolding push_waiting after_push pushed
  push_waiting-Accounts t g v h = ground (arith, moves_in t v h)

  push-Accounts :
      (t : Trace A) (g : ℕ) (v : A) → Accounts t → Accounts (after_push t v (push t.queue g v))
  unfolding push after_push pushed
  push-Accounts t g v h = ground (
    arith,
    moves_in t v h,
    push_waiting-Accounts t g v h,
    replace_oldest-Accounts t v t.queue.items refl h,
  )

  pop_front-Accounts :
      (t : Trace A) (xs : List A)
      → t.queue.items ≡ xs
      → Accounts t
      → Accounts (popped t (pop_front t.queue xs))
  unfolding pop_front popped
  pop_front-Accounts t [] e h = h
  pop_front-Accounts t (x ∷ rest) e h =
      moves_out t _ (handed x ∷ []) h e (ground (arith, h.counted))

  pop-Accounts : (t : Trace A) → Accounts t → Accounts (popped t (pop t.queue))
  unfolding pop popped
  pop-Accounts t h = ground (arith, pop_front-Accounts t t.queue.items refl h)

  take_batch-Accounts :
      (t : Trace A) (n : ℕ) (xs : List A)
      → t.queue.items ≡ xs
      → Accounts t
      → Accounts (batched t (take_batch t.queue n xs))
  unfolding take_batch batched
  take_batch-Accounts t n [] e h = rw append-nil h
  take_batch-Accounts t n (x ∷ rest) e h = rw (drain_lem [] n (x ∷ rest)) (
      moves_out t _ (map handed (take n (x ∷ rest))) h
        (rw (value-handed (take n (x ∷ rest)), take-append-drop n (x ∷ rest)) e)
        (omega (arith, h.counted, evictions-handed (take n (x ∷ rest)))))

  batch-Accounts :
      (t : Trace A) (n : ℕ) (w : Wait)
      → Accounts t
      → Accounts (batched t (pop_batch_impl t.queue n w))
  unfolding pop_batch_impl batched
  batch-Accounts t zero w h = rw append-nil h
  batch-Accounts t (suc n) (woken true) h = take_batch-Accounts t (suc n) t.queue.items refl h
  batch-Accounts t (suc n) (woken false) h = rw append-nil h
  batch-Accounts t (suc n) sleeps h = h

  pub reset-Accounts :
      (q : BlockingQueue A) (capacity : ℕ) (policy : OverflowPolicy)
      → Accounts (start (reset q capacity policy))
  unfolding start reset
  reset-Accounts q capacity policy = record { fifo = refl; counted = refl }

  pub step-Accounts : (t : Trace A) (c : Call A) → Accounts t → Accounts (step t c)
  unfolding step pop_batch_for close
  step-Accounts t (pushes g v) h = push-Accounts t g v h
  step-Accounts t (resumes g v) h = push_waiting-Accounts t g v h
  step-Accounts t pops h = pop-Accounts t h
  step-Accounts t (batches n timed_out) h = batch-Accounts t n _ h
  step-Accounts t closes h = record { fifo = h.fifo; counted = h.counted }
  step-Accounts t (resets capacity policy) h = reset-Accounts t.queue capacity policy

  pub run-Accounts : (t : Trace A) (cs : List (Call A)) → Accounts t → Accounts (run t cs)
  unfolding run
  run-Accounts t [] h = h
  run-Accounts t (c ∷ cs) h = run-Accounts (step t c) cs (step-Accounts t c h)

  -- After any calls in any order on a new queue, what was accepted since the last reset is what left
  -- the queue, in that order, and then what is still in it; and `droppedCount_` is the number of
  -- evicted and refused values, modulo 2^64.
  pub run-new-Accounts : (cs : List (Call A)) → Accounts (run (start new) cs)
  unfolding start new
  run-new-Accounts cs = run-Accounts (start new) cs (record { fifo = refl; counted = refl })

  -- Every value whose push was answered with a result other than `Closed` since the last reset was
  -- handed over, is still queued, or is one of the drops that `droppedCount_` counts modulo 2^64.
  pub run-new-conserves :
      (cs : List (Call A))
      → let t = run (start new) cs in
        (dropped : ℕ) × (length t.accepted + t.refused
          ≡ deliveries t.left + length t.queue.items + dropped)
        × (t.queue.dropped_count ≡ dropped % word_mod)
  run-new-conserves cs =
      let t : Trace A = run (start new) cs in
      let h : Accounts t = run-new-Accounts cs in
      (
        evictions t.left + t.refused,
        omega (
          arith,
          ap length h.fifo,
          length-append (map value t.left) t.queue.items,
          length-exits t.left,
        ),
        h.counted,
      )
