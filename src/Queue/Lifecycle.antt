-- ===== src/Queue/Lifecycle.antt =====
-- Generations, closing, and what the policy `Block` promises.
use cpp_logger.Base.{
  ℕ, zero, suc, ◌+◌, ◌%◌, ◌≤◌, ◌<◌, ◌≡◌, ◌≢◌, refl, Bool, true, false, Option, some, none, List, [],
  ◌∷◌, ◌++◌, ap, ◌∙◌, arith, length, take, drop, take-append-drop, append-nil, append_assoc,
  length-drop, word_mod,
}
use cpp_logger.Queue.{
  BlockingQueue, OverflowPolicy, Push, Pop, Wait, woken, sleeps, push, push_waiting, replace_oldest,
  pop, pop_batch, pop_batch_for, pop_front, pop_batch_impl, close, reset, take_batch, closed, quiet,
  notify_all,
}
use cpp_logger.Queue.Batch.{drain_lem}
use cpp_logger.Queue.Invariant.{IsValid}
use cpp_logger.Queue.History.{
  Trace, Call, pushes, resumes, pops, batches, closes, resets, step, run, after_push, popped,
  batched,
}

module _ {ℓ} {A : Type ℓ} where
  abbrev pub count_resets : List (Call A) → ℕ
  count_resets [] = 0
  count_resets (resets capacity policy ∷ cs) = suc (count_resets cs)
  count_resets (_ ∷ cs) = count_resets cs

  -- What only `reset` changes.
  pub record SameSettings (q r : BlockingQueue A) : Type 0 where
    pub capacity : r.capacity ≡ q.capacity
    pub generation : r.generation ≡ q.generation
    pub policy : r.overflow_policy ≡ q.overflow_policy

  push_waiting-SameSettings :
      (t : Trace A) (g : ℕ) (v : A)
      → SameSettings t.queue (after_push t v (push_waiting t.queue g v)).queue
  unfolding push_waiting after_push
  push_waiting-SameSettings t g v = ground arith

  replace_oldest-SameSettings :
      (t : Trace A) (xs : List A) (v : A)
      → SameSettings t.queue (after_push t v (replace_oldest t.queue xs v)).queue
  unfolding replace_oldest after_push
  replace_oldest-SameSettings t [] v = record { capacity = refl; generation = refl; policy = refl }
  replace_oldest-SameSettings t (x ∷ rest) v = record {
    capacity = refl;
    generation = refl;
    policy = refl;
  }

  push-SameSettings :
      (t : Trace A) (g : ℕ) (v : A) → SameSettings t.queue (after_push t v (push t.queue g v)).queue
  unfolding push after_push
  push-SameSettings t g v =
      ground (arith, push_waiting-SameSettings t g v, replace_oldest-SameSettings t t.queue.items v)

  pop-SameSettings :
      (t : Trace A) (xs : List A) → SameSettings t.queue (popped t (pop_front t.queue xs)).queue
  unfolding pop_front popped
  pop-SameSettings t [] = record { capacity = refl; generation = refl; policy = refl }
  pop-SameSettings t (x ∷ rest) = record { capacity = refl; generation = refl; policy = refl }

  take_batch-SameSettings :
      (t : Trace A) (n : ℕ) (xs : List A)
      → SameSettings t.queue (batched t (take_batch t.queue n xs)).queue
  unfolding take_batch batched
  take_batch-SameSettings t n [] = record { capacity = refl; generation = refl; policy = refl }
  take_batch-SameSettings t n (x ∷ rest) = record {
    capacity = refl;
    generation = refl;
    policy = refl;
  }

  batch-SameSettings :
      (t : Trace A) (n : ℕ) (w : Wait)
      → SameSettings t.queue (batched t (pop_batch_impl t.queue n w)).queue
  unfolding pop_batch_impl batched
  batch-SameSettings t zero w = record { capacity = refl; generation = refl; policy = refl }
  batch-SameSettings t (suc n) (woken true) = take_batch-SameSettings t (suc n) t.queue.items
  batch-SameSettings t (suc n) (woken false) = record {
    capacity = refl;
    generation = refl;
    policy = refl;
  }
  batch-SameSettings t (suc n) sleeps = record { capacity = refl; generation = refl; policy = refl }

  pub step-SameSettings :
      (t : Trace A) (c : Call A) → count_resets (c ∷ []) ≡ 0 → SameSettings t.queue (step t c).queue
  unfolding step pop pop_batch_for close
  step-SameSettings t (pushes g v) h = push-SameSettings t g v
  step-SameSettings t (resumes g v) h = push_waiting-SameSettings t g v
  step-SameSettings t pops h = ground (arith, pop-SameSettings t t.queue.items)
  step-SameSettings t (batches n timed_out) h = batch-SameSettings t n _
  step-SameSettings t closes h = record { capacity = refl; generation = refl; policy = refl }
  step-SameSettings t (resets capacity policy) h = absurd (omega arith)

  step-resets-generation :
      (t : Trace A) (capacity : ℕ) (policy : OverflowPolicy)
      → (step t (resets capacity policy)).queue.generation ≡ (t.queue.generation + 1) % word_mod
  unfolding step reset
  step-resets-generation t capacity policy = refl

  -- The generation counts the resets, modulo 2^64.
  run-generation :
      (t : Trace A) (cs : List (Call A))
      → t.queue.generation < word_mod
      → (run t cs).queue.generation ≡ (t.queue.generation + count_resets cs) % word_mod
  unfolding run
  run-generation t [] h = omega arith
  run-generation t (resets capacity policy ∷ cs) h =
      let s : Trace A = step t (resets capacity policy) in
      let one : s.queue.generation ≡ (t.queue.generation + 1) % word_mod =
        step-resets-generation t capacity policy in
      omega (arith, one, run-generation s cs (omega (arith, one)))
  run-generation t (c ∷ cs) h =
      let one = (step-SameSettings t c refl).generation in
      omega (arith, one, run-generation (step t c) cs (omega (arith, one)))

  -- A push that took its generation before a reset is answered `Closed` and leaves the queue as it
  -- is, also when it had waited in between, whatever happened before and after the reset (as long as
  -- the 2^64 generations do not come round).
  pub stale-push :
      (t : Trace A) (cs : List (Call A)) (v : A)
      → IsValid t.queue
      → 1 ≤ count_resets cs
      → count_resets cs < word_mod
      → let q = (run t cs).queue in
        (push q t.queue.generation v ≡ Push.returns q closed quiet)
        × (push_waiting q t.queue.generation v ≡ Push.returns q closed quiet)
  unfolding push push_waiting
  stale-push t cs v h some_reset few = ground (arith, run-generation t cs h.generation_fits)

  pop_front-returns : (q : BlockingQueue A) (xs : List A) → pop_front q xs ≢ Pop.waits
  unfolding pop_front
  pop_front-returns q [] = λ e. cc
  pop_front-returns q (x ∷ rest) = λ e. cc

  take_batch-returns : (q : BlockingQueue A) (n : ℕ) (xs : List A) → take_batch q n xs ≢ Pop.waits
  unfolding take_batch
  take_batch-returns q n [] = λ e. cc
  take_batch-returns q n (x ∷ rest) = λ e. cc

  pop_batch_impl-returns :
      (q : BlockingQueue A) (n : ℕ) (b : Bool) → pop_batch_impl q n (woken b) ≢ Pop.waits
  unfolding pop_batch_impl
  pop_batch_impl-returns q zero b = λ e. cc
  pop_batch_impl-returns q (suc n) true = take_batch-returns q (suc n) q.items
  pop_batch_impl-returns q (suc n) false = λ e. cc

  -- A closed queue answers every push `Closed` and unchanged, and lets no call wait.
  pub close-refuses :
      (q : BlockingQueue A) (g n : ℕ) (v : A)
      → (push (close q) g v ≡ Push.returns (close q) closed quiet)
        × (push_waiting (close q) g v ≡ Push.returns (close q) closed quiet)
        × (pop (close q) ≢ Pop.waits)
        × (pop_batch (close q) n ≢ Pop.waits)
  unfolding push push_waiting pop pop_batch close
  close-refuses q g n v =
      (refl, refl, pop_front-returns (close q) q.items, pop_batch_impl-returns (close q) n true)

  -- A consumer that takes batches until `popBatch` answers `false`; `none` if it would wait or the
  -- fuel runs out.
  pub consume : ℕ → ℕ → BlockingQueue A → List A → Option (List A)
  consume zero n q got = none
  consume (suc fuel) n q got = elim (pop_batch q n) [
    | Pop.returns (xs, true) q' s ↦ consume fuel n q' (got ++ xs)
    | Pop.returns (xs, false) q' s ↦ some got
    | Pop.waits ↦ none
  ]

  close-pop_batch_empty :
      (q : BlockingQueue A) (n : ℕ)
      → q.items ≡ []
      → pop_batch (close q) n ≡ Pop.returns ([], false) (close q) quiet
  unfolding pop_batch close take_batch
  close-pop_batch_empty q zero e = refl
  close-pop_batch_empty q (suc n) e = ground arith

  close-pop_batch_cons :
      (q : BlockingQueue A) (n : ℕ) (x : A) (rest : List A)
      → q.items ≡ x ∷ rest
      → 1 ≤ n
      → pop_batch (close q) n
        ≡ Pop.returns
            (take n (x ∷ rest), true)
            (close (record q { items = drop n (x ∷ rest) }))
            notify_all
  unfolding pop_batch close take_batch
  close-pop_batch_cons q zero x rest e h = absurd (omega arith)
  close-pop_batch_cons q (suc n) x rest e h = ground (arith, drain_lem [] (suc n) (x ∷ rest))

  close-consume_from :
      (fuel n : ℕ) (q : BlockingQueue A) (xs got : List A)
      → q.items ≡ xs
      → 1 ≤ n
      → length xs < fuel
      → consume fuel n (close q) got ≡ some (got ++ xs)
  unfolding consume
  close-consume_from zero n q xs got e h k = absurd (omega arith)
  close-consume_from (suc fuel) n q [] got e h k =
      rw (close-pop_batch_empty q n e, consume, append-nil) refl
  close-consume_from (suc fuel) n q (x ∷ rest) got e h k =
      rw (close-pop_batch_cons q n x rest e h, consume)
        (close-consume_from fuel n (record q { items = drop n (x ∷ rest) }) (drop n (x ∷ rest))
            (got ++ take n (x ∷ rest)) refl h (omega (arith, length-drop n (x ∷ rest)))
          ∙ ap some (
              append_assoc got (take n (x ∷ rest)) (drop n (x ∷ rest))
              ∙ ap (◌++◌ got) (take-append-drop n (x ∷ rest))))

  -- Closing loses nothing: a consumer of a closed queue gets every queued value in order, and then
  -- the answer that there is no more, in at most one call more than there are values.
  pub close-consume :
      (fuel n : ℕ) (q : BlockingQueue A) (got : List A)
      → 1 ≤ n
      → length q.items < fuel
      → consume fuel n (close q) got ≡ some (got ++ q.items)
  close-consume fuel n q got h k = close-consume_from fuel n q q.items got refl h k
