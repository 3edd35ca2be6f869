-- ===== src/Queue/Threads/Wakeups.antt =====
-- No wakeup is lost.
use mathlib.Core.Path.{subst, ap}
use cpp_logger.Base.{
  ℕ, ◌+◌, ◌≤◌, ◌≡◌, ◌≢◌, inl, inr, refl, Bool, true, List, [], ◌∷◌, ◌++◌, arith, length,
  length-append, not,
}
use cpp_logger.Queue.{
  OverflowPolicy, Push, Pop, close, reset, may_push, may_pop, is_empty, notify_all,
}
use cpp_logger.Queue.Threads.{
  Take, single, batch, System, ends_push, ends_take, take_turn, Step, pushes, resumes, takes,
  retakes, wakes_producer, wakes_consumer, closes, resets, Reach, start, later,
}
use cpp_logger.Queue.Threads.Condition.{signal, live, wake_all}
use cpp_logger.Queue.Threads.Producers.{
  ProducersOk, PushOk, TakeOk, push-PushOk, push_waiting-PushOk, resumed-FullCovered, pop-TakeOk,
  batch-TakeOk, Wakes-ProducersOk, AllCurrent,
}
use cpp_logger.Queue.Threads.Consumers.{
  EmptyCovered, PushServes, TakeServes, push-PushServes, push_waiting-PushServes, pop-TakeServes,
  batch-TakeServes, resumed-EmptyCovered, Wakes-EmptyCovered,
}

items_some {ℓ} : {A : Type ℓ} (xs : List A) → not (is_empty xs) ≡ true → 1 ≤ length xs
unfolding is_empty
items_some [] h = cc
items_some (x ∷ xs) h = omega arith

module _ {ℓ} {A : Type ℓ} where
  pub record IsAwake (s : System A) : Type ℓ where
    pub producers : ProducersOk s.queue s.not_full
    pub consumers : EmptyCovered s.queue s.not_empty 0

  ends_push-IsAwake :
      (s : System A) (g : ℕ) (v : A) (p : Push A)
      → PushOk s.queue s.not_full g v p
      → PushServes s.queue s.not_empty p
      → IsAwake (ends_push s g v p)
  unfolding ends_push
  ends_push-IsAwake s g v (Push.returns q r x) h k = record { producers = h; consumers = k }
  ends_push-IsAwake s g v Push.waits h k = record { producers = h; consumers = k }
  ends_push-IsAwake s g v Push.undefined h k = record { producers = h; consumers = k }

  ends_take-IsAwake :
      {R : Type ℓ} (s : System A) (t : Take) (p : Pop A R)
      → TakeOk s.queue s.not_full p
      → TakeServes s.queue s.not_empty t p
      → IsAwake (ends_take s t p)
  unfolding ends_take
  ends_take-IsAwake s t (Pop.returns r q x) h k = record { producers = h; consumers = k }
  ends_take-IsAwake s t Pop.waits h k = record { producers = h; consumers = k }

  take_turn-IsAwake :
      (s : System A) (t : Take) (timed_out : Bool)
      → ProducersOk s.queue s.not_full
      → EmptyCovered s.queue s.not_empty 1
      → IsAwake (take_turn s t timed_out)
  unfolding take_turn
  take_turn-IsAwake s single timed_out h k =
      ends_take-IsAwake s single _ (pop-TakeOk s.queue s.not_full h)
        (pop-TakeServes s.queue s.not_empty single k)
  take_turn-IsAwake s (batch n) timed_out h k =
      ends_take-IsAwake s (batch n) _ (batch-TakeOk s.queue s.not_full n timed_out h)
        (batch-TakeServes s.queue s.not_empty (batch n) n timed_out k)

  reset-IsAwake :
      (s : System A) (capacity : ℕ) (policy : OverflowPolicy)
      → IsAwake (record {
        queue = reset s.queue capacity policy;
        not_full = wake_all s.not_full;
        not_empty = wake_all s.not_empty;
      })
  reset-IsAwake s capacity policy = record {
    producers = record { current = tt; covered = inl refl };
    consumers = inl refl;
  }

  close-IsAwake :
      (s : System A)
      → IsAwake s
      → IsAwake (record {
        queue = close s.queue;
        not_full = signal notify_all s.not_full;
        not_empty = signal notify_all s.not_empty;
      })
  unfolding close
  close-IsAwake s h = record {
    producers = record { current = h.producers.current; covered = inr (inl (omega arith)) };
    consumers = inr (inl (omega arith));
  }

  Step-IsAwake : {s t : System A} → Step s t → IsAwake s → IsAwake t
  Step-IsAwake {s} (pushes g v e) h = rw e (
      ends_push-IsAwake s g v _ (push-PushOk s.queue s.not_full g v h.producers)
        (push-PushServes s.queue s.not_empty g v h.consumers))
  Step-IsAwake {s} (resumes before g v after f e) h = rw e (
      ends_push-IsAwake _ g v _
        (push_waiting-PushOk s.queue _ g v h.producers.current
          (resumed-FullCovered s.queue s.not_full before g v after f h.producers.covered))
        (push_waiting-PushServes s.queue s.not_empty g v h.consumers))
  Step-IsAwake {s} (takes t timed_out e) h =
      rw e (take_turn-IsAwake s t timed_out h.producers (ground (arith, h.consumers)))
  Step-IsAwake {s} (retakes before t after timed_out f e) h = rw e (
      take_turn-IsAwake _ t timed_out h.producers
        (resumed-EmptyCovered s.queue s.not_empty before t after f h.consumers))
  Step-IsAwake {s} (wakes_producer c w e) h = rw e (record {
    producers = Wakes-ProducersOk s.queue s.not_full c w h.producers;
    consumers = h.consumers;
  })
  Step-IsAwake {s} (wakes_consumer c w e) h = rw e (record {
    producers = h.producers;
    consumers = Wakes-EmptyCovered s.queue s.not_empty c w h.consumers;
  })
  Step-IsAwake {s} (closes e) h = rw e (close-IsAwake s h)
  Step-IsAwake {s} (resets capacity policy e) h = rw e (reset-IsAwake s capacity policy)

  Reach-IsAwake : {s : System A} → Reach s → IsAwake s
  Reach-IsAwake start = record {
    producers = record { current = tt; covered = inl refl };
    consumers = inl refl;
  }
  Reach-IsAwake (later r st) = Step-IsAwake st (Reach-IsAwake r)

  AllCurrent-mid :
      (g : ℕ) (xs ys : List (ℕ × A)) (w : ℕ × A) → AllCurrent g (xs ++ (w ∷ ys)) → w.0 ≡ g
  AllCurrent-mid g [] ys (k, v) h = h.0
  AllCurrent-mid g ((k, v) ∷ xs) ys w h = AllCurrent-mid g xs ys w h.1

  -- In every reachable state where a producer waits on `notFull_` and the predicate of its wait holds,
  -- the producer expects the current generation, and a notification of `notFull_` is pending or a
  -- producer of the current generation was woken and is about to test the predicate.
  pub producer_wakeup :
      {s : System A} (before : List (ℕ × A)) (g : ℕ) (v : A) (after : List (ℕ × A))
      → Reach s
      → s.not_full.asleep ≡ before ++ ((g, v) ∷ after)
      → may_push s.queue g ≡ true
      → (g ≡ s.queue.generation)
        × (1 ≤ s.not_full.ones + s.not_full.alls + live s.queue.generation s.not_full.awake)
  producer_wakeup {s} before g v after r e may =
      let ok : ProducersOk s.queue s.not_full = (Reach-IsAwake r).producers in
      let now : g ≡ s.queue.generation =
        AllCurrent-mid s.queue.generation before after (g, v)
          (subst (AllCurrent s.queue.generation) e ok.current) in
      (now, ground (arith, ok.covered, now, ap length e, length-append before ((g, v) ∷ after)))

  -- In every reachable state where a consumer waits on `notEmpty_` and the predicate of its wait
  -- holds, a notification of `notEmpty_` is pending or a consumer was woken and is about to test it.
  pub consumer_wakeup :
      {s : System A}
      → Reach s
      → s.not_empty.asleep ≢ []
      → may_pop s.queue ≡ true
      → 1 ≤ s.not_empty.ones + s.not_empty.alls + length s.not_empty.awake
  unfolding may_pop
  consumer_wakeup {s} r h may =
      ground (arith, (Reach-IsAwake r).consumers, h, items_some s.queue.items)
