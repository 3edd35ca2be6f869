-- ===== src/Queue/Threads/Examples.antt =====
-- Threads on one queue: a producer and a consumer that wait and are woken.
use cpp_logger.Base.{ℕ, ◌+◌, ◌≤◌, ◌≡◌, refl, false, [], length}
use cpp_logger.Queue.{block, new, push, pop, reset, may_pop, pop_batch_for, pop_batch_impl}
use cpp_logger.Queue.Threads.{
  single, batch, System, pushes, takes, resets, Reach, start, later, take_turn, ends_push, live,
  wake_all, no_waiters,
}
use cpp_logger.Queue.Threads.Wakeups.{producer_wakeup, consumer_wakeup}

abbrev initial : System ℕ
initial = record { queue = new; not_full = no_waiters; not_empty = no_waiters }

-- One place; a value is in it, a producer waits, and then the value is taken.
abbrev one_place : System ℕ
one_place = record {
  queue = reset new 1 block;
  not_full = wake_all no_waiters;
  not_empty = wake_all no_waiters;
}

abbrev filled : System ℕ
filled = ends_push one_place 1 7 (push one_place.queue 1 7)

abbrev blocked : System ℕ
blocked = ends_push filled 1 8 (push filled.queue 1 8)

abbrev freed : System ℕ
freed = take_turn blocked single false

freed-Reach : Reach freed
freed-Reach =
    later {s = blocked}
      (later {s = filled}
        (later {s = one_place} (later start (resets 1 block refl)) (pushes 1 7 refl))
        (pushes 1 8 refl))
      (takes single false refl)

producer_wakeup_example :
    (1 ≡ freed.queue.generation)
    × (1
        ≤ freed.not_full.ones
          + freed.not_full.alls
          + live freed.queue.generation freed.not_full.awake)
unfolding ends_push take_turn push pop reset new may_pop
producer_wakeup_example = producer_wakeup [] 1 8 [] freed-Reach refl refl

-- A consumer waits, and then a value comes.
abbrev hungry : System ℕ
hungry = take_turn initial (batch 3) false

abbrev fed : System ℕ
fed = ends_push hungry 0 7 (push hungry.queue 0 7)

fed-Reach : Reach fed
fed-Reach = later {s = hungry} (later start (takes (batch 3) false refl)) (pushes 0 7 refl)

consumer_wakeup_example : 1 ≤ fed.not_empty.ones + fed.not_empty.alls + length fed.not_empty.awake
unfolding ends_push take_turn push new may_pop pop_batch_for pop_batch_impl
consumer_wakeup_example = consumer_wakeup fed-Reach (λ e. cc) refl
