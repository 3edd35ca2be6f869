-- ===== src/Queue/Examples.antt =====
-- The queue on small inputs.
use cpp_logger.Base.{ℕ, ◌≡◌, ◌≢◌, refl, true, false, List, [], ◌∷◌, some, arith}
use cpp_logger.Queue.{
  BlockingQueue, block, drop_oldest, new, Push, Pop, push, push_waiting, pop, pop_batch,
  pop_batch_for, close, reset, QueuePushResult, closed, quiet, notify_one, notify_all,
}
use cpp_logger.Queue.Batch.{pop_many, pop_batch-pop_many}
use cpp_logger.Queue.Invariant.{IsValid, run-new-IsValid}
use cpp_logger.Queue.Fifo.{Accounts, run-new-Accounts}
use cpp_logger.Queue.Lifecycle.{stale-push, consume, close-consume}
use cpp_logger.Queue.Policy.{Decided, push-kept}
use cpp_logger.Queue.Lossless.{reset-block_lossless}
use cpp_logger.Queue.History.{
  Trace, Call, pushes, resumes, pops, batches, closes, resets, run, start, evictions, step,
}

-- Capacity 2, evicting: four pushes, a pop, a batch.
abbrev evicting : List (Call ℕ)
evicting =
    resets 2 drop_oldest
    ∷ pushes 1 10
    ∷ pushes 1 11
    ∷ pushes 1 12
    ∷ pops
    ∷ pushes 1 13
    ∷ batches 5 false
    ∷ pushes 1 14
    ∷ []

evicting_items : (run (start new) evicting).queue.items ≡ 14 ∷ []
unfolding run start new step push pop_batch_for pop reset
evicting_items = refl

evicting_dropped : (run (start new) evicting).queue.dropped_count ≡ 1
unfolding run start new step push pop_batch_for pop reset
evicting_dropped = refl

run-new-Accounts_example : Accounts (run (start new) evicting)
run-new-Accounts_example = run-new-Accounts evicting

run-new-IsValid_example :
    IsValid (run (start new) evicting).queue
    × (push (run (start new) evicting).queue 1 15 ≢ Push.undefined)
run-new-IsValid_example = run-new-IsValid evicting 1 15

-- Two values in a queue of capacity 2.
abbrev full : BlockingQueue ℕ
full = record {
  items = 10 ∷ 11 ∷ [];
  capacity = 2;
  high_water_mark = 2;
  generation = 1;
  dropped_count = 0;
  overflow_policy = drop_oldest;
  is_closed = false;
}

full-IsValid : IsValid full
full-IsValid = omega arith

push-kept_example : Decided full 12 (push full 1 12)
push-kept_example = push-kept full 1 12 full-IsValid refl refl

full_keeps_newest :
    push full 1 12
    ≡ Push.returns
        (record full { items = 11 ∷ 12 ∷ []; dropped_count = 1 })
        QueuePushResult.dropped_oldest
        notify_one
unfolding push
full_keeps_newest = refl

pop_batch-pop_many_example :
    pop_batch full 5 ≡ Pop.returns ((pop_many 5 full).0, true) (pop_many 5 full).1 notify_all
pop_batch-pop_many_example = pop_batch-pop_many full 5 (omega arith) (λ e. cc)

abbrev restart : List (Call ℕ)
restart = closes ∷ resets 4 block ∷ pushes 2 20 ∷ []

abbrev full_trace : Trace ℕ
full_trace = record { queue = full; accepted = 10 ∷ 11 ∷ []; left = []; refused = 0 }

stale-push_example :
    (push (run full_trace restart).queue 1 12
      ≡ Push.returns (run full_trace restart).queue closed quiet)
    × (push_waiting (run full_trace restart).queue 1 12
        ≡ Push.returns (run full_trace restart).queue closed quiet)
stale-push_example = stale-push full_trace restart 12 full-IsValid (omega arith) (omega arith)

close-consume_example : consume 3 1 (close full) [] ≡ some (10 ∷ 11 ∷ [])
close-consume_example = close-consume 3 1 full [] (omega arith) (omega arith)

abbrev crowded : List (Call ℕ)
crowded = pushes 2 1 ∷ pushes 2 2 ∷ pops ∷ resumes 2 2 ∷ []

reset-block_lossless_example :
    (evictions (run (start (reset full 1 block)) crowded).left ≡ 0)
    × ((run (start (reset full 1 block)) crowded).refused ≡ 0)
    × ((run (start (reset full 1 block)) crowded).queue.dropped_count ≡ 0)
reset-block_lossless_example = reset-block_lossless full 1 crowded refl
