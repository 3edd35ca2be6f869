-- ===== src/Queue/Threads.antt =====
-- include/BlockingQueue.h with any number of threads. A step is one turn with the mutex, or what a
-- condition variable does between turns: `notify_one` and `notify_all` are called after the mutex is
-- released (`reset` calls them before), so they are pending until a step delivers them.
mod Condition
mod Producers
mod Consumers
pub mod Wakeups
pub mod Histories
mod Examples
pub use Condition.{
  CondVar, Wakes, woken_one, lost_one, woken_all, spurious, signal, sleep, wake_all, no_waiters,
  live,
}
use cpp_logger.Base.{ℕ, zero, suc, ◌≡◌, Bool, Option, List, [], ◌∷◌, ◌++◌}
use cpp_logger.Queue.{
  BlockingQueue, OverflowPolicy, Push, Pop, Signal, new, push, push_waiting, pop, pop_batch_for,
  close, reset, notify_all,
}

-- What a consumer asks for: `pop`, or a batch of at most `suc n`. (`popBatchImpl` with `maxCount` 0
-- returns before it takes the mutex.)
pub data Take : Type 0 where
  single : Take
  batch : ℕ → Take

-- The producers that wait on `notFull_` hold their expected generation and their value.
pub record System {ℓ} (A : Type ℓ) : Type ℓ where
  pub queue : BlockingQueue A
  pub not_full : CondVar (ℕ × A)
  pub not_empty : CondVar Take

module _ {ℓ} {A : Type ℓ} where
  unfoldable pub ends_push : System A → ℕ → A → Push A → System A
  ends_push s g v (Push.returns q r signalled) = record s {
    queue = q;
    not_empty = signal signalled s.not_empty;
  }
  ends_push s g v Push.waits = record s { not_full = sleep (g, v) s.not_full }
  ends_push s g v Push.undefined = s

  unfoldable pub ends_take : {R : Type ℓ} → System A → Take → Pop A R → System A
  ends_take s k (Pop.returns r q signalled) = record s {
    queue = q;
    not_full = signal signalled s.not_full;
  }
  ends_take s k Pop.waits = record s { not_empty = sleep k s.not_empty }

  -- A consumer that asks, or that was woken: both test the predicate of the wait first.
  unfoldable pub take_turn : System A → Take → Bool → System A
  unfolding ends_take
  take_turn s single timed_out = ends_take s single (pop s.queue)
  take_turn s (batch n) timed_out = ends_take s (batch n) (pop_batch_for s.queue (suc n) timed_out)

  pub data Step (s t : System A) : Type ℓ where
    pushes : (g : ℕ) (v : A) → t ≡ ends_push s g v (push s.queue g v) → Step s t
    resumes :
        (before : List (ℕ × A)) (g : ℕ) (v : A) (after : List (ℕ × A))
        → s.not_full.awake ≡ before ++ ((g, v) ∷ after)
        → t
          ≡ ends_push
              (record s { not_full = record s.not_full { awake = before ++ after } })
              g
              v
              (push_waiting s.queue g v)
        → Step s t
    takes : (k : Take) (timed_out : Bool) → t ≡ take_turn s k timed_out → Step s t
    retakes :
        (before : List Take) (k : Take) (after : List Take) (timed_out : Bool)
        → s.not_empty.awake ≡ before ++ (k ∷ after)
        → t
          ≡ take_turn
              (record s { not_empty = record s.not_empty { awake = before ++ after } })
              k
              timed_out
        → Step s t
    wakes_producer :
        (c : CondVar (ℕ × A)) → Wakes s.not_full c → t ≡ record s { not_full = c } → Step s t
    wakes_consumer :
        (c : CondVar Take) → Wakes s.not_empty c → t ≡ record s { not_empty = c } → Step s t
    closes :
        t ≡ record {
          queue = close s.queue;
          not_full = signal notify_all s.not_full;
          not_empty = signal notify_all s.not_empty;
        }
        → Step s t
    resets :
        (capacity : ℕ) (policy : OverflowPolicy)
        → t ≡ record {
          queue = reset s.queue capacity policy;
          not_full = wake_all s.not_full;
          not_empty = wake_all s.not_empty;
        }
        → Step s t

  pub data Reach : System A → Type ℓ where
    start : Reach (record { queue = new; not_full = no_waiters; not_empty = no_waiters })
    later : {s t : System A} → Reach s → Step s t → Reach t
