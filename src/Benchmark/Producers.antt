-- ===== src/Benchmark/Producers.antt =====
-- benchmark/common/BenchmarkHarness.h: `ProducerGroup`, the producers of a benchmark with their common
-- start. A turn is what one thread does between two points where another can come between: with a
-- mutex, or in one call of `prepare_` or `submit_`. A wait on a condition variable is a turn that is
-- not there until the wait's predicate holds; what each turn notifies is in Producers/Notices. The
-- counters do not pass `threadCount`, so that they do not wrap.
pub mod Places
pub mod Counts
pub mod Turned
pub mod Turns
pub mod Invariant
pub mod Worked
pub mod Reached
pub mod Fixed
pub mod Start
pub mod Fewer
pub mod Ends
pub mod Notices
pub mod Told
mod Examples
use cpp_logger.Base.{
  ℕ, zero, suc, ◌+◌, ◌≡◌, Bool, true, false, ◌&&◌, Option, none, some, List, [], ◌∷◌, ◌++◌, ltb,
  ◌==◌, length, if◌then◌else◌,
}
use cpp_logger.Base.Outcome.{Failure}

-- Where a producer is in `workerLoop`: `can_submit` goes with it up to the start, and the number of
-- messages that are left through the loop.
pub data Place : Type 0 where
  preparing : Place
  arriving : Bool → Place
  at_start : Bool → Place
  submitting : ℕ → Place
  completing : Place
  at_release : Place
  ended : Place

-- `sent` is what an observer writes down: the calls of `submit_` that came back.
pub record Worker : Type 0 where
  pub place : Place
  pub sent : ℕ

-- What `start` and `releaseAndJoin` end with.
pub data Result : Type 0 where
  timing : Result
  launch_threw : Result
  failure_thrown : Failure → Result

-- Where the thread is that calls `start` and, later, `releaseAndJoin`.
pub data Main : Type 0 where
  launching : Main
  launch_failed : Main
  at_ready : Main
  at_completion : Main
  checking : Main
  returned : Main
  failing : Failure → Main
  joining : Result → Main
  over : Result → Main

-- `prepared` is what an observer writes down: the calls of `prepare_` that have come to an end, by a
-- return or by an exception.
pub record ProducerGroup : Type 0 where
  pub thread_count : ℕ
  pub messages_per_thread : ℕ
  pub workers : List Worker
  pub prepared : ℕ
  pub ready_workers : ℕ
  pub start_workers : Bool
  pub completed_workers : ℕ
  pub release_workers : Bool
  pub worker_failure : Option Failure
  pub main : Main

-- The constructor, with the two options that it reads.
unfoldable pub new_group : ℕ → ℕ → ProducerGroup
new_group threads messages = record {
  thread_count = threads;
  messages_per_thread = messages;
  workers = [];
  prepared = 0;
  ready_workers = 0;
  start_workers = false;
  completed_workers = 0;
  release_workers = false;
  worker_failure = none;
  main = launching;
}

-- `recordWorkerFailure`: the first failure stays.
abbrev pub or_first : Option Failure → Failure → Option Failure
or_first none e = some e
or_first (some first) e = some first

unfoldable pub record_worker_failure : ProducerGroup → Failure → ProducerGroup
record_worker_failure g e = record g { worker_failure = or_first g.worker_failure e }

-- The callback of the turn comes back, or throws.
unfoldable pub worker_turn :
    Option Failure → ProducerGroup → ℕ → Place → Option (Worker × ProducerGroup)
unfolding record_worker_failure
worker_turn none g sent preparing =
    some (record { place = arriving true; sent = sent }, record g { prepared = suc g.prepared })
worker_turn (some e) g sent preparing = some (
  record { place = arriving false; sent = sent },
  record (record_worker_failure g e) { prepared = suc g.prepared },
)
worker_turn a g sent (arriving can_submit) = some (
  record { place = at_start can_submit; sent = sent },
  record g { ready_workers = suc g.ready_workers },
)
worker_turn a g sent (at_start can_submit) =
    if g.start_workers
    then some (
      record {
        place = if can_submit then submitting g.messages_per_thread else completing;
        sent = sent;
      },
      g,
    )
    else none
worker_turn a g sent (submitting zero) = some (record { place = completing; sent = sent }, g)
worker_turn none g sent (submitting (suc left)) =
    some (record { place = submitting left; sent = suc sent }, g)
worker_turn (some e) g sent (submitting (suc left)) =
    some (record { place = completing; sent = sent }, record_worker_failure g e)
worker_turn a g sent completing = some (
  record { place = at_release; sent = sent },
  record g { completed_workers = suc g.completed_workers },
)
worker_turn a g sent at_release =
    if g.release_workers then some (record { place = ended; sent = sent }, g) else none
worker_turn a g sent ended = none

abbrev pub has_ended : Place → Bool
has_ended ended = true
has_ended _ = false

abbrev pub all_ended : List Worker → Bool
all_ended [] = true
all_ended (w ∷ ws) = has_ended w.place && all_ended ws

abbrev checked : Option Failure → Main
checked none = returned
checked (some e) = failing e

-- The turns of the thread that has called `start`; a thread can be launched or not.
unfoldable pub main_turn : Bool → ProducerGroup → Main → Option ProducerGroup
main_turn launches g launching =
    if ltb (length g.workers) g.thread_count
    then (if launches
        then some
            (record g { workers = g.workers ++ (record { place = preparing; sent = 0 } ∷ []) })
        else some (record g { start_workers = true; main = launch_failed }))
    else some (record g { main = at_ready })
main_turn launches g launch_failed =
    some (record g { release_workers = true; main = joining launch_threw })
main_turn launches g at_ready =
    if g.ready_workers == g.thread_count
    then some (record g { start_workers = true; main = at_completion })
    else none
main_turn launches g at_completion =
    if g.completed_workers == g.thread_count then some (record g { main = checking }) else none
main_turn launches g checking = some (record g { main = checked g.worker_failure })
main_turn launches g returned = some (record g { release_workers = true; main = joining timing })
main_turn launches g (failing e) =
    some (record g { release_workers = true; main = joining (failure_thrown e) })
main_turn launches g (joining r) =
    if all_ended g.workers then some (record g { main = over r }) else none
main_turn launches g (over r) = none

pub data Step (g t : ProducerGroup) : Type 0 where
  works :
      (before : List Worker) (w : Worker) (after : List Worker) (a : Option Failure) (u : Worker)
      (h : ProducerGroup)
      → g.workers ≡ before ++ (w ∷ after)
      → worker_turn a g w.sent w.place ≡ some (u, h)
      → t ≡ record h { workers = before ++ (u ∷ after) }
      → Step g t
  leads : (launches : Bool) → main_turn launches g g.main ≡ some t → Step g t

-- What `threads` threads with `messages` messages each reach in `n` turns.
pub data Reach (threads messages : ℕ) : ℕ → ProducerGroup → Type 0 where
  start : Reach threads messages 0 (new_group threads messages)
  later :
      {n : ℕ} {g t : ProducerGroup}
      → Reach threads messages n g
      → Step g t
      → Reach threads messages (suc n) t
