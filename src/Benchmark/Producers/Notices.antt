-- ===== src/Benchmark/Producers/Notices.antt =====
-- benchmark/common/BenchmarkHarness.h: the notifications of `ProducerGroup`. A turn that changes what
-- a wait's predicate reads does so under the mutex of the wait, and notifies at the turn's end.
use cpp_logger.Base.{Bool, true, false, Option, none, some, length, ltb, ◌==◌, if◌then◌else◌}
use cpp_logger.Benchmark.Producers.{
  Place, arriving, completing, Main, launching, launch_failed, at_ready, returned, failing,
  ProducerGroup, Step, works, leads,
}

-- `readyCondition_` and `completionCondition_`, where the leader waits, and `startCondition_` and
-- `releaseCondition_`, where the producers do.
pub data Condition : Type 0 where
  ready start completion release : Condition

pub data Notice : Type 0 where
  notify_one notify_all : Condition → Notice

-- What a producer's turn notifies.
unfoldable pub worker_notice : Place → Option Notice
worker_notice (arriving can_submit) = some (notify_one ready)
worker_notice completing = some (notify_one completion)
worker_notice _ = none

-- What the leader's turn notifies; it starts the producers too when a thread could not be launched.
unfoldable pub main_notice : Bool → ProducerGroup → Main → Option Notice
main_notice launches g launching =
    if ltb (length g.workers) g.thread_count
    then (if launches then none else some (notify_all start))
    else none
main_notice launches g launch_failed = some (notify_all release)
main_notice launches g at_ready = some (notify_all start)
main_notice launches g returned = some (notify_all release)
main_notice launches g (failing e) = some (notify_all release)
main_notice launches g _ = none

-- The predicate of the waits on a condition.
unfoldable pub predicate : Condition → ProducerGroup → Bool
predicate ready g = g.ready_workers == g.thread_count
predicate start g = g.start_workers
predicate completion g = g.completed_workers == g.thread_count
predicate release g = g.release_workers

-- All that can wait on the condition are woken: one notification is enough for the leader.
abbrev pub wakes : Condition → Option Notice → Bool
wakes ready (some (notify_one ready)) = true
wakes completion (some (notify_one completion)) = true
wakes ready (some (notify_all ready)) = true
wakes start (some (notify_all start)) = true
wakes completion (some (notify_all completion)) = true
wakes release (some (notify_all release)) = true
wakes _ _ = false

abbrev pub notice_of : {g t : ProducerGroup} → Step g t → Option Notice
notice_of (works before w after a u h e f k) = worker_notice w.place
notice_of {g} (leads launches e) = main_notice launches g g.main
