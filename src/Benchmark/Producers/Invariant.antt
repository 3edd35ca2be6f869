-- ===== src/Benchmark/Producers/Invariant.antt =====
-- The invariant of a group of producers.
use cpp_logger.Base.{◌≤◌, ◌≡◌, refl, ◌∙◌, true, false, Option, none, some, arith, length}
use cpp_logger.Base.Outcome.{Failure}
use cpp_logger.Benchmark.Producers.{
  Result, timing, launch_threw, failure_thrown, Main, launching, launch_failed, at_ready,
  at_completion, checking, returned, failing, joining, over, ProducerGroup,
}
use cpp_logger.Benchmark.Producers.Counts.{arrived_of, prepared_of, completed_of, AllFit}

-- The start was given, to all threads at once.
abbrev pub Started : ProducerGroup → Type 0
Started g =
    (g.start_workers ≡ true)
    × (length g.workers ≡ g.thread_count)
    × (g.ready_workers ≡ g.thread_count)

abbrev pub AllDone : ProducerGroup → Option Failure → Type 0
AllDone g failure =
    Started g × (g.completed_workers ≡ g.thread_count) × (g.worker_failure ≡ failure)

abbrev pub Ended : ProducerGroup → Result → Type 0
Ended g timing = AllDone g none
Ended g launch_threw = g.start_workers ≡ true
Ended g (failure_thrown e) = AllDone g (some e)

abbrev pub AtPlace : ProducerGroup → Main → Type 0
AtPlace g launching = g.start_workers ≡ false
AtPlace g launch_failed = g.start_workers ≡ true
AtPlace g at_ready = (g.start_workers ≡ false) × (length g.workers ≡ g.thread_count)
AtPlace g at_completion = Started g
AtPlace g checking = AllDone g g.worker_failure
AtPlace g returned = AllDone g none
AtPlace g (failing e) = AllDone g (some e)
AtPlace g (joining r) = Ended g r × (g.release_workers ≡ true)
AtPlace g (over r) = Ended g r × (g.release_workers ≡ true)

pub record Inv (g : ProducerGroup) : Type 0 where
  pub ready : g.ready_workers ≡ arrived_of g.workers
  pub prepares : g.prepared ≡ prepared_of g.workers
  pub done : g.completed_workers ≡ completed_of g.workers
  pub fit : AllFit g g.workers
  pub few : length g.workers ≤ g.thread_count
  pub at_place : AtPlace g g.main

-- A producer's turn, seen from the whole group.
pub record Onward (g t : ProducerGroup) : Type 0 where
  pub threads : t.thread_count ≡ g.thread_count
  pub starts : t.start_workers ≡ g.start_workers
  pub releases : t.release_workers ≡ g.release_workers
  pub same_length : length t.workers ≡ length g.workers
  pub more_ready : g.ready_workers ≤ t.ready_workers
  pub more_done : g.completed_workers ≤ t.completed_workers
  pub ready_bound : t.ready_workers ≤ length t.workers
  pub done_bound : t.completed_workers ≤ length t.workers
  pub calm : g.completed_workers ≡ length g.workers → t.worker_failure ≡ g.worker_failure

Onward-Started : (g t : ProducerGroup) → Onward g t → Started g → Started t
Onward-Started g t o (s, l, r) = (
  o.starts ∙ s,
  omega (arith, o.same_length, o.threads, l),
  omega (arith, o.more_ready, o.ready_bound, o.same_length, o.threads, l, r),
)

Onward-AllDone :
    (g t : ProducerGroup) (failure : Option Failure)
    → Onward g t
    → AllDone g failure
    → AllDone t failure
Onward-AllDone g t failure o ((s, l, r), d, e) = (
  Onward-Started g t o (s, l, r),
  omega (arith, o.more_done, o.done_bound, o.same_length, o.threads, l, d),
  o.calm (omega (arith, d, l)) ∙ e,
)

Onward-Ended : (g t : ProducerGroup) (r : Result) → Onward g t → Ended g r → Ended t r
Onward-Ended g t timing o h = Onward-AllDone g t none o h
Onward-Ended g t launch_threw o h = o.starts ∙ h
Onward-Ended g t (failure_thrown e) o h = Onward-AllDone g t (some e) o h

pub Onward-AtPlace : (g t : ProducerGroup) (m : Main) → Onward g t → AtPlace g m → AtPlace t m
Onward-AtPlace g t launching o h = o.starts ∙ h
Onward-AtPlace g t launch_failed o h = o.starts ∙ h
Onward-AtPlace g t at_ready o h = (o.starts ∙ h.0, omega (arith, o.same_length, o.threads, h.1))
Onward-AtPlace g t at_completion o h = Onward-Started g t o h
Onward-AtPlace g t checking o (s, d, e) =
    let h = Onward-AllDone g t g.worker_failure o (s, d, refl) in (h.0, h.1, refl)
Onward-AtPlace g t returned o h = Onward-AllDone g t none o h
Onward-AtPlace g t (failing e) o h = Onward-AllDone g t (some e) o h
Onward-AtPlace g t (joining r) o h = (Onward-Ended g t r o h.0, o.releases ∙ h.1)
Onward-AtPlace g t (over r) o h = (Onward-Ended g t r o h.0, o.releases ∙ h.1)
