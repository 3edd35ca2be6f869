-- ===== src/Benchmark/Producers/Told.antt =====
-- The producers and their leader wake each other.
use mathlib.Core.Path.{subst}
use cpp_logger.Base.{
  ℕ, zero, suc, ◌≡◌, refl, sym, ap, ◌∙◌, Bool, true, false, Option, none, some, List, length, ltb,
  ◌==◌, if◌then◌else◌,
}
use cpp_logger.Base.Outcome.{Failure}
use cpp_logger.Benchmark.Producers.{
  Place, preparing, arriving, at_start, submitting, completing, at_release, ended, Worker, Main,
  launching, launch_failed, at_ready, at_completion, checking, returned, failing, joining, over,
  ProducerGroup, record_worker_failure, worker_turn, main_turn, all_ended, Step, works, leads,
}
use cpp_logger.Benchmark.Producers.Notices.{
  Condition, ready, start, completion, release, Notice, notify_one, notify_all, worker_notice,
  main_notice, predicate, wakes, notice_of,
}

-- If the turn makes the predicate true, it wakes those that wait for it.
abbrev Tells : Condition → Option Notice → (g h : ProducerGroup) → Type 0
Tells c n g h = predicate c g ≡ false → predicate c h ≡ true → wakes c n ≡ true

abbrev WorkerTells :
    Condition → Option Notice → ProducerGroup → Option (Worker × ProducerGroup) → Type 0
WorkerTells c n g none = Unit
WorkerTells c n g (some (u, h)) = Tells c n g h

abbrev MainTells : Condition → Option Notice → ProducerGroup → Option ProducerGroup → Type 0
MainTells c n g none = Unit
MainTells c n g (some h) = Tells c n g h

same-Tells :
    (c : Condition) (n : Option Notice) (g h : ProducerGroup)
    → predicate c h ≡ predicate c g
    → Tells c n g h
same-Tells c n g h e off on = cc

guarded-WorkerTells :
    (c : Condition) (n : Option Notice) (g : ProducerGroup) (u : Worker) (flag : Bool)
    → WorkerTells c n g (if flag then some (u, g) else none)
guarded-WorkerTells c n g u true = same-Tells c n g g refl
guarded-WorkerTells c n g u false = tt

failed-predicate :
    (c : Condition) (g : ProducerGroup) (e : Failure)
    → predicate c (record_worker_failure g e) ≡ predicate c g
unfolding predicate record_worker_failure
failed-predicate ready g e = refl
failed-predicate start g e = refl
failed-predicate completion g e = refl
failed-predicate release g e = refl

prepared-predicate :
    (c : Condition) (g : ProducerGroup) (k : ℕ)
    → predicate c (record g { prepared = k }) ≡ predicate c g
unfolding predicate
prepared-predicate ready g k = refl
prepared-predicate start g k = refl
prepared-predicate completion g k = refl
prepared-predicate release g k = refl

arriving-Tells :
    (c : Condition) (g : ProducerGroup) (k : ℕ)
    → Tells c (some (notify_one ready)) g (record g { ready_workers = k })
unfolding predicate
arriving-Tells ready g k off on = refl
arriving-Tells start g k off on = cc
arriving-Tells completion g k off on = cc
arriving-Tells release g k off on = cc

completing-Tells :
    (c : Condition) (g : ProducerGroup) (k : ℕ)
    → Tells c (some (notify_one completion)) g (record g { completed_workers = k })
unfolding predicate
completing-Tells ready g k off on = cc
completing-Tells start g k off on = cc
completing-Tells completion g k off on = refl
completing-Tells release g k off on = cc

worker_turn-Tells :
    (c : Condition) (a : Option Failure) (g : ProducerGroup) (sent : ℕ) (p : Place)
    → WorkerTells c (worker_notice p) g (worker_turn a g sent p)
unfolding worker_turn worker_notice
worker_turn-Tells c none g sent preparing = same-Tells c none g _ (prepared-predicate c g _)
worker_turn-Tells c (some e) g sent preparing =
    same-Tells c none g _
      (prepared-predicate c (record_worker_failure g e) _ ∙ failed-predicate c g e)
worker_turn-Tells c a g sent (arriving can_submit) = arriving-Tells c g _
worker_turn-Tells c a g sent (at_start can_submit) = guarded-WorkerTells c none g _ g.start_workers
worker_turn-Tells c a g sent (submitting zero) = same-Tells c none g g refl
worker_turn-Tells c none g sent (submitting (suc left)) = same-Tells c none g g refl
worker_turn-Tells c (some e) g sent (submitting (suc left)) =
    same-Tells c none g _ (failed-predicate c g e)
worker_turn-Tells c a g sent completing = completing-Tells c g _
worker_turn-Tells c a g sent at_release = guarded-WorkerTells c none g _ g.release_workers
worker_turn-Tells c a g sent ended = tt

started-Tells :
    (c : Condition) (g : ProducerGroup) (m : Main)
    → Tells c (some (notify_all start)) g (record g { start_workers = true; main = m })
unfolding predicate
started-Tells ready g m off on = cc
started-Tells start g m off on = refl
started-Tells completion g m off on = cc
started-Tells release g m off on = cc

released-Tells :
    (c : Condition) (g : ProducerGroup) (m : Main)
    → Tells c (some (notify_all release)) g (record g { release_workers = true; main = m })
unfolding predicate
released-Tells ready g m off on = cc
released-Tells start g m off on = cc
released-Tells completion g m off on = cc
released-Tells release g m off on = refl

goes_on-Tells :
    (c : Condition) (n : Option Notice) (g : ProducerGroup) (m : Main)
    → Tells c n g (record g { main = m })
unfolding predicate
goes_on-Tells ready n g m off on = cc
goes_on-Tells start n g m off on = cc
goes_on-Tells completion n g m off on = cc
goes_on-Tells release n g m off on = cc

placed-predicate :
    (c : Condition) (g : ProducerGroup) (ws : List Worker)
    → predicate c (record g { workers = ws }) ≡ predicate c g
unfolding predicate
placed-predicate ready g ws = refl
placed-predicate start g ws = refl
placed-predicate completion g ws = refl
placed-predicate release g ws = refl

guarded-MainTells :
    (c : Condition) (n : Option Notice) (g h : ProducerGroup) (flag : Bool)
    → Tells c n g h
    → MainTells c n g (if flag then some h else none)
guarded-MainTells c n g h true t = t
guarded-MainTells c n g h false t = tt

launching-Tells :
    (c : Condition) (g : ProducerGroup) (more launches : Bool) (ws : List Worker)
    → MainTells c (if more then (if launches then none else some (notify_all start)) else none) g (
        if more
        then (if launches
            then some (record g { workers = ws })
            else some (record g { start_workers = true; main = launch_failed }))
        else some (record g { main = at_ready }))
launching-Tells c g true true ws = same-Tells c none g _ (placed-predicate c g ws)
launching-Tells c g true false ws = started-Tells c g launch_failed
launching-Tells c g false launches ws = goes_on-Tells c none g at_ready

main_turn-Tells :
    (c : Condition) (launches : Bool) (g : ProducerGroup) (m : Main)
    → MainTells c (main_notice launches g m) g (main_turn launches g m)
unfolding main_turn main_notice
main_turn-Tells c launches g launching =
    launching-Tells c g (ltb (length g.workers) g.thread_count) launches _
main_turn-Tells c launches g launch_failed = released-Tells c g _
main_turn-Tells c launches g at_ready =
    guarded-MainTells c (some (notify_all start)) g _ (g.ready_workers == g.thread_count)
      (started-Tells c g at_completion)
main_turn-Tells c launches g at_completion =
    guarded-MainTells c none g _ (g.completed_workers == g.thread_count)
      (goes_on-Tells c none g checking)
main_turn-Tells c launches g checking = goes_on-Tells c none g _
main_turn-Tells c launches g returned = released-Tells c g _
main_turn-Tells c launches g (failing e) = released-Tells c g _
main_turn-Tells c launches g (joining r) =
    guarded-MainTells c none g _ (all_ended g.workers) (goes_on-Tells c none g (over r))
main_turn-Tells c launches g (over r) = tt

-- The wakeups among a benchmark's threads: a turn that makes the predicate of a wait true, which
-- was false before, notifies its condition, and in a way that wakes all that can wait there: the leader
-- waits on `readyCondition_` and `completionCondition_`, all producers wait on `startCondition_` and
-- `releaseCondition_`.
pub step-wakes :
    {g t : ProducerGroup} (s : Step g t) (c : Condition)
    → predicate c g ≡ false
    → predicate c t ≡ true
    → wakes c (notice_of s) ≡ true
step-wakes {g} (works before w after a u h e f k) c off on =
    subst (WorkerTells c (worker_notice w.place) g) f (worker_turn-Tells c a g w.sent w.place) off
      (sym (placed-predicate c h _) ∙ sym (ap (predicate c) k) ∙ on)
step-wakes {g} (leads launches e) c off on =
    subst (MainTells c (main_notice launches g g.main) g) e (main_turn-Tells c launches g g.main)
      off on
