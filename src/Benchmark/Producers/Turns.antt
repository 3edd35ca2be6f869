-- ===== src/Benchmark/Producers/Turns.antt =====
-- What each turn of a producer does to the group's counters and to what the producer has sent.
use mathlib.Core.Path.{subst}
use cpp_logger.Base.{
  ℕ, zero, suc, ◌≡◌, refl, Bool, true, false, Option, none, some, arith, if◌then◌else◌,
}
use cpp_logger.Base.Outcome.{Failure}
use cpp_logger.Benchmark.Producers.{
  Place, preparing, arriving, at_start, submitting, completing, at_release, ended, Worker,
  ProducerGroup, worker_turn,
}
use cpp_logger.Benchmark.Producers.Turned.{
  Turned, has_failure, stays, fails, prepared-Turned, unprepared-Turned, arriving-Turned,
  completing-Turned, start-Turned,
}

abbrev Answers : ProducerGroup → ℕ → Place → Option (Worker × ProducerGroup) → Type 0
Answers g sent p none = Unit
Answers g sent p (some (u, h)) = Turned g sent p u h

-- A turn that waits for a flag.
guarded :
    (g : ProducerGroup) (sent : ℕ) (p : Place) (u : Worker) (h : ProducerGroup) (flag : Bool)
    → (flag ≡ true → Turned g sent p u h)
    → Answers g sent p (if flag then some (u, h) else none)
guarded g sent p u h true t = t refl
guarded g sent p u h false t = tt

worker_turn-Answers :
    (a : Option Failure) (g : ProducerGroup) (sent : ℕ) (p : Place)
    → Answers g sent p (worker_turn a g sent p)
unfolding worker_turn
worker_turn-Answers none g sent preparing = prepared-Turned g sent
worker_turn-Answers (some e) g sent preparing = unprepared-Turned g e sent
worker_turn-Answers none g sent (arriving c) = arriving-Turned g sent c
worker_turn-Answers (some e) g sent (arriving c) = arriving-Turned g sent c
worker_turn-Answers none g sent (at_start c) =
    guarded g sent (at_start c) _ g g.start_workers (start-Turned g sent c)
worker_turn-Answers (some e) g sent (at_start c) =
    guarded g sent (at_start c) _ g g.start_workers (start-Turned g sent c)
worker_turn-Answers none g sent (submitting zero) =
    stays g sent (submitting zero) _ refl refl refl
      (λ f. (λ n. omega (arith, f.0), omega (arith, f.0), f.1)) (omega arith)
worker_turn-Answers (some e) g sent (submitting zero) =
    stays g sent (submitting zero) _ refl refl refl
      (λ f. (λ n. omega (arith, f.0), omega (arith, f.0), f.1)) (omega arith)
worker_turn-Answers none g sent (submitting (suc left)) =
    stays g sent (submitting (suc left)) _ refl refl refl (λ f. (omega (arith, f.0), f.1))
      (omega arith)
worker_turn-Answers (some e) g sent (submitting (suc left)) =
    fails g e sent (submitting (suc left)) _ refl refl refl refl
      (λ f. (λ n. absurd (has_failure g.worker_failure e n), omega (arith, f.0), f.1)) (omega arith)
worker_turn-Answers none g sent completing = completing-Turned g sent
worker_turn-Answers (some e) g sent completing = completing-Turned g sent
worker_turn-Answers none g sent at_release =
    guarded g sent at_release _ g g.release_workers
      (λ r. stays g sent at_release _ refl refl refl (λ f. (f.0, f.1, f.2, r)) (omega arith))
worker_turn-Answers (some e) g sent at_release =
    guarded g sent at_release _ g g.release_workers
      (λ r. stays g sent at_release _ refl refl refl (λ f. (f.0, f.1, f.2, r)) (omega arith))
worker_turn-Answers none g sent ended = tt
worker_turn-Answers (some e) g sent ended = tt

pub worker_turn-Turned :
    (a : Option Failure) (g h : ProducerGroup) (sent : ℕ) (p : Place) (u : Worker)
    → worker_turn a g sent p ≡ some (u, h)
    → Turned g sent p u h
worker_turn-Turned a g h sent p u e = subst (Answers g sent p) e (worker_turn-Answers a g sent p)
