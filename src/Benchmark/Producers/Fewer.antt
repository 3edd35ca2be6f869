-- ===== src/Benchmark/Producers/Fewer.antt =====
-- Every step of a group leaves fewer turns.
use mathlib.Core.Path.{subst}
use cpp_logger.Base.{
  ℕ, suc, ◌+◌, ◌-◌, ◌*◌, ◌≤◌, ◌<◌, ◌≡◌, refl, sym, ap, ◌∙◌, Bool, true, false, Option, none, some,
  List, [], ◌∷◌, ◌++◌, arith, length, length-append, ltb, ◌==◌, if◌then◌else◌,
}
use cpp_logger.Base.Outcome.{Failure}
use cpp_logger.Benchmark.Producers.{
  Worker, Main, launching, launch_failed, at_ready, at_completion, checking, returned, failing,
  joining, over, timing, launch_threw, failure_thrown, preparing, ProducerGroup, main_turn, checked,
  all_ended, Step, works, leads,
}
use cpp_logger.Benchmark.Producers.Places.{turns_left}
use cpp_logger.Benchmark.Producers.Counts.{turns_of, sum_of-append, sum_of-middle, length-middle}
use cpp_logger.Benchmark.Producers.Turned.{Turned}
use cpp_logger.Benchmark.Producers.Turns.{worker_turn-Turned}

-- The turns that the leader still has at most, with those of the threads that it may still launch.
abbrev pub main_turns : Main → (to_launch messages : ℕ) → ℕ
main_turns launching to_launch messages = to_launch * (messages + 8) + 8
main_turns at_ready to_launch messages = 7
main_turns at_completion to_launch messages = 6
main_turns checking to_launch messages = 5
main_turns launch_failed to_launch messages = 4
main_turns returned to_launch messages = 4
main_turns (failing e) to_launch messages = 4
main_turns (joining r) to_launch messages = 3
main_turns (over r) to_launch messages = 0

abbrev pub turns_of_group : ProducerGroup → ℕ
turns_of_group g =
    turns_of g.messages_per_thread g.workers
    + main_turns g.main (g.thread_count - length g.workers) g.messages_per_thread

works_fewer :
    (g : ProducerGroup) (before : List Worker) (w : Worker) (after : List Worker) (u : Worker)
    (h : ProducerGroup)
    → g.workers ≡ before ++ (w ∷ after)
    → Turned g w.sent w.place u h
    → turns_of_group (record h { workers = before ++ (u ∷ after) }) < turns_of_group g
works_fewer g before w after u h e k =
    let m : ℕ = g.messages_per_thread in
    let here = sum_of-middle (λ x. turns_left m x.place) before w after in
    let there = sum_of-middle (λ x. turns_left m x.place) before u after in
    let before_turn : turns_of_group g
        ≡ turns_of m (before ++ (w ∷ after))
          + main_turns g.main (g.thread_count - length (before ++ (w ∷ after))) m =
      ap (λ ws. turns_of m ws + main_turns g.main (g.thread_count - length ws) m) e in
    let after_turn : turns_of_group (record h { workers = before ++ (u ∷ after) })
        ≡ turns_of m (before ++ (u ∷ after))
          + main_turns g.main (g.thread_count - length (before ++ (u ∷ after))) m =
      ap
        (λ k.
          turns_of k (before ++ (u ∷ after))
          + main_turns h.main (h.thread_count - length (before ++ (u ∷ after))) k)
        k.goes_on.messages
      ∙ ap
          (λ x.
            turns_of m (before ++ (u ∷ after))
            + main_turns x (h.thread_count - length (before ++ (u ∷ after))) m)
          k.main
      ∙ ap
          (λ n.
            turns_of m (before ++ (u ∷ after))
            + main_turns g.main (n - length (before ++ (u ∷ after))) m)
          k.threads in
    let same : main_turns g.main (g.thread_count - length (before ++ (u ∷ after))) m
        ≡ main_turns g.main (g.thread_count - length (before ++ (w ∷ after))) m =
      ap (λ l. main_turns g.main (g.thread_count - l) m)
        (length-middle before u after ∙ sym (length-middle before w after)) in
    omega (arith, before_turn, after_turn, same, here, there, k.fewer)

abbrev Less : ProducerGroup → Option ProducerGroup → Type 0
Less g none = Unit
Less g (some t) = turns_of_group t < turns_of_group g

if-Less :
    (g : ProducerGroup) (x y : Option ProducerGroup) (flag : Bool)
    → (flag ≡ true → Less g x)
    → (flag ≡ false → Less g y)
    → Less g (if flag then x else y)
if-Less g x y true h k = h refl
if-Less g x y false h k = k refl

one_more : (a b c : ℕ) → a ≡ suc b → a * c ≡ c + b * c
one_more a b c e = ap (λ x. x * c) e ∙ omega arith

launch_fewer :
    (g : ProducerGroup)
    → g.main ≡ launching
    → ltb (length g.workers) g.thread_count ≡ true
    → turns_of_group
        (record g { workers = g.workers ++ (record { place = preparing; sent = 0 } ∷ []) })
      < turns_of_group g
launch_fewer g e l =
    let m : ℕ = g.messages_per_thread in
    let ws : List Worker = g.workers in
    let us : List Worker = ws ++ (record { place = preparing; sent = 0 } ∷ []) in
    let room : suc (length ws) ≤ g.thread_count = ground arith in
    let left : g.thread_count - length ws ≡ suc (g.thread_count - length us) =
      omega (arith, room, length-append ws (record { place = preparing; sent = 0 } ∷ [])) in
    let here : turns_of_group g ≡ turns_of m ws + ((g.thread_count - length ws) * (m + 8) + 8) =
      ap (λ x. turns_of m ws + main_turns x (g.thread_count - length ws) m) e in
    let there : turns_of_group (record g { workers = us })
        ≡ turns_of m us + ((g.thread_count - length us) * (m + 8) + 8) =
      ap (λ x. turns_of m us + main_turns x (g.thread_count - length us) m) e in
    omega (
      arith,
      here,
      there,
      one_more (g.thread_count - length ws) (g.thread_count - length us) (m + 8) left,
      sum_of-append (λ x. turns_left m x.place) ws (record { place = preparing; sent = 0 } ∷ []),
    )

checked_fewer :
    (g : ProducerGroup) (o : Option Failure) (k : ℕ)
    → main_turns (checked o) k g.messages_per_thread ≡ 4
checked_fewer g none k = refl
checked_fewer g (some e) k = refl

lead_fewer :
    (g : ProducerGroup) (m n : Main) (k : ℕ)
    → k ≡ g.thread_count - length g.workers
    → g.main ≡ m
    → main_turns n k g.messages_per_thread < main_turns m k g.messages_per_thread
    → turns_of g.messages_per_thread g.workers
        + main_turns n (g.thread_count - length g.workers) g.messages_per_thread
      < turns_of_group g
lead_fewer g m n k e f l =
    let turns : ℕ = turns_of g.messages_per_thread g.workers in
    let here : turns_of_group g ≡ turns + main_turns m k g.messages_per_thread =
      ap (λ x. turns + main_turns x (g.thread_count - length g.workers) g.messages_per_thread) f
      ∙ ap (λ x. turns + main_turns m x g.messages_per_thread) (sym e) in
    let there : turns + main_turns n (g.thread_count - length g.workers) g.messages_per_thread
        ≡ turns + main_turns n k g.messages_per_thread =
      ap (λ x. turns + main_turns n x g.messages_per_thread) (sym e) in
    omega (arith, here, there, l)

main_turn-Less :
    (launches : Bool) (g : ProducerGroup) (m : Main) → g.main ≡ m → Less g (main_turn launches g m)
unfolding main_turn
main_turn-Less launches g launching e =
    if-Less g _ _ (ltb (length g.workers) g.thread_count)
      (λ l.
        if-Less g _ _ launches (λ b. launch_fewer g e l)
          (λ b. lead_fewer g launching launch_failed _ refl e (omega arith)))
      (λ l. lead_fewer g launching at_ready _ refl e (omega arith))
main_turn-Less launches g launch_failed e =
    lead_fewer g launch_failed (joining launch_threw) _ refl e (omega arith)
main_turn-Less launches g at_ready e =
    if-Less g _ _ (g.ready_workers == g.thread_count)
      (λ h. lead_fewer g at_ready at_completion _ refl e (omega arith)) (λ h. tt)
main_turn-Less launches g at_completion e =
    if-Less g _ _ (g.completed_workers == g.thread_count)
      (λ h. lead_fewer g at_completion checking _ refl e (omega arith)) (λ h. tt)
main_turn-Less launches g checking e =
    lead_fewer g checking (checked g.worker_failure) _ refl e
      (omega (arith, checked_fewer g g.worker_failure (g.thread_count - length g.workers)))
main_turn-Less launches g returned e = lead_fewer g returned (joining timing) _ refl e (omega arith)
main_turn-Less launches g (failing x) e =
    lead_fewer g (failing x) (joining (failure_thrown x)) _ refl e (omega arith)
main_turn-Less launches g (joining r) e =
    if-Less g _ _ (all_ended g.workers)
      (λ h. lead_fewer g (joining r) (over r) _ refl e (omega arith)) (λ h. tt)
main_turn-Less launches g (over r) e = tt

pub step_fewer : {g t : ProducerGroup} → Step g t → turns_of_group t < turns_of_group g
step_fewer {g} (works before w after a u h e f k) =
    subst (λ t. turns_of_group t < turns_of_group g) (sym k)
      (works_fewer g before w after u h e (worker_turn-Turned a g h w.sent w.place u f))
step_fewer {g} (leads launches e) = subst (Less g) e (main_turn-Less launches g g.main refl)
