-- ===== src/Benchmark/Producers/Fixed.antt =====
-- The options of a group do not change.
use mathlib.Core.Path.{subst}
use cpp_logger.Base.{arith, ℕ, ◌≡◌, refl, sym, ◌∙◌, Bool, Option, none, some}
use cpp_logger.Benchmark.Producers.{
  launching, launch_failed, at_ready, at_completion, checking, returned, failing, joining, over,
  Main, ProducerGroup, new_group, main_turn, Step, works, leads, Reach, start, later,
}
use cpp_logger.Benchmark.Producers.Turned.{Turned}
use cpp_logger.Benchmark.Producers.Turns.{worker_turn-Turned}

abbrev SameOptions : ProducerGroup → ProducerGroup → Type 0
SameOptions g t =
    (t.thread_count ≡ g.thread_count) × (t.messages_per_thread ≡ g.messages_per_thread)

abbrev Keeps : ProducerGroup → Option ProducerGroup → Type 0
Keeps g none = Unit
Keeps g (some t) = SameOptions g t

main_turn-Keeps :
    (launches : Bool) (g : ProducerGroup) (m : Main) → Keeps g (main_turn launches g m)
unfolding main_turn
main_turn-Keeps launches g launching = ground arith
main_turn-Keeps launches g launch_failed = (refl, refl)
main_turn-Keeps launches g at_ready = ground arith
main_turn-Keeps launches g at_completion = ground arith
main_turn-Keeps launches g checking = (refl, refl)
main_turn-Keeps launches g returned = (refl, refl)
main_turn-Keeps launches g (failing e) = (refl, refl)
main_turn-Keeps launches g (joining r) = ground arith
main_turn-Keeps launches g (over r) = tt

step-SameOptions : {g t : ProducerGroup} → Step g t → SameOptions g t
step-SameOptions {g} (works before w after a u h e f k) =
    let turned : Turned g w.sent w.place u h = worker_turn-Turned a g h w.sent w.place u f in
    subst (SameOptions g) (sym k) (turned.threads, turned.goes_on.messages)
step-SameOptions {g} (leads launches e) = subst (Keeps g) e (main_turn-Keeps launches g g.main)

pub Reach-options :
    {threads messages n : ℕ} {g : ProducerGroup}
    → Reach threads messages n g
    → (g.thread_count ≡ threads) × (g.messages_per_thread ≡ messages)
unfolding new_group
Reach-options start = (refl, refl)
Reach-options (later r s) =
    let (n, m) = step-SameOptions s in
    let (threads, messages) = Reach-options r in (n ∙ threads, m ∙ messages)
