-- ===== src/Logger/Threads/Stopping.antt =====
-- A `stop` that waits for the worker: the worker's turns that are left, whatever the sinks do.
pub mod Bounded
pub mod Returns
use cpp_logger.Base.{
  ℕ, ◌+◌, ◌*◌, ◌-◌, ◌<◌, ◌≡◌, ap, ◌∙◌, Bool, true, false, List, length, arith, length-take,
  length-drop,
}
use cpp_logger.Queue.{BlockingQueue, Pop}
use cpp_logger.Queue.History.{batched}
use cpp_logger.Queue.History
use cpp_logger.Queue.Taken.{Took}
use cpp_logger.Logger.{LogRecord, Logger, Thread, looping}
use cpp_logger.Logger.Worker.{Round, goes_on, leaves}
use cpp_logger.Logger.Worker.Effect.{Effect, IdleEffect}
use cpp_logger.Logger.Threads.{Phase, ready, holds, missed, System, ends_pop, ends_round}

-- How many turns a worker still has at most, once the queue is closed with `k` records in it.
abbrev pub turns_of : Thread → Phase → ℕ → ℕ
turns_of looping (missed n) k = 2 * k + 1
turns_of looping (ready n) k = 2 * k + 2
turns_of looping (holds n batch) k = 2 * k + 3
turns_of _ _ k = 0

module _ {S : Type 0} where
  abbrev pub turns_left : System S → ℕ
  turns_left s = turns_of s.logger.worker s.phase (length s.logger.queue.items)

  pub looping_turns :
      (s : System S) (p : Phase)
      → s.logger.worker ≡ looping
      → s.phase ≡ p
      → turns_left s ≡ turns_of looping p (length s.logger.queue.items)
  looping_turns s p w e =
      ap (λ x. turns_of x s.phase (length s.logger.queue.items)) w
      ∙ ap (λ x. turns_of looping x (length s.logger.queue.items)) e

  pub batch_turns :
      (s : System S) (n : ℕ) (p : Pop LogRecord (List LogRecord × Bool))
      → s.logger.worker ≡ looping
      → s.logger.queue.is_closed ≡ true
      → Took s.logger.queue s.logger.write_batch_size p
      → turns_left (ends_pop s n p) < 2 * length s.logger.queue.items + 2
  unfolding ends_pop batched
  batch_turns s n (Pop.returns (xs, true) q x) w c (front, rest, some_item) = rw w (
      omega (
        arith,
        some_item,
        ap length front,
        ap (λ (r : BlockingQueue LogRecord). length r.items) rest,
        length-take s.logger.write_batch_size s.logger.queue.items,
        length-drop s.logger.write_batch_size s.logger.queue.items,
      ))
  batch_turns s n (Pop.returns (xs, false) q x) w c same =
      rw w (omega (arith, ap (λ (r : BlockingQueue LogRecord). length r.items) same))
  batch_turns s n Pop.waits w c open_still =
      let off : s.logger.queue.is_closed ≡ false = λ i. (open_still i).is_closed in cc

  pub round_turns :
      (s : System S) (r : Round S)
      → s.logger.worker ≡ looping
      → Effect s.logger r
      → turns_left (ends_round s r) < 2 * length s.logger.queue.items + 3
  round_turns s (goes_on m n) w e =
      let same : turns_left (ends_round s (goes_on m n)) ≡ 2 * length s.logger.queue.items + 2 =
        ap (λ (l : Logger S). turns_of l.worker (ready n) (length l.queue.items)) e
        ∙ ap (λ x. turns_of x (ready n) (length s.logger.queue.items)) w in
      omega (arith, same)
  round_turns s (leaves m) w e =
      let none_left : turns_left (ends_round s (leaves m)) ≡ 0 =
        ap (λ x. turns_of x s.phase (length m.queue.items)) e.ended in
      omega (arith, none_left)
  round_turns s Round.waits w e = absurd e

  pub idle_turns :
      (s : System S) (r : Round S)
      → s.logger.queue.is_closed ≡ true
      → IdleEffect s.logger r
      → turns_left (ends_round s r) ≡ 0
  idle_turns s (goes_on m n) c e = cc
  idle_turns s (leaves m) c e = ap (λ x. turns_of x s.phase (length m.queue.items)) e.ended
  idle_turns s Round.waits c e = absurd e
