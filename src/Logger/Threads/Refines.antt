-- ===== src/Logger/Threads/Refines.antt =====
-- The threads of the logger implement the log of Logger/Spec.antt.
pub mod Steps
pub mod Simulates
use mathlib.Core.List.{append_cancel_right}
use cpp_logger.Base.{
  ℕ, suc, ◌+◌, ◌≡◌, refl, sym, ap, ◌∙◌, Bool, true, false, List, [], ◌∷◌, ◌++◌, map, arith,
  append-nil, drop, take-append-drop,
}
use cpp_logger.Queue.{BlockingQueue, Push, Pop}
use cpp_logger.Queue
use cpp_logger.Queue.Fifo.{evictions-append, evictions-handed}
use cpp_logger.Queue.Handed.{handed_values, Missed}
use cpp_logger.Queue.History.{Trace, Exit, handed, evictions, front, after_push, pushed, batched}
use cpp_logger.Queue.History
use cpp_logger.Queue.Outcomes.{Answers, Stays}
use cpp_logger.Queue.Taken.{Took}
use cpp_logger.Logger.{LogRecord, looping}
use cpp_logger.Logger.Spec.{Log, Does, nothing, accepts, drops_newest, drops_oldest, hands, Log-eq}
use cpp_logger.Logger.Threads.{ready, System, trace_of, phase_after}
use cpp_logger.Logger.Threads.Conserved.{in_hands}

evicted_one :
    (es : List (Exit LogRecord)) (xs : List LogRecord) (k : ℕ) (x : LogRecord)
    (rest : List LogRecord)
    → xs ≡ x ∷ rest
    → evictions (es ++ front xs) + k ≡ suc (evictions es + k)
unfolding front
evicted_one es [] k x rest e = cc
evicted_one es (y ∷ ys) k x rest e = omega (arith, evictions-append es (History.evicted y ∷ []))

closed_still : (q r : BlockingQueue LogRecord) → Stays q r → r.is_closed ≡ q.is_closed
closed_still q r k = k.is_open ∙ sym k.was_open

module _ {S : Type 0} where
  -- The log of a state in which `done` has been written.
  abbrev pub log_of : System S → List LogRecord → Log
  log_of s done = record {
    waiting = s.logger.queue.items;
    in_hand = in_hands s.logger.worker s.phase;
    written = done;
    lost = evictions s.left + s.refused;
    is_closed = s.logger.queue.is_closed;
    capacity = s.logger.queue.capacity;
    policy = s.logger.queue.overflow_policy;
  }

  -- `done` is what was handed over but for what the worker has in its hands.
  abbrev pub IsDone : System S → List LogRecord → Type 0
  IsDone s done = handed_values s.left ≡ done ++ in_hands s.logger.worker s.phase

  pub IsDone-same :
      (s t : System S) (done after : List LogRecord)
      → IsDone s done
      → IsDone t after
      → handed_values t.left ≡ handed_values s.left
      → in_hands t.logger.worker t.phase ≡ in_hands s.logger.worker s.phase
      → after ≡ done
  IsDone-same s t done after d e left hand =
      append_cancel_right after done (in_hands s.logger.worker s.phase)
        (ap (λ xs. after ++ xs) (sym hand) ∙ sym e ∙ left ∙ d)

  -- The log after a turn with the queue.
  abbrev pub log_after : System S → Trace LogRecord → (hand done : List LogRecord) → Log
  log_after s u hand done = record {
    waiting = u.queue.items;
    in_hand = hand;
    written = done;
    lost = evictions u.left + u.refused;
    is_closed = u.queue.is_closed;
    capacity = u.queue.capacity;
    policy = u.queue.overflow_policy;
  }

  pub pushed-Does :
      (s : System S) (r : LogRecord) (p : Push LogRecord) (done : List LogRecord)
      → Answers s.logger.queue r p
      → Does
          (log_of s done)
          (log_after s (after_push (trace_of s) r p) (in_hands s.logger.worker s.phase) done)
  unfolding after_push pushed front
  pushed-Does s r (Push.returns q Queue.enqueued x) done (items, room, k) =
      accepts r k.was_open room
        (Log-eq _ _ items refl refl refl (closed_still s.logger.queue q k) k.capacity k.policy)
  pushed-Does s r (Push.returns q Queue.dropped_newest x) done (items, full, newest, k) =
      drops_newest k.was_open full newest (
        Log-eq _ _ items refl refl (omega arith) (closed_still s.logger.queue q k) k.capacity
          k.policy)
  pushed-Does s r (Push.returns q Queue.dropped_oldest x) done a =
      let k : Stays s.logger.queue q = a.stays in
      drops_oldest a.oldest r a.rest k.was_open a.full a.waits_not a.keeps_not a.held (
        Log-eq _ _ a.holds refl refl
          (evicted_one s.left s.logger.queue.items s.refused a.oldest a.rest a.held)
          (closed_still s.logger.queue q k) k.capacity k.policy)
  pushed-Does s r (Push.returns q Queue.closed x) done e = nothing (
      ap
        (λ b.
          log_after s (record (trace_of s) { queue = b }) (in_hands s.logger.worker s.phase) done)
        e)
  pushed-Does s r Push.waits done a = nothing refl
  pushed-Does s r Push.undefined done a = nothing refl

  -- A turn of the worker with the queue.
  pub taken-Does :
      (s : System S) (size : ℕ) (timed_out : Bool) (p : Pop LogRecord (List LogRecord × Bool))
      (n : ℕ) (done : List LogRecord)
      → Took s.logger.queue size p
      → Missed s.logger.queue size timed_out p
      → s.logger.worker ≡ looping
      → s.phase ≡ ready n
      → Does
          (log_of s done)
          (log_after s (batched (trace_of s) p) (in_hands looping (phase_after n p)) done)
  unfolding batched
  taken-Does s size timed_out (Pop.returns (xs, true) q x) n done (front, rest, some_item) miss w
        e =
      hands xs q.items (rw (w, e) refl)
        (sym (take-append-drop size s.logger.queue.items)
          ∙ ap (λ ys. ys ++ drop size s.logger.queue.items) (sym front)
          ∙ ap (λ ys. xs ++ ys) (λ i. (sym rest i).items))
        (Log-eq _ _ refl refl refl
          (omega (arith, evictions-append s.left (map handed xs), evictions-handed xs))
          (λ i. (rest i).is_closed) (λ i. (rest i).capacity) (λ i. (rest i).overflow_policy))
  taken-Does s size timed_out (Pop.returns (xs, false) q x) n done same miss w e = nothing (
      Log-eq _ _ (λ i. (same i).items) (rw (w, e) refl) refl
        (omega (
          arith,
          ap (λ ys. evictions (s.left ++ map handed ys)) miss.0,
          ap evictions (append-nil s.left),
        ))
        (λ i. (same i).is_closed) (λ i. (same i).capacity) (λ i. (same i).overflow_policy))
  taken-Does s size timed_out Pop.waits n done same miss w e =
      nothing (Log-eq _ _ refl (rw (w, e) refl) refl refl refl refl refl)
