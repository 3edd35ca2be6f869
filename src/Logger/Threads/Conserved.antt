-- ===== src/Logger/Threads/Conserved.antt =====
-- In every reachable state of the threads, nothing that the queue took in is lost, doubled or out of
-- order on its way to the sinks.
use mathlib.Core.Path.{subst}
use cpp_logger.Base.{
  ℕ, ◌+◌, ◌%◌, ◌<◌, ◌≡◌, ◌≢◌, refl, sym, ap, ◌∙◌, true, false, List, [], ◌++◌, map, append-nil,
  word_mod,
}
use cpp_logger.Queue.{block, is_block}
use cpp_logger.Queue.History.{value, evictions}
use cpp_logger.Queue.Lossless.{IsLossless}
use cpp_logger.Queue.Handed.{handed_values, map-value-handed}
use cpp_logger.Sink.{LogSink, Bytes}
use cpp_logger.Logger.{LogRecord, Thread, absent, looping, finished}
use cpp_logger.Logger.Config.{is_periodic}
use cpp_logger.Logger.Format.{Locale}
use cpp_logger.Logger.Worker.Rounds.{texts}
use cpp_logger.Logger.Worker.Gains.{Reliable, Gains}
use cpp_logger.Logger.Threads.{Phase, ready, holds, missed, System, trace_of, Reach}
use cpp_logger.Logger.Threads.Serving.{Serving}
use cpp_logger.Logger.Threads.Invariant.{Inv, at_phase, at_end}
use cpp_logger.Logger.Threads.Preserved.{Reach-Inv}

-- The records that the worker has taken and not yet given to the sinks.
abbrev pub in_hands : Thread → Phase → List LogRecord
in_hands looping (holds n batch) = batch
in_hands _ _ = []

module _ {S : Type 0} (sink : LogSink S) (received : S → List Bytes) (good : Reliable sink received)
    (locale : Locale) (hashes : (id : ℕ) → locale.thread_hash id < word_mod) where
  -- Of the records that the queue handed over, `done` were given to every sink.
  pub record Conserved (s : System S) : Type 0 where
    pub fifo : s.accepted ≡ map value s.left ++ s.logger.queue.items
    pub counted : s.logger.queue.dropped_count ≡ (evictions s.left + s.refused) % word_mod
    pub done : List LogRecord
    pub split : handed_values s.left ≡ done ++ in_hands s.logger.worker s.phase
    pub gains : Gains received (texts locale done) s.given s.logger.sinks

  Serving-Conserved :
      (s : System S) (hand : List LogRecord)
      → Serving received locale (trace_of s) s.logger.write_batch_size s.logger.sinks s.given hand
      → in_hands s.logger.worker s.phase ≡ hand
      → Conserved s
  Serving-Conserved s hand h e = record {
    fifo = h.accounts.fifo;
    counted = h.accounts.counted;
    done = h.done;
    split = h.split ∙ ap (λ xs. h.done ++ xs) (sym e);
    gains = h.gains;
  }

  Inv-Conserved :
      (s : System S) (w : Thread) (p : Phase)
      → Inv received locale s
      → s.logger.worker ≡ w
      → s.phase ≡ p
      → w ≢ absent
      → Conserved s
  Inv-Conserved s absent p h e f live = absurd (live refl)
  Inv-Conserved s looping (ready n) h e f live =
      Serving-Conserved s [] (at_phase received locale s (ready n) h e f) (rw (e, f) refl)
  Inv-Conserved s looping (holds n batch) h e f live =
      Serving-Conserved s batch (at_phase received locale s (holds n batch) h e f) (rw (e, f) refl)
  Inv-Conserved s looping (missed n) h e f live =
      Serving-Conserved s [] (at_phase received locale s (missed n) h e f).0 (rw (e, f) refl)
  Inv-Conserved s finished p h e f live =
      Serving-Conserved s [] (at_end received locale s h e).0 (rw e refl)

  -- If no sink throws: in every reachable state of the threads with a worker, looping or finished,
  -- what the queue took in since `init` is what left it, in that order, and then what is still in it;
  -- and of the records that it handed to the worker, every sink has been given the texts, once and in
  -- order, but for the batch in the worker's hands. So no record is lost or doubled between the queue
  -- and the sinks, whatever producers, `stop` and `setLevel` do meanwhile. (Hashes of
  -- threads have 64 bits.)
  pub Reach-Conserved :
      {s : System S} → Reach sink locale s → s.logger.worker ≢ absent → Conserved s
  Reach-Conserved {s} r live =
      Inv-Conserved s s.logger.worker s.phase (Reach-Inv sink received good locale hashes r) refl
        refl live

  -- If no sink throws, the policy is `Block` and the flush policy is not periodic: when the worker has
  -- finished, every sink has been given the text of every record that the queue took in since `init`,
  -- once and in order, and the queue is closed, so that none follows. This is what `stop` waits for.
  -- (Hashes of threads have 64 bits.)
  pub Reach-drains :
      {s : System S}
      → Reach sink locale s
      → s.logger.worker ≡ finished
      → s.logger.queue.overflow_policy ≡ block
      → is_periodic s.logger.flush_policy ≡ false
      → Gains received (texts locale s.accepted) s.given s.logger.sinks
        × (s.logger.queue.items ≡ [])
        × (s.logger.queue.is_closed ≡ true)
  Reach-drains {s} r w policy untimed =
      let (h, closed, drained) =
        at_end received locale s (Reach-Inv sink received good locale hashes r) w in
      let empty : s.logger.queue.items ≡ [] = (drained untimed).0 in
      let loss : IsLossless (trace_of s) = h.lossless (ap is_block policy) in
      let all : s.accepted ≡ h.done =
        h.accounts.fifo
        ∙ ap (λ xs. map value s.left ++ xs) empty
        ∙ append-nil (map value s.left)
        ∙ map-value-handed s.left loss.evicted_none
        ∙ h.split
        ∙ append-nil h.done in
      (
        subst (λ rs. Gains received (texts locale rs) s.given s.logger.sinks) (sym all) h.gains,
        empty,
        closed,
      )
