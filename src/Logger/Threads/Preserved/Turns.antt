-- ===== src/Logger/Threads/Preserved/Turns.antt =====
-- The worker's turns keep the invariant.
use mathlib.Core.Path.{subst}
use cpp_logger.Base.{
  ℕ, ◌<◌, ◌≡◌, inl, inr, refl, sym, ap, ◌∙◌, Bool, ◌&&◌, List, [], map, Bool-cases, word_mod,
  if◌then◌else◌,
}
use cpp_logger.Queue.{pop_batch_for}
use cpp_logger.Queue.History.{
  Trace, Exit, handed, evicted, value, evictions, Call, step, batched, after_push,
}
use cpp_logger.Queue.History
use cpp_logger.Queue.Lifecycle.{step-SameSettings}
use cpp_logger.Queue.Fifo.{step-Accounts}
use cpp_logger.Queue.Lossless.{step-IsLossless}
use cpp_logger.Queue.Handed.{pop_batch_for-Missed}
use cpp_logger.Sink.{LogSink, Bytes}
use cpp_logger.Logger.{LogRecord, Logger, looping, finished}
use cpp_logger.Logger.Config.{is_periodic}
use cpp_logger.Logger.Format.{Locale}
use cpp_logger.Logger.Worker.{
  Readings, Round, goes_on, leaves, pops_from, batch_formatted, format_batch, idle,
}
use cpp_logger.Logger.Worker.Rounds.{AllPrintable, batch_formatted-Served, idle-Idles}
use cpp_logger.Logger.Worker.Gains.{Reliable}
use cpp_logger.Logger.Threads.{ready, holds, missed, System, trace_of, ends_pop, ends_round}
use cpp_logger.Logger.Threads.Serving.{
  AllPrintable-right, AllPrintable-left, AllPrintable-handed, Serving,
}
use cpp_logger.Logger.Threads.Steps.{batched-InPhase, pops_from-eq}
use cpp_logger.Logger.Threads.Invariant.{Inv, at_phase, looping-Inv, serves_more}

module _ {S : Type 0} (sink : LogSink S) (received : S → List Bytes) (good : Reliable sink received)
    (locale : Locale) (hashes : (id : ℕ) → locale.thread_hash id < word_mod) where
  pub pop-Inv :
      (s : System S) (n : ℕ) (timed_out : Bool)
      → Inv received locale s
      → s.logger.worker ≡ looping
      → s.phase ≡ ready n
      → Inv received locale (ends_pop s n (pops_from s.logger timed_out))
  unfolding ends_pop step
  pop-Inv s n timed_out h w p =
      let t : Trace LogRecord = trace_of s in
      let size : ℕ = s.logger.write_batch_size in
      let periodic : Bool = is_periodic s.logger.flush_policy in
      let call : Call LogRecord = History.batches size (periodic && timed_out) in
      subst (λ r. Inv received locale (ends_pop s n r)) (sym (pops_from-eq s.logger timed_out))
        (looping-Inv received locale _ h.fresh h.lines w (
          batched-InPhase received locale n t periodic (periodic && timed_out) size s.logger.sinks
            s.given (pop_batch_for t.queue size (periodic && timed_out)) (λ e. rw e refl)
            (pop_batch_for-Missed t.queue size (periodic && timed_out)) (step-Accounts t call)
            (step-IsLossless t call refl) (step-SameSettings t call refl).policy
            (at_phase received locale s (ready n) h w p)))

  pub printable_hand :
      (t : Trace LogRecord) (size : ℕ) (sinks given : List S) (hand : List LogRecord)
      → Serving received locale t size sinks given hand
      → AllPrintable locale hand
  printable_hand t size sinks given hand k = AllPrintable-right locale k.done hand (
      subst (AllPrintable locale) k.split (
        AllPrintable-handed locale t.left (
          AllPrintable-left locale (map value t.left) t.queue.items
            (subst (AllPrintable locale) k.accounts.fifo k.printable))))

  pub works-Inv :
      (s : System S) (now : Readings) (n : ℕ) (batch : List LogRecord)
      → Inv received locale s
      → s.logger.worker ≡ looping
      → s.phase ≡ holds n batch
      → Inv received locale (
          ends_round s (
            batch_formatted sink locale now n batch s.logger
              (format_batch locale batch s.logger.cache)))
  works-Inv s now n batch h w p =
      let t : Trace LogRecord = trace_of s in
      let k : Serving received locale t s.logger.write_batch_size s.logger.sinks s.given batch =
        at_phase received locale s (holds n batch) h w p in
      let (c, ts, m, e, g, fresh) =
        batch_formatted-Served sink received good locale now n batch s.logger
          (printable_hand t s.logger.write_batch_size s.logger.sinks s.given batch k) h.fresh in
      subst (λ r. Inv received locale (ends_round s r)) (sym e)
        (looping-Inv received locale _ fresh h.lines w (
          serves_more received locale t s.logger.write_batch_size s.logger.sinks ts s.given batch
            batch k refl g))

  pub idles-Inv :
      (s : System S) (now : Readings) (n : ℕ)
      → Inv received locale s
      → s.logger.worker ≡ looping
      → s.phase ≡ missed n
      → Inv received locale (ends_round s (idle sink now n s.logger))
  idles-Inv s now n h w p =
      let t : Trace LogRecord = trace_of s in
      let l : Logger S = s.logger in
      let k = at_phase received locale s (missed n) h w p in
      let (ts, m, e, g) = idle-Idles sink received good locale now n l in
      let rest =
        serves_more received locale t l.write_batch_size l.sinks ts s.given [] [] k.0 refl g in
      let answer : Bool → Round S = λ b.
        if b
        then leaves (record l { sinks = ts; worker = finished })
        else goes_on (record l { sinks = ts }) m in
      elim (Bool-cases l.queue.is_closed) [
        | inl closed ↦
            subst (λ r. Inv received locale (ends_round s r)) (sym (e ∙ ap answer closed))
              (record { fresh = h.fresh; lines = h.lines; cycle = (rest, closed, k.1) })
        | inr open_still ↦
            subst (λ r. Inv received locale (ends_round s r)) (sym (e ∙ ap answer open_still))
              (looping-Inv received locale _ h.fresh h.lines w rest)
      ]
