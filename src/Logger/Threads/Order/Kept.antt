-- ===== src/Logger/Threads/Order/Kept.antt =====
-- No record overtakes another on its way to the sinks.
use mathlib.Core.Path.{subst}
use cpp_logger.Base.{ℕ, ◌<◌, ◌≡◌, ◌≢◌, sym, ◌∙◌, List, ◌++◌, map, word_mod}
use cpp_logger.Queue.History.{value}
use cpp_logger.Sink.{LogSink, Bytes}
use cpp_logger.Logger.{LogRecord, absent}
use cpp_logger.Logger.Format.{Locale}
use cpp_logger.Logger.Worker.Gains.{Reliable, Gains}
use cpp_logger.Logger.Worker.Rounds.{texts}
use cpp_logger.Logger.Threads.{System, Reach, later}
use cpp_logger.Logger.Threads.Conserved.{Conserved, in_hands, Reach-Conserved}
use cpp_logger.Logger.Threads.Order.{Continues, During, nothing, and_then, During-Continues}
use cpp_logger.Logger.Threads.Order.Sublists.{
  IsSub, IsSub-front, IsSub-more, InOrder, IsSub-InOrder, handed_values-IsSub,
}

module _ {S : Type 0} (sink : LogSink S) (received : S → List Bytes) (good : Reliable sink received)
    (locale : Locale) (hashes : (id : ℕ) → locale.thread_hash id < word_mod) where
  During-Reach :
      {s t : System S} → Reach sink locale s → During sink locale s t → Reach sink locale t
  During-Reach r nothing = r
  During-Reach r (and_then d st c) = later (During-Reach r d) st

  -- What the sinks have been given at `t`, by whether the queue took it in up to `s` or after.
  pub record KeepsOrder (s t : System S) : Type 0 where
    pub more : List LogRecord
    pub taken_in : t.accepted ≡ s.accepted ++ more
    pub done : List LogRecord
    pub gains : Gains received (texts locale done) s.given t.logger.sinks
    pub order : InOrder s.accepted more done

  -- If no sink throws: take a moment of a cycle and a later one. What every sink has been given since
  -- `init` is, first, texts of records that the queue had taken in at the first moment, and then texts
  -- of records that it took in after, each part in the order in which they were taken in.
  -- So of two calls of `log` of which one has put its record into the queue before the other
  -- begins, on the same thread or not, the first comes first in every sink. (There is a worker,
  -- looping or finished, and hashes of threads have 64 bits.)
  pub During-KeepsOrder :
      {s t : System S}
      → Reach sink locale s
      → During sink locale s t
      → t.logger.worker ≢ absent
      → KeepsOrder s t
  During-KeepsOrder {s} {t} r d live =
      let c : Conserved sink received good locale hashes t =
        Reach-Conserved sink received good locale hashes (During-Reach r d) live in
      let k : Continues s t = During-Continues sink locale d in
      let (more, taken) = k.accepted in
      let hand : List LogRecord = in_hands t.logger.worker t.phase in
      let among : IsSub c.done (map value t.left) =
        IsSub-front c.done hand (map value t.left)
          (subst (λ xs. IsSub xs (map value t.left)) c.split (handed_values-IsSub t.left)) in
      record {
        more = more;
        taken_in = taken;
        done = c.done;
        gains =
            subst (λ gs. Gains received (texts locale c.done) gs t.logger.sinks) k.given c.gains;
        order = IsSub-InOrder c.done s.accepted more (
            subst (IsSub c.done) (sym c.fifo ∙ taken)
              (IsSub-more c.done (map value t.left) t.logger.queue.items among));
      }
