-- ===== src/Logger/Threads/Sound.antt =====
-- The logger's state machine, whatever the sinks do, throwing included: how `running_`, the worker,
-- the queue and a waiting `stop` go together in every state that the threads can reach.
pub mod Reached
pub mod Lawful
use mathlib.Core.Path.{subst}
use cpp_logger.Base.{
  ℕ, ◌≤◌, ◌≡◌, ◌≢◌, inl, inr, sym, ap, ◌∙◌, Bool, true, false, List, [], ◌++◌, map, ◌&&◌, length,
  arith, length-take,
}
use cpp_logger.Queue.{Pop, close}
use cpp_logger.Queue
use cpp_logger.Queue.Invariant.{IsValid, step-IsValid, close-IsValid}
use cpp_logger.Queue.History.{Call, step, batched}
use cpp_logger.Queue.History
use cpp_logger.Queue.Taken.{Took, pop_batch_for-Took}
use cpp_logger.Logger.{LogRecord, Logger, absent, looping}
use cpp_logger.Logger.Config.{is_periodic}
use cpp_logger.Logger.Worker.{goes_on, leaves, pops_from}
use cpp_logger.Logger.Worker.Effect.{Ends}
use cpp_logger.Logger.Threads.{
  Phase, ready, holds, missed, Producer, System, trace_of, ends_log, ends_pop, ends_round,
}
use cpp_logger.Logger.Threads.Steps.{pops_from-eq}

-- A batch in the worker's hands is not empty, and no larger than `size`.
abbrev pub Fits : ℕ → Phase → Type 0
Fits size (ready n) = Unit
Fits size (holds n batch) = (1 ≤ length batch) × (length batch ≤ size)
Fits size (missed n) = Unit

module _ {S : Type 0} where
  pub record IsSound (s : System S) : Type 0 where
    pub valid : IsValid s.logger.queue
    pub live :
        s.logger.running ≡ true
        → (s.logger.worker ≡ looping) × (s.logger.queue.is_closed ≡ false) × (s.stopping ≡ false)
    pub shut : s.logger.worker ≢ absent → s.logger.running ≡ false → s.logger.queue.is_closed ≡ true
    pub waits_closed : s.stopping ≡ true → s.logger.queue.is_closed ≡ true
    pub no_sinks : s.logger.worker ≡ absent → s.logger.sinks ≡ []
    pub fits : s.logger.worker ≡ looping → Fits s.logger.write_batch_size s.phase

  -- A turn of a producer.
  pub log-IsSound :
      (s : System S) (call : Call LogRecord) (before after waiting : List Producer)
      → IsSound s
      → (step (trace_of s) call).queue.is_closed ≡ s.logger.queue.is_closed
      → IsSound (ends_log s call before after waiting)
  unfolding ends_log
  log-IsSound s call before after waiting h e = record {
    valid = step-IsValid (trace_of s) call h.valid;
    live = λ r. let (w, c, i) = h.live r in (w, e ∙ c, i);
    shut = λ w r. e ∙ h.shut w r;
    waits_closed = λ i. e ∙ h.waits_closed i;
    no_sinks = h.no_sinks;
    fits = h.fits;
  }

  -- A turn of the worker with the mutex.
  take-IsSound :
      (s : System S) (n : ℕ) (p : Pop LogRecord (List LogRecord × Bool))
      → IsSound s
      → Took s.logger.queue s.logger.write_batch_size p
      → IsValid (batched (trace_of s) p).queue
      → IsSound (ends_pop s n p)
  unfolding ends_pop batched
  take-IsSound s n (Pop.returns (xs, true) q x) h (front, rest, some_item) v =
      let same : q.is_closed ≡ s.logger.queue.is_closed = λ i. (rest i).is_closed in
      record {
        valid = v;
        live = λ r. let (w, c, i) = h.live r in (w, same ∙ c, i);
        shut = λ w r. same ∙ h.shut w r;
        waits_closed = λ i. same ∙ h.waits_closed i;
        no_sinks = h.no_sinks;
        fits = λ w. (
          some_item,
          omega
              (arith, ap length front, length-take s.logger.write_batch_size s.logger.queue.items),
        );
      }
  take-IsSound s n (Pop.returns (xs, false) q x) h same v =
      subst
        (λ r. IsSound (record s {
          logger = record s.logger { queue = r };
          phase = missed n;
          left = s.left ++ map History.handed xs;
        }))
        (sym same)
        (record {
          valid = h.valid;
          live = h.live;
          shut = h.shut;
          waits_closed = h.waits_closed;
          no_sinks = h.no_sinks;
          fits = λ w. tt;
        })
  take-IsSound s n Pop.waits h open_still v = record {
    valid = h.valid;
    live = h.live;
    shut = h.shut;
    waits_closed = h.waits_closed;
    no_sinks = h.no_sinks;
    fits = λ w. tt;
  }

  pub pop-IsSound :
      (s : System S) (n : ℕ) (timed_out : Bool)
      → IsSound s
      → IsSound (ends_pop s n (pops_from s.logger timed_out))
  unfolding step
  pop-IsSound s n timed_out h =
      let size : ℕ = s.logger.write_batch_size in
      let due : Bool = is_periodic s.logger.flush_policy && timed_out in
      subst (λ p. IsSound (ends_pop s n p)) (sym (pops_from-eq s.logger timed_out))
        (take-IsSound s n _ h (pop_batch_for-Took s.logger.queue size due)
          (step-IsValid (trace_of s) (History.batches size due) h.valid))

  -- The worker's round goes on, or ends the worker.
  pub going-IsSound :
      (s : System S) (m : Logger S) (n : ℕ)
      → IsSound s
      → s.logger.worker ≡ looping
      → m ≡ record s.logger { sinks = m.sinks; cache = m.cache }
      → IsSound (ends_round s (goes_on m n))
  going-IsSound s m n h w e =
      subst (λ l. IsSound (record s { logger = l; phase = ready n })) (sym e)
        (record {
          valid = h.valid;
          live = h.live;
          shut = h.shut;
          waits_closed = h.waits_closed;
          no_sinks = λ a. cc;
          fits = λ l. tt;
        })

  pub leaving-IsSound :
      (s : System S) (m : Logger S)
      → IsSound s
      → Ends s.logger m
      → IsSound (ends_round s (leaves m))
  unfolding close
  leaving-IsSound s m h e =
      let is_shut : m.queue.is_closed ≡ true = λ i. (e.queue i).is_closed in
      record {
        valid = subst IsValid (sym e.queue) (close-IsValid s.logger.queue h.valid);
        live = λ r. elim e.halted [
          | inl still ↦ cc
          | inr (was_shut, same) ↦ let (w, c, i) = h.live (sym same ∙ r) in cc
        ];
        shut = λ w r. is_shut;
        waits_closed = λ i. is_shut;
        no_sinks = λ a. cc;
        fits = λ l. cc;
      }
