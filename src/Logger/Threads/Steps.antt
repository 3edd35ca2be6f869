-- ===== src/Logger/Threads/Steps.antt =====
-- How each kind of step keeps what the sinks have been given.
use cpp_logger.Base.{
  ℕ, ◌≡◌, ◌⊎◌, inl, inr, refl, sym, ap, ◌∙◌, Bool, true, false, ◌&&◌, List, [], ◌∷◌, ◌++◌, map,
  append-nil, Bool-cases,
}
use cpp_logger.Queue.{
  BlockingQueue, OverflowPolicy, block, is_block, Pop, pop_batch_for, push, push_waiting,
}
use cpp_logger.Queue.History.{
  Trace, Exit, handed, evicted, value, evictions, Call, step, batched, after_push,
}
use cpp_logger.Queue.History
use cpp_logger.Queue
use cpp_logger.Queue.Lifecycle.{step-SameSettings}
use cpp_logger.Queue.Fifo.{Accounts, step-Accounts}
use cpp_logger.Queue.Lossless.{IsLossless, step-IsLossless}
use cpp_logger.Queue.Handed.{
  handed_values-append, handed_values-handed, after_push-handed, push-closed, resume-closed, Missed,
}
use cpp_logger.Sink.{Bytes}
use cpp_logger.Logger.{LogRecord, Logger}
use cpp_logger.Logger.Config.{is_periodic}
use cpp_logger.Logger.Format.{Locale}
use cpp_logger.Logger.Worker.{pops_from}
use cpp_logger.Logger.Worker.Rounds.{AllPrintable}
use cpp_logger.Logger.Threads.{phase_after}
use cpp_logger.Logger.Threads.Serving.{AllPrintable-append, Serving, InPhase, Quiet}

module _ (locale : Locale) where
  -- The two halves of a push, on a record that prints.
  Accepts :
      (t : Trace LogRecord) (r : LogRecord) (accepted : List LogRecord)
      → AllPrintable locale (r ∷ [])
      → (accepted ≡ t.accepted) ⊎ (accepted ≡ t.accepted ++ (r ∷ []))
      → AllPrintable locale t.accepted
      → AllPrintable locale accepted
  Accepts t r accepted p (inl e) h = rw e h
  Accepts t r accepted p (inr e) h = rw e (AllPrintable-append locale t.accepted (r ∷ []) h p)

  pub push-Quiet :
      (t : Trace LogRecord) (g : ℕ) (r : LogRecord)
      → AllPrintable locale (r ∷ [])
      → Quiet locale t (step t (History.pushes g r))
  unfolding step
  push-Quiet t g r p =
      let both = after_push-handed t r (push t.queue g r) in
      record {
        accounts = step-Accounts t (History.pushes g r);
        lossless = step-IsLossless t (History.pushes g r) refl;
        policy = (step-SameSettings t (History.pushes g r) refl).policy;
        printable = Accepts t r _ p both.1;
        handed = both.0;
        closed = push-closed t g r;
      }

  pub resume-Quiet :
      (t : Trace LogRecord) (g : ℕ) (r : LogRecord)
      → AllPrintable locale (r ∷ [])
      → Quiet locale t (step t (History.resumes g r))
  unfolding step
  resume-Quiet t g r p =
      let both = after_push-handed t r (push_waiting t.queue g r) in
      record {
        accounts = step-Accounts t (History.resumes g r);
        lossless = step-IsLossless t (History.resumes g r) refl;
        policy = (step-SameSettings t (History.resumes g r) refl).policy;
        printable = Accepts t r _ p both.1;
        handed = both.0;
        closed = resume-closed t g r;
      }

  close_again : (q : BlockingQueue LogRecord) → q.is_closed ≡ true → Queue.close q ≡ q
  unfolding Queue.close
  close_again q h = λ i. record q { is_closed = sym h i }

  pub close-Quiet : (t : Trace LogRecord) → Quiet locale t (step t History.closes)
  unfolding step
  close-Quiet t = record {
    accounts = step-Accounts t History.closes;
    lossless = step-IsLossless t History.closes refl;
    policy = (step-SameSettings t History.closes refl).policy;
    printable = λ h. h;
    handed = refl;
    closed = close_again t.queue;
  }

module _ {S : Type 0} (received : S → List Bytes) (locale : Locale) where
  -- A pop puts a batch into the worker's hands, or finds none.
  pub batched-InPhase :
      (n : ℕ) (t : Trace LogRecord) (periodic timed_out : Bool) (size : ℕ) (sinks given : List S)
      (p : Pop LogRecord (List LogRecord × Bool))
      → (periodic ≡ false → timed_out ≡ false)
      → Missed t.queue size timed_out p
      → (Accounts t → Accounts (batched t p))
      → (IsLossless t → IsLossless (batched t p))
      → ((batched t p).queue.overflow_policy ≡ t.queue.overflow_policy)
      → Serving received locale t size sinks given []
      → InPhase received locale (phase_after n p) (batched t p) periodic size sinks given
  unfolding batched
  batched-InPhase n t periodic timed_out size sinks given (Pop.returns (xs, true) q x) time miss a l
        o h =
      record {
        accounts = a h.accounts;
        lossless = λ e. l (h.lossless (ap is_block (sym o) ∙ e));
        printable = h.printable;
        size_pos = h.size_pos;
        done = h.done;
        split =
            rw (handed_values-append t.left (map handed xs), handed_values-handed xs, h.split)
              (rw (append-nil h.done) refl);
        gains = h.gains;
      }
  batched-InPhase n t periodic timed_out size sinks given (Pop.returns (xs, false) q x) time miss a
        l o h =
      (
        record {
          accounts = a h.accounts;
          lossless = λ e. l (h.lossless (ap is_block (sym o) ∙ e));
          printable = h.printable;
          size_pos = h.size_pos;
          done = h.done;
          split = rw (miss.0, append-nil t.left) h.split;
          gains = h.gains;
        },
        λ e.
            let both = miss.2 (time e) h.size_pos in
            (
              ap (λ (r : BlockingQueue LogRecord). r.items) miss.1 ∙ both.0,
              ap (λ (r : BlockingQueue LogRecord). r.is_closed) miss.1 ∙ both.1,
            ),
      )
  batched-InPhase n t periodic timed_out size sinks given Pop.waits time miss a l o h = h

module _ {S : Type 0} where
  pub pops_from-eq :
      (l : Logger S) (timed_out : Bool)
      → pops_from l timed_out
        ≡ pop_batch_for l.queue l.write_batch_size (is_periodic l.flush_policy && timed_out)
  unfolding pops_from Queue.pop_batch pop_batch_for
  pops_from-eq l timed_out = elim (Bool-cases (is_periodic l.flush_policy)) [
    | inl timed ↦ rw timed refl
    | inr untimed ↦ rw untimed refl
  ]
