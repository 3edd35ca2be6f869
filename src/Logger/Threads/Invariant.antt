-- ===== src/Logger/Threads/Invariant.antt =====
-- The invariant of the logger's threads, and what it says for each place of the worker.
use mathlib.Core.Path.{subst}
use mathlib.Core.List.{map-append}
use cpp_logger.Base.{ℕ, ◌≡◌, sym, ap, ◌∙◌, true, List, [], ◌∷◌, ◌++◌, append-nil}
use cpp_logger.Queue.{Push}
use cpp_logger.Queue.History.{Trace, Call, step}
use cpp_logger.Sink.{Bytes}
use cpp_logger.Logger.{LogRecord, absent, looping, finished}
use cpp_logger.Logger.Config.{is_periodic}
use cpp_logger.Logger.Format.{Locale}
use cpp_logger.Logger.Format.Text.{IsInt, IsFresh, message_text}
use cpp_logger.Logger.Worker.Rounds.{texts}
use cpp_logger.Logger.Worker.Gains.{Gains, Gains-trans}
use cpp_logger.Logger.Threads.{
  Phase, Producer, begun, blocked, System, trace_of, left_behind, ends_log,
}
use cpp_logger.Logger.Threads.Serving.{Serving, Drained, InPhase, InCycle, Quiet, Quiet-InCycle}

abbrev record_of : Producer → LogRecord
record_of (begun g r) = r
record_of (blocked g r) = r

-- The lines of the producers' records are numbers of type `int`.
abbrev pub AllLines : List Producer → Type 0
AllLines [] = Unit
AllLines (p ∷ ps) = IsInt (record_of p).line × AllLines ps

pub AllLines-remove :
    (before : List Producer) (p : Producer) (after : List Producer)
    → AllLines (before ++ (p ∷ after))
    → IsInt (record_of p).line × AllLines (before ++ after)
AllLines-remove [] p after h = h
AllLines-remove (b ∷ before) p after h =
    let (i, rest) = AllLines-remove before p after h.1 in (i, (h.0, rest))

AllLines-insert :
    (before : List Producer) (p : Producer) (after : List Producer)
    → IsInt (record_of p).line
    → AllLines (before ++ after)
    → AllLines (before ++ (p ∷ after))
AllLines-insert [] p after i h = (i, h)
AllLines-insert (b ∷ before) p after i h = (h.0, AllLines-insert before p after i h.1)

pub AllLines-behind :
    (before after : List Producer) (g : ℕ) (r : LogRecord) (p : Push LogRecord)
    → IsInt r.line
    → AllLines (before ++ after)
    → AllLines (before ++ (left_behind g r p ++ after))
AllLines-behind before after g r (Push.returns q result x) i h = h
AllLines-behind before after g r Push.waits i h = AllLines-insert before (blocked g r) after i h
AllLines-behind before after g r Push.undefined i h = h

module _ {S : Type 0} (received : S → List Bytes) (locale : Locale) where
  pub record Inv (s : System S) : Type 0 where
    pub fresh : IsFresh locale s.logger.cache
    pub lines : AllLines s.producers
    pub cycle :
        InCycle received locale s.logger.worker s.phase
          (trace_of s)
          (is_periodic s.logger.flush_policy)
          s.logger.write_batch_size
          s.logger.sinks
          s.given

  pub log-Inv :
      (s : System S) (call : Call LogRecord) (before : List Producer) (p : Producer)
      (after waiting : List Producer)
      → Inv s
      → s.producers ≡ before ++ (p ∷ after)
      → Quiet locale (trace_of s) (step (trace_of s) call)
      → AllLines (before ++ (waiting ++ after))
      → Inv (ends_log s call before after waiting)
  unfolding ends_log
  log-Inv s call before p after waiting h e q l = record {
    fresh = h.fresh;
    lines = l;
    cycle =
        Quiet-InCycle received locale s.logger.worker s.phase (trace_of s) _
          (is_periodic s.logger.flush_policy) s.logger.write_batch_size s.logger.sinks s.given q
          h.cycle;
  }

  -- The cycle of a worker that is looping, at its phase.
  pub at_phase :
      (s : System S) (p : Phase)
      → Inv s
      → s.logger.worker ≡ looping
      → s.phase ≡ p
      → InPhase received locale p
          (trace_of s)
          (is_periodic s.logger.flush_policy)
          s.logger.write_batch_size
          s.logger.sinks
          s.given
  at_phase s p h w e =
      subst
        (λ x.
          InPhase received locale x (trace_of s) (is_periodic s.logger.flush_policy)
            s.logger.write_batch_size s.logger.sinks s.given)
        e
        (subst
          (λ x.
            InCycle received locale x s.phase (trace_of s) (is_periodic s.logger.flush_policy)
              s.logger.write_batch_size s.logger.sinks s.given)
          w h.cycle)

  pub at_end :
      (s : System S)
      → Inv s
      → s.logger.worker ≡ finished
      → Serving received locale (trace_of s) s.logger.write_batch_size s.logger.sinks s.given []
        × (s.logger.queue.is_closed ≡ true)
        × Drained received locale (is_periodic s.logger.flush_policy) (trace_of s)
  at_end s h w =
      subst
        (λ x.
          InCycle received locale x s.phase (trace_of s) (is_periodic s.logger.flush_policy)
            s.logger.write_batch_size s.logger.sinks s.given)
        w h.cycle

  pub looping-Inv :
      (s : System S)
      → IsFresh locale s.logger.cache
      → AllLines s.producers
      → s.logger.worker ≡ looping
      → InPhase received locale s.phase
          (trace_of s)
          (is_periodic s.logger.flush_policy)
          s.logger.write_batch_size
          s.logger.sinks
          s.given
      → Inv s
  looping-Inv s f l w c = record {
    fresh = f;
    lines = l;
    cycle =
        subst
          (λ x.
            InCycle received locale x s.phase (trace_of s) (is_periodic s.logger.flush_policy)
              s.logger.write_batch_size s.logger.sinks s.given)
          (sym w) c;
  }

  -- More that was given to the sinks.
  pub serves_more :
      (t : Trace LogRecord) (size : ℕ) (sinks ts given : List S) (hand now : List LogRecord)
      → Serving received locale t size sinks given hand
      → hand ++ [] ≡ now ++ []
      → Gains received (texts locale now) sinks ts
      → Serving received locale t size ts given []
  serves_more t size sinks ts given hand now h e g = record {
    accounts = h.accounts;
    lossless = h.lossless;
    printable = h.printable;
    size_pos = h.size_pos;
    done = h.done ++ now;
    split =
        h.split
        ∙ ap (λ xs. h.done ++ xs) (sym (append-nil hand) ∙ e ∙ append-nil now)
        ∙ sym (append-nil (h.done ++ now));
    gains =
        subst (λ b. Gains received b given ts) (sym (map-append (message_text locale) h.done now))
          (Gains-trans received (texts locale h.done) (texts locale now) given sinks ts h.gains g);
  }

  -- Without a worker there is no cycle.
  pub absent-Inv :
      (s : System S)
      → IsFresh locale s.logger.cache
      → AllLines s.producers
      → s.logger.worker ≡ absent
      → Inv s
  absent-Inv s f l w = record {
    fresh = f;
    lines = l;
    cycle =
        subst
          (λ x.
            InCycle received locale x s.phase (trace_of s) (is_periodic s.logger.flush_policy)
              s.logger.write_batch_size s.logger.sinks s.given)
          (sym w) tt;
  }
