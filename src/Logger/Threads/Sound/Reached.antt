-- ===== src/Logger/Threads/Sound/Reached.antt =====
-- Every step keeps the logger's state machine sound.
use mathlib.Core.Path.{subst}
use cpp_logger.Base.{ℕ, ◌≡◌, ◌≢◌, inl, inr, refl, sym, true, false, List, []}
use cpp_logger.Queue.{close, new}
use cpp_logger.Queue.Invariant.{IsValid, new-IsValid, reset-IsValid, close-IsValid}
use cpp_logger.Queue.Taken.{pushes-is_closed, resumes-is_closed}
use cpp_logger.Sink.{LogSink}
use cpp_logger.Logger.{LoggerConfig, Logger, absent, looping, new_logger}
use cpp_logger.Logger.Cycles.{Begins, init-Begins, init-failed, failed-kept}
use cpp_logger.Logger.Cycles.Stops.{StopAnswers, stop_joined-Answers}
use cpp_logger.Logger.Format.{Locale}
use cpp_logger.Logger.Lifecycle.{
  Start, failed, started, stopped, init, stop_request, stop_join, set_level, configured, log_end,
}
use cpp_logger.Logger.Worker.{Round, goes_on, leaves}
use cpp_logger.Logger.Worker.Effect.{Effect, IdleEffect, batch_formatted-Effect, idle-Effect}
use cpp_logger.Logger.Threads.{
  ready, System, trace_of, ends_round, ends_init, Step, begins, pushes, resumes, pops, works, idles,
  levels, stops, joins, inits, fails, Reach, start, later,
}
use cpp_logger.Logger.Threads.Sound.{
  IsSound, log-IsSound, pop-IsSound, going-IsSound, leaving-IsSound,
}

module _ {S : Type 0} (sink : LogSink S) (locale : Locale) where
  work-IsSound :
      (s : System S) (r : Round S)
      → IsSound s
      → s.logger.worker ≡ looping
      → Effect s.logger r
      → IsSound (ends_round s r)
  work-IsSound s (goes_on m n) h w e = going-IsSound s m n h w e
  work-IsSound s (leaves m) h w e = leaving-IsSound s m h e
  work-IsSound s Round.waits h w e = absurd e

  rest-IsSound :
      (s : System S) (r : Round S)
      → IsSound s
      → s.logger.worker ≡ looping
      → IdleEffect s.logger r
      → IsSound (ends_round s r)
  rest-IsSound s (goes_on m n) h w e = going-IsSound s m n h w e.0
  rest-IsSound s (leaves m) h w e = leaving-IsSound s m h e
  rest-IsSound s Round.waits h w e = absurd e

  -- The beginning and the end of `stop`.
  stops-IsSound :
      (s : System S)
      → IsSound s
      → IsSound (record s { logger = stop_request s.logger; stopping = true })
  unfolding stop_request close
  stops-IsSound s h = record {
    valid = close-IsValid s.logger.queue h.valid;
    live = λ r. cc;
    shut = λ w r. refl;
    waits_closed = λ i. refl;
    no_sinks = h.no_sinks;
    fits = h.fits;
  }

  joined-IsSound :
      (s : System S) (m : Logger S)
      → IsSound s
      → s.logger.worker ≢ looping
      → m ≡ record s.logger { worker = absent; sinks = [] }
      → IsSound (record s { logger = m; stopping = false })
  joined-IsSound s m h w e =
      subst (λ l. IsSound (record s { logger = l; stopping = false })) (sym e)
        (record {
          valid = h.valid;
          live = λ r. absurd (w (h.live r).0);
          shut = λ a. absurd (a refl);
          waits_closed = λ i. cc;
          no_sinks = λ a. refl;
          fits = λ l. cc;
        })

  joins-IsSound :
      (s : System S) (m : Logger S) (released : List S)
      → IsSound s
      → stop_join sink s.logger ≡ stopped m released
      → IsSound (record s { logger = m; stopping = false })
  unfolding stop_join
  joins-IsSound s m released h e =
      let a : StopAnswers sink s.logger s.logger.worker (stopped m released) =
        subst (StopAnswers sink s.logger s.logger.worker) e
          (stop_joined-Answers sink s.logger s.logger.worker) in
      joined-IsSound s m h a.0 a.2

  -- A new cycle, and one that could not begin.
  inits-IsSound :
      (s : System S) (st : Start S) (c : LoggerConfig S) (m : Logger S) (released : List S) (n : ℕ)
      → IsSound s
      → s.stopping ≡ false
      → init sink st c s.logger ≡ started m released
      → IsSound (ends_init s m (ready n))
  unfolding ends_init configured
  inits-IsSound s st c m released n h i e =
      let b : Begins sink st c s.logger m released = init-Begins sink st c s.logger m released e in
      record {
        valid =
            subst (λ (l : Logger S). IsValid l.queue) (sym b.state)
              (reset-IsValid s.logger.queue c.queue_capacity c.overflow_policy);
        live = λ r. (b.worker, b.accepts, i);
        shut = λ w r. let on = b.running in cc;
        waits_closed = λ waiting. cc;
        no_sinks = λ a. let on = b.worker in cc;
        fits = λ w. tt;
      }

  fails-IsSound :
      (s : System S) (st : Start S) (c : LoggerConfig S) (m : Logger S) (released : List S)
      → IsSound s
      → s.stopping ≡ false
      → init sink st c s.logger ≡ failed m released
      → IsSound (ends_init s m s.phase)
  unfolding ends_init
  fails-IsSound s st c m released h i e =
      let (off, gone, none_left) = init-failed sink st c s.logger m released e in
      record {
        valid = elim (failed-kept sink st c s.logger m released e) [
          | inl (blank, q) ↦
              subst IsValid (sym q)
                (close-IsValid _ (reset-IsValid s.logger.queue c.queue_capacity c.overflow_policy))
          | inr (same, q) ↦ subst IsValid (sym q) h.valid
        ];
        live = λ r. cc;
        shut = λ w r. absurd (w gone);
        waits_closed = λ waiting. cc;
        no_sinks = λ a. none_left;
        fits = λ w. cc;
      }

  Step-IsSound : {s t : System S} → IsSound s → Step sink locale s t → IsSound t
  unfolding set_level log_end
  Step-IsSound {s} h (begins g r i b k f) = subst IsSound (sym f) (record {
    valid = h.valid;
    live = h.live;
    shut = h.shut;
    waits_closed = h.waits_closed;
    no_sinks = h.no_sinks;
    fits = h.fits;
  })
  Step-IsSound {s} h (pushes before g r after e f) =
      subst IsSound (sym f) (log-IsSound s _ before after _ h (pushes-is_closed (trace_of s) g r))
  Step-IsSound {s} h (resumes before g r after e f) =
      subst IsSound (sym f) (log-IsSound s _ before after _ h (resumes-is_closed (trace_of s) g r))
  Step-IsSound {s} h (pops n timed_out w p f) = subst IsSound (sym f) (pop-IsSound s n timed_out h)
  Step-IsSound {s} h (works now n batch w p f) =
      subst IsSound (sym f)
        (work-IsSound s _ h w (batch_formatted-Effect sink locale now n batch s.logger _))
  Step-IsSound {s} h (idles now n w p f) =
      subst IsSound (sym f) (rest-IsSound s _ h w (idle-Effect sink now n s.logger))
  Step-IsSound {s} h (levels level f) = subst IsSound (sym f) (record {
    valid = h.valid;
    live = h.live;
    shut = h.shut;
    waits_closed = h.waits_closed;
    no_sinks = h.no_sinks;
    fits = h.fits;
  })
  Step-IsSound {s} h (stops i f) = subst IsSound (sym f) (stops-IsSound s h)
  Step-IsSound {s} h (joins m released i e f) =
      subst IsSound (sym f) (joins-IsSound s m released h e)
  Step-IsSound {s} h (inits st c m released n i e f) =
      subst IsSound (sym f) (inits-IsSound s st c m released n h i e)
  Step-IsSound {s} h (fails st c m released i e f) =
      subst IsSound (sym f) (fails-IsSound s st c m released h i e)

  -- Every state that the threads can reach is sound.
  pub Reach-IsSound : {s : System S} → Reach sink locale s → IsSound s
  unfolding new_logger new
  Reach-IsSound start = record {
    valid = new-IsValid;
    live = λ r. cc;
    shut = λ w. absurd (w refl);
    waits_closed = λ i. cc;
    no_sinks = λ a. refl;
    fits = λ w. tt;
  }
  Reach-IsSound (later r st) = Step-IsSound (Reach-IsSound r) st
