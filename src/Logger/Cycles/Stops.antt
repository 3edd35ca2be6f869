-- ===== src/Logger/Cycles/Stops.antt =====
-- The end of a cycle: `stop`, and the fast test of the macros before and after it.
use cpp_logger.Base.{
  ℕ, ◌≡◌, ◌≢◌, ◌↔◌, inl, inr, refl, sym, true, false, none, some, List, [], Bool-cases,
}
use mathlib.Core.Path.{subst}
use cpp_logger.Queue.{Push, push, close, closed, quiet}
use cpp_logger.Base.Int.{leb_int}
use cpp_logger.Sink.{LogSink}
use cpp_logger.Logger.{LogLevel, level_code, LogRecord, Logger, Thread, absent, looping, finished}
use cpp_logger.Logger.Lifecycle.{
  Stop, stopped, close_sinks, stop_request, stop_join, stop_joined, should_log, log_begin, log_end,
  macro_begin,
}

module _ {S : Type 0} (sink : LogSink S) where
  -- After the first part of `stop` no new record is taken: `shouldLog` answers `false` and `log`
  -- returns at once, for every level, and the push of a record on its way is refused.
  pub stop_request-refuses :
      (l : Logger S) (level : LogLevel) (ticket : ℕ) (r : LogRecord)
      → let k = stop_request l in
        (should_log k level ≡ false)
        × (log_begin k level ≡ none)
        × (log_end k ticket r ≡ Push.returns k.queue closed quiet)
  unfolding stop_request should_log log_begin log_end push close
  stop_request-refuses l level ticket r = (refl, refl, refl)

  abbrev pub StopAnswers : Logger S → Thread → Stop S → Type 0
  StopAnswers l t Stop.waits = Unit
  StopAnswers l t (stopped m r) =
      (t ≢ looping)
      × (r ≡ close_sinks sink l.sinks)
      × (m ≡ record l { worker = absent; sinks = [] })

  pub stop_joined-Answers : (l : Logger S) (t : Thread) → StopAnswers l t (stop_joined sink l t)
  unfolding stop_joined
  stop_joined-Answers l looping = tt
  stop_joined-Answers l absent = (λ e. cc, refl, refl)
  stop_joined-Answers l finished = (λ e. cc, refl, refl)

  -- `stop` closes each sink once: it waits while the worker runs; else it closes the sinks and lets
  -- them go, and a second `stop` has none to close.
  pub stop-once :
      (l m : Logger S) (released : List S)
      → stop_join sink l ≡ stopped m released
      → (l.worker ≢ looping)
        × (released ≡ close_sinks sink l.sinks)
        × (stop_join sink (stop_request m) ≡ stopped (stop_request m) [])
  unfolding stop_join stop_request
  stop-once l m released e =
      let h : StopAnswers l l.worker (stopped m released) =
        subst (StopAnswers l l.worker) e (stop_joined-Answers l l.worker) in
      (
        h.0,
        h.1,
        subst (λ k. stop_join sink (stop_request k) ≡ stopped (stop_request k) []) (sym h.2) refl,
      )

-- The fast test of the macros loses no record and lets none pass that `log` would not: with it, a
-- record takes the same generation, or none, as a direct call of `log`; and it takes one exactly if
-- `shouldLog` answers `true`.
pub macro_begin-log_begin :
    {S : Type 0} (l : Logger S) (level : LogLevel)
    → (macro_begin l level ≡ log_begin l level)
      × ((should_log l level ≡ true) ↔ (log_begin l level ≡ some l.queue.generation))
unfolding macro_begin should_log log_begin
macro_begin-log_begin l level = elim (Bool-cases l.running) [
  | inr idle ↦ rw idle (refl, (λ h. cc, λ h. cc))
  | inl running ↦ elim (Bool-cases (leb_int l.min_level (level_code level))) [
    | inl loud ↦ rw (running, loud) (refl, (λ h. refl, λ h. refl))
    | inr low ↦ rw (running, low) (refl, (λ h. cc, λ h. cc))
  ]
]
