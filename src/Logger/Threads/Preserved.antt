-- ===== src/Logger/Threads/Preserved.antt =====
-- Every step of the logger's threads keeps the invariant.
pub mod Turns
use mathlib.Core.Path.{subst}
use cpp_logger.Base.{
  ℕ, ◌<◌, ◌≡◌, inl, inr, refl, sym, ap, ◌∙◌, true, false, List, [], arith, word_mod,
}
use cpp_logger.Queue.{OverflowPolicy, block, is_block}
use cpp_logger.Queue.History.{step}
use cpp_logger.Queue.History
use cpp_logger.Sink.{LogSink, Bytes}
use cpp_logger.Logger.{LoggerConfig, Logger, new_logger}
use cpp_logger.Logger.Config.{is_periodic}
use cpp_logger.Logger.Cycles.{Begins, init-Begins, init-failed, failed-kept}
use cpp_logger.Logger.Cycles.Stops.{StopAnswers, stop_joined-Answers}
use cpp_logger.Logger.Format.{Locale}
use cpp_logger.Logger.Format.Text.{IsFresh}
use cpp_logger.Logger.Lifecycle.{
  Start, failed, started, stopped, init, stop_request, stop_join, set_level, log_end,
}
use cpp_logger.Logger.Worker.Gains.{Reliable, Gains-nothing}
use cpp_logger.Logger.Threads.{
  ready, begun, blocked, System, trace_of, ends_init, Step, begins, pushes, resumes, pops, works,
  idles, levels, stops, joins, inits, fails, Reach, start, later,
}
use cpp_logger.Logger.Threads.Serving.{Quiet-InCycle}
use cpp_logger.Logger.Threads.Steps.{push-Quiet, resume-Quiet, close-Quiet}
use cpp_logger.Logger.Threads.Invariant.{
  AllLines, AllLines-remove, AllLines-behind, Inv, log-Inv, looping-Inv, absent-Inv,
}
use cpp_logger.Logger.Threads.Preserved.Turns.{pop-Inv, works-Inv, idles-Inv}

module _ {S : Type 0} (sink : LogSink S) (received : S → List Bytes) (good : Reliable sink received)
    (locale : Locale) (hashes : (id : ℕ) → locale.thread_hash id < word_mod) where
  block_of : (p : OverflowPolicy) → is_block p ≡ true → p ≡ block
  block_of block h = refl
  block_of OverflowPolicy.drop_newest h = cc
  block_of OverflowPolicy.drop_oldest h = cc
  block_of (OverflowPolicy.other k) h = cc

  inits-Inv :
      (s : System S) (st : Start S) (c : LoggerConfig S) (m : Logger S) (released : List S) (n : ℕ)
      → Inv received locale s
      → init sink st c s.logger ≡ started m released
      → Inv received locale (ends_init s m (ready n))
  unfolding ends_init
  inits-Inv s st c m released n h e =
      let b : Begins sink st c s.logger m released = init-Begins sink st c s.logger m released e in
      looping-Inv received locale (ends_init s m (ready n)) (inl b.blank) h.lines b.worker (record {
        accounts = record { fifo = refl; counted = b.counts ∙ omega arith };
        lossless = λ p. record {
          policy = block_of m.queue.overflow_policy p;
          evicted_none = refl;
          refused_none = refl;
        };
        printable = rw b.empty tt;
        size_pos = rw b.batches b.acceptable.batches;
        done = [];
        split = refl;
        gains = Gains-nothing received m.sinks;
      })

  fails-Inv :
      (s : System S) (st : Start S) (c : LoggerConfig S) (m : Logger S) (released : List S)
      → Inv received locale s
      → init sink st c s.logger ≡ failed m released
      → Inv received locale (ends_init s m s.phase)
  unfolding ends_init
  fails-Inv s st c m released h e =
      absent-Inv received locale (ends_init s m s.phase)
        (elim (failed-kept sink st c s.logger m released e) [
          | inl blank ↦ inl blank.0
          | inr same ↦ subst (IsFresh locale) (sym same.0) h.fresh
        ])
        h.lines (init-failed sink st c s.logger m released e).1

  joins-Inv :
      (s : System S) (m : Logger S) (released : List S)
      → Inv received locale s
      → stop_join sink s.logger ≡ stopped m released
      → Inv received locale (record s { logger = m; stopping = false })
  unfolding stop_join
  joins-Inv s m released h e =
      let a : StopAnswers sink s.logger s.logger.worker (stopped m released) =
        subst (StopAnswers sink s.logger s.logger.worker) e
          (stop_joined-Answers sink s.logger s.logger.worker) in
      absent-Inv received locale (record s { logger = m; stopping = false })
        (subst (λ (k : Logger S). IsFresh locale k.cache) (sym a.2) h.fresh) h.lines
        (ap (λ (k : Logger S). k.worker) a.2)

  Step-Inv : {s t : System S} → Inv received locale s → Step sink locale s t → Inv received locale t
  unfolding set_level stop_request log_end step
  Step-Inv {s} h (begins g r e i b f) =
      subst (Inv received locale) (sym f)
        (record { fresh = h.fresh; lines = (i, h.lines); cycle = h.cycle })
  Step-Inv {s} h (pushes before g r after e f) =
      let (i, rest) = AllLines-remove before (begun g r) after (subst AllLines e h.lines) in
      subst (Inv received locale) (sym f) (
        log-Inv received locale s _ before (begun g r) after _ h e
          (push-Quiet locale (trace_of s) g r (hashes r.thread_id, i, tt))
          (AllLines-behind before after g r _ i rest))
  Step-Inv {s} h (resumes before g r after e f) =
      let (i, rest) = AllLines-remove before (blocked g r) after (subst AllLines e h.lines) in
      subst (Inv received locale) (sym f) (
        log-Inv received locale s _ before (blocked g r) after _ h e
          (resume-Quiet locale (trace_of s) g r (hashes r.thread_id, i, tt))
          (AllLines-behind before after g r _ i rest))
  Step-Inv {s} h (pops n timed_out w p f) =
      subst (Inv received locale) (sym f)
        (pop-Inv sink received good locale hashes s n timed_out h w p)
  Step-Inv {s} h (works now n batch w p f) =
      subst (Inv received locale) (sym f)
        (works-Inv sink received good locale hashes s now n batch h w p)
  Step-Inv {s} h (idles now n w p f) =
      subst (Inv received locale) (sym f) (idles-Inv sink received good locale hashes s now n h w p)
  Step-Inv {s} h (levels level f) =
      subst (Inv received locale) (sym f)
        (record { fresh = h.fresh; lines = h.lines; cycle = h.cycle })
  Step-Inv {s} h (stops e f) = subst (Inv received locale) (sym f) (record {
    fresh = h.fresh;
    lines = h.lines;
    cycle =
        Quiet-InCycle received locale s.logger.worker s.phase (trace_of s) _
          (is_periodic s.logger.flush_policy) s.logger.write_batch_size s.logger.sinks s.given
          (close-Quiet locale (trace_of s)) h.cycle;
  })
  Step-Inv {s} h (joins m released e b f) =
      subst (Inv received locale) (sym f) (joins-Inv s m released h b)
  Step-Inv {s} h (inits st c m released n e b f) =
      subst (Inv received locale) (sym f) (inits-Inv s st c m released n h b)
  Step-Inv {s} h (fails st c m released e b f) =
      subst (Inv received locale) (sym f) (fails-Inv s st c m released h b)

  pub Reach-Inv : {s : System S} → Reach sink locale s → Inv received locale s
  unfolding new_logger
  Reach-Inv start = record { fresh = inl refl; lines = tt; cycle = tt }
  Reach-Inv (later r st) = Step-Inv (Reach-Inv r) st
