-- ===== src/Logger/Threads/Late.antt =====
-- Records whose `log` call began in an earlier cycle of the logger.
mod Examples
use mathlib.Core.Path.{subst}
use cpp_logger.Base.{
  ℕ, zero, suc, ◌+◌, ◌%◌, ◌≤◌, ◌<◌, ◌≡◌, inl, inr, refl, sym, ap, ◌∙◌, Bool, Option, some, List, [],
  ◌∷◌, arith, word_mod,
}
use cpp_logger.Queue.{
  BlockingQueue, Push, push, push_waiting, pop_batch_for, close, reset, closed, quiet,
}
use cpp_logger.Queue.History
use cpp_logger.Queue.History.{Call, step}
use cpp_logger.Queue.Lifecycle.{count_resets, step-SameSettings}
use cpp_logger.Sink.{LogSink}
use cpp_logger.Logger.{LogRecord, Logger}
use cpp_logger.Logger.Cycles.{Begins, init-Begins, failed-kept}
use cpp_logger.Logger.Cycles.Stops.{StopAnswers, stop_joined-Answers}
use cpp_logger.Logger.Format.{Locale}
use cpp_logger.Logger.Lifecycle.{log_begin, log_end, set_level, stop_request, stop_join, stopped}
use cpp_logger.Logger.Worker.{
  Round, goes_on, leaves, Readings, pops_from, batch_formatted, format_batch, idle,
}
use cpp_logger.Logger.Worker.Effect.{Effect, IdleEffect, batch_formatted-Effect, idle-Effect}
use cpp_logger.Logger.Threads.{
  Producer, System, trace_of, ends_log, ends_pop, ends_round, ends_init, Step, begins, pushes,
  resumes, pops, works, idles, levels, stops, joins, inits, fails, Reach,
}
use cpp_logger.Logger.Threads.Steps.{pops_from-eq}
use cpp_logger.Logger.Threads.Sound.Reached.{Reach-IsSound}

abbrev generation_in : BlockingQueue LogRecord → ℕ
generation_in q = q.generation

-- A generation has gone on by a number from `low` to `high`.
abbrev Advances : (low high : ℕ) → (before after : ℕ) → Type 0
Advances low high before after =
    (j : ℕ) × (low ≤ j) × (j ≤ high) × (after ≡ (before + j) % word_mod)

keeps : (before after : ℕ) → before < word_mod → after ≡ before → Advances 0 0 before after
keeps before after h e = (0, omega arith, omega arith, omega (arith, h, e))

module _ {S : Type 0} where
  abbrev generation_of : System S → ℕ
  generation_of s = s.logger.queue.generation

  log-generation :
      (s : System S) (call : Call LogRecord) (before after waiting : List Producer)
      → count_resets (call ∷ []) ≡ 0
      → generation_of (ends_log s call before after waiting) ≡ generation_of s
  unfolding ends_log
  log-generation s call before after waiting h = (step-SameSettings (trace_of s) call h).generation

  pop-generation :
      (s : System S) (n : ℕ) (timed_out : Bool)
      → generation_of (ends_pop s n (pops_from s.logger timed_out)) ≡ generation_of s
  unfolding ends_pop step pop_batch_for
  pop-generation s n timed_out =
      subst (λ p. generation_of (ends_pop s n p) ≡ generation_of s)
        (sym (pops_from-eq s.logger timed_out))
        (step-SameSettings (trace_of s) (History.batches s.logger.write_batch_size _)
          refl).generation

  round-generation :
      (s : System S) (r : Round S)
      → Effect s.logger r
      → generation_of (ends_round s r) ≡ generation_of s
  unfolding close
  round-generation s (goes_on m n) e = ap (λ (l : Logger S). l.queue.generation) e
  round-generation s (leaves m) e = ap generation_in e.queue
  round-generation s Round.waits e = absurd e

  idle-generation :
      (s : System S) (r : Round S)
      → IdleEffect s.logger r
      → generation_of (ends_round s r) ≡ generation_of s
  idle-generation s (goes_on m n) e = round-generation s (goes_on m n) e.0
  idle-generation s (leaves m) e = round-generation s (leaves m) e
  idle-generation s Round.waits e = absurd e

module _ {S : Type 0} (sink : LogSink S) (locale : Locale) where
  -- The calls of `init` that got as far as the checks let them, and those that began a cycle.
  abbrev pub init_calls : {s t : System S} → Step sink locale s t → ℕ
  init_calls (inits st c m released n i e f) = 1
  init_calls (fails st c m released i e f) = 1
  init_calls _ = 0

  abbrev pub cycles_begun : {s t : System S} → Step sink locale s t → ℕ
  cycles_begun (inits st c m released n i e f) = 1
  cycles_begun _ = 0

  -- Steps of the threads, with the number of cycles begun and of calls of `init` among them.
  pub data Onwards (s : System S) : ℕ → ℕ → System S → Type 0 where
    nothing : Onwards s 0 0 s
    and_then :
        {cycles calls : ℕ} {t u : System S}
        → Onwards s cycles calls t
        → (st : Step sink locale t u)
        → Onwards s (cycles_begun st + cycles) (init_calls st + calls) u

  step-Advances :
      {s t : System S} (st : Step sink locale s t)
      → generation_of s < word_mod
      → Advances (cycles_begun st) (init_calls st) (generation_of s) (generation_of t)
  unfolding set_level log_end stop_request close ends_init reset stop_join
  step-Advances (begins g r i b k f) h = keeps _ _ h (ap generation_of f)
  step-Advances {s} (pushes before g r after e f) h =
      keeps _ _ h (ap generation_of f ∙ log-generation s _ before after _ refl)
  step-Advances {s} (resumes before g r after e f) h =
      keeps _ _ h (ap generation_of f ∙ log-generation s _ before after _ refl)
  step-Advances {s} (pops n timed_out w p f) h =
      keeps _ _ h (ap generation_of f ∙ pop-generation s n timed_out)
  step-Advances {s} (works now n batch w p f) h = keeps _ _ h (
      ap generation_of f
      ∙ round-generation s _ (batch_formatted-Effect sink locale now n batch s.logger _))
  step-Advances {s} (idles now n w p f) h =
      keeps _ _ h (ap generation_of f ∙ idle-generation s _ (idle-Effect sink now n s.logger))
  step-Advances (levels level f) h = keeps _ _ h (ap generation_of f)
  step-Advances (stops i f) h = keeps _ _ h (ap generation_of f)
  step-Advances {s} (joins m released i e f) h =
      let a : StopAnswers sink s.logger s.logger.worker (stopped m released) =
        subst (StopAnswers sink s.logger s.logger.worker) e
          (stop_joined-Answers sink s.logger s.logger.worker) in
      keeps _ _ h (ap generation_of f ∙ ap (λ (l : Logger S). l.queue.generation) a.2)
  step-Advances {s} (inits st c m released n i e f) h = (
    1,
    omega arith,
    omega arith,
    ap generation_of f ∙ (init-Begins sink st c s.logger m released e).generation,
  )
  step-Advances {s} (fails st c m released i e f) h =
      elim (failed-kept sink st c s.logger m released e) [
        | inl (blank, q) ↦ (1, omega arith, omega arith, ap generation_of f ∙ ap generation_in q)
        | inr (same, q) ↦
            let k = ap generation_of f ∙ ap generation_in q in
            (0, omega arith, omega arith, omega (arith, h, k))
      ]

  Onwards-Advances :
      {s t : System S} {cycles calls : ℕ}
      → generation_of s < word_mod
      → Onwards s cycles calls t
      → Advances cycles calls (generation_of s) (generation_of t)
  Onwards-Advances h nothing = keeps _ _ h refl
  Onwards-Advances h (and_then o st) =
      let (j, low, high, e) = Onwards-Advances h o in
      let (k, less, more, f) = step-Advances st (omega (arith, e)) in
      (j + k, omega (arith, low, less), omega (arith, high, more), omega (arith, e, f))

  -- A `log` call that took its generation in a reachable state is refused in every later cycle. After
  -- any steps of the threads in which a later cycle has begun, with fewer than 2^64 calls of `init` among
  -- them, the queue answers the call's push `Closed` and is left as it is, also if the push had waited in
  -- between. So the record enters no later cycle than its own.
  pub late_record-refused :
      {s t : System S} {cycles calls : ℕ} (r : LogRecord) (g : ℕ)
      → Reach sink locale s
      → log_begin s.logger r.level ≡ some g
      → Onwards s cycles calls t
      → 1 ≤ cycles
      → calls < word_mod
      → let q = t.logger.queue in
        (log_end t.logger g r ≡ Push.returns q closed quiet)
        × (push_waiting q g r ≡ Push.returns q closed quiet)
  unfolding log_begin log_end push push_waiting
  late_record-refused {s} r g reached b o some_cycle few =
      let fits = (Reach-IsSound sink locale reached).valid.generation_fits in
      let (j, low, high, e) = Onwards-Advances fits o in ground (arith, fits, e, low, high)
