-- ===== src/Logger/Threads/Stopping/Bounded.antt =====
-- The turns that the worker takes while a `stop` waits for it.
use mathlib.Core.Path.{subst}
use cpp_logger.Base.{ℕ, ◌+◌, ◌*◌, ◌≤◌, ◌<◌, ◌≡◌, sym, ap, Bool, true, List, length, arith, ◌&&◌}
use cpp_logger.Queue.{BlockingQueue}
use cpp_logger.Queue.Handed.{push-closed, resume-closed}
use cpp_logger.Queue.History.{Call, step}
use cpp_logger.Queue.Taken.{pop_batch_for-Took}
use cpp_logger.Sink.{LogSink}
use cpp_logger.Logger.{LogRecord, Thread, absent, looping, finished}
use cpp_logger.Logger.Config.{is_periodic}
use cpp_logger.Logger.Format.{Locale}
use cpp_logger.Logger.Lifecycle.{log_end, set_level}
use cpp_logger.Logger.Worker.{pops_from}
use cpp_logger.Logger.Worker.Effect.{batch_formatted-Effect, idle-Effect}
use cpp_logger.Logger.Threads.{
  Phase, ready, holds, missed, Producer, System, trace_of, ends_log, ends_pop, Step, begins, pushes,
  resumes, pops, works, idles, levels, stops, joins, inits, fails, Reach, later,
}
use cpp_logger.Logger.Threads.Steps.{pops_from-eq}
use cpp_logger.Logger.Threads.Sound.Reached.{Reach-IsSound}
use cpp_logger.Logger.Threads.Stopping.{
  turns_of, turns_left, looping_turns, batch_turns, round_turns, idle_turns,
}

module _ {S : Type 0} (sink : LogSink S) (locale : Locale) where
  -- One for a turn of the worker, none for a step of another thread.
  abbrev pub turn : {s t : System S} → Step sink locale s t → ℕ
  turn (pops n timed_out w p f) = 1
  turn (works now n batch w p f) = 1
  turn (idles now n w p f) = 1
  turn _ = 0

  -- Steps during which a `stop` waits on, with the number of the worker's turns among them.
  pub data Meanwhile (s : System S) : ℕ → System S → Type 0 where
    nothing : Meanwhile s 0 s
    and_then :
        {n : ℕ} {t u : System S}
        → Meanwhile s n t
        → (st : Step sink locale t u) → u.stopping ≡ true
        → Meanwhile s (turn st + n) u

  pub Meanwhile-Reach :
      {s t : System S} {n : ℕ} → Reach sink locale s → Meanwhile s n t → Reach sink locale t
  Meanwhile-Reach r nothing = r
  Meanwhile-Reach r (and_then m st i) = later (Meanwhile-Reach r m) st

  pub Meanwhile-stopping :
      {s t : System S} {n : ℕ} → s.stopping ≡ true → Meanwhile s n t → t.stopping ≡ true
  Meanwhile-stopping h nothing = h
  Meanwhile-stopping h (and_then m st i) = i

  pop_turns :
      (s : System S) (n : ℕ) (timed_out : Bool)
      → s.logger.worker ≡ looping
      → s.logger.queue.is_closed ≡ true
      → turns_left (ends_pop s n (pops_from s.logger timed_out))
        < 2 * length s.logger.queue.items + 2
  pop_turns s n timed_out w c =
      subst (λ p. turns_left (ends_pop s n p) < 2 * length s.logger.queue.items + 2)
        (sym (pops_from-eq s.logger timed_out))
        (batch_turns s n _ w c (
          pop_batch_for-Took s.logger.queue s.logger.write_batch_size
            (is_periodic s.logger.flush_policy && timed_out)))

  -- A push on the closed queue.
  log_turns :
      (s : System S) (call : Call LogRecord) (before after waiting : List Producer)
      → (step (trace_of s) call).queue ≡ s.logger.queue
      → turns_left (ends_log s call before after waiting) ≡ turns_left s
  unfolding ends_log
  log_turns s call before after waiting e =
      ap (λ (q : BlockingQueue LogRecord). turns_of s.logger.worker s.phase (length q.items)) e

  pub step_turns :
      {s t : System S} (st : Step sink locale s t)
      → s.stopping ≡ true
      → s.logger.queue.is_closed ≡ true
      → t.stopping ≡ true
      → turn st + turns_left t ≤ turns_left s
  unfolding set_level log_end
  step_turns (begins g r off int b f) on c i = cc
  step_turns {s} (pushes before g r after e f) on c i =
      rw f (omega (arith, log_turns s _ before after _ (push-closed (trace_of s) g r c)))
  step_turns {s} (resumes before g r after e f) on c i =
      rw f (omega (arith, log_turns s _ before after _ (resume-closed (trace_of s) g r c)))
  step_turns {s} (pops n timed_out w p f) on c i =
      rw f (omega (arith, pop_turns s n timed_out w c, looping_turns s (ready n) w p))
  step_turns {s} (works now n batch w p f) on c i = rw f (
      omega (
        arith,
        round_turns s _ w (batch_formatted-Effect sink locale now n batch s.logger _),
        looping_turns s (holds n batch) w p,
      ))
  step_turns {s} (idles now n w p f) on c i = rw f (
      omega
        (arith, idle_turns s _ c (idle-Effect sink now n s.logger), looping_turns s (missed n) w p))
  step_turns (levels level f) on c i = rw f (omega arith)
  step_turns (stops off f) on c i = cc
  step_turns (joins m released w e f) on c i = let off = ap (λ (x : System S). x.stopping) f in cc
  step_turns (inits st c m released n off e f) on d i = cc
  step_turns (fails st c m released off e f) on d i = cc

  while_turns :
      {s t : System S} {n : ℕ}
      → Reach sink locale s
      → s.stopping ≡ true
      → Meanwhile s n t
      → n + turns_left t ≤ turns_left s
  while_turns r on nothing = omega arith
  while_turns r on (and_then {n} {t} m st i) =
      let before : n + turns_left t ≤ _ = while_turns r on m in
      let here =
        step_turns st (Meanwhile-stopping on m)
          ((Reach-IsSound sink locale (Meanwhile-Reach r m)).waits_closed (Meanwhile-stopping on m))
          i in
      omega (arith, before, here)

  turns_bounded : (w : Thread) (p : Phase) (k : ℕ) → turns_of w p k ≤ 2 * k + 3
  turns_bounded looping (missed n) k = omega arith
  turns_bounded looping (ready n) k = omega arith
  turns_bounded looping (holds n batch) k = omega arith
  turns_bounded absent p k = omega arith
  turns_bounded finished p k = omega arith

  -- While a `stop` waits for the worker, the worker takes at most twice as many turns as the queue has
  -- room, and three more, whatever the sinks do and whatever other threads do meanwhile: a `stop` does
  -- not wait for ever for a worker that is given its turns. (A turn is a pop, the work on one
  -- batch, or a round without a batch.)
  pub stop-bounded :
      {s t : System S} {n : ℕ}
      → Reach sink locale s
      → s.stopping ≡ true
      → Meanwhile s n t
      → n ≤ 2 * s.logger.queue.capacity + 3
  stop-bounded {s} r on m = omega (
    arith,
    while_turns r on m,
    turns_bounded s.logger.worker s.phase (length s.logger.queue.items),
    (Reach-IsSound sink locale r).valid.bounded,
  )
