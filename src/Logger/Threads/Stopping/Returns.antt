-- ===== src/Logger/Threads/Stopping/Returns.antt =====
-- A `stop` that waits for the worker gets it.
use cpp_logger.Base.{
  ℕ, suc, zero, ◌≤◌, ◌≡◌, ◌≢◌, ◌⊎◌, inl, inr, refl, ◌∙◌, Bool, true, List, [], length, arith,
}
use cpp_logger.Queue.{Pop}
use cpp_logger.Sink.{LogSink}
use cpp_logger.Logger.{LogRecord, Logger, Thread, absent, looping, finished}
use cpp_logger.Logger.Format.{Locale}
use cpp_logger.Logger.Lifecycle.{stopped, stop_join, stop_joined, close_sinks}
use cpp_logger.Logger.Worker.{
  Readings, Round, goes_on, leaves, pops_from, batch_formatted, format_batch, idle,
}
use cpp_logger.Logger.Threads.{
  Phase, ready, holds, missed, System, ends_pop, ends_round, Step, pops, works, idles, Reach, later,
}
use cpp_logger.Logger.Threads.Sound.Reached.{Reach-IsSound}
use cpp_logger.Logger.Threads.Stopping.{turns_of, turns_left, looping_turns}
use cpp_logger.Logger.Threads.Stopping.Bounded.{turn, step_turns}

module _ {S : Type 0} (sink : LogSink S) (locale : Locale) where
  -- The step reads the clock as it is said to show.
  abbrev Shows : {s t : System S} → Readings → Step sink locale s t → Type 0
  Shows now (pops n timed_out w p f) = timed_out ≡ now.timed_out
  Shows now (works read n batch w p f) = read ≡ now
  Shows now (idles read n w p f) = read ≡ now
  Shows now _ = Unit

  -- Turns of the worker, with no step of another thread between, by what the clock shows at each.
  pub data Alone : (ℕ → Readings) → System S → System S → Type 0 where
    done : {clock : ℕ → Readings} {s : System S} → Alone clock s s
    and_then :
        {clock : ℕ → Readings} {s t u : System S} (st : Step sink locale s t)
        → turn sink locale st ≡ 1
        → Shows (clock 0) st
        → Alone (λ k. clock (suc k)) t u
        → Alone clock s u

  -- The worker's next turn.
  record Turn (now : Readings) (s : System S) : Type 0 where
    after : System S
    made : Step sink locale s after
    counts : turn sink locale made ≡ 1
    shows : Shows now made
    still : after.stopping ≡ s.stopping

  round-stopping : (s : System S) (r : Round S) → (ends_round s r).stopping ≡ s.stopping
  round-stopping s (goes_on m n) = refl
  round-stopping s (leaves m) = refl
  round-stopping s Round.waits = refl

  pop-stopping :
      (s : System S) (n : ℕ) (p : Pop LogRecord (List LogRecord × Bool))
      → (ends_pop s n p).stopping ≡ s.stopping
  unfolding ends_pop
  pop-stopping s n p = refl

  next-Turn :
      (s : System S) (now : Readings) (p : Phase)
      → s.logger.worker ≡ looping
      → s.phase ≡ p
      → Turn now s
  next-Turn s now (ready n) w e = record {
    after = ends_pop s n (pops_from s.logger now.timed_out);
    made = pops n now.timed_out w e refl;
    counts = refl;
    shows = refl;
    still = pop-stopping s n (pops_from s.logger now.timed_out);
  }
  next-Turn s now (holds n batch) w e =
      let r : Round S =
        batch_formatted sink locale now n batch s.logger
          (format_batch locale batch s.logger.cache) in
      record {
        after = ends_round s r;
        made = works now n batch w e refl;
        counts = refl;
        shows = refl;
        still = round-stopping s r;
      }
  next-Turn s now (missed n) w e = record {
    after = ends_round s (idle sink now n s.logger);
    made = idles now n w e refl;
    counts = refl;
    shows = refl;
    still = round-stopping s (idle sink now n s.logger);
  }

  -- A state after turns of the worker, in which `stop` closes the sinks and returns.
  pub record Returns (clock : ℕ → Readings) (s : System S) : Type 0 where
    pub end : System S
    pub path : Alone clock s end
    pub answer :
        stop_join sink end.logger
        ≡ stopped
            (record end.logger { worker = absent; sinks = [] })
            (close_sinks sink end.logger.sinks)

  joined :
      (l : Logger S) (w : Thread)
      → w ≢ looping
      → stop_joined sink l w
        ≡ stopped (record l { worker = absent; sinks = [] }) (close_sinks sink l.sinks)
  unfolding stop_joined
  joined l absent h = refl
  joined l finished h = refl
  joined l looping h = absurd (h refl)

  now-Returns : (clock : ℕ → Readings) (s : System S) → s.logger.worker ≢ looping → Returns clock s
  unfolding stop_join
  now-Returns clock s h = record {
    end = s;
    path = done;
    answer = joined s.logger s.logger.worker h;
  }

  worker_cases : (w : Thread) → (w ≡ looping) ⊎ (w ≢ looping)
  worker_cases looping = inl refl
  worker_cases absent = inr (λ e. cc)
  worker_cases finished = inr (λ e. cc)

  some_turns : (p : Phase) (k : ℕ) → 1 ≤ turns_of looping p k
  some_turns (ready n) k = omega arith
  some_turns (holds n batch) k = omega arith
  some_turns (missed n) k = omega arith

  within-Returns :
      (k : ℕ) (clock : ℕ → Readings) (s : System S)
      → Reach sink locale s
      → s.stopping ≡ true
      → turns_left s ≤ k
      → Returns clock s
  within-Returns zero clock s r on h = elim (worker_cases s.logger.worker) [
    | inr gone ↦ now-Returns clock s gone
    | inl w ↦ absurd (
        omega (
          arith,
          h,
          looping_turns s s.phase w refl,
          some_turns s.phase (length s.logger.queue.items),
        ))
  ]
  within-Returns (suc k) clock s r on h = elim (worker_cases s.logger.worker) [
    | inr gone ↦ now-Returns clock s gone
    | inl w ↦
        let t : Turn (clock 0) s = next-Turn s (clock 0) s.phase w refl in
        let closed = (Reach-IsSound sink locale r).waits_closed on in
        let less = step_turns sink locale t.made on closed (t.still ∙ on) in
        let rest : Returns (λ j. clock (suc j)) t.after =
          within-Returns k (λ j. clock (suc j)) t.after (later r t.made) (t.still ∙ on)
            (omega (arith, h, less, t.counts)) in
        record {
          end = rest.end;
          path = and_then t.made t.counts t.shows rest.path;
          answer = rest.answer;
        }
  ]

  -- From every state in which a `stop` waits, turns of the worker alone lead to one in which the
  -- `stop` closes each sink and returns, whatever the sinks do, throwing included, and
  -- whatever the clock shows at each turn.
  pub stop-Returns :
      (clock : ℕ → Readings) (s : System S)
      → Reach sink locale s
      → s.stopping ≡ true
      → Returns clock s
  stop-Returns clock s r on = within-Returns (turns_left s) clock s r on (omega arith)
