-- ===== src/Logger/Threads/Race.antt =====
-- A record that `stop` loses: it comes between the end of a timed wait and the test that ends the
-- worker's loop.
use mathlib.Core.Path.{subst}
use cpp_logger.Base.{
  ℕ, ◌≤◌, ◌<◌, ◌≡◌, refl, sym, ap, ◌∙◌, true, false, List, [], ◌∷◌, ◌++◌, append-nil, arith, length,
}
use cpp_logger.Queue.{
  BlockingQueue, Push, Pop, push, push_waiting, emplace_locked, enqueued, quiet, notify_one,
  pop_batch_for, close,
}
use cpp_logger.Queue.History.{step, after_push, pushed, batched}
use cpp_logger.Sink.{LogSink, Bytes}
use cpp_logger.Logger.{LogRecord, Logger, absent, looping, finished}
use cpp_logger.Logger.Config.{is_periodic}
use cpp_logger.Logger.Cycles.Stops.{macro_begin-log_begin}
use cpp_logger.Logger.Format.{Locale}
use cpp_logger.Logger.Format.Text.{IsInt}
use cpp_logger.Logger.Lifecycle.{
  stop_request, stop_join, stop_joined, close_sinks, should_log, log_end,
}
use cpp_logger.Logger.Worker.{pops_from}
use cpp_logger.Logger.Worker.Rounds.{idle-Idles}
use cpp_logger.Logger.Worker.Gains.{Reliable}
use cpp_logger.Logger.Threads.{
  ready, missed, begun, System, trace_of, with_trace, left_behind, ends_log, ends_pop, ends_round,
  Step, begins, pushes, pops, idles, stops, joins, Reach, later,
}

module _ {S : Type 0} where
  -- The time is up on an empty, open queue.
  pops_from-empty :
      (l : Logger S)
      → is_periodic l.flush_policy ≡ true
      → l.queue.items ≡ []
      → l.queue.is_closed ≡ false
      → 1 ≤ l.write_batch_size
      → pops_from l true ≡ Pop.returns ([], false) l.queue quiet
  unfolding pops_from pop_batch_for
  pops_from-empty l timed empty open_still pos = ground arith

push-enqueued :
    (q : BlockingQueue LogRecord) (g : ℕ) (r : LogRecord)
    → q.is_closed ≡ false
    → g ≡ q.generation
    → length q.items < q.capacity
    → push q g r ≡ Push.returns (emplace_locked q r) enqueued notify_one
unfolding push push_waiting
push-enqueued q g r open_still e room = ground arith

module _ {S : Type 0} (sink : LogSink S) (received : S → List Bytes) (good : Reliable sink received)
    (locale : Locale) where
  -- A stop that has returned, after which `r` is in the queue and was handed to nobody.
  pub record Loses (s : System S) (r : LogRecord) (t : System S) : Type 0 where
    pub reached : Reach sink locale t
    pub accepted : t.accepted ≡ s.accepted ++ (r ∷ [])
    pub handed : t.left ≡ s.left
    pub items : t.logger.queue.items ≡ r ∷ []
    pub closed : t.logger.queue.is_closed ≡ true
    pub worker : t.logger.worker ≡ absent
    pub sinks : t.logger.sinks ≡ []
    pub returned : t.stopping ≡ false

  abbrev waited : System S → ℕ → System S
  waited s n = record s { phase = missed n }

  abbrev with_producer : System S → ℕ → LogRecord → System S
  with_producer s n r = record s {
    phase = missed n;
    producers = begun s.logger.queue.generation r ∷ s.producers;
  }

  abbrev with_record : System S → ℕ → LogRecord → System S
  with_record s n r = record s {
    logger = record s.logger { queue = emplace_locked s.logger.queue r };
    phase = missed n;
    accepted = s.accepted ++ (r ∷ []);
  }

  abbrev requested : System S → ℕ → LogRecord → System S
  requested s n r = record s {
    logger = stop_request (record s.logger { queue = emplace_locked s.logger.queue r });
    phase = missed n;
    accepted = s.accepted ++ (r ∷ []);
    stopping = true;
  }

  waits :
      (s : System S) (r : LogRecord) (n : ℕ)
      → s.logger.worker ≡ looping
      → s.phase ≡ ready n
      → is_periodic s.logger.flush_policy ≡ true
      → s.logger.queue.items ≡ []
      → s.logger.queue.is_closed ≡ false
      → 1 ≤ s.logger.write_batch_size
      → Step sink locale s (waited s n)
  unfolding ends_pop batched
  waits s r n w p timed empty open_still pos = pops n true w p (
      (λ i. record s { phase = missed n; left = sym (append-nil s.left) i })
      ∙ sym (ap (ends_pop s n) (pops_from-empty s.logger timed empty open_still pos)))

  enters :
      (s : System S) (r : LogRecord) (n : ℕ)
      → s.logger.queue.is_closed ≡ false
      → length s.logger.queue.items < s.logger.queue.capacity
      → Step sink locale (with_producer s n r) (with_record s n r)
  unfolding ends_log step after_push pushed log_end
  enters s r n open_still room =
      let q : BlockingQueue LogRecord = s.logger.queue in
      let answer = push-enqueued q q.generation r open_still refl room in
      let with_answer : Push LogRecord → System S = λ p.
        record (with_trace (with_producer s n r) (after_push (trace_of s) r p)) {
          producers = left_behind q.generation r p ++ s.producers;
        } in
      pushes [] q.generation r s.producers refl (sym (ap with_answer answer))

  -- The loop is left with the record in the queue.
  abbrev left_loop : System S → ℕ → LogRecord → List S → System S
  left_loop s n r ts = record (requested s n r) {
    logger = record (requested s n r).logger { sinks = ts; worker = finished };
  }

  abbrev lost : System S → ℕ → LogRecord → System S
  lost s n r = record (requested s n r) {
    logger = record (requested s n r).logger { sinks = []; worker = absent };
    stopping = false;
  }

  leaves_loop :
      (s : System S) (r : LogRecord) (n : ℕ)
      → s.logger.worker ≡ looping
      → (ts : List S) × Step sink locale (requested s n r) (left_loop s n r ts)
  unfolding stop_request close
  leaves_loop s r n w =
      let (ts, m, e, gains) =
        idle-Idles sink received good locale (record { check = 0; after = 0; timed_out = true }) n
          (requested s n r).logger in
      (
        ts,
        idles (record { check = 0; after = 0; timed_out = true }) n w refl
            (sym (ap (ends_round (requested s n r)) e)),
      )

  returns_lost :
      (s : System S) (r : LogRecord) (n : ℕ) (ts : List S)
      → Step sink locale (left_loop s n r ts) (lost s n r)
  unfolding stop_join stop_joined stop_request
  returns_lost s r n ts = joins (lost s n r).logger (close_sinks sink ts) refl refl refl

  -- Under the periodic policy `stop` can lose a record that the queue has accepted, over sinks that never
  -- throw. In a reachable state, let the worker be
  -- before a pop with an empty open queue of a positive capacity, no `stop` be under way, the batch
  -- size be positive, and let `r`, whose line is an `int`, pass `shouldLog`. Then there are steps
  -- after which `stop` has returned, the worker and the sinks are gone, and `r` was accepted, was
  -- handed to nobody, and lies alone in the closed queue.
  pub stop-Loses :
      (s : System S) (r : LogRecord) (n : ℕ)
      → Reach sink locale s
      → s.stopping ≡ false
      → s.logger.worker ≡ looping
      → s.phase ≡ ready n
      → is_periodic s.logger.flush_policy ≡ true
      → s.logger.queue.items ≡ []
      → s.logger.queue.is_closed ≡ false
      → 1 ≤ s.logger.queue.capacity
      → 1 ≤ s.logger.write_batch_size
      → should_log s.logger r.level ≡ true
      → IsInt r.line
      → (t : System S) × Loses s r t
  unfolding emplace_locked stop_request close
  stop-Loses s r n reach still w p timed empty open_still room pos loud int =
      let (ts, leave) = leaves_loop s r n w in
      let at_wait = later reach (waits s r n w p timed empty open_still pos) in
      let at_begin = later at_wait (
        begins s.logger.queue.generation r still int
          ((macro_begin-log_begin s.logger r.level).1.0 loud) refl) in
      let at_push = later at_begin (
        enters s r n open_still
          (subst (λ xs. length xs < s.logger.queue.capacity) (sym empty) room)) in
      let at_stop = later at_push (stops still refl) in
      let at_end = later (later at_stop leave) (returns_lost s r n ts) in
      (
        lost s n r,
        record {
          reached = at_end;
          accepted = refl;
          handed = refl;
          items = ap (λ xs. xs ++ (r ∷ [])) empty;
          closed = refl;
          worker = refl;
          sinks = refl;
          returned = refl;
        },
      )
