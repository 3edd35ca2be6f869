-- ===== src/Logger/Worker/Effect.antt =====
-- What the worker's work on the sinks, whatever they do, leaves of the rest of the logger.
use mathlib.Core.Path.{subst}
use cpp_logger.Base.{
  ℕ, ◌+◌, ◌≡◌, ◌⊎◌, inl, inr, refl, sym, ◌∙◌, true, false, ◌&&◌, ◌||◌, List, leb, if◌then◌else◌,
  Bool-cases,
}
use cpp_logger.Base.Outcome.{Outcome, ok, threw, unfinished}
use cpp_logger.Queue.{BlockingQueue, close}
use cpp_logger.Sink.{LogSink, Batch}
use cpp_logger.Logger.{LogRecord, Logger, finished, Cache}
use cpp_logger.Logger.Config.{is_periodic, is_every_batch}
use cpp_logger.Logger.Format.{Locale}
use cpp_logger.Logger.Worker.{
  Readings, Round, goes_on, leaves, for_each, flush_sinks, finish, finish_with, caught, after_flush,
  batch_written, batch_formatted, idle, idle_end, any_demands, interval_of, renewed,
}

pub close-closed : (q : BlockingQueue LogRecord) → q.is_closed ≡ true → q ≡ close q
unfolding close
close-closed q h = λ i. record q { is_closed = h i }

module _ {S : Type 0} where
  -- The worker has ended: the queue is closed and otherwise as it was, and nothing runs, unless the
  -- queue had been closed before.
  pub record Ends (l m : Logger S) : Type 0 where
    pub queue : m.queue ≡ close l.queue
    pub ended : m.worker ≡ finished
    pub halted : (m.running ≡ false) ⊎ ((l.queue.is_closed ≡ true) × (m.running ≡ l.running))

  -- A round that goes on has changed the sinks and the cache only; and it does not wait.
  abbrev pub Effect : Logger S → Round S → Type 0
  Effect l (goes_on m n) = m ≡ record l { sinks = m.sinks; cache = m.cache }
  Effect l (leaves m) = Ends l m
  Effect l Round.waits = ⊥

  -- A round without a batch goes on only if the queue is open.
  abbrev pub IdleEffect : Logger S → Round S → Type 0
  IdleEffect l (goes_on m n) =
      (m ≡ record l { sinks = m.sinks; cache = m.cache }) × (l.queue.is_closed ≡ false)
  IdleEffect l (leaves m) = Ends l m
  IdleEffect l Round.waits = ⊥

  -- The last flush after an exception.
  caught-Ends :
      (l : Logger S) (ss : List S) (c : Cache) (r : Outcome (Unit {0}) × List S)
      → Ends l (finish_with (caught (record l { sinks = ss; cache = c })) r)
  unfolding finish_with caught close
  caught-Ends l ss c (ok u, ts) = record { queue = refl; ended = refl; halted = inl refl }
  caught-Ends l ss c (threw e, ts) = record { queue = refl; ended = refl; halted = inl refl }
  caught-Ends l ss c (unfinished, ts) = record { queue = refl; ended = refl; halted = inl refl }

  -- The last flush once the queue is closed.
  closed-Ends :
      (l m : Logger S) (r : Outcome (Unit {0}) × List S)
      → m ≡ record l { sinks = m.sinks; cache = m.cache }
      → l.queue.is_closed ≡ true
      → Ends l (finish_with m r)
  unfolding finish_with caught close
  closed-Ends l m (ok u, ts) e h = record {
    queue = (λ i. (e i).queue) ∙ close-closed l.queue h;
    ended = refl;
    halted = inr (h, λ i. (e i).running);
  }
  closed-Ends l m (threw x, ts) e h = record {
    queue = λ i. close (e i).queue;
    ended = refl;
    halted = inl refl;
  }
  closed-Ends l m (unfinished, ts) e h = record {
    queue = λ i. close (e i).queue;
    ended = refl;
    halted = inl refl;
  }

module _ {S : Type 0} (sink : LogSink S) where
  after_flush-Effect :
      (l : Logger S) (ss : List S) (c : Cache) (n : ℕ) (r : Outcome (Unit {0}) × List S)
      → Effect l (after_flush sink (record l { sinks = ss; cache = c }) n r)
  unfolding after_flush finish
  after_flush-Effect l ss c n (ok u, ts) = refl
  after_flush-Effect l ss c n (threw e, ts) = caught-Ends l ts c _
  after_flush-Effect l ss c n (unfinished, ts) = caught-Ends l ts c _

  batch_written-Effect :
      (now : Readings) (n : ℕ) (batch : List LogRecord) (l : Logger S) (c : Cache)
      (r : Outcome (Unit {0}) × List S)
      → Effect l (batch_written sink now n batch (record l { cache = c }) r)
  unfolding batch_written finish
  batch_written-Effect now n batch l c (ok u, ss) =
      elim (Bool-cases (
        is_every_batch l.flush_policy
        || any_demands l.flush_at_or_above batch
        || (is_periodic l.flush_policy && leb n now.check))) [
          | inl flushes ↦
              rw flushes (after_flush-Effect l ss c (renewed l now.after n) (flush_sinks sink ss))
          | inr skips ↦ rw skips refl
        ]
  batch_written-Effect now n batch l c (threw e, ss) = caught-Ends l ss c _
  batch_written-Effect now n batch l c (unfinished, ss) = caught-Ends l ss c _

  pub batch_formatted-Effect :
      (locale : Locale) (now : Readings) (n : ℕ) (batch : List LogRecord) (l : Logger S)
      (r : Outcome Batch × Cache)
      → Effect l (batch_formatted sink locale now n batch l r)
  unfolding batch_formatted finish
  batch_formatted-Effect locale now n batch l (ok texts, c) =
      batch_written-Effect now n batch l c (for_each (sink.write_batch texts) l.sinks)
  batch_formatted-Effect locale now n batch l (threw e, c) = caught-Ends l l.sinks c _
  batch_formatted-Effect locale now n batch l (unfinished, c) = caught-Ends l l.sinks c _

  idle_end-Effect : (l : Logger S) (r : Round S) → Effect l r → IdleEffect l (idle_end sink r)
  unfolding finish
  idle_end-Effect l (goes_on m n) e = elim (Bool-cases m.queue.is_closed) [
    | inl h ↦
        subst (λ b. IdleEffect l (if b then leaves (finish sink m) else goes_on m n)) (sym h)
          (closed-Ends l m (flush_sinks sink m.sinks) e ((λ i. (sym e i).queue.is_closed) ∙ h))
    | inr h ↦
        subst (λ b. IdleEffect l (if b then leaves (finish sink m) else goes_on m n)) (sym h)
          (e, (λ i. (sym e i).queue.is_closed) ∙ h)
  ]
  idle_end-Effect l (leaves m) h = h
  idle_end-Effect l Round.waits h = absurd h

  pub idle-Effect : (now : Readings) (n : ℕ) (l : Logger S) → IdleEffect l (idle sink now n l)
  unfolding idle
  idle-Effect now n l = elim (Bool-cases (is_periodic l.flush_policy && leb n now.check)) [
    | inl due ↦ rw due (
        idle_end-Effect l _ (
          after_flush-Effect l l.sinks l.cache (now.after + interval_of l.flush_interval)
            (flush_sinks sink l.sinks)))
    | inr early ↦ rw early (idle_end-Effect l (goes_on l n) refl)
  ]
