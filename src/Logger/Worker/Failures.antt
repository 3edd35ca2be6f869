-- ===== src/Logger/Worker/Failures.antt =====
-- However the worker leaves its loop, the queue is closed, so no producer waits for room in vain.
use cpp_logger.Base.{
  ℕ, ◌+◌, ◌≡◌, inl, inr, refl, sym, Bool, true, false, ◌&&◌, ◌||◌, List, leb, if◌then◌else◌,
  Bool-cases,
}
use mathlib.Core.Path.{subst}
use cpp_logger.Base.Outcome.{Outcome, ok, threw, unfinished}
use cpp_logger.Queue.{Pop, close}
use cpp_logger.Sink.{LogSink, Batch}
use cpp_logger.Logger.{LogRecord, Logger, finished, Cache}
use cpp_logger.Logger.Config.{is_periodic, is_every_batch}
use cpp_logger.Logger.Format.{Locale}
use cpp_logger.Logger.Worker.{
  Readings, Round, goes_on, leaves, waits, for_each, flush_sinks, format_batch, finish, finish_with,
  caught, after_flush, batch_written, batch_formatted, idle, idle_end, popped, round, any_demands,
  interval_of, renewed,
}

module _ {S : Type 0} (sink : LogSink S) where
  record IsOver (m : Logger S) : Type 0 where
    closed : m.queue.is_closed ≡ true
    ended : m.worker ≡ finished

  abbrev IsSound : Round S → Type 0
  IsSound (goes_on l n) = Unit
  IsSound (leaves m) = IsOver m
  IsSound waits = Unit

  finish_with-IsOver :
      (l : Logger S) (r : Outcome (Unit {0}) × List S)
      → l.queue.is_closed ≡ true
      → IsOver (finish_with l r)
  unfolding finish_with close
  finish_with-IsOver l (ok u, ss) h = record { closed = h; ended = refl }
  finish_with-IsOver l (threw e, ss) h = record { closed = refl; ended = refl }
  finish_with-IsOver l (unfinished, ss) h = record { closed = refl; ended = refl }

  finish-IsOver : (l : Logger S) → l.queue.is_closed ≡ true → IsOver (finish sink l)
  unfolding finish
  finish-IsOver l h = finish_with-IsOver l (flush_sinks sink l.sinks) h

  caught-IsOver : (l : Logger S) → IsOver (finish sink (caught l))
  unfolding caught close
  caught-IsOver l = finish-IsOver (caught l) refl

  after_flush-IsSound :
      (l : Logger S) (n : ℕ) (r : Outcome (Unit {0}) × List S) → IsSound (after_flush sink l n r)
  unfolding after_flush
  after_flush-IsSound l n (ok u, ss) = tt
  after_flush-IsSound l n (threw e, ss) = caught-IsOver (record l { sinks = ss })
  after_flush-IsSound l n (unfinished, ss) = caught-IsOver (record l { sinks = ss })

  batch_written-IsSound :
      (now : Readings) (n : ℕ) (batch : List LogRecord) (l : Logger S)
      (r : Outcome (Unit {0}) × List S)
      → IsSound (batch_written sink now n batch l r)
  unfolding batch_written
  batch_written-IsSound now n batch l (ok u, ss) =
      elim (Bool-cases (
        is_every_batch l.flush_policy
        || any_demands l.flush_at_or_above batch
        || (is_periodic l.flush_policy && leb n now.check))) [
          | inl flushes ↦ rw flushes (
              after_flush-IsSound (record l { sinks = ss }) (renewed l now.after n)
                (flush_sinks sink ss))
          | inr skips ↦ rw skips tt
        ]
  batch_written-IsSound now n batch l (threw e, ss) = caught-IsOver (record l { sinks = ss })
  batch_written-IsSound now n batch l (unfinished, ss) = caught-IsOver (record l { sinks = ss })

  batch_formatted-IsSound :
      (locale : Locale) (now : Readings) (n : ℕ) (batch : List LogRecord) (l : Logger S)
      (r : Outcome Batch × Cache)
      → IsSound (batch_formatted sink locale now n batch l r)
  unfolding batch_formatted
  batch_formatted-IsSound locale now n batch l (ok texts, c) =
      batch_written-IsSound now n batch (record l { cache = c })
        (for_each (sink.write_batch texts) l.sinks)
  batch_formatted-IsSound locale now n batch l (threw e, c) = caught-IsOver (record l { cache = c })
  batch_formatted-IsSound locale now n batch l (unfinished, c) =
      caught-IsOver (record l { cache = c })

  idle_end-IsSound : (r : Round S) → IsSound r → IsSound (idle_end sink r)
  idle_end-IsSound (goes_on l n) h = elim (Bool-cases l.queue.is_closed) [
    | inl e ↦
        subst (λ b. IsSound (if b then leaves (finish sink l) else goes_on l n)) (sym e)
          (finish-IsOver l e)
    | inr e ↦ subst (λ b. IsSound (if b then leaves (finish sink l) else goes_on l n)) (sym e) tt
  ]
  idle_end-IsSound (leaves m) h = h
  idle_end-IsSound waits h = tt

  idle-IsSound : (now : Readings) (n : ℕ) (l : Logger S) → IsSound (idle sink now n l)
  unfolding idle
  idle-IsSound now n l = elim (Bool-cases (is_periodic l.flush_policy && leb n now.check)) [
    | inl due ↦ rw due (
        idle_end-IsSound _ (
          after_flush-IsSound l (now.after + interval_of l.flush_interval)
            (flush_sinks sink l.sinks)))
    | inr early ↦ rw early (idle_end-IsSound (goes_on l n) tt)
  ]

  popped-IsSound :
      (locale : Locale) (now : Readings) (n : ℕ) (l : Logger S)
      (p : Pop LogRecord (List LogRecord × Bool))
      → IsSound (popped sink locale now n l p)
  unfolding popped
  popped-IsSound locale now n l (Pop.returns (batch, true) q x) =
      batch_formatted-IsSound locale now n batch (record l { queue = q })
        (format_batch locale batch l.cache)
  popped-IsSound locale now n l (Pop.returns (batch, false) q x) =
      idle-IsSound now n (record l { queue = q })
  popped-IsSound locale now n l Pop.waits = tt

  -- Whatever the sinks and the clock do: if a round leaves the loop, because the queue is closed
  -- or because formatting or a sink threw, the queue is closed and the thread has ended.
  pub round-leaves :
      (locale : Locale) (now : Readings) (next_flush : ℕ) (l m : Logger S)
      → round sink locale now next_flush l ≡ leaves m
      → (m.queue.is_closed ≡ true) × (m.worker ≡ finished)
  unfolding round
  round-leaves locale now next_flush l m e =
      let h : IsOver m = subst IsSound e (popped-IsSound locale now next_flush l _) in
      (h.closed, h.ended)
