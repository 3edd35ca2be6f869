-- ===== src/Logger/Worker.antt =====
-- src/Logger.cpp: `workerLoop` and `flushSinks`, a round of the loop at a time.
pub mod Gains
pub mod Rounds
pub mod Delivery
pub mod Failures
pub mod Effect
pub mod Partial
mod Examples
pub mod Simulation
pub mod Printing
pub mod Flushing
use cpp_logger.Base.{
  ℕ, zero, suc, ◌+◌, ◌-◌, Bool, true, false, not, ◌&&◌, ◌||◌, Option, none, some, List, [], ◌∷◌,
  leb, if◌then◌else◌,
}
use cpp_logger.Base.Int.{ℤ, pos, negsuc, leb_int}
use cpp_logger.Base.Outcome.{Outcome, ok, threw, unfinished, Failure, Run, ◌>>=◌, ◌>>◌}
use cpp_logger.Queue.{BlockingQueue, Pop, pop_batch, pop_batch_for, close}
use cpp_logger.Sink.{LogSink, Bytes, Batch}
use cpp_logger.Logger.{LogLevel, level_code, LogRecord, Logger, Thread, finished, Cache}
use cpp_logger.Logger.Config.{is_periodic, is_every_batch}
use cpp_logger.Logger.Format.{Locale, format_message}

-- The readings of the steady clock in one round, in milliseconds, for the periodic flush and for the
-- time of the next one; and whether the time of the wait was up.
pub record Readings : Type 0 where
  pub check : ℕ
  pub after : ℕ
  pub timed_out : Bool

-- The interval as a duration to add; `init` admits a positive one for the periodic policy.
abbrev pub interval_of : ℤ → ℕ
interval_of (pos n) = n
interval_of (negsuc n) = 0

-- `flushAtOrAbove_.has_value() && level >= *flushAtOrAbove_`
unfoldable pub demands_flush : Option LogLevel → LogLevel → Bool
demands_flush none level = false
demands_flush (some bound) level = leb_int (level_code bound) (level_code level)

unfoldable pub any_demands : Option LogLevel → List LogRecord → Bool
any_demands bound [] = false
any_demands bound (r ∷ rs) = demands_flush bound r.level || any_demands bound rs

-- A round of the loop: on to the next with the time of the next periodic flush, out of the loop, or
-- the wait for records.
pub data Round (S : Type 0) : Type 0 where
  goes_on : Logger S → ℕ → Round S
  leaves : Logger S → Round S
  waits : Round S

module _ {S : Type 0} where
  abbrev pub each_after :
      Outcome (Unit {0}) × S → List S → Outcome (Unit {0}) × List S → Outcome (Unit {0}) × List S
  each_after (ok u, s) ss rest = (rest.0, s ∷ rest.1)
  each_after (threw e, s) ss rest = (threw e, s ∷ ss)
  each_after (unfinished, s) ss rest = (unfinished, s ∷ ss)

  -- A call of every sink in turn; an exception skips those that follow.
  unfoldable pub for_each : Run S (Unit {0}) → Run (List S) (Unit {0})
  for_each call [] = (ok tt, [])
  for_each call (s ∷ ss) = each_after (call s) ss (for_each call ss)

  -- The `catch` of the loop, and of the last flush.
  unfoldable pub caught : Logger S → Logger S
  caught l = record l { running = false; queue = close l.queue }

  abbrev pub renewed : Logger S → ℕ → ℕ → ℕ
  renewed l after next_flush =
      if is_periodic l.flush_policy then after + interval_of l.flush_interval else next_flush

  -- The last flush, and the end of the thread.
  unfoldable pub finish_with : Logger S → Outcome (Unit {0}) × List S → Logger S
  unfolding caught
  finish_with l (ok u, ss) = record l { sinks = ss; worker = finished }
  finish_with l (_, ss) = caught (record l { sinks = ss; worker = finished })

module _ (locale : Locale) where
  unfoldable pub format_batch : List LogRecord → Run Cache Batch
  format_batch [] c = (ok [], c)
  format_batch (r ∷ rs) c =
      (do text ← format_message locale r; rest ← format_batch rs; λ d. (ok (text ∷ rest), d)) c

module _ {S : Type 0} (sink : LogSink S) where
  -- `flushSinks`
  unfoldable pub flush_sinks : Run (List S) (Unit {0})
  unfolding for_each
  flush_sinks = for_each sink.flush

  unfoldable pub finish : Logger S → Logger S
  unfolding finish_with flush_sinks
  finish l = finish_with l (flush_sinks l.sinks)

  -- A flush at the end of a round, or the exception that ends the loop.
  unfoldable pub after_flush : Logger S → ℕ → Outcome (Unit {0}) × List S → Round S
  unfolding finish caught
  after_flush l next_flush (ok u, ss) = goes_on (record l { sinks = ss }) next_flush
  after_flush l next_flush (_, ss) = leaves (finish (caught (record l { sinks = ss })))

  -- The sinks have the batch: the decision to flush.
  unfoldable pub batch_written :
      Readings → ℕ → List LogRecord → Logger S → Outcome (Unit {0}) × List S → Round S
  unfolding after_flush flush_sinks
  batch_written now next_flush batch l (ok u, ss) =
      let l' : Logger S = record l { sinks = ss } in
      if is_every_batch l.flush_policy
        || any_demands l.flush_at_or_above batch
        || (is_periodic l.flush_policy && leb next_flush now.check)
      then after_flush l' (renewed l now.after next_flush) (flush_sinks ss)
      else goes_on l' next_flush
  batch_written now next_flush batch l (_, ss) = leaves (finish (caught (record l { sinks = ss })))

  -- No batch: a periodic flush, and the end of the loop if the queue is closed.
  abbrev idle_end : Round S → Round S
  idle_end (goes_on l next_flush) =
      if l.queue.is_closed then leaves (finish l) else goes_on l next_flush
  idle_end (leaves l) = leaves l
  idle_end waits = waits

  unfoldable pub idle : Readings → ℕ → Logger S → Round S
  unfolding after_flush flush_sinks finish
  idle now next_flush l =
      if is_periodic l.flush_policy && leb next_flush now.check
      then idle_end (after_flush l (now.after + interval_of l.flush_interval) (flush_sinks l.sinks))
      else idle_end (goes_on l next_flush)

module _ {S : Type 0} where
  -- The wait for records: with a timeout under the periodic policy.
  unfoldable pub pops_from : Logger S → Bool → Pop LogRecord (List LogRecord × Bool)
  pops_from l timed_out =
      if is_periodic l.flush_policy
      then pop_batch_for l.queue l.write_batch_size timed_out
      else pop_batch l.queue l.write_batch_size

module _ {S : Type 0} (sink : LogSink S) (locale : Locale) where
  unfoldable pub batch_formatted :
      Readings → ℕ → List LogRecord → Logger S → Outcome Batch × Cache → Round S
  unfolding batch_written for_each
  batch_formatted now next_flush batch l (ok texts, c) =
      let l' : Logger S = record l { cache = c } in
      batch_written sink now next_flush batch l' (for_each (sink.write_batch texts) l.sinks)
  batch_formatted now next_flush batch l (_, c) =
      leaves (finish sink (caught (record l { cache = c })))

  unfoldable pub popped : Readings → ℕ → Logger S → Pop LogRecord (List LogRecord × Bool) → Round S
  unfolding idle batch_formatted format_batch
  popped now next_flush l (Pop.returns (batch, true) q signal) =
      let l' : Logger S = record l { queue = q } in
      batch_formatted now next_flush batch l' (format_batch locale batch l.cache)
  popped now next_flush l (Pop.returns (batch, false) q signal) =
      idle sink now next_flush (record l { queue = q })
  popped now next_flush l Pop.waits = waits

  unfoldable pub round : Readings → ℕ → Logger S → Round S
  unfolding popped pops_from
  round now next_flush l = popped now next_flush l (pops_from l now.timed_out)

  -- `workerLoop` over a queue that nobody pushes to: `none` if it waits or the fuel runs out.
  unfoldable pub worker_loop : ℕ → (ℕ → Readings) → ℕ → Logger S → Option (Logger S)
  unfolding round
  worker_loop zero clock next_flush l = none
  worker_loop (suc fuel) clock next_flush l = elim (round (clock fuel) next_flush l) [
    | goes_on l' next ↦ worker_loop fuel clock next l'
    | leaves l' ↦ some l'
    | waits ↦ none
  ]
