-- ===== src/Logger/Threads/Examples.antt =====
-- The logger's threads on a cycle with one record.
use cpp_logger.Base.{
  ℕ, ◌+◌, ◌*◌, ◌%◌, ◌≤◌, ◌<◌, ◌≡◌, refl, true, false, List, [], ◌∷◌, arith, word_mod,
}
use cpp_logger.Base.Int.{decimal_int}
use cpp_logger.Base.Decimal.{decimal}
use cpp_logger.Queue.{push, close, reset, new, pop_batch}
use cpp_logger.Queue.History.{step}
use cpp_logger.Queue.History
use cpp_logger.Sink.{Bytes}
use cpp_logger.Logger.{LoggerConfig, Logger, looping, new_logger, simple_config, on_stop}
use cpp_logger.Logger.Config.{rejects, non_null}
use cpp_logger.Logger.Examples.{
  memory, memory-Reliable, greeting, willing, config, booted, booted-init, utc,
}
use cpp_logger.Logger.Format.{Locale, format_message, format_time, with_millis, append_integer}
use cpp_logger.Logger.Lifecycle.{
  started, configured, init, stop_request, log_begin, log_end, should_log, make_record,
}
use cpp_logger.Logger.Worker.{
  Readings, any_demands, demands_flush, pops_from, batch_formatted, format_batch, idle,
}
use cpp_logger.Logger.Worker.Rounds.{texts}
use cpp_logger.Logger.Worker.Gains.{Gains}
use cpp_logger.Logger.Threads.{
  ready, begun, System, left_behind, ends_log, ends_pop, ends_round, ends_init, begins, pushes,
  pops, works, idles, stops, inits, initial, Reach, start, later,
}
use cpp_logger.Logger.Threads.Conserved.{Conserved, Reach-Conserved, Reach-drains}
use cpp_logger.Logger.Threads.Order.{During}
use cpp_logger.Logger.Threads.Order
use cpp_logger.Logger.Threads.Order.Kept.{KeepsOrder, During-KeepsOrder}
use cpp_logger.Logger.Threads.Refines.Simulates.{Refines, Step-Refines}
use cpp_logger.Logger.Threads.Sound.Lawful.{IsLawful, Reach-IsLawful}
use cpp_logger.Logger.Threads.Stopping.Bounded.{Meanwhile, nothing, and_then, stop-bounded}
use cpp_logger.Logger.Threads.Stopping.Returns.{Returns, stop-Returns}
use cpp_logger.Logger.Threads.Race.{Loses, stop-Loses}

abbrev hashed : Locale
hashed = record { local_time = utc.local_time; thread_hash = λ id. id % word_mod }

hashed-below : (id : ℕ) → hashed.thread_hash id < word_mod
hashed-below id = omega arith

-- The cycle of `booted`, under the periodic policy.
abbrev timed_cycle : System (List Bytes)
timed_cycle = ends_init (initial memory hashed) booted (ready 1000)

timed_cycle-Reach : Reach memory hashed timed_cycle
timed_cycle-Reach = later start (inits willing config booted [] 1000 refl booted-init refl)

stop-Loses_example :
    (t : System (List Bytes)) × Loses memory (λ s. s) memory-Reliable hashed timed_cycle greeting t
unfolding simple_config new_logger configured reset ends_init should_log make_record
stop-Loses_example =
    stop-Loses memory (λ s. s) memory-Reliable hashed timed_cycle greeting 1000 timed_cycle-Reach
      refl refl refl refl refl refl (omega arith) (omega arith) refl (omega arith)

-- A cycle that flushes at its end only.
abbrev untimed : LoggerConfig (List Bytes)
untimed = record config { flush_policy = on_stop }

abbrev untimed_logger : Logger (List Bytes)
untimed_logger = record (configured memory new_logger untimed ([] ∷ [])) {
  running = true;
  worker = looping;
}

untimed-init : init memory willing untimed new_logger ≡ started untimed_logger []
unfolding init simple_config new_logger configured rejects non_null
untimed-init = refl

abbrev now : Readings
now = record { check = 0; after = 0; timed_out = false }

abbrev cycle : System (List Bytes)
cycle = ends_init (initial memory hashed) untimed_logger (ready 1000)

abbrev calling : System (List Bytes)
calling = record cycle { producers = begun 1 greeting ∷ [] }

abbrev called : System (List Bytes)
called =
    ends_log calling (History.pushes 1 greeting) [] []
      (left_behind 1 greeting (log_end calling.logger 1 greeting))

called-Reach : Reach memory hashed called
unfolding simple_config new_logger configured reset new ends_init log_begin make_record
called-Reach =
    later
      (later (later start (inits willing untimed untimed_logger [] 1000 refl untimed-init refl))
        (begins 1 greeting refl (omega arith) refl refl))
      (pushes [] 1 greeting [] refl refl)

abbrev taken : System (List Bytes)
taken = ends_pop called 1000 (pops_from called.logger false)

taken-Reach : Reach memory hashed taken
unfolding simple_config new_logger configured reset new ends_init ends_log ends_pop
taken-Reach = later called-Reach (pops 1000 false refl refl refl)

Reach-Conserved_example : Conserved memory (λ s. s) memory-Reliable hashed hashed-below taken
unfolding simple_config new_logger configured reset new ends_init ends_log ends_pop
Reach-Conserved_example =
    Reach-Conserved memory (λ s. s) memory-Reliable hashed hashed-below taken-Reach (λ e. cc)

-- The same, with `stop` before the worker is done.
abbrev asked : System (List Bytes)
asked = record called { logger = stop_request called.logger; stopping = true }

abbrev last_batch : System (List Bytes)
last_batch = ends_pop asked 1000 (pops_from asked.logger false)

abbrev worked : System (List Bytes)
worked = ends_round last_batch (
    batch_formatted memory hashed now 1000 (greeting ∷ []) last_batch.logger
      (format_batch hashed (greeting ∷ []) last_batch.logger.cache))

abbrev without : System (List Bytes)
without = ends_pop worked 1000 (pops_from worked.logger false)

abbrev done : System (List Bytes)
done = ends_round without (idle memory now 1000 without.logger)

done-Reach : Reach memory hashed done
unfolding simple_config new_logger configured reset new ends_init ends_log ends_pop stop_request
    batch_formatted idle pops_from pop_batch close push format_batch format_message format_time
    with_millis append_integer decimal_int decimal make_record any_demands demands_flush
done-Reach =
    later
      (later
        (later (later (later called-Reach (stops refl refl)) (pops 1000 false refl refl refl))
          (works now 1000 (greeting ∷ []) refl refl refl))
        (pops 1000 false refl refl refl))
      (idles now 1000 refl refl refl)

Reach-drains_example :
    Gains (λ s. s) (texts hashed done.accepted) done.given done.logger.sinks
    × (done.logger.queue.items ≡ [])
    × (done.logger.queue.is_closed ≡ true)
unfolding simple_config new_logger configured reset new ends_init ends_log ends_pop stop_request
    batch_formatted idle pops_from pop_batch close push format_batch format_message format_time
    with_millis append_integer decimal_int decimal make_record any_demands demands_flush
Reach-drains_example =
    Reach-drains memory (λ s. s) memory-Reliable hashed hashed-below done-Reach refl refl refl

Reach-IsLawful_example : IsLawful taken
unfolding simple_config new_logger configured reset new ends_init ends_log ends_pop
Reach-IsLawful_example = Reach-IsLawful memory hashed taken-Reach

-- `stop` with one record in the queue.
asked-Reach : Reach memory hashed asked
unfolding simple_config new_logger configured reset new ends_init ends_log stop_request
asked-Reach = later called-Reach (stops refl refl)

asked-Meanwhile : Meanwhile memory hashed asked 1 last_batch
unfolding simple_config new_logger configured reset new ends_init ends_log ends_pop stop_request
    pops_from pop_batch close push
asked-Meanwhile = and_then nothing (pops 1000 false refl refl refl) refl

stop-bounded_example : 1 ≤ 2 * asked.logger.queue.capacity + 3
unfolding simple_config new_logger configured reset new ends_init ends_log stop_request
stop-bounded_example = stop-bounded memory hashed asked-Reach refl asked-Meanwhile

stop-Returns_example : Returns memory hashed (λ k. now) asked
unfolding simple_config new_logger configured reset new ends_init ends_log stop_request
stop-Returns_example = stop-Returns memory hashed (λ k. now) asked asked-Reach refl

-- The record is in the queue at the first moment and with the worker at the second.
taken-During : During memory hashed called taken
unfolding simple_config new_logger configured reset new ends_init ends_log ends_pop
taken-During = Order.and_then Order.nothing (pops 1000 false refl refl refl) tt

During-KeepsOrder_example :
    KeepsOrder memory (λ s. s) memory-Reliable hashed hashed-below called taken
unfolding simple_config new_logger configured reset new ends_init ends_log ends_pop
During-KeepsOrder_example =
    During-KeepsOrder memory (λ s. s) memory-Reliable hashed hashed-below called-Reach taken-During
      (λ e. cc)

Step-Refines_example : Refines memory (λ s. s) memory-Reliable hashed hashed-below called taken
unfolding simple_config new_logger configured reset new ends_init ends_log ends_pop
Step-Refines_example =
    Step-Refines memory (λ s. s) memory-Reliable hashed hashed-below called-Reach
      (pops 1000 false refl refl refl) tt (λ e. cc) (λ e. cc)
