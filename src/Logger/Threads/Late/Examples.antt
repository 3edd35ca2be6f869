-- ===== src/Logger/Threads/Late/Examples.antt =====
-- A call of `log` that is overtaken by a `stop` and the next `init`.
use cpp_logger.Base.{◌≡◌, refl, true, false, List, [], ◌∷◌, arith}
use cpp_logger.Queue.{Push, push_waiting, close, closed, quiet, reset, new, pop_batch_for}
use cpp_logger.Sink.{Bytes}
use cpp_logger.Logger.{Logger, looping, absent, new_logger, simple_config}
use cpp_logger.Logger.Config.{rejects, non_null}
use cpp_logger.Logger.Examples.{memory, greeting, willing, config, booted, booted-init, utc}
use cpp_logger.Logger.Lifecycle.{
  configured, init, stop_request, stop_join, log_begin, log_end, make_record,
}
use cpp_logger.Logger.Worker.{Readings, pops_from, idle}
use cpp_logger.Logger.Threads.{
  ready, begun, System, ends_pop, ends_round, ends_init, begins, pops, idles, stops, joins, inits,
  initial, Reach, start, later,
}
use cpp_logger.Logger.Threads.Late.{Onwards, nothing, and_then, late_record-refused}

abbrev first_cycle : System (List Bytes)
first_cycle = ends_init (initial memory utc) booted (ready 1000)

first_cycle-Reach : Reach memory utc first_cycle
first_cycle-Reach = later start (inits willing config booted [] 1000 refl booted-init refl)

abbrev called : System (List Bytes)
called = record first_cycle { producers = begun 1 greeting ∷ [] }

abbrev asked : System (List Bytes)
asked = record called { logger = stop_request called.logger; stopping = true }

abbrev now : Readings
now = record { check = 0; after = 0; timed_out = false }

abbrev empty : System (List Bytes)
empty = ends_pop asked 1000 (pops_from asked.logger false)

abbrev ended : System (List Bytes)
ended = ends_round empty (idle memory now 1000 empty.logger)

abbrev joined : System (List Bytes)
joined = record ended {
  logger = record ended.logger { worker = absent; sinks = [] };
  stopping = false;
}

abbrev rebooted : Logger (List Bytes)
rebooted = record (configured memory joined.logger config ([] ∷ [])) {
  running = true;
  worker = looping;
}

abbrev next_cycle : System (List Bytes)
next_cycle = ends_init joined rebooted (ready 2000)

next_cycle-Onwards : Onwards memory utc first_cycle 1 1 next_cycle
unfolding simple_config new_logger configured reset new ends_init ends_pop stop_request idle
    pops_from pop_batch_for close init rejects non_null log_begin make_record stop_join
next_cycle-Onwards =
    and_then
      (and_then
        (and_then
          (and_then
            (and_then (and_then nothing (begins 1 greeting refl (omega arith) refl refl))
              (stops refl refl))
            (pops 1000 false refl refl refl))
          (idles now 1000 refl refl refl))
        (joins joined.logger _ refl refl refl))
      (inits willing config rebooted [] 2000 refl refl refl)

late_record-refused_example :
    (log_end next_cycle.logger 1 greeting ≡ Push.returns next_cycle.logger.queue closed quiet)
    × (push_waiting next_cycle.logger.queue 1 greeting
        ≡ Push.returns next_cycle.logger.queue closed quiet)
unfolding simple_config new_logger configured reset new ends_init log_begin make_record
late_record-refused_example =
    late_record-refused memory utc greeting 1 first_cycle-Reach refl next_cycle-Onwards
      (omega arith) (omega arith)
