-- ===== src/Logger/Threads/Printed/Examples.antt =====
-- A cycle of the threads with one record, over a file and the console.
use cpp_logger.Base.{ℕ, ◌%◌, ◌<◌, ◌≡◌, refl, true, false, [], ◌∷◌, arith, word_mod}
use cpp_logger.Base.Decimal.{decimal}
use cpp_logger.Base.Int.{decimal_int}
use cpp_logger.Queue.{push, close, reset, new, pop_batch}
use cpp_logger.Queue.History
use cpp_logger.Sink.File
use cpp_logger.Sink.File.Batches.{lines}
use cpp_logger.Sink.BuiltIn.{
  BuiltIn, file, console, built_in, make_file_sink, make_console, write_batch, flush,
}
use cpp_logger.Sink.Console
use cpp_logger.Sink.Disk
use cpp_logger.Base.Bytes.{bytes_eq}
use cpp_logger.Logger.{LoggerConfig, Logger, looping, new_logger, simple_config, on_stop}
use cpp_logger.Logger.Config.{rejects, non_null}
use cpp_logger.Logger.Examples.{greeting, utc}
use cpp_logger.Logger.Format.{Locale, format_message, format_time, with_millis, append_integer}
use cpp_logger.Logger.Lifecycle.{
  started, configured, init, stop_request, log_begin, log_end, make_record,
}
use cpp_logger.Logger.Startup.{devices_start, init-AllReady}
use cpp_logger.Logger.Startup.Examples.{
  devices, devices-IsHealthy, devices-IsWorking, quiet_stream, both, new_file, new_console,
}
use cpp_logger.Logger.Worker.{
  Readings, any_demands, demands_flush, pops_from, batch_formatted, format_batch, idle,
}
use cpp_logger.Logger.Worker.Printing.{AllReady, AllPrinted}
use cpp_logger.Logger.Worker.Rounds.{texts}
use cpp_logger.Logger.Threads.{
  ready, begun, System, left_behind, ends_log, ends_pop, ends_round, ends_init, begins, pushes,
  pops, works, idles, stops, inits, initial,
}
use cpp_logger.Logger.Threads.Mirror.{ReadyReach, origin, onward}
use cpp_logger.Logger.Threads.Printed.{ReadyReach-prints, PrintedSoFar, ReadyReach-PrintedSoFar}

abbrev hashed : Locale
hashed = record { local_time = utc.local_time; thread_hash = λ id. id % word_mod }

hashed-below : (id : ℕ) → hashed.thread_hash id < word_mod
hashed-below id = omega arith

abbrev untimed : LoggerConfig BuiltIn
untimed = record both { flush_policy = on_stop }

abbrev untimed_logger : Logger BuiltIn
untimed_logger =
    record (configured (built_in devices) new_logger untimed
      (file new_file ∷ console new_console ∷ [])) { running = true; worker = looping }

untimed-init :
    init
      (built_in devices)
      (devices_start devices [] 0 quiet_stream quiet_stream true)
      untimed
      new_logger
    ≡ started untimed_logger []
unfolding init simple_config new_logger configured rejects non_null make_file_sink
    File.make_file_sink make_console
untimed-init = refl

untimed-AllReady : AllReady untimed_logger.sinks
unfolding simple_config
untimed-AllReady =
    init-AllReady devices [] 0 quiet_stream quiet_stream true untimed new_logger untimed_logger []
      devices-IsHealthy refl refl refl untimed-init

abbrev cycle : System BuiltIn
cycle = ends_init (initial (built_in devices) hashed) untimed_logger (ready 1000)

abbrev calling : System BuiltIn
calling = record cycle { producers = begun 1 greeting ∷ [] }

abbrev called : System BuiltIn
called =
    ends_log calling (History.pushes 1 greeting) [] []
      (left_behind 1 greeting (log_end calling.logger 1 greeting))

abbrev asked : System BuiltIn
asked = record called { logger = stop_request called.logger; stopping = true }

abbrev last_batch : System BuiltIn
last_batch = ends_pop asked 1000 (pops_from asked.logger false)

abbrev now : Readings
now = record { check = 0; after = 0; timed_out = false }

abbrev worked : System BuiltIn
worked = ends_round last_batch (
    batch_formatted (built_in devices) hashed now 1000 (greeting ∷ []) last_batch.logger
      (format_batch hashed (greeting ∷ []) last_batch.logger.cache))

abbrev without : System BuiltIn
without = ends_pop worked 1000 (pops_from worked.logger false)

abbrev done : System BuiltIn
done = ends_round without (idle (built_in devices) now 1000 without.logger)

called-ReadyReach : ReadyReach devices devices-IsWorking hashed called
unfolding simple_config new_logger configured reset new ends_init ends_log log_begin make_record
called-ReadyReach =
    onward
      (onward
        (onward origin
          (inits (devices_start devices [] 0 quiet_stream quiet_stream true) untimed untimed_logger
            [] 1000 refl untimed-init refl)
          untimed-AllReady)
        (begins 1 greeting refl (omega arith) refl refl) untimed-AllReady)
      (pushes [] 1 greeting [] refl refl) untimed-AllReady

last_batch-ReadyReach : ReadyReach devices devices-IsWorking hashed last_batch
unfolding simple_config new_logger configured reset new ends_init ends_log ends_pop stop_request
last_batch-ReadyReach =
    onward (onward called-ReadyReach (stops refl refl) untimed-AllReady)
      (pops 1000 false refl refl refl) untimed-AllReady

done-ReadyReach : ReadyReach devices devices-IsWorking hashed done
unfolding simple_config new_logger configured reset new ends_init ends_log ends_pop stop_request
    batch_formatted idle pops_from pop_batch close push format_batch format_message format_time
    with_millis append_integer decimal_int decimal make_record any_demands demands_flush write_batch
    File.write_batch bytes_eq File.make_file_sink Disk.size Console.write_batch flush File.flush
    Console.flush
done-ReadyReach =
    onward
      (onward
        (onward last_batch-ReadyReach (works now 1000 (greeting ∷ []) refl refl refl)
          untimed-AllReady)
        (pops 1000 false refl refl refl) untimed-AllReady)
      (idles now 1000 refl refl refl) untimed-AllReady

ReadyReach-prints_example :
    AllPrinted (lines (texts hashed done.accepted)) done.given done.logger.sinks
    × (done.logger.queue.items ≡ [])
    × (done.logger.queue.is_closed ≡ true)
unfolding simple_config new_logger configured reset new ends_init ends_log ends_pop stop_request
    batch_formatted idle pops_from pop_batch close push format_batch format_message format_time
    with_millis append_integer decimal_int decimal make_record any_demands demands_flush write_batch
    File.write_batch bytes_eq File.make_file_sink Disk.size Console.write_batch flush File.flush
    Console.flush
ReadyReach-prints_example =
    ReadyReach-prints devices devices-IsWorking hashed hashed-below done-ReadyReach refl refl refl

ReadyReach-PrintedSoFar_example :
    PrintedSoFar devices devices-IsWorking hashed hashed-below last_batch
unfolding simple_config new_logger configured reset new ends_init ends_log ends_pop stop_request
ReadyReach-PrintedSoFar_example =
    ReadyReach-PrintedSoFar devices devices-IsWorking hashed hashed-below last_batch-ReadyReach
      (λ e. cc)
