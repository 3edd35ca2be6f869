-- ===== src/Logger/Startup/Examples.antt =====
-- A cycle with a file and the console, and workers over sinks of two kinds.
use cpp_logger.Base.{
  ℕ, ◌+◌, ◌≡◌, inl, refl, true, none, some, List, [], ◌∷◌, arith, length, length-append,
}
use cpp_logger.Base.Bytes.{codes}
use cpp_logger.Base.Outcome.{ok}
use cpp_logger.Sink.{LogSink, Bytes}
use cpp_logger.Sink.File
use cpp_logger.Sink.File.Success.{IsHealthy}
use cpp_logger.Sink.File.Batches.{lines}
use cpp_logger.Sink.Console
use cpp_logger.Sink.BuiltIn.{
  BuiltIn, file, console, Devices, built_in, make_file_sink, make_console,
}
use cpp_logger.Sink.BuiltIn.Ready.{IsWorking}
use cpp_logger.Logger.{info, LoggerConfig, Logger, looping, finished, new_logger, simple_config}
use cpp_logger.Logger.Config.{rejects, non_null}
use cpp_logger.Logger.Examples.{memory, leftover, clock, utc}
use cpp_logger.Logger.Lifecycle.{started, configured, init, make_record}
use cpp_logger.Logger.Startup.{devices_start, init-AllReady}
use cpp_logger.Logger.Worker.{worker_loop}
use cpp_logger.Logger.Worker.Rounds.{texts}
use cpp_logger.Logger.Worker.Printing.{AllReady, AllPrinted, worker_loop-prints}
use cpp_logger.Logger.Worker.Simulation.{with_sinks, Simulates}

-- A sink that counts its records, and one that keeps them.
abbrev counting : LogSink ℕ
counting = record {
  write_batch = λ batch n. (ok tt, n + length batch);
  flush = λ n. (ok tt, n);
  close = λ n. n;
}

abbrev Counts : List Bytes → ℕ → Type 0
Counts kept n = length kept ≡ n

counting-Simulates : Simulates memory counting Counts
counting-Simulates = record {
  writes = λ batch kept n e. (n + length batch, refl, omega (arith, length-append kept batch));
  flushes = λ kept n e. (n, refl, omega (arith, length-append kept []));
}

-- Devices that work.
abbrev pub devices : Devices
devices = record {
  files = record {
    today = λ n. codes "2026-01-01";
    creates_directories = λ n. true;
    opens = λ n. true;
    knows_size = λ n. true;
    cuts_write = λ n. none;
    flushes = λ n. true;
  };
  cuts_write = λ w. none;
  flushes = λ w. true;
}

pub devices-IsHealthy : IsHealthy devices.files
devices-IsHealthy = record {
  opens = λ n. refl;
  knows = λ n. refl;
  whole = λ n. refl;
  flushes = λ n. refl;
}

pub devices-IsWorking : IsWorking devices
devices-IsWorking = record { files = devices-IsHealthy; whole = λ w. refl; flushes = λ w. refl }

abbrev pub quiet_stream : Console.Output
quiet_stream = record { bytes = []; good = true }

abbrev pub both : LoggerConfig BuiltIn
both =
    record (simple_config (record { parent_path = codes "logs"; filename = codes "app" }) info
      1000) { enable_console_sink = true }

abbrev pub new_file : File.World
new_file =
    (File.make_file_sink devices.files
      (record { parent_path = codes "logs"; filename = codes "app" }) 1000 [] 0).1

abbrev pub new_console : Console.World
new_console = record {
  sink = record { target = both.console_stream; pending = [] };
  cout = quiet_stream;
  cerr = quiet_stream;
}

abbrev printing : Logger BuiltIn
printing =
    record (configured (built_in devices) new_logger both
      (file new_file ∷ console new_console ∷ [])) { running = true; worker = looping }

printing-init :
    init
      (built_in devices)
      (devices_start devices [] 0 quiet_stream quiet_stream true)
      both
      new_logger
    ≡ started printing []
unfolding init simple_config new_logger configured rejects non_null make_file_sink
    File.make_file_sink make_console
printing-init = refl

init-AllReady_example : AllReady printing.sinks
unfolding simple_config
init-AllReady_example =
    init-AllReady devices [] 0 quiet_stream quiet_stream true both new_logger printing []
      devices-IsHealthy refl refl refl printing-init

-- Two records are queued when `stop` closes the queue.
abbrev closing : Logger BuiltIn
closing = with_sinks leftover printing.sinks

worker_loop-prints_example :
    (m : Logger BuiltIn) × (worker_loop (built_in devices) utc 3 clock 1000 closing ≡ some m)
    × (m.worker ≡ finished)
    × (m.queue.items ≡ [])
    × AllPrinted (lines (texts utc closing.queue.items)) closing.sinks m.sinks
    × AllReady m.sinks
unfolding make_record
worker_loop-prints_example =
    worker_loop-prints devices devices-IsWorking utc 3 clock 1000 closing init-AllReady_example refl
      (omega arith) (omega arith, omega arith, (omega arith, omega arith, tt)) (inl refl)
      (omega arith)
