-- ===== src/Sink/BuiltIn.antt =====
-- src/LogSink.cpp: the two built-in sinks behind the interface, and `makeFileSink`, `makeConsoleSink`.
pub mod Ready
pub mod Printed
pub mod Made
use cpp_logger.Base.{ℕ, ◌+◌, Bool, true, Option, none, some, List, length}
use cpp_logger.Base.Outcome.{Outcome, ok, threw, unfinished, Run}
use cpp_logger.Sink.{LogSink, Batch, Bytes, ConsoleStream}
use cpp_logger.Sink.Disk.{Disk, stream}
use cpp_logger.Sink.File.{FilePath}
use cpp_logger.Sink.File
use cpp_logger.Sink.Console.{output_stream, make_console_sink}
use cpp_logger.Sink.Console

-- What a `std::shared_ptr<LogSink>` that `init` made points to. A sink has its own files: `init` makes
-- one of each kind at most.
pub data BuiltIn : Type 0 where
  file : File.World → BuiltIn
  console : Console.World → BuiltIn

-- What the system answers: to the operations on files, to a write to a console stream and to its flush.
pub record Devices : Type 0 where
  pub files : File.System
  pub cuts_write : Console.World → Option ℕ
  pub flushes : Console.World → Bool

abbrev pub of_file : Outcome (Unit {0}) × File.World → Outcome (Unit {0}) × BuiltIn
of_file (o, w) = (o, file w)

abbrev pub of_console : Outcome (Unit {0}) × Console.World → Outcome (Unit {0}) × BuiltIn
of_console (o, w) = (o, console w)

-- Enough rounds for the loops of a batch.
abbrev pub fuel_for : Batch → File.World → ℕ
fuel_for batch w = length w.disk + length batch + 2

module _ (dev : Devices) where
  unfoldable pub write_batch : Batch → Run BuiltIn (Unit {0})
  write_batch batch (file w) = of_file (File.write_batch dev.files (fuel_for batch w) batch w)
  write_batch batch (console w) = of_console (Console.write_batch (dev.cuts_write w) batch w)

  unfoldable pub flush : Run BuiltIn (Unit {0})
  flush (file w) = of_file (File.flush dev.files w)
  flush (console w) = of_console (Console.flush (dev.flushes w) w)

  unfoldable pub close : BuiltIn → BuiltIn
  close (file w) = file (File.close dev.files w)
  close (console w) = console (Console.close (dev.flushes w) w)

  abbrev pub built_in : LogSink BuiltIn
  built_in = record { write_batch = write_batch; flush = flush; close = close }

  pub made : Outcome (Unit {0}) × File.World → Option BuiltIn
  made (ok u, w) = some (file w)
  made (threw e, w) = none
  made (unfinished, w) = none

  -- `makeFileSink`, over the files as they are and the number of questions asked before.
  unfoldable pub make_file_sink : Disk → ℕ → FilePath → ℕ → Option BuiltIn
  unfolding made
  make_file_sink disk clock path max_file_size =
      made (File.make_file_sink dev.files path max_file_size disk clock)

-- `makeConsoleSink`, over the streams as they are.
unfoldable pub make_console : (cout cerr : Console.Output) → ConsoleStream → Option BuiltIn
unfolding make_console_sink
make_console cout cerr target =
    some (console (record { sink = make_console_sink target; cout = cout; cerr = cerr }))

-- All that was given to the sink's files, or to its stream, in the order of the writes.
unfoldable pub printed : BuiltIn → Bytes
unfolding stream output_stream
printed (file w) = stream w.disk
printed (console w) = (output_stream w.sink.target w).bytes
