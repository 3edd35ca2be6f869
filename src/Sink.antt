-- ===== src/Sink.antt =====
-- include/LogSink.h: what the logger asks of a sink, and the two built-in sinks of src/LogSink.cpp.
pub mod Disk
pub mod File
pub mod Console
pub mod BuiltIn
mod Examples
use cpp_logger.Base.{ℕ, List}
use cpp_logger.Base.Outcome.{Run}

-- A text as its bytes, and a batch of records without line ends.
abbrev pub Bytes : Type 0
Bytes = List ℕ

abbrev pub Batch : Type 0
Batch = List Bytes

-- `class LogSink` over sinks with state `S`. `close` is `noexcept`.
pub record LogSink (S : Type 0) : Type 0 where
  pub write_batch : Batch → Run S (Unit {0})
  pub flush : Run S (Unit {0})
  pub close : S → S

pub data ConsoleStream : Type 0 where
  stdout stderr : ConsoleStream
  other : ℕ → ConsoleStream
