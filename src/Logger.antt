-- ===== src/Logger.antt =====
-- include/Logger.h: levels, policies, configuration, records and the state of `Logger`. The member
-- functions stand in the modules below: Config (validation), Lifecycle (`init`, `stop`, `log`),
-- Format (`formatMessage`), Worker (`workerLoop`).
pub mod Config
pub mod Format
pub mod Lifecycle
pub mod Worker
pub mod Cycles
pub mod Spec
pub mod Threads
pub mod Startup
pub mod Calls
mod Examples
use cpp_logger.Base.{ℕ, ◌*◌, Bool, true, false, Option, none, some, List, []}
use cpp_logger.Base.Int.{ℤ, pos}
use cpp_logger.Queue.{BlockingQueue, OverflowPolicy, block, new}
use cpp_logger.Sink.{ConsoleStream, stdout, Bytes}
use cpp_logger.Sink.File.{FilePath}

pub data LogLevel : Type 0 where
  debug info warn error fatal : LogLevel
  other : ℤ → LogLevel

pub data FlushPolicy : Type 0 where
  on_stop periodic every_batch : FlushPolicy
  other : ℕ → FlushPolicy

-- `static_cast<int>(level)`
unfoldable pub level_code : LogLevel → ℤ
level_code debug = pos 0
level_code info = pos 1
level_code warn = pos 2
level_code error = pos 3
level_code fatal = pos 4
level_code (LogLevel.other k) = k

abbrev pub default_max_file_size : ℕ
default_max_file_size = 1024 * 1024

abbrev pub default_queue_capacity : ℕ
default_queue_capacity = 8192

abbrev pub default_write_batch_size : ℕ
default_write_batch_size = 256

abbrev pub default_flush_interval : ℤ
default_flush_interval = pos 1000

-- Sinks of the user have state `S`; a null pointer is `none`. The interval is in milliseconds.
pub record LoggerConfig (S : Type 0) : Type 0 where
  pub base_path : FilePath
  pub min_level : LogLevel
  pub max_file_size : ℕ
  pub queue_capacity : ℕ
  pub overflow_policy : OverflowPolicy
  pub write_batch_size : ℕ
  pub flush_policy : FlushPolicy
  pub flush_interval : ℤ
  pub flush_at_or_above : Option LogLevel
  pub enable_file_sink : Bool
  pub enable_console_sink : Bool
  pub console_stream : ConsoleStream
  pub additional_sinks : List (Option S)

-- The member initialisers of `LoggerConfig`, and the three members that the old `init` sets.
unfoldable pub simple_config : {S : Type 0} → FilePath → LogLevel → ℕ → LoggerConfig S
simple_config path level max_file_size = record {
  base_path = path;
  min_level = level;
  max_file_size = max_file_size;
  queue_capacity = default_queue_capacity;
  overflow_policy = block;
  write_batch_size = default_write_batch_size;
  flush_policy = periodic;
  flush_interval = default_flush_interval;
  flush_at_or_above = some error;
  enable_file_sink = true;
  enable_console_sink = false;
  console_stream = stdout;
  additional_sinks = [];
}

-- `LogRecord`. The time is in nanoseconds since the epoch. `static_file` is `none` for `nullptr`.
pub record LogRecord : Type 0 where
  pub timestamp : ℕ
  pub level : LogLevel
  pub thread_id : ℕ
  pub static_file : Option Bytes
  pub owned_file : Bytes
  pub line : ℤ
  pub message : Bytes

-- `std::thread worker_`: not joinable, in `workerLoop`, or returned from it and not joined.
pub data Thread : Type 0 where
  absent looping finished : Thread

-- The cached prefix of a formatted time, with its second.
pub record Cache : Type 0 where
  pub second : ℕ
  pub prefix : Bytes
  pub filled : Bool

pub record Logger (S : Type 0) : Type 0 where
  pub queue : BlockingQueue LogRecord
  pub worker : Thread
  pub sinks : List S
  pub min_level : ℤ
  pub running : Bool
  pub cache : Cache
  pub write_batch_size : ℕ
  pub flush_policy : FlushPolicy
  pub flush_interval : ℤ
  pub flush_at_or_above : Option LogLevel

-- The member initialisers of `Logger`.
unfoldable pub new_logger : {S : Type 0} → Logger S
unfolding level_code
new_logger = record {
  queue = new;
  worker = absent;
  sinks = [];
  min_level = level_code debug;
  running = false;
  cache = record { second = 0; prefix = []; filled = false };
  write_batch_size = default_write_batch_size;
  flush_policy = periodic;
  flush_interval = default_flush_interval;
  flush_at_or_above = some error;
}
