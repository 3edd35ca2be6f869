-- ===== src/Logger/Lifecycle.antt =====
-- src/Logger.cpp: `init`, `stop`, `setLevel`, `shouldLog`, `log`. A call that joins the worker waits
-- as long as the worker runs; `lifecycleMutex_` keeps other calls of `init` and `stop`, and the first
-- half of `log`, away meanwhile.
use cpp_logger.Base.{
  ℕ, Bool, true, false, not, ◌&&◌, ◌||◌, Option, none, some, List, [], ◌∷◌, ◌++◌, map,
  if◌then◌else◌,
}
use cpp_logger.Base.Int.{ℤ, leb_int}
use cpp_logger.Queue.{Push, push, close, reset, size, peak_size}
use cpp_logger.Sink.{LogSink, ConsoleStream, Bytes}
use cpp_logger.Sink.File.{FilePath}
use cpp_logger.Logger.{
  LogLevel, level_code, LogRecord, LoggerConfig, Logger, Thread, absent, looping, simple_config,
}
use cpp_logger.Logger.Config.{rejects, non_null}

-- What the outside answers to `init`: a built-in sink, `none` if its constructor throws, and whether
-- the thread can be started.
pub record Start (S : Type 0) : Type 0 where
  pub file_sink : FilePath → ℕ → ℕ → Option S
  pub console_sink : ConsoleStream → ℕ → Option S
  pub starts_thread : Bool

-- `refused` and `failed` answer `false`, `started` answers `true`; `waits` is the join. The list holds
-- the sinks that were closed and let go.
pub data Init (S : Type 0) : Type 0 where
  refused waits : Init S
  failed started : Logger S → List S → Init S

pub data Stop (S : Type 0) : Type 0 where
  waits : Stop S
  stopped : Logger S → List S → Stop S

module _ {S : Type 0} where
  abbrev pub append_sink : Option S → Option (List S) → Option (List S)
  append_sink none rest = none
  append_sink (some s) none = none
  append_sink (some s) (some rest) = some (s ∷ rest)

module _ {S : Type 0} (sink : LogSink S) where
  -- `closeSinks`
  abbrev pub close_sinks : List S → List S
  close_sinks = map sink.close

  -- The `try` block that makes the sinks: file, console, then the user's.
  unfoldable pub new_sinks : Start S → LoggerConfig S → List S → Option (List S)
  new_sinks st c extra =
      let console : Option (List S) =
        (if c.enable_console_sink
          then append_sink (st.console_sink c.console_stream c.write_batch_size) (some extra)
          else some extra) in
      if c.enable_file_sink
      then append_sink (st.file_sink c.base_path c.max_file_size c.write_batch_size) console
      else console

  -- From `queue_.reset` to `sinks_ = std::move(newSinks)`.
  unfoldable pub configured : Logger S → LoggerConfig S → List S → Logger S
  configured l c sinks = record l {
    queue = reset l.queue c.queue_capacity c.overflow_policy;
    min_level = level_code c.min_level;
    write_batch_size = c.write_batch_size;
    flush_policy = c.flush_policy;
    flush_interval = c.flush_interval;
    flush_at_or_above = c.flush_at_or_above;
    cache = record { second = l.cache.second; prefix = []; filled = false };
    sinks = sinks;
  }

  -- The `try` block that starts the worker.
  unfoldable pub launch : Bool → Logger S → List S → Init S
  launch true l released = started (record l { running = true; worker = looping }) released
  launch false l released =
      failed (record l { running = false; queue = close l.queue; sinks = [] })
        (released ++ close_sinks l.sinks)

  unfoldable pub init_sinks :
      Start S → LoggerConfig S → Logger S → List S → Option (List S) → Init S
  unfolding launch configured
  init_sinks st c l released none = failed l released
  init_sinks st c l released (some sinks) = launch st.starts_thread (configured l c sinks) released

  -- What follows the join: the old sinks are closed.
  unfoldable pub init_joined : Start S → LoggerConfig S → Logger S → List S → Init S
  unfolding init_sinks new_sinks
  init_joined st c l extra =
      init_sinks st c (record l { worker = absent; sinks = [] }) (close_sinks l.sinks)
        (new_sinks st c extra)

  unfoldable pub init_checked : Start S → LoggerConfig S → Logger S → List S → Thread → Init S
  unfolding init_joined
  init_checked st c l extra looping = Init.waits
  init_checked st c l extra _ = init_joined st c l extra

  unfoldable pub init : Start S → LoggerConfig S → Logger S → Init S
  unfolding init_checked
  init st c l = if rejects l.running c then refused else elim (non_null c.additional_sinks) [
    | none ↦ refused
    | some extra ↦ init_checked st c l extra l.worker
  ]

  -- `init(basePath, minLevel, maxFileSize)`
  unfoldable pub init_simple : Start S → FilePath → LogLevel → ℕ → Logger S → Init S
  unfolding init simple_config
  init_simple st path level max_file_size l = init st (simple_config path level max_file_size) l

  unfoldable pub stop_joined : Logger S → Thread → Stop S
  stop_joined l looping = Stop.waits
  stop_joined l _ = stopped (record l { worker = absent; sinks = [] }) (close_sinks l.sinks)

  -- `stop` from the join on.
  unfoldable pub stop_join : Logger S → Stop S
  unfolding stop_joined
  stop_join l = stop_joined l l.worker

module _ {S : Type 0} where
  -- `stop` up to the join.
  unfoldable pub stop_request : Logger S → Logger S
  stop_request l = record l { running = false; queue = close l.queue }

  unfoldable pub set_level : Logger S → LogLevel → Logger S
  set_level l level = record l { min_level = level_code level }

  unfoldable pub should_log : Logger S → LogLevel → Bool
  should_log l level = l.running && leb_int l.min_level (level_code level)

  -- The first half of `logImpl`, under the shared lock: the generation to push with.
  unfoldable pub log_begin : Logger S → LogLevel → Option ℕ
  log_begin l level =
      if not l.running || not (leb_int l.min_level (level_code level))
      then none
      else some l.queue.generation

  -- The second half of `logImpl`, without the lock: the push with the generation of the first half.
  unfoldable pub log_end : Logger S → ℕ → LogRecord → Push LogRecord
  log_end l ticket r = push l.queue ticket r

abbrev or_empty : Option Bytes → Bytes
or_empty none = []
or_empty (some file) = file

-- The record; `file` is `none` for `nullptr`.
unfoldable pub make_record :
    (now thread : ℕ) → LogLevel → Option Bytes → ℤ → Bytes → (is_static : Bool) → LogRecord
make_record now thread level file line message is_static = record {
  timestamp = now;
  level = level;
  thread_id = thread;
  static_file = if is_static then some (or_empty file) else none;
  owned_file = if is_static then [] else or_empty file;
  line = line;
  message = message;
}

module _ {S : Type 0} where
  -- `LOG_IMPL`: the test before the message is built, then `logStatic`.
  unfoldable pub macro_begin : Logger S → LogLevel → Option ℕ
  unfolding should_log log_begin
  macro_begin l level = if should_log l level then log_begin l level else none

  unfoldable pub dropped_count : Logger S → ℕ
  dropped_count l = l.queue.dropped_count

  unfoldable pub queue_size : Logger S → ℕ
  unfolding size
  queue_size l = size l.queue

  unfoldable pub queue_peak_size : Logger S → ℕ
  unfolding peak_size
  queue_peak_size l = peak_size l.queue
