-- ===== src/Logger/Examples.antt =====
-- The logger on small inputs, with a sink that keeps what it is given in memory.
use cpp_logger.Base.{
  ◌≢◌, ℕ, ◌≡◌, ◌↔◌, inl, refl, true, false, none, some, List, [], ◌∷◌, ◌++◌, arith,
}
use cpp_logger.Base.Bytes.{codes}
use cpp_logger.Base.Int.{pos, decimal_int}
use cpp_logger.Base.Outcome.{ok}
use cpp_logger.Queue.{pop_batch, close, block}
use cpp_logger.Sink.{LogSink, Bytes}
use cpp_logger.Logger.{
  info, every_batch, LogRecord, LoggerConfig, Logger, Cache, looping, finished, absent, new_logger,
  simple_config,
}
use cpp_logger.Logger.Config.{rejects, non_null, IsAcceptable}
use cpp_logger.Base.Decimal.{decimal}
use cpp_logger.Logger.Format.{level_to_string, Locale, format_message, refresh, seconds}
use cpp_logger.Logger.Format.Text.{IsFresh, message_text, format_message-text}
use cpp_logger.Logger.Lifecycle.{
  Start, failed, started, stopped, configured, init, stop_join, make_record,
}
use cpp_logger.Logger.Worker.{Readings, leaves, worker_loop, round}
use cpp_logger.Logger.Worker.Gains.{Reliable}
use cpp_logger.Logger.Worker.Delivery.{Ended, worker_loop-delivers}
use cpp_logger.Logger.Worker.Rounds.{texts}
use cpp_logger.Logger.Worker.Failures.{round-leaves}
use cpp_logger.Logger.Calls.{log, log_static, log_macro, Submits, log-log_static}
use cpp_logger.Logger.Cycles.Succeeds.{NoneNull, CanStart, init_succeeds_iff}

abbrev pub memory : LogSink (List Bytes)
memory = record {
  write_batch = λ batch s. (ok tt, s ++ batch);
  flush = λ s. (ok tt, s ++ []);
  close = λ s. s;
}

pub memory-Reliable : Reliable memory (λ s. s)
memory-Reliable = record {
  writes = λ batch s. (s ++ batch, refl, refl);
  flushes = λ s. (s ++ [], refl, refl);
}

abbrev pub utc : Locale
utc = record { local_time = λ second. codes "1970-01-01 00:00:07"; thread_hash = λ id. id }

-- A record of 7.045 seconds after the epoch.
abbrev pub greeting : LogRecord
greeting = make_record 7_045_000_000 3 info (some (codes "a.cpp")) (pos 12) (codes "hello") true

abbrev pub empty_cache : Cache
empty_cache = record { second = 0; prefix = []; filled = false }

greeting_text :
    message_text utc greeting ≡ codes "[1970-01-01 00:00:07.045][INFO][tid:3][a.cpp:12] hello"
unfolding make_record level_to_string decimal decimal_int
greeting_text = refl

format_message-text_example :
    (format_message utc greeting empty_cache
      ≡ (ok (message_text utc greeting), refresh utc empty_cache (seconds greeting.timestamp)))
    × IsFresh utc (refresh utc empty_cache (seconds greeting.timestamp))
unfolding make_record
format_message-text_example =
    format_message-text utc greeting empty_cache (omega arith) (omega arith) (inl refl)

-- A stopped logger with two records left, that writes one record at a time.
abbrev pub leftover : Logger (List Bytes)
leftover = record {
  queue = record {
    items = greeting ∷ greeting ∷ [];
    capacity = 4;
    high_water_mark = 2;
    generation = 1;
    dropped_count = 0;
    overflow_policy = block;
    is_closed = true;
  };
  worker = looping;
  sinks = (codes "before" ∷ []) ∷ [];
  min_level = pos 0;
  running = false;
  cache = empty_cache;
  write_batch_size = 1;
  flush_policy = every_batch;
  flush_interval = pos 1000;
  flush_at_or_above = none;
}

abbrev pub clock : ℕ → Readings
clock n = record { check = 6; after = 7; timed_out = true }

worker_loop-delivers_example :
    (m : Logger (List Bytes)) × (worker_loop memory utc 3 clock 1000 leftover ≡ some m)
    × Ended memory (λ s. s) memory-Reliable utc leftover (texts utc leftover.queue.items) m
unfolding make_record
worker_loop-delivers_example =
    worker_loop-delivers memory (λ s. s) memory-Reliable utc 3 clock 1000 leftover refl
      (omega arith) (omega arith, omega arith, (omega arith, omega arith, tt)) (inl refl)
      (omega arith)

-- The same logger with an empty queue leaves the loop in its next round.
abbrev drained : Logger (List Bytes)
drained = record leftover { queue = record leftover.queue { items = [] } }

abbrev drained_end : Logger (List Bytes)
drained_end = record drained { worker = finished }

drained_leaves : round memory utc (clock 0) 1000 drained ≡ leaves drained_end
unfolding round pop_batch
drained_leaves = refl

round-leaves_example : (drained_end.queue.is_closed ≡ true) × (drained_end.worker ≡ finished)
round-leaves_example = round-leaves memory utc (clock 0) 1000 drained drained_end drained_leaves

-- The system starts what it is asked for; a file sink begins with nothing received.
abbrev pub willing : Start (List Bytes)
willing = record {
  file_sink = λ path max_file_size batch_size. some [];
  console_sink = λ stream batch_size. some [];
  starts_thread = true;
}

abbrev pub config : LoggerConfig (List Bytes)
config = simple_config (record { parent_path = codes "logs"; filename = codes "app" }) info 1000

abbrev pub booted : Logger (List Bytes)
booted = record (configured memory new_logger config ([] ∷ [])) { running = true; worker = looping }

pub booted-init : init memory willing config new_logger ≡ started booted []
unfolding init simple_config new_logger configured rejects non_null
booted-init = refl

-- The thread cannot be started.
abbrev pub unwilling : Start (List Bytes)
unwilling = record willing { starts_thread = false }

abbrev unbooted : Logger (List Bytes)
unbooted = record (configured memory new_logger config []) {
  queue = close (configured memory new_logger config []).queue;
}

unbooted-init : init memory unwilling config new_logger ≡ failed unbooted ([] ∷ [])
unfolding init simple_config new_logger configured rejects non_null
unbooted-init = refl

init_succeeds_iff_example :
    ((m : Logger (List Bytes)) × (released : List (List Bytes)) × (init memory willing config
          new_logger
        ≡ started m released))
    ↔ ((false ≡ false)
        × IsAcceptable config
        × NoneNull config.additional_sinks
        × (absent ≢ looping)
        × CanStart willing config)
unfolding new_logger
init_succeeds_iff_example = init_succeeds_iff memory willing config new_logger

abbrev joined : Logger (List Bytes)
joined = record drained_end { worker = absent; sinks = [] }

joined_stop : stop_join memory drained_end ≡ stopped joined ((codes "before" ∷ []) ∷ [])
unfolding stop_join
joined_stop = refl

-- The worker's state after the first of the two records, which it flushes.
abbrev flushed : Logger (List Bytes)
flushed = record leftover {
  cache = refresh utc empty_cache (seconds greeting.timestamp);
  sinks = (codes "before" ∷ message_text utc greeting ∷ []) ∷ [];
}

log-log_static_example :
    (log_macro booted 7 3 info (codes "a.cpp") (pos 12) (λ u. codes "hello")
      ≡ log_static booted 7 3 info (some (codes "a.cpp")) (pos 12) (codes "hello"))
    × (r : LogRecord) × (r' : LogRecord) × Submits booted info r
        (log booted 7 3 info none (pos 12) (codes "hello"))
    × Submits booted info r' (log_static booted 7 3 info none (pos 12) (codes "hello"))
    × ((locale : Locale) (c : Cache) → format_message locale r c ≡ format_message locale r' c)
log-log_static_example =
    log-log_static booted 7 3 info none (codes "a.cpp") (pos 12) (codes "hello")
