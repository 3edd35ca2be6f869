-- ===== src/Logger/Worker/Examples.antt =====
-- The worker with a sink that throws between two that keep what they are given.
use cpp_logger.Base.{refl, none, some, Option, List, [], ◌∷◌, ◌++◌, ◌≡◌}
use cpp_logger.Base.Int.{decimal_int}
use cpp_logger.Base.Decimal.{decimal}
use cpp_logger.Base.Outcome.{ok, threw, custom}
use cpp_logger.Sink.{LogSink, Bytes}
use cpp_logger.Logger.{Logger, Cache}
use cpp_logger.Logger.Examples.{greeting, utc, leftover, clock}
use cpp_logger.Logger.Format.{
  format_message, format_time, with_millis, append_integer, refresh, seconds, level_to_string,
}
use cpp_logger.Logger.Format.Text.{message_text}
use cpp_logger.Logger.Lifecycle.{make_record}
use cpp_logger.Logger.Worker.{leaves, batch_formatted, format_batch}
use cpp_logger.Logger.Worker.Partial.{Stopped, batch_formatted-Stopped}

-- `none` throws when it is written to.
abbrev fragile : LogSink (Option (List Bytes))
fragile = record {
  write_batch =
      λ batch s. elim s [ none ↦ (threw custom, none) | some b ↦ (ok tt, some (b ++ batch)) ];
  flush = λ s. (ok tt, s);
  close = λ s. s;
}

abbrev three_sinks : Logger (Option (List Bytes))
three_sinks = record {
  queue = leftover.queue;
  worker = leftover.worker;
  sinks = some [] ∷ none ∷ some [] ∷ [];
  min_level = leftover.min_level;
  running = leftover.running;
  cache = leftover.cache;
  write_batch_size = leftover.write_batch_size;
  flush_policy = leftover.flush_policy;
  flush_interval = leftover.flush_interval;
  flush_at_or_above = leftover.flush_at_or_above;
}

abbrev then_cache : Cache
then_cache = refresh utc leftover.cache (seconds greeting.timestamp)

greeting_formatted :
    format_batch utc (greeting ∷ []) leftover.cache
    ≡ (ok (message_text utc greeting ∷ []), then_cache)
unfolding format_batch format_message format_time with_millis append_integer decimal_int decimal
    make_record refresh level_to_string
greeting_formatted = refl

batch_formatted-Stopped_example :
    (m : Logger (Option (List Bytes))) × (batch_formatted fragile utc
        (clock 0)
        1000
        (greeting ∷ [])
        three_sinks
        (format_batch utc (greeting ∷ []) leftover.cache)
      ≡ leaves m)
    × Stopped fragile three_sinks
        ((some (message_text utc greeting ∷ []) ∷ []) ++ (none ∷ (some [] ∷ [])))
        m
batch_formatted-Stopped_example =
    batch_formatted-Stopped fragile utc (clock 0) 1000 (greeting ∷ []) three_sinks
      (message_text utc greeting ∷ []) then_cache (some [] ∷ [])
      (some (message_text utc greeting ∷ []) ∷ []) none none (some [] ∷ []) custom refl
      greeting_formatted (refl, tt) refl
