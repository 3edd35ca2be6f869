-- ===== src/Logger/Worker/Flushing.antt =====
-- When the worker flushes the sinks after a batch.
use mathlib.Core.List.{Memᴰ}
use cpp_logger.Base.{◌≡◌, ◌⊎◌, true, List}
use cpp_logger.Base.Outcome.{Outcome}
use cpp_logger.Logger.{LogRecord, Logger}
use cpp_logger.Logger.Config.{is_every_batch}
use cpp_logger.Logger.Worker.{demands_flush}

-- The configuration asks for a flush after this batch: after every one, or for the level of `r`.
abbrev pub Asks : {S : Type 0} → Logger S → List LogRecord → LogRecord → Type 0
Asks l batch r =
    (is_every_batch l.flush_policy ≡ true)
    ⊎ (Memᴰ r batch × (demands_flush l.flush_at_or_above r.level ≡ true))
