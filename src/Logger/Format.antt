-- ===== src/Logger/Format.antt =====
-- src/Logger.cpp: `appendInteger`, `levelToString`, `formatTime` and `formatMessage`.
pub mod Text
use cpp_logger.Base.{
  ℕ, zero, suc, ◌+◌, ◌*◌, ◌/◌, ◌%◌, ◌^◌, ◌≤◌, ◌<◌, ◌≡◌, ◌⊎◌, inl, inr, refl, Bool, true, false, not,
  ◌&&◌, ◌||◌, Option, none, some, List, [], ◌∷◌, ◌++◌, ltb, leb, ◌==◌, if◌then◌else◌, length,
  length-append, arith, Bool-cases, word_mod,
}
use cpp_logger.Base.Bytes.{codes}
use cpp_logger.Base.Decimal.{decimal}
use cpp_logger.Base.Int.{ℤ, pos, negsuc, decimal_int}
use cpp_logger.Base.Outcome.{Outcome, ok, threw, unfinished, integer_failed, Run, ◌>>=◌, ◌>>◌}
use cpp_logger.Sink.{Bytes}
use cpp_logger.Logger.{LogLevel, debug, info, warn, error, fatal, LogRecord, Cache}

unfoldable pub level_to_string : LogLevel → Bytes
level_to_string debug = codes "DEBUG"
level_to_string info = codes "INFO"
level_to_string warn = codes "WARN"
level_to_string error = codes "ERROR"
level_to_string fatal = codes "FATAL"
level_to_string (LogLevel.other k) = codes "UNKNOWN"

-- `appendInteger`: `std::to_chars` fails if the digits do not fit its buffer.
unfoldable pub append_integer : Bytes → ℤ → Outcome Bytes
append_integer destination v =
    if leb (length (decimal_int v)) 32
    then ok (destination ++ decimal_int v)
    else threw integer_failed

-- What the formatter takes from the system: the local time of a second as `%Y-%m-%d %H:%M:%S`, and
-- `std::hash<std::thread::id>`.
pub record Locale : Type 0 where
  pub local_time : ℕ → Bytes
  pub thread_hash : ℕ → ℕ

-- The milliseconds of a time.
abbrev pub millis : ℕ → ℕ
millis timestamp = timestamp / 1_000_000 % 1000

abbrev pub seconds : ℕ → ℕ
seconds timestamp = timestamp / 1_000_000_000

abbrev pub file_of : LogRecord → Bytes
file_of r = elim r.static_file [ none ↦ r.owned_file | some file ↦ file ]

abbrev lift : Outcome Bytes → Run Cache Bytes
lift o c = (o, c)

module _ (locale : Locale) where
  -- The first half of `formatTime`: the cache afterwards.
  unfoldable pub refresh : Cache → ℕ → Cache
  refresh c second =
      if not c.filled || not (second == c.second)
      then record { second = second; prefix = locale.local_time second; filled = true }
      else c

  -- The second half: the prefix, a dot and the milliseconds, padded by hand.
  unfoldable pub with_millis : Bytes → ℕ → Outcome Bytes
  with_millis prefix ms =
      let dotted : Bytes = prefix ++ codes "." in
      let hundred : Bytes = if ltb ms 100 then dotted ++ codes "0" else dotted in
      let ten : Bytes = if ltb ms 10 then hundred ++ codes "0" else hundred in
      append_integer ten (pos ms)

  unfoldable pub format_time : ℕ → Run Cache Bytes
  format_time timestamp c =
      let c' : Cache = refresh c (seconds timestamp) in
      (with_millis c'.prefix (millis timestamp), c')

  unfoldable pub format_message : LogRecord → Run Cache Bytes
  format_message r = do
    timestamp ← format_time r.timestamp
    head ← lift (
        append_integer
          (codes "[" ++ (timestamp ++ (codes "][" ++ (level_to_string r.level ++ codes "][tid:"))))
          (pos (locale.thread_hash r.thread_id)))
    place ← lift (append_integer (head ++ (codes "][" ++ (file_of r ++ codes ":"))) r.line)
    lift (ok (place ++ (codes "] " ++ r.message)))
