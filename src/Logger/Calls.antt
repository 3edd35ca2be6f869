-- ===== src/Logger/Calls.antt =====
-- src/Logger.cpp and include/Logger.h: `log`, `logStatic` and the LOG_ macros, as calls that nothing
-- comes between, and the destructor.
use cpp_logger.Base.{
  ℕ, ◌≡◌, inl, inr, refl, Bool, true, false, Option, none, some, Bool-cases, if◌then◌else◌,
}
use cpp_logger.Base.Int.{ℤ, leb_int}
use cpp_logger.Queue.{Push}
use cpp_logger.Sink.{LogSink, Bytes}
use cpp_logger.Logger.{LogLevel, level_code, LogRecord, Logger, Cache}
use cpp_logger.Logger.Format.{Locale, format_message}
use cpp_logger.Logger.Lifecycle.{
  Stop, stop_request, stop_join, should_log, log_begin, log_end, make_record,
}

module _ {S : Type 0} where
  -- `logImpl`; `none` if it returns before the push.
  unfoldable pub log_impl :
      Logger S
      → (now thread : ℕ) → LogLevel
      → Option Bytes
      → ℤ
      → Bytes
      → (is_static : Bool) → Option (Push LogRecord)
  unfolding log_begin log_end make_record
  log_impl l now thread level file line message is_static = elim (log_begin l level) [
    | none ↦ none
    | some ticket ↦
        some (log_end l ticket (make_record now thread level file line message is_static))
  ]

  -- `log` copies the name of the file, `logStatic` keeps the pointer.
  unfoldable pub log :
      Logger S → (now thread : ℕ) → LogLevel → Option Bytes → ℤ → Bytes → Option (Push LogRecord)
  unfolding log_impl
  log l now thread level file line message = log_impl l now thread level file line message false

  unfoldable pub log_static :
      Logger S → (now thread : ℕ) → LogLevel → Option Bytes → ℤ → Bytes → Option (Push LogRecord)
  unfolding log_impl
  log_static l now thread level file line message =
      log_impl l now thread level file line message true

  -- `LOG_IMPL`, which builds the message after the test.
  unfoldable pub log_macro :
      Logger S
      → (now thread : ℕ) → LogLevel
      → (file : Bytes) → ℤ
      → (Unit {0} → Bytes)
      → Option (Push LogRecord)
  unfolding log_static should_log
  log_macro l now thread level file line message =
      if should_log l level
      then log_static l now thread level (some file) line (message tt)
      else none

-- `~Logger`, up to the join and from it on.
unfoldable pub destroy_request : {S : Type 0} → Logger S → Logger S
unfolding stop_request
destroy_request l = stop_request l

unfoldable pub destroy_join : {S : Type 0} → LogSink S → Logger S → Stop S
unfolding stop_join
destroy_join sink l = stop_join sink l

module _ {S : Type 0} where
  -- What a call does with the record that it made.
  abbrev pub Submits : Logger S → LogLevel → LogRecord → Option (Push LogRecord) → Type 0
  Submits l level r answer =
      answer ≡ elim (log_begin l level) [ none ↦ none | some g ↦ some (log_end l g r) ]

  macro-log_static :
      (l : Logger S) (now thread : ℕ) (level : LogLevel) (name : Bytes) (line : ℤ) (message : Bytes)
      → log_macro l now thread level name line (λ u. message)
        ≡ log_static l now thread level (some name) line message
  unfolding log_static log_macro log_impl should_log log_begin
  macro-log_static l now thread level name line message = elim (Bool-cases l.running) [
    | inr idle ↦ rw idle refl
    | inl running ↦ elim (Bool-cases (leb_int l.min_level (level_code level))) [
      | inl loud ↦ rw (running, loud) refl
      | inr low ↦ rw (log_impl, log_begin, running, low) refl
    ]
  ]

  -- The three ways to log a message agree. The macro does what `logStatic` does, filtered or not. And
  -- `log` and `logStatic` push, or both do not, two records that are formatted the same for any state
  -- of the time cache, whether the name of the file was copied, kept as a pointer, or null.
  pub log-log_static :
      (l : Logger S) (now thread : ℕ) (level : LogLevel) (file : Option Bytes) (name : Bytes)
      (line : ℤ) (message : Bytes)
      → (log_macro l now thread level name line (λ u. message)
          ≡ log_static l now thread level (some name) line message)
        × (r : LogRecord) × (r' : LogRecord) × Submits l level r
            (log l now thread level file line message)
        × Submits l level r' (log_static l now thread level file line message)
        × ((locale : Locale) (c : Cache) → format_message locale r c ≡ format_message locale r' c)
  unfolding log log_static log_macro log_impl make_record format_message should_log log_begin
  log-log_static l now thread level file name line message = (
    macro-log_static l now thread level name line message,
    make_record now thread level file line message false,
    make_record now thread level file line message true,
    refl,
    refl,
    (λ locale c. refl),
  )
