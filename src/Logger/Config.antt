-- ===== src/Logger/Config.antt =====
-- src/Logger.cpp: the validity tests, and the checks at the head of `init`.
use cpp_logger.Base.{
  ℕ, zero, suc, ap, ◌≤◌, ◌≡◌, ◌≢◌, ◌⊎◌, ◌↔◌, inl, inr, refl, Bool, true, false, not, ◌&&◌, ◌||◌,
  Option, none, some, List, [], ◌∷◌, ◌==◌, arith, Bool-cases,
}
use cpp_logger.Base.Int.{ℤ, pos, negsuc, leb_int}
use cpp_logger.Queue.{OverflowPolicy, block, drop_newest, drop_oldest}
use cpp_logger.Sink.{ConsoleStream, stdout, stderr}
use cpp_logger.Sink.File.{FilePath, is_empty}
use cpp_logger.Logger.{
  LogLevel, debug, info, warn, error, fatal, FlushPolicy, on_stop, periodic, every_batch,
  LoggerConfig,
}

unfoldable pub is_valid_overflow_policy : OverflowPolicy → Bool
is_valid_overflow_policy block = true
is_valid_overflow_policy drop_newest = true
is_valid_overflow_policy drop_oldest = true
is_valid_overflow_policy (OverflowPolicy.other k) = false

unfoldable pub is_valid_log_level : LogLevel → Bool
is_valid_log_level debug = true
is_valid_log_level info = true
is_valid_log_level warn = true
is_valid_log_level error = true
is_valid_log_level fatal = true
is_valid_log_level (LogLevel.other k) = false

unfoldable pub is_valid_flush_policy : FlushPolicy → Bool
is_valid_flush_policy on_stop = true
is_valid_flush_policy periodic = true
is_valid_flush_policy every_batch = true
is_valid_flush_policy (FlushPolicy.other k) = false

unfoldable pub is_valid_console_stream : ConsoleStream → Bool
is_valid_console_stream stdout = true
is_valid_console_stream stderr = true
is_valid_console_stream (ConsoleStream.other k) = false

abbrev pub is_periodic : FlushPolicy → Bool
is_periodic periodic = true
is_periodic _ = false

abbrev pub is_every_batch : FlushPolicy → Bool
is_every_batch every_batch = true
is_every_batch _ = false

unfoldable pub bad_level : Option LogLevel → Bool
unfolding is_valid_log_level
bad_level none = false
bad_level (some level) = not (is_valid_log_level level)

abbrev pub path_empty : FilePath → Bool
path_empty p = is_empty p.parent_path && is_empty p.filename

module _ {S : Type 0} where
  unfoldable pub no_sinks : List (Option S) → Bool
  no_sinks [] = true
  no_sinks (s ∷ ss) = false

  -- The condition of the first `if` of `init`.
  unfoldable pub rejects : Bool → LoggerConfig S → Bool
  unfolding is_valid_overflow_policy is_valid_log_level is_valid_flush_policy
      is_valid_console_stream bad_level no_sinks
  rejects running c =
      running
      || c.queue_capacity == 0
      || c.write_batch_size == 0
      || not (is_valid_log_level c.min_level)
      || not (is_valid_overflow_policy c.overflow_policy)
      || not (is_valid_flush_policy c.flush_policy)
      || (is_periodic c.flush_policy && leb_int c.flush_interval (pos 0))
      || bad_level c.flush_at_or_above
      || not (is_valid_console_stream c.console_stream)
      || (not c.enable_file_sink && (not c.enable_console_sink && no_sinks c.additional_sinks))
      || (c.enable_file_sink && (path_empty c.base_path || c.max_file_size == 0))

  -- The loop over the additional sinks: `none` if one is null.
  unfoldable pub non_null : List (Option S) → Option (List S)
  non_null [] = some []
  non_null (none ∷ ss) = none
  non_null (some s ∷ ss) = elim (non_null ss) [ none ↦ none | some rest ↦ some (s ∷ rest) ]

-- A configuration that may start a logger.
pub record IsAcceptable {S : Type 0} (c : LoggerConfig S) : Type 0 where
  pub queues : 1 ≤ c.queue_capacity
  pub batches : 1 ≤ c.write_batch_size
  pub level : (k : ℤ) → c.min_level ≢ LogLevel.other k
  pub overflow : (k : ℕ) → c.overflow_policy ≢ OverflowPolicy.other k
  pub flushes : (k : ℕ) → c.flush_policy ≢ FlushPolicy.other k
  pub interval : (c.flush_policy ≢ periodic) ⊎ ((n : ℕ) × (c.flush_interval ≡ pos (suc n)))
  pub threshold : (k : ℤ) → c.flush_at_or_above ≢ some (LogLevel.other k)
  pub console : (k : ℕ) → c.console_stream ≢ ConsoleStream.other k
  pub sink :
      (c.enable_file_sink ≡ true) ⊎ ((c.enable_console_sink ≡ true) ⊎ (c.additional_sinks ≢ []))
  pub file :
      (c.enable_file_sink ≡ false)
      ⊎ (((c.base_path.parent_path ≢ []) ⊎ (c.base_path.filename ≢ [])) × (1 ≤ c.max_file_size))

level_known : (l : LogLevel) → is_valid_log_level l ≡ true → (k : ℤ) → l ≢ LogLevel.other k
unfolding is_valid_log_level
level_known debug h k = λ e. cc
level_known (LogLevel.other j) h k = cc
level_known _ h k = λ e. cc

positive_interval : (v : ℤ) → leb_int v (pos 0) ≡ false → (n : ℕ) × (v ≡ pos (suc n))
positive_interval (pos zero) h = cc
positive_interval (pos (suc n)) h = (n, refl)
positive_interval (negsuc n) h = cc

level_valid : (l : LogLevel) → ((k : ℤ) → l ≢ LogLevel.other k) → is_valid_log_level l ≡ true
unfolding is_valid_log_level
level_valid (LogLevel.other k) h = absurd (h k refl)
level_valid debug h = refl
level_valid _ h = refl

overflow_valid :
    (p : OverflowPolicy)
    → ((k : ℕ) → p ≢ OverflowPolicy.other k)
    → is_valid_overflow_policy p ≡ true
unfolding is_valid_overflow_policy
overflow_valid (OverflowPolicy.other k) h = absurd (h k refl)
overflow_valid block h = refl
overflow_valid _ h = refl

flush_valid :
    (p : FlushPolicy) → ((k : ℕ) → p ≢ FlushPolicy.other k) → is_valid_flush_policy p ≡ true
unfolding is_valid_flush_policy
flush_valid (FlushPolicy.other k) h = absurd (h k refl)
flush_valid periodic h = refl
flush_valid _ h = refl

console_valid :
    (p : ConsoleStream) → ((k : ℕ) → p ≢ ConsoleStream.other k) → is_valid_console_stream p ≡ true
unfolding is_valid_console_stream
console_valid (ConsoleStream.other k) h = absurd (h k refl)
console_valid stdout h = refl
console_valid _ h = refl

threshold_valid :
    (o : Option LogLevel) → ((k : ℤ) → o ≢ some (LogLevel.other k)) → bad_level o ≡ false
unfolding bad_level
threshold_valid none h = refl
threshold_valid (some l) h = ap not (level_valid l (λ k e. h k (ap some e)))

interval_valid :
    (p : FlushPolicy) (v : ℤ)
    → (p ≢ periodic) ⊎ ((n : ℕ) × (v ≡ pos (suc n)))
    → (is_periodic p && leb_int v (pos 0)) ≡ false
interval_valid p v (inr (n, e)) = rw e (ground arith)
interval_valid periodic v (inl h) = absurd (h refl)
interval_valid on_stop v (inl h) = refl
interval_valid every_batch v (inl h) = refl
interval_valid (FlushPolicy.other k) v (inl h) = refl

periodic_cases : (p : FlushPolicy) → (p ≢ periodic) ⊎ (p ≡ periodic)
periodic_cases periodic = inr refl
periodic_cases on_stop = inl (λ e. cc)
periodic_cases every_batch = inl (λ e. cc)
periodic_cases (FlushPolicy.other k) = inl (λ e. cc)

module _ {S : Type 0} (c : LoggerConfig S) where
  -- With a logger that does not run, the checks at the head of `init` let a configuration pass only
  -- if it is acceptable.
  pub rejects-IsAcceptable : rejects false c ≡ false → IsAcceptable c
  unfolding rejects
  rejects-IsAcceptable h = record {
    queues = ground arith;
    batches = ground arith;
    level = λ k e. ground arith;
    overflow = λ k e. ground arith;
    flushes = λ k e. ground arith;
    interval = elim (periodic_cases c.flush_policy) [
      | inl e ↦ inl e
      | inr e ↦ inr (positive_interval c.flush_interval (ground arith))
    ];
    threshold = λ k e. ground arith;
    console = λ k e. ground arith;
    sink = ground arith;
    file = elim (Bool-cases c.enable_file_sink) [ inl on ↦ inr (ground arith) | inr off ↦ inl off ];
  }

  sink_valid :
      IsAcceptable c
      → (not c.enable_file_sink && (not c.enable_console_sink && no_sinks c.additional_sinks))
        ≡ false
  unfolding no_sinks
  sink_valid h = ground (arith, h.sink)

  file_valid :
      IsAcceptable c
      → (c.enable_file_sink && (path_empty c.base_path || c.max_file_size == 0)) ≡ false
  file_valid h = ground (arith, h.file)

  -- The checks at the head of `init` let a configuration pass exactly if the logger does not run and
  -- the configuration is acceptable.
  pub rejects_iff :
      (running : Bool) → (rejects running c ≡ false) ↔ ((running ≡ false) × IsAcceptable c)
  unfolding rejects
  rejects_iff running = (
    λ h.
        let stopped : running ≡ false = ground arith in
        (stopped, rejects-IsAcceptable (rw stopped at h)),
    λ (stopped, h).
        rw
          (
            stopped,
            level_valid c.min_level h.level,
            overflow_valid c.overflow_policy h.overflow,
            flush_valid c.flush_policy h.flushes,
            interval_valid c.flush_policy c.flush_interval h.interval,
            threshold_valid c.flush_at_or_above h.threshold,
            console_valid c.console_stream h.console,
            sink_valid h,
            file_valid h,
          )
          (ground (arith, h.queues, h.batches)),
  )
