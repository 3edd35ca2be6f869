-- ===== src/Benchmark/Options.antt =====
-- benchmark/common/BenchmarkHarness.cpp: the parsers of option values and `validateCommonOptions`.
use cpp_logger.Base.{
  ℕ, zero, suc, ◌+◌, ◌-◌, ◌*◌, ◌/◌, ◌%◌, ◌↔◌, ◌^◌, ◌≤◌, ◌<◌, ◌≡◌, refl, inl, inr, Bool, true, false,
  not, ◌&&◌, ◌||◌, Option, none, some, List, [], ◌∷◌, ◌++◌, ltb, leb, ◌==◌, if◌then◌else◌, arith,
  Bool-cases, size_max, word_mod,
}
use native.Mathlib.Nat.{le-div_iff_mul-le}
use cpp_logger.Base.Bytes.{codes, bytes_eq}
use cpp_logger.Base.Decimal.{decimal, number_from, number_from-decimal, decimal-digit, decimal-more}
use cpp_logger.Benchmark.{FlushMode, final_drain, periodic}

pub record CommonOptions : Type 0 where
  pub thread_count : ℕ
  pub messages_per_thread : ℕ
  pub payload_size : ℕ
  pub warmup_runs : ℕ
  pub measured_runs : ℕ
  pub flush_mode : FlushMode
  pub flush_interval_milliseconds : ℕ
  pub output_directory : List ℕ
  pub keep_logs : Bool
  pub selected_profiles : List (List ℕ)

-- The member initialisers.
unfoldable pub default_options : CommonOptions
default_options = record {
  thread_count = 4;
  messages_per_thread = 250_000;
  payload_size = 128;
  warmup_runs = 1;
  measured_runs = 10;
  flush_mode = final_drain;
  flush_interval_milliseconds = 1000;
  output_directory = codes "benchmark_logs";
  keep_logs = false;
  selected_profiles = [];
}

-- A text of digits only.
unfoldable pub all_digits : List ℕ → Bool
all_digits [] = true
all_digits (d ∷ ds) = (leb 48 d && leb d 57) && all_digits ds

abbrev pub is_nil : List ℕ → Bool
is_nil [] = true
is_nil (d ∷ ds) = false

-- `parseSize`: `std::from_chars` reads the longest text of digits at the front, and fails on none or on
-- a number beyond 64 bits; here it must read the whole text. `none` is `std::invalid_argument`.
unfoldable pub parse_size : List ℕ → Bool → Option ℕ
unfolding all_digits
parse_size value allow_zero =
    let parsed : ℕ = number_from 0 value in
    if is_nil value
      || not (all_digits value)
      || ltb size_max parsed
      || (not allow_zero && parsed == 0)
    then none
    else some parsed

unfoldable pub parse_positive_size : List ℕ → Option ℕ
unfolding parse_size
parse_positive_size value = parse_size value false

unfoldable pub parse_non_negative_size : List ℕ → Option ℕ
unfolding parse_size
parse_non_negative_size value = parse_size value true

unfoldable pub parse_flush_mode : List ℕ → Option FlushMode
parse_flush_mode value =
    if bytes_eq value (codes "final-drain")
    then some final_drain
    else if bytes_eq value (codes "periodic")
    then some periodic
    else none

-- What a parser of an option answers: the options it set, that the option is not its own, or the
-- exception.
pub data Parsed : Type 0 where
  sets : CommonOptions → Parsed
  unknown invalid : Parsed

abbrev set_with : {A : Type 0} → Option A → (A → CommonOptions) → Parsed
set_with none f = invalid
set_with (some a) f = sets (f a)

-- `parseCommonValueOption`
unfoldable pub parse_common_value_option : CommonOptions → List ℕ → List ℕ → Parsed
unfolding parse_positive_size parse_non_negative_size parse_flush_mode
parse_common_value_option o argument value =
    if bytes_eq argument (codes "--threads")
    then set_with (parse_positive_size value) (λ n. record o { thread_count = n })
    else if bytes_eq argument (codes "--messages")
    then set_with (parse_positive_size value) (λ n. record o { messages_per_thread = n })
    else if bytes_eq argument (codes "--payload")
    then set_with (parse_positive_size value) (λ n. record o { payload_size = n })
    else if bytes_eq argument (codes "--warmups")
    then set_with (parse_non_negative_size value) (λ n. record o { warmup_runs = n })
    else if bytes_eq argument (codes "--runs")
    then set_with (parse_positive_size value) (λ n. record o { measured_runs = n })
    else if bytes_eq argument (codes "--flush-mode")
    then set_with (parse_flush_mode value) (λ m. record o { flush_mode = m })
    else if bytes_eq argument (codes "--flush-interval-ms")
    then set_with (parse_positive_size value) (λ n. record o { flush_interval_milliseconds = n })
    else if bytes_eq argument (codes "--output")
    then sets (record o { output_directory = value })
    else if bytes_eq argument (codes "--profile")
    then sets (record o { selected_profiles = o.selected_profiles ++ (value ∷ []) })
    else unknown

-- `checkedToUint64`, where `std::size_t` has 64 bits.
unfoldable pub checked_to_uint64 : ℕ → Option ℕ
checked_to_uint64 value = if ltb size_max value then none else some value

-- `validateCommonOptions`: `true` where it returns. The product would wrap; 2^63 - 1 is the greatest
-- `milliseconds::rep`. (A division by 0 is not modelled: `parsePositiveSize` admits no 0 messages.)
unfoldable pub validate_common_options : CommonOptions → Bool
unfolding checked_to_uint64
validate_common_options o =
    if is_nil o.output_directory
    then false
    else if ltb (size_max / o.messages_per_thread) o.thread_count
    then false
    else elim (checked_to_uint64 (o.thread_count * o.messages_per_thread % word_mod)) [
      | none ↦ false
      | some attempted ↦ not (ltb (2 ^ 63 - 1) o.flush_interval_milliseconds)
    ]

-- `shouldRunProfile`
abbrev contains : List (List ℕ) → List ℕ → Bool
contains [] profile = false
contains (p ∷ ps) profile = bytes_eq p profile || contains ps profile

abbrev no_profiles : List (List ℕ) → Bool
no_profiles [] = true
no_profiles (p ∷ ps) = false

unfoldable pub should_run_profile : CommonOptions → List ℕ → Bool
should_run_profile o profile =
    no_profiles o.selected_profiles || contains o.selected_profiles profile

all_digits-append :
    (ds : List ℕ) (d : ℕ)
    → all_digits ds ≡ true
    → 48 ≤ d
    → d ≤ 57
    → all_digits (ds ++ (d ∷ [])) ≡ true
unfolding all_digits
all_digits-append [] d h lo hi = ground arith
all_digits-append (c ∷ ds) d h lo hi = ground (arith, all_digits-append ds d (ground arith) lo hi)

all_digits-decimal : (fuel n : ℕ) → n < fuel → all_digits (decimal n) ≡ true
unfolding all_digits
all_digits-decimal zero n h = absurd (omega arith)
all_digits-decimal (suc fuel) n h = elim (Bool-cases (ltb n 10)) [
  | inl small ↦ rw (decimal-digit n (ground arith)) (ground arith)
  | inr large ↦ rw (decimal-more n (ground arith)) (
      all_digits-append (decimal (n / 10)) (48 + n % 10)
        (all_digits-decimal fuel (n / 10) (ground arith)) (omega arith) (omega arith))
]

is_nil-append : (ds : List ℕ) (d : ℕ) → is_nil (ds ++ (d ∷ [])) ≡ false
is_nil-append [] d = refl
is_nil-append (c ∷ ds) d = refl

is_nil-decimal : (n : ℕ) → is_nil (decimal n) ≡ false
is_nil-decimal n = elim (Bool-cases (ltb n 10)) [
  | inl small ↦ rw (decimal-digit n (ground arith)) refl
  | inr large ↦ rw (decimal-more n (ground arith)) (is_nil-append (decimal (n / 10)) (48 + n % 10))
]

-- A number of 64 bits, printed in decimal, is read back by `parseNonNegativeSize`, and by
-- `parsePositiveSize` unless it is 0, which that one rejects.
pub parse_size-decimal :
    (n : ℕ)
    → n ≤ size_max
    → (parse_non_negative_size (decimal n) ≡ some n)
      × (parse_positive_size (decimal n) ≡ (if n == 0 then none else some n))
unfolding parse_non_negative_size parse_positive_size parse_size
parse_size-decimal n h =
    rw (number_from-decimal n, all_digits-decimal (suc n) n (omega arith), is_nil-decimal n)
      (ground arith, ground arith)

-- Options that `validateCommonOptions` lets pass, with at least one message for each thread: the
-- number of messages of all threads has 64 bits, so the product does not wrap, and the interval fits
-- a signed number of 64 bits. And all options that meet this and name a directory pass.
pub validate_common_options_iff :
    (o : CommonOptions)
    → 1 ≤ o.messages_per_thread
    → (validate_common_options o ≡ true) ↔ (
        (is_nil o.output_directory ≡ false)
        × (o.thread_count * o.messages_per_thread ≤ size_max)
        × (o.flush_interval_milliseconds < 2 ^ 63))
unfolding validate_common_options checked_to_uint64
validate_common_options_iff o pos =
    let total : ℕ = o.thread_count * o.messages_per_thread in
    let quotient =
      le-div_iff_mul-le {k = o.messages_per_thread} {x = o.thread_count} {y = size_max} pos in
    let small : ltb size_max (total % word_mod) ≡ false = ground arith in
    rw small (λ h. ground (arith, quotient), λ h. ground (arith, quotient))
