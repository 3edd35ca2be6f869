-- ===== src/Logger/Format/Text.antt =====
-- What `formatMessage` writes, said in one piece and without the cache.
use cpp_logger.Base.{
  ℕ, suc, ◌+◌, ◌/◌, ◌%◌, ◌^◌, ◌≤◌, ◌<◌, ◌≡◌, ◌⊎◌, inl, inr, false, ap, ◌∙◌, true, [], ◌∷◌, ◌++◌,
  append_assoc, ltb, if◌then◌else◌, length, arith, Bool-cases, word_mod,
}
use cpp_logger.Base.Bytes.{codes}
use cpp_logger.Base.Decimal.{decimal, decimal-digit, decimal-more, length-decimal-le}
use cpp_logger.Base.Int.{ℤ, pos, negsuc, decimal_int}
use cpp_logger.Base.Outcome.{ok}
use cpp_logger.Sink.{Bytes}
use cpp_logger.Logger.{LogRecord, Cache}
use cpp_logger.Logger.Format.{
  Locale, level_to_string, append_integer, millis, seconds, refresh, with_millis, format_time,
  format_message, file_of,
}

-- Three digits, with leading zeros.
abbrev pub three_digits : ℕ → Bytes
three_digits ms = (48 + ms / 100) ∷ (48 + ms / 10 % 10) ∷ (48 + ms % 10) ∷ []

-- The range of `int`.
abbrev pub IsInt : ℤ → Type 0
IsInt (pos n) = n < 2 ^ 31
IsInt (negsuc n) = n < 2 ^ 31

length-decimal_int-le : (v : ℤ) → IsInt v → length (decimal_int v) ≤ 32
unfolding decimal_int
length-decimal_int-le (pos n) h = omega (arith, length-decimal-le 20 n (omega arith) (omega arith))
length-decimal_int-le (negsuc n) h =
    omega (arith, length-decimal-le 20 (suc n) (omega arith) (omega arith))

-- `appendInteger` never throws on a 64-bit number or an `int`.
append_integer-word :
    (destination : Bytes) (n : ℕ)
    → n < word_mod
    → append_integer destination (pos n) ≡ ok (destination ++ decimal n)
unfolding append_integer decimal_int
append_integer-word destination n h =
    ground (arith, length-decimal-le 20 n (omega arith) (omega arith))

append_integer-int :
    (destination : Bytes) (v : ℤ)
    → IsInt v
    → append_integer destination v ≡ ok (destination ++ decimal_int v)
unfolding append_integer
append_integer-int destination v h = ground (arith, length-decimal_int-le v h)

-- The digits with the zeros that the code puts before them.
decimal-three :
    (ms : ℕ)
    → ms < 1000
    → (if ltb ms 10
        then codes "00" ++ decimal ms
        else if ltb ms 100
        then codes "0" ++ decimal ms
        else decimal ms)
      ≡ three_digits ms
decimal-three ms h = elim (Bool-cases (ltb ms 10)) [
  | inl one ↦ rw (one, decimal-digit ms (ground arith)) (ground arith)
  | inr more ↦ elim (Bool-cases (ltb ms 100)) [
    | inl two ↦
        rw (more, two, decimal-more ms (ground arith), decimal-digit (ms / 10) (ground arith))
          (ground arith)
    | inr three ↦
        rw
          (
            more,
            three,
            decimal-more ms (ground arith),
            decimal-more (ms / 10) (ground arith),
            decimal-digit (ms / 10 / 10) (ground arith),
          )
          (ground arith)
  ]
]

with_millis-three :
    (locale : Locale) (prefix : Bytes) (ms : ℕ)
    → ms < 1000
    → with_millis locale prefix ms ≡ ok (prefix ++ (codes "." ++ three_digits ms))
unfolding with_millis
with_millis-three locale prefix ms h =
    let dot : Bytes = codes "." in
    elim (Bool-cases (ltb ms 10)) [
      | inl one ↦
          let few : ltb ms 100 ≡ true = ground arith in
          rw (one, few)
            (append_integer-word _ ms (omega arith)
              ∙ ap ok (
                  simp append_assoc
                    (ap (λ ds. prefix ++ (dot ++ ds)) (ground (arith, decimal-three ms h, one)))))
      | inr more ↦ elim (Bool-cases (ltb ms 100)) [
        | inl two ↦
            rw (more, two)
              (append_integer-word _ ms (omega arith)
                ∙ ap ok (
                    simp append_assoc (
                      ap (λ ds. prefix ++ (dot ++ ds))
                        (ground (arith, decimal-three ms h, more, two)))))
        | inr three ↦
            rw (more, three)
              (append_integer-word _ ms (omega arith)
                ∙ ap ok (
                    simp append_assoc (
                      ap (λ ds. prefix ++ (dot ++ ds))
                        (ground (arith, decimal-three ms h, more, three)))))
      ]
    ]

module _ (locale : Locale) where
  -- A filled cache holds the local time of its second.
  abbrev pub IsFresh : Cache → Type 0
  IsFresh c = (c.filled ≡ false) ⊎ (c.prefix ≡ locale.local_time c.second)

  refresh-prefix :
      (c : Cache) (second : ℕ)
      → IsFresh c
      → (refresh locale c second).prefix ≡ locale.local_time second
  unfolding refresh
  refresh-prefix c second h = ground (arith, h)

  refresh-IsFresh : (c : Cache) (second : ℕ) → IsFresh c → IsFresh (refresh locale c second)
  unfolding refresh
  refresh-IsFresh c second h = ground (arith, h)

  -- The text of a record.
  abbrev pub message_text : LogRecord → Bytes
  message_text r =
      codes "["
      ++ (locale.local_time (seconds r.timestamp)
          ++ (codes "."
              ++ (three_digits (millis r.timestamp)
                  ++ (codes "]["
                      ++ (level_to_string r.level
                          ++ (codes "][tid:"
                              ++ (decimal (locale.thread_hash r.thread_id)
                                  ++ (codes "]["
                                      ++ (file_of r
                                          ++ (codes ":"
                                              ++ (decimal_int r.line
                                                  ++ (codes "] " ++ r.message))))))))))))

  -- With a cache that is empty or holds the local time of its second, `formatMessage` does not throw;
  -- it writes the local time of the record's second, its milliseconds in three digits, level, thread,
  -- file, line and message, and leaves such a cache. (The thread's hash has 64 bits, the line is an
  -- `int`.)
  pub format_message-text :
      (r : LogRecord) (c : Cache)
      → locale.thread_hash r.thread_id < word_mod
      → IsInt r.line
      → IsFresh c
      → (format_message locale r c ≡ (ok (message_text r), refresh locale c (seconds r.timestamp)))
        × IsFresh (refresh locale c (seconds r.timestamp))
  unfolding format_message format_time
  format_message-text r c hash line fresh = (
    rw
        (
          with_millis-three locale (refresh locale c (seconds r.timestamp)).prefix
              (millis r.timestamp) (omega arith),
          refresh-prefix c (seconds r.timestamp) fresh,
          append_integer-word _ (locale.thread_hash r.thread_id) hash,
          append_integer-int _ r.line line,
        )
        (simp append_assoc),
    refresh-IsFresh c (seconds r.timestamp) fresh,
  )
