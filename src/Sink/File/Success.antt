-- ===== src/Sink/File/Success.antt =====
-- The file sink on a system whose file operations succeed: no call throws.
use cpp_logger.Base.{
  ℕ, zero, suc, ◌+◌, ◌≡◌, inl, inr, refl, true, Option, some, none, List, [], ◌∷◌, Bool-cases,
  length,
}
use cpp_logger.Base.Outcome.{Failure, Safe, Safe-continue}
use cpp_logger.Base.Bytes.{bytes_eq}
use cpp_logger.Sink.File.{Stream, World, System, is_empty, asked, must_roll}
use cpp_logger.Sink.File

-- Every file can be opened and its size read, and every write and every flush succeeds.
pub record IsHealthy (sys : System) : Type 0 where
  pub opens : (n : ℕ) → sys.opens n ≡ true
  pub knows : (n : ℕ) → sys.knows_size n ≡ true
  pub whole : (n : ℕ) → sys.cuts_write n ≡ none
  pub flushes : (n : ℕ) → sys.flushes n ≡ true

-- The stream is open and nothing on it has failed.
abbrev pub IsGood : World → Type 0
IsGood w = (st : Stream) × (w.sink.out ≡ some st) × (st.good ≡ true)

module _ (sys : System) (healthy : IsHealthy sys) where
  write_to-Safe :
      (out : Option Stream) (bytes : List ℕ) (w : World)
      → w.sink.out ≡ out
      → IsGood w
      → Safe (File.write_to out (sys.cuts_write w.clock) bytes w) IsGood
  unfolding File.write_to File.write_open
  write_to-Safe none bytes w e (st, opened, good) = cc
  write_to-Safe (some st) bytes w e (st', opened, good) =
      let fine : st.good ≡ true = cc in rw (fine, healthy.whole w.clock) (st, e, fine)

  flush_pending-Safe : (w : World) → IsGood w → Safe (File.flush_pending sys w) IsGood
  unfolding File.flush_pending File.write_stream
  flush_pending-Safe w h = elim (Bool-cases (is_empty w.sink.pending)) [
    | inl nothing ↦ rw nothing h
    | inr some_bytes ↦ rw some_bytes (
        Safe-continue _ _ IsGood IsGood (write_to-Safe w.sink.out w.sink.pending w refl h)
          (λ a u k. k))
  ]

  flush_to-Safe :
      (out : Option Stream) (n : ℕ) (e : Failure) (w : World)
      → w.sink.out ≡ out
      → IsGood w
      → Safe (File.flush_to out (sys.flushes n) e w) IsGood
  unfolding File.flush_to
  flush_to-Safe none n e w o (st, opened, good) = cc
  flush_to-Safe (some st) n e w o (st', opened, good) =
      let fine : st.good ≡ true = cc in
      rw (fine, healthy.flushes n) (record st { good = true }, refl, refl)

  open_new_log_file-Safe : (w : World) → IsGood w → Safe (File.open_new_log_file sys w) IsGood
  unfolding File.open_new_log_file
  open_new_log_file-Safe w h =
      rw (healthy.opens (suc w.clock), File.open_stream)
        (Safe-continue _ _ IsGood IsGood
          (flush_to-Safe w.sink.out (suc (suc w.clock)) File.flush_current_failed (asked (asked w))
            refl h)
          (λ a u k. (_, refl, refl)))

  next_index-Safe : (w : World) → IsGood w → Safe (File.next_index sys w) IsGood
  unfolding File.next_index
  next_index-Safe w h =
      Safe-continue _ _ IsGood IsGood (flush_pending-Safe w h) (λ a u k. open_new_log_file-Safe _ k)

  roll_loop-Safe :
      (fuel append_size : ℕ) (w : World)
      → IsGood w
      → Safe (File.roll_loop sys fuel append_size w) IsGood
  unfolding File.roll_loop
  roll_loop-Safe zero append_size w h = tt
  roll_loop-Safe (suc fuel) append_size w h = elim (Bool-cases (must_roll w.sink append_size)) [
    | inl more ↦ rw more (
        Safe-continue _ _ IsGood IsGood (next_index-Safe w h)
          (λ a u k. roll_loop-Safe fuel append_size u k))
    | inr enough ↦ rw enough h
  ]

  change_date-Safe : (w : World) → IsGood w → Safe (File.change_date sys w) IsGood
  unfolding File.change_date
  change_date-Safe w h = elim (Bool-cases (bytes_eq (sys.today w.clock) w.sink.current_date)) [
    | inl same ↦ rw same h
    | inr later ↦ rw later (
        Safe-continue _ _ IsGood IsGood (flush_pending-Safe (asked w) h)
          (λ a u k. open_new_log_file-Safe _ k))
  ]

  append_record-Safe :
      (fuel : ℕ) (rec : List ℕ) (w : World)
      → IsGood w
      → Safe (File.append_record sys fuel rec w) IsGood
  unfolding File.append_record File.roll_if_needed
  append_record-Safe fuel rec w h =
      Safe-continue _ _ IsGood IsGood
        (Safe-continue _ _ IsGood IsGood (change_date-Safe w h)
          (λ a u k. roll_loop-Safe fuel (length rec + 1) u k))
        (λ a u k. k)

  append_records-Safe :
      (fuel : ℕ) (batch : List (List ℕ)) (w : World)
      → IsGood w
      → Safe (File.append_records sys fuel batch w) IsGood
  unfolding File.append_records
  append_records-Safe fuel [] w h = h
  append_records-Safe fuel (rec ∷ rest) w h =
      Safe-continue _ _ IsGood IsGood (append_record-Safe fuel rec w h)
        (λ a u k. append_records-Safe fuel rest u k)

  pub write_batch-Safe :
      (fuel : ℕ) (batch : List (List ℕ)) (w : World)
      → IsGood w
      → Safe (File.write_batch sys fuel batch w) IsGood
  unfolding File.write_batch
  write_batch-Safe fuel batch w h =
      Safe-continue _ _ IsGood IsGood (append_records-Safe fuel batch w h)
        (λ a u k. flush_pending-Safe u k)

  pub flush-Safe : (w : World) → IsGood w → Safe (File.flush sys w) IsGood
  unfolding File.flush File.flush_stream
  flush-Safe w h = flush_to-Safe w.sink.out w.clock File.flush_failed w refl h
