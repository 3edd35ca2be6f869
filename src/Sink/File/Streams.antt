-- ===== src/Sink/File/Streams.antt =====
-- Writing, flushing and opening always end, and what they leave alone.
use cpp_logger.Base.{
  ℕ, suc, ◌≡◌, inl, inr, refl, Bool, true, false, ◌&&◌, Option, some, none, List, Bool-cases,
}
use cpp_logger.Base.Outcome.{
  Outcome, ok, threw, unfinished, Failure, Post, Finishes, Finishes-continue,
}
use cpp_logger.Sink.File.{Stream, World, System, is_empty, asked}
use cpp_logger.Sink.File

-- Only the stream and the clock change.
abbrev pub SameButStream : World → World → Type 0
SameButStream w u =
    (o : Option Stream) × (n : ℕ) × (u
      ≡ record { sink = record w.sink { out = o }; disk = w.disk; clock = n })

pub flush_to-Post :
    (out : Option Stream) (works : Bool) (e : Failure) (w : World)
    → Post (File.flush_to out works e w) (λ a. SameButStream w)
unfolding File.flush_to
flush_to-Post none works e w = (w.sink.out, w.clock, refl)
flush_to-Post (some st) works e w = elim (Bool-cases (st.good && works)) [
  | inl good ↦ rw good (some (record st { good = true }), suc w.clock, refl)
  | inr bad ↦ rw bad tt
]

module _ (sys : System) where
  write_open-Finishes :
      (good : Bool) (cut : Option ℕ) (st : Stream) (bytes : List ℕ) (w : World)
      → Finishes (File.write_open good cut st bytes w)
  unfolding File.write_open
  write_open-Finishes true none st bytes w = tt
  write_open-Finishes true (some n) st bytes w = tt
  write_open-Finishes false cut st bytes w = tt

  write_to-Finishes :
      (out : Option Stream) (cut : Option ℕ) (bytes : List ℕ) (w : World)
      → Finishes (File.write_to out cut bytes w)
  unfolding File.write_to
  write_to-Finishes none cut bytes w = tt
  write_to-Finishes (some st) cut bytes w = write_open-Finishes st.good cut st bytes w

  flush_to-Finishes :
      (out : Option Stream) (works : Bool) (e : Failure) (w : World)
      → Finishes (File.flush_to out works e w)
  unfolding File.flush_to
  flush_to-Finishes none works e w = tt
  flush_to-Finishes (some st) works e w = elim (Bool-cases (st.good && works)) [
    | inl good ↦ rw good tt
    | inr bad ↦ rw bad tt
  ]

  abbrev pub Always : (a : Unit {0}) → World → Type 0
  Always a w = Unit

  pub Post-of : (r : Outcome (Unit {0}) × World) → Post r Always
  Post-of (ok a, w) = tt
  Post-of (threw e, w) = tt
  Post-of (unfinished, w) = tt

  pub flush_pending-Finishes : (w : World) → Finishes (File.flush_pending sys w)
  unfolding File.flush_pending File.write_stream
  flush_pending-Finishes w = elim (Bool-cases (is_empty w.sink.pending)) [
    | inl nothing ↦ rw nothing tt
    | inr some_bytes ↦ rw some_bytes (
        Finishes-continue _ _ Always
          (write_to-Finishes w.sink.out (sys.cuts_write w.clock) w.sink.pending w) (Post-of _)
          (λ a u k. tt))
  ]

  pub open_new_log_file-Finishes : (w : World) → Finishes (File.open_new_log_file sys w)
  unfolding File.open_new_log_file
  open_new_log_file-Finishes w = elim (Bool-cases (sys.opens (suc w.clock))) [
    | inl works ↦
        rw (works, File.open_stream)
          (Finishes-continue _ _ Always
            (flush_to-Finishes w.sink.out (sys.flushes (suc (suc w.clock)))
              File.flush_current_failed (asked (asked w)))
            (Post-of _) (λ a u k. tt))
    | inr fails ↦ rw (fails, File.open_stream) tt
  ]

  pub next_index-Finishes : (w : World) → Finishes (File.next_index sys w)
  unfolding File.next_index
  next_index-Finishes w =
      Finishes-continue _ _ Always (flush_pending-Finishes w) (Post-of _)
        (λ a u k. open_new_log_file-Finishes _)
