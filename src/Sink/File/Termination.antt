-- ===== src/Sink/File/Termination.antt =====
-- `writeBatch` of the file sink ends: every round but the last of the loop leaves a file with bytes
-- behind, and there are no more such files than writes.
use mathlib.Core.Path.{subst, sym}
use cpp_logger.Base.{
  ℕ, zero, suc, ◌+◌, ◌≤◌, ◌<◌, ◌≡◌, ◌⊎◌, inl, inr, refl, ap, ◌∙◌, true, List, [], ◌∷◌, arith,
  Bool-cases, length,
}
use cpp_logger.Base.Outcome.{Post, Post-continue, Post-mono, Finishes, Finishes-continue}
use cpp_logger.Base.Bytes.{bytes_eq}
use cpp_logger.Sink.File.{World, System, make_log_file_name, is_empty, asked, must_roll}
use cpp_logger.Sink.File.Contents.{is_empty-nil}
use cpp_logger.Sink.File.Streams.{Post-of, flush_pending-Finishes, open_new_log_file-Finishes}
use cpp_logger.Sink.File.Rolling.{
  IsOn, Stored, write_open-Stored, Opened, open_new_log_file-Opened, roll_loop-Finishes,
}
use cpp_logger.Sink.File.Vacancy.{vacancy}
use cpp_logger.Sink.File

module _ (sys : System) where
  -- At most `n` writes so far, with the stream open on the file of the sink's name.
  abbrev Within : ℕ → World → Type 0
  Within n w = IsOn sys w × (length w.disk ≤ n)

  abbrev Flushed : ℕ → World → Type 0
  Flushed n w = (w.sink.pending ≡ []) × (length w.disk ≤ n)

  abbrev Idle : ℕ → World → Type 0
  Idle n w = Within n w × (w.sink.pending ≡ [])

  Stored-Flushed :
      (n : ℕ) (w u : World) (h : IsOn sys w)
      → length w.disk ≤ n
      → Stored sys h.st w u
      → Flushed (suc n) (record u { sink = record u.sink { pending = [] } })
  Stored-Flushed n w u h le (bytes, k, e) = (refl, rw e (omega (arith, le)))

  flush_pending-Flushed :
      (n : ℕ) (w : World) → Within n w → Post (File.flush_pending sys w) (λ a. Flushed (suc n))
  unfolding File.flush_pending File.write_stream File.write_to
  flush_pending-Flushed n w (h, le) = elim (Bool-cases (is_empty w.sink.pending)) [
    | inl nothing ↦ rw nothing (is_empty-nil w.sink.pending nothing, omega (arith, le))
    | inr some_bytes ↦ rw some_bytes (
        Post-continue _ _ (λ a. Stored sys h.st w) (λ a. Flushed (suc n))
          (subst
            (λ out.
              Post (File.write_to out (sys.cuts_write w.clock) w.sink.pending w)
                (λ a. Stored sys h.st w))
            (sym h.opened)
            (write_open-Stored sys h.st.good (sys.cuts_write w.clock) h.st w.sink.pending w))
          (λ a u k. Stored-Flushed n w u h le k))
  ]

  open_new_log_file-Idle :
      (n : ℕ) (w : World) → Flushed n w → Post (File.open_new_log_file sys w) (λ a. Idle n)
  open_new_log_file-Idle n w (nothing, le) =
      Post-mono _ (λ a. Opened sys w) (λ a. Idle n) (open_new_log_file-Opened sys w)
        (λ a u o. ((o.on, rw o.disk le), o.pending ∙ nothing))

  -- A roll with pending bytes writes them to one more file; the others write nothing.
  next_index-Idle :
      (n : ℕ) (w : World) → Within n w → Post (File.next_index sys w) (λ a. Idle (suc n))
  unfolding File.next_index
  next_index-Idle n w h =
      Post-continue _ _ (λ a. Flushed (suc n)) (λ a. Idle (suc n)) (flush_pending-Flushed n w h)
        (λ a u k. open_new_log_file-Idle (suc n) _ k)

  next_index-again : (n : ℕ) (w : World) → Idle n w → Post (File.next_index sys w) (λ a. Idle n)
  unfolding File.next_index File.flush_pending
  next_index-again n w ((h, le), nothing) =
      let empty : is_empty w.sink.pending ≡ true = ap is_empty nothing in
      rw empty (open_new_log_file-Idle n _ (nothing, le))

  roll_loop-Idle :
      (fuel append_size n : ℕ) (w : World)
      → Idle n w
      → Post (File.roll_loop sys fuel append_size w) (λ a. Idle n)
  unfolding File.roll_loop
  roll_loop-Idle zero append_size n w h = tt
  roll_loop-Idle (suc fuel) append_size n w h = elim (Bool-cases (must_roll w.sink append_size)) [
    | inl more ↦ rw more (
        Post-continue _ _ (λ a. Idle n) (λ a. Idle n) (next_index-again n w h)
          (λ a u k. roll_loop-Idle fuel append_size n u k))
    | inr enough ↦ rw enough h
  ]

  roll_loop-Within :
      (fuel append_size n : ℕ) (w : World)
      → Within n w
      → Post (File.roll_loop sys fuel append_size w) (λ a. Within (suc n))
  unfolding File.roll_loop
  roll_loop-Within zero append_size n w h = tt
  roll_loop-Within (suc fuel) append_size n w h = elim (Bool-cases (must_roll w.sink append_size)) [
    | inl more ↦ rw more (
        Post-continue _ _ (λ a. Idle (suc n)) (λ a. Within (suc n)) (next_index-Idle n w h)
          λ a u k.
            Post-mono _ (λ b. Idle (suc n)) (λ b. Within (suc n))
              (roll_loop-Idle fuel append_size (suc n) u k) (λ b v l. l.0))
    | inr enough ↦ rw enough (h.0, omega (arith, h.1))
  ]

  roll_loop-ends :
      (fuel append_size n : ℕ) (w : World)
      → Within n w
      → suc n < fuel
      → Finishes (File.roll_loop sys fuel append_size w)
  roll_loop-ends fuel append_size n w (h, le) enough =
      let (k, bound, free) = vacancy n (suc w.sink.file_index) w.sink w.disk le in
      let same : w.sink.file_index + suc k ≡ suc w.sink.file_index + k = omega arith in
      roll_loop-Finishes sys fuel append_size k w h (rw same free) (omega (arith, bound))

  -- After the test of the date: the same file, or the first file of another day.
  abbrev Dated : ℕ → World → Type 0
  Dated n w = Within n w ⊎ Idle (suc n) w

  asked-Within : (n : ℕ) (w : World) → Within n w → Within n (asked w)
  asked-Within n w (h, le) = (record { st = h.st; opened = h.opened; named = h.named }, le)

  change_date-Dated :
      (n : ℕ) (w : World) → Within n w → Post (File.change_date sys w) (λ a. Dated n)
  unfolding File.change_date
  change_date-Dated n w h = elim (Bool-cases (bytes_eq (sys.today w.clock) w.sink.current_date)) [
    | inl same ↦ rw same (inl (asked-Within n w h))
    | inr later ↦ rw later (
        Post-continue _ _ (λ a. Flushed (suc n)) (λ a. Dated n)
          (flush_pending-Flushed n (asked w) (asked-Within n w h))
          λ a u k.
            Post-mono _ (λ b. Idle (suc n)) (λ b. Dated n) (open_new_log_file-Idle (suc n) _ k)
              (λ b v l. inr l))
  ]

  change_date-Finishes : (w : World) → Finishes (File.change_date sys w)
  unfolding File.change_date
  change_date-Finishes w = elim (Bool-cases (bytes_eq (sys.today w.clock) w.sink.current_date)) [
    | inl same ↦ rw same tt
    | inr later ↦ rw later (
        Finishes-continue _ _ (λ a u. Unit {0}) (flush_pending-Finishes sys (asked w))
          (Post-of sys _) (λ a u k. open_new_log_file-Finishes sys _))
  ]

  Dated-rolls :
      (fuel append_size n : ℕ) (w : World)
      → Dated n w
      → suc (suc n) < fuel
      → Finishes (File.roll_loop sys fuel append_size w)
        × Post (File.roll_loop sys fuel append_size w) (λ a. Within (suc n))
  Dated-rolls fuel append_size n w (inl h) enough =
      (roll_loop-ends fuel append_size n w h (omega arith), roll_loop-Within fuel append_size n w h)
  Dated-rolls fuel append_size n w (inr h) enough = (
    roll_loop-ends fuel append_size (suc n) w h.0 enough,
    Post-mono _ (λ a. Idle (suc n)) (λ a. Within (suc n))
        (roll_loop-Idle fuel append_size (suc n) w h) (λ a u k. k.0),
  )

  roll_if_needed-ends :
      (fuel n : ℕ) (rec : List ℕ) (w : World)
      → Within n w
      → suc (suc n) < fuel
      → Finishes (File.roll_if_needed sys fuel rec w)
        × Post (File.roll_if_needed sys fuel rec w) (λ a. Within (suc n))
  unfolding File.roll_if_needed
  roll_if_needed-ends fuel n rec w h enough =
      let d = change_date-Dated n w h in
      (
        Finishes-continue _ _ (λ a. Dated n) (change_date-Finishes w) d
            (λ a u k. (Dated-rolls fuel (length rec + 1) n u k enough).0),
        Post-continue _ _ (λ a. Dated n) (λ a. Within (suc n)) d
            (λ a u k. (Dated-rolls fuel (length rec + 1) n u k enough).1),
      )

  append_record-ends :
      (fuel n : ℕ) (rec : List ℕ) (w : World)
      → Within n w
      → suc (suc n) < fuel
      → Finishes (File.append_record sys fuel rec w)
        × Post (File.append_record sys fuel rec w) (λ a. Within (suc n))
  unfolding File.append_record make_log_file_name
  append_record-ends fuel n rec w h enough =
      let (fin, post) = roll_if_needed-ends fuel n rec w h enough in
      (
        Finishes-continue _ _ (λ a. Within (suc n)) fin post (λ a u k. tt),
        Post-continue _ _ (λ a. Within (suc n)) (λ a. Within (suc n)) post
            (λ a u (on, le). (record { st = on.st; opened = on.opened; named = on.named }, le)),
      )

  pub append_records-Finishes :
      (fuel n : ℕ) (batch : List (List ℕ)) (w : World)
      → Within n w
      → n + length batch + 1 < fuel
      → Finishes (File.append_records sys fuel batch w)
  unfolding File.append_records
  append_records-Finishes fuel n [] w h enough = tt
  append_records-Finishes fuel n (rec ∷ rest) w h enough =
      let (fin, post) = append_record-ends fuel n rec w h (omega arith) in
      Finishes-continue _ _ (λ a. Within (suc n)) fin post
        (λ a u k. append_records-Finishes fuel (suc n) rest u k (omega arith))

  -- `writeBatch` ends, by its last statement or by an exception, whatever the system does and whatever
  -- files there are: if the sink's stream is open on the file of its name, then 2 and the number of
  -- records and the number of writes that the files were made by are enough fuel.
  pub write_batch-Finishes :
      (fuel : ℕ) (batch : List (List ℕ)) (w : World)
      → IsOn sys w
      → length w.disk + length batch + 1 < fuel
      → Finishes (File.write_batch sys fuel batch w)
  unfolding File.write_batch
  write_batch-Finishes fuel batch w h enough =
      Finishes-continue _ _ (λ a u. Unit {0})
        (append_records-Finishes fuel (length w.disk) batch w (h, omega arith) enough)
        (Post-of sys _) (λ a u k. flush_pending-Finishes sys u)
