-- ===== src/Sink/File/Batches.antt =====
-- `writeBatch` of the file sink: every record once, in order, and no file beyond its limit.
use mathlib.Core.Path.{subst, sym}
use cpp_logger.Base.{
  ℕ, zero, suc, ◌+◌, ◌≤◌, ◌≡◌, inl, inr, ap, ◌∙◌, true, false, ◌&&◌, ◌||◌, List, [], ◌∷◌, ◌++◌,
  append-nil, append_assoc, ◌==◌, length, length-append, arith, Bool-cases,
}
use cpp_logger.Base.Outcome.{Post, Post-continue, Post-mono}
use cpp_logger.Base.Bytes.{bytes_eq}
use cpp_logger.Sink.Disk.{Disk, FileName, stream, same_file, size-le}
use cpp_logger.Sink.Disk
use cpp_logger.Sink.File.{
  FilePath, Stream, FileSink, World, System, make_log_file_name, M, is_empty, asked, must_roll,
}
use cpp_logger.Sink.File.Contents.{
  Tracks, Flushed, flush_pending-Flushed, open_new_log_file-Flushed, next_index-Flushed,
  Flushed-Between,
}
use cpp_logger.Sink.File

-- A record with its line end, and the records of a batch so.
abbrev pub line : List ℕ → List ℕ
line rec = rec ++ (b'\n' ∷ [])

abbrev pub lines : List (List ℕ) → List ℕ
lines [] = []
lines (rec ∷ rest) = line rec ++ lines rest

abbrev pub AllFit : ℕ → List (List ℕ) → Type 0
AllFit bound [] = Unit
AllFit bound (rec ∷ rest) = (length rec + 1 ≤ bound) × AllFit bound rest

module _ (sys : System) (knows : (n : ℕ) → sys.knows_size n ≡ true) (bound : ℕ) where
  -- The loop ends where the record may be appended.
  abbrev Ready : List ℕ → ℕ → World → Type 0
  Ready total append_size w = Tracks bound total w × (must_roll w.sink append_size ≡ false)

  roll_loop-Ready :
      (fuel append_size : ℕ) (total : List ℕ) (w : World)
      → Tracks bound total w
      → Post (File.roll_loop sys fuel append_size w) (λ a. Ready total append_size)
  unfolding File.roll_loop
  roll_loop-Ready zero append_size total w h = tt
  roll_loop-Ready (suc fuel) append_size total w h =
      elim (Bool-cases (must_roll w.sink append_size)) [
        | inl more ↦ rw more (
            Post-continue _ _ _ (λ a. Ready total append_size)
              (next_index-Flushed sys knows bound total w h)
              (λ a u k. roll_loop-Ready fuel append_size total u k.0))
        | inr enough ↦ rw enough (h, enough)
      ]

  asked-Tracks : (total : List ℕ) (w : World) → Tracks bound total w → Tracks bound total (asked w)
  asked-Tracks total w h = record {
    st = h.st;
    opened = h.opened;
    named = h.named;
    sized = h.sized;
    kept = h.kept;
    bounded = h.bounded;
    fits = h.fits;
    limit = h.limit;
  }

  change_date-Tracks :
      (total : List ℕ) (w : World)
      → Tracks bound total w
      → Post (File.change_date sys w) (λ a. Tracks bound total)
  unfolding File.change_date
  change_date-Tracks total w h =
      elim (Bool-cases (bytes_eq (sys.today w.clock) w.sink.current_date)) [
        | inl same ↦ rw same (asked-Tracks total w h)
        | inr later ↦ rw later (
            Post-continue _ _ _ (λ a. Tracks bound total)
              (flush_pending-Flushed sys knows bound total (asked w) (asked-Tracks total w h))
              λ a u k.
                Post-mono _ (λ b. Flushed bound total) (λ b. Tracks bound total)
                  (open_new_log_file-Flushed sys knows bound total _
                    (Flushed-Between sys knows bound total u (sys.today w.clock) 0 k))
                  (λ a u k. k.0))
      ]

  roll_if_needed-Ready :
      (fuel : ℕ) (rec total : List ℕ) (w : World)
      → Tracks bound total w
      → Post (File.roll_if_needed sys fuel rec w) (λ a. Ready total (length rec + 1))
  unfolding File.roll_if_needed
  roll_if_needed-Ready fuel rec total w h =
      Post-continue _ _ _ _ (change_date-Tracks total w h)
        (λ a u k. roll_loop-Ready fuel (length rec + 1) total u k)

  appended-Tracks :
      (rec total : List ℕ) (w : World)
      → length rec + 1 ≤ bound
      → Ready total (length rec + 1) w
      → Tracks bound (total ++ line rec) (record w {
        sink = record w.sink {
          pending = w.sink.pending ++ line rec;
          current_size = w.sink.current_size + (length rec + 1);
        };
      })
  unfolding make_log_file_name
  appended-Tracks rec total w fits (h, ready) = record {
    st = h.st;
    opened = h.opened;
    named = h.named;
    sized =
        omega
          (arith, h.sized, length-append w.sink.pending (line rec), length-append rec (b'\n' ∷ []));
    kept =
        sym (append_assoc (stream w.disk) w.sink.pending (line rec))
        ∙ ap (λ t. t ++ line rec) h.kept;
    bounded = h.bounded;
    fits = ground (arith, h.limit, h.fits);
    limit = h.limit;
  }

  append_record-Tracks :
      (fuel : ℕ) (rec total : List ℕ) (w : World)
      → length rec + 1 ≤ bound
      → Tracks bound total w
      → Post (File.append_record sys fuel rec w) (λ a. Tracks bound (total ++ line rec))
  unfolding File.append_record
  append_record-Tracks fuel rec total w fits h =
      Post-continue _ _ _ (λ a. Tracks bound (total ++ line rec))
        (roll_if_needed-Ready fuel rec total w h) (λ a u k. appended-Tracks rec total u fits k)

  append_records-Tracks :
      (fuel : ℕ) (batch : List (List ℕ)) (total : List ℕ) (w : World)
      → AllFit bound batch
      → Tracks bound total w
      → Post (File.append_records sys fuel batch w) (λ a. Tracks bound (total ++ lines batch))
  unfolding File.append_records
  append_records-Tracks fuel [] total w fits h = rw append-nil h
  append_records-Tracks fuel (rec ∷ rest) total w fits h =
      Post-continue _ _ _ (λ a. Tracks bound (total ++ lines (rec ∷ rest)))
        (append_record-Tracks fuel rec total w fits.0 h)
        (λ a u k.
          subst (λ t. Post (File.append_records sys fuel rest u) (λ b. Tracks bound t))
            (append_assoc total (line rec) (lines rest))
            (append_records-Tracks fuel rest (total ++ line rec) u fits.1 k))

  -- A batch that is written within the fuel and without an exception: the bytes written to the files, in the order of the
  -- writes, grow by the records of the batch, each with a line end; nothing stays pending; the sink
  -- still knows the size of its file; and no file is longer than `bound`, if none was, and neither
  -- the limit nor a record with its line end is. (File sizes can be read.)
  pub write_batch-Tracks :
      (fuel : ℕ) (batch : List (List ℕ)) (total : List ℕ) (w : World)
      → AllFit bound batch
      → Tracks bound total w
      → Post
          (File.write_batch sys fuel batch w)
          (λ a u. Tracks bound (total ++ lines batch) u × (u.sink.pending ≡ []))
  unfolding File.write_batch
  write_batch-Tracks fuel batch total w fits h =
      Post-continue _ _ _ (λ a. Flushed bound (total ++ lines batch))
        (append_records-Tracks fuel batch total w fits h)
        (λ a u k. flush_pending-Flushed sys knows bound (total ++ lines batch) u k)

  pub create_directories-Post :
      (path : FilePath) (w : World)
      → Post (File.create_directories sys path w) (λ a u. (u.sink ≡ w.sink) × (u.disk ≡ w.disk))
  unfolding File.create_directories
  create_directories-Post path w = ground arith

  -- A new sink, if its constructor ends well: the stream is open on the file of the sink's name, the
  -- sink knows the size of that file, no byte was written and none is pending, and no file is longer
  -- than `bound`, if none was and the limit is not. (File sizes can be read.)
  pub make_file_sink-Tracks :
      (path : FilePath) (max_file_size : ℕ) (disk : Disk) (clock : ℕ)
      → max_file_size ≤ bound
      → ((f : FileName) → Disk.size f disk ≤ bound)
      → Post
          (File.make_file_sink sys path max_file_size disk clock)
          (λ a. Tracks bound (stream disk))
  unfolding File.make_file_sink
  make_file_sink-Tracks path max_file_size disk clock le h =
      elim (Bool-cases
        ((is_empty path.parent_path && is_empty path.filename) || max_file_size == 0)) [
          | inl refused ↦ rw refused tt
          | inr fine ↦ rw fine (
              Post-continue _ _ _ (λ a. Tracks bound (stream disk)) (create_directories-Post path _)
                λ a u k.
                  Post-mono _ (λ b. Flushed bound (stream disk)) (λ b. Tracks bound (stream disk))
                    (open_new_log_file-Flushed sys knows bound (stream disk) u (record {
                      nothing = ap (λ (s : FileSink). s.pending) k.0;
                      kept = ap stream k.1;
                      bounded = λ f. rw k.1 (h f);
                      limit = rw k.0 le;
                    }))
                    (λ b v p. p.0))
        ]
