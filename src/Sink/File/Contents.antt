-- ===== src/Sink/File/Contents.antt =====
-- What the file sink knows between two calls, and that flushing and opening a file keep it.
use mathlib.Core.Path.{subst, sym}
use cpp_logger.Base.{
  ℕ, suc, ◌+◌, ◌≤◌, ◌≡◌, inl, inr, refl, ap, ◌∙◌, Bool, true, false, Option, some, none, List, [],
  ◌∷◌, ◌++◌, append-nil, if◌then◌else◌, length, arith, Bool-cases,
}
use cpp_logger.Base.Outcome.{Post, Post-continue}
use cpp_logger.Sink.Disk.{Disk, FileName, stream, same_file, size-le}
use cpp_logger.Sink.Disk
use cpp_logger.Sink.File.{
  FilePath, Stream, FileSink, World, System, make_log_file_name, M, is_empty, asked, must_roll,
}
use cpp_logger.Sink.File.Streams.{SameButStream, flush_to-Post}
use cpp_logger.Sink.File

pub is_empty-nil : (bytes : List ℕ) → is_empty bytes ≡ true → bytes ≡ []
is_empty-nil [] h = refl
is_empty-nil (b ∷ bytes) h = cc

module _ (bound : ℕ) where
  -- Between two calls: the stream is open on the file of the sink's name, `currentSize_` is what the
  -- file holds and will hold, `total` is what was written and is pending, no file exceeds `bound`.
  pub record Tracks (total : List ℕ) (w : World) : Type 0 where
    pub st : Stream
    pub opened : w.sink.out ≡ some st
    pub named : st.file ≡ make_log_file_name w.sink
    pub sized : w.sink.current_size ≡ Disk.size st.file w.disk + length w.sink.pending
    pub kept : stream w.disk ++ w.sink.pending ≡ total
    pub bounded : (f : FileName) → Disk.size f w.disk ≤ bound
    pub fits : w.sink.current_size ≤ bound
    pub limit : w.sink.max_file_size ≤ bound

  -- After a flush, while the sink moves on to another name.
  pub record Between (total : List ℕ) (w : World) : Type 0 where
    pub nothing : w.sink.pending ≡ []
    pub kept : stream w.disk ≡ total
    pub bounded : (f : FileName) → Disk.size f w.disk ≤ bound
    pub limit : w.sink.max_file_size ≤ bound

  abbrev pub Flushed : List ℕ → World → Type 0
  Flushed total w = Tracks total w × (w.sink.pending ≡ [])

module _ (sys : System) (knows : (n : ℕ) → sys.knows_size n ≡ true) (bound : ℕ) where
  abbrev Wrote : List ℕ → Stream → World → World → Type 0
  Wrote bytes st w u = u ≡ record (asked w) { disk = (st.file, bytes) ∷ w.disk }

  write_open-Post :
      (good : Bool) (cut : Option ℕ) (bytes : List ℕ) (st : Stream) (w : World)
      → Post (File.write_open good cut st bytes w) (λ a. Wrote bytes st w)
  unfolding File.write_open
  write_open-Post true none bytes st w = refl
  write_open-Post true (some n) bytes st w = tt
  write_open-Post false cut bytes st w = tt

  write_stream-Post :
      (bytes : List ℕ) (st : Stream) (w : World)
      → w.sink.out ≡ some st
      → Post (File.write_stream sys bytes w) (λ a. Wrote bytes st w)
  unfolding File.write_stream File.write_to
  write_stream-Post bytes st w e =
      subst
        (λ out. Post (File.write_to out (sys.cuts_write w.clock) bytes w) (λ a. Wrote bytes st w))
        (sym e) (write_open-Post st.good (sys.cuts_write w.clock) bytes st w)

  -- The pending bytes go to the open file.
  written-Flushed :
      (total : List ℕ) (w u : World) (h : Tracks bound total w)
      → Wrote w.sink.pending h.st w u
      → Flushed bound total (record u { sink = record u.sink { pending = [] } })
  unfolding make_log_file_name stream
  written-Flushed total w u h e = rw e (
    record {
      st = st;
      opened = h.opened;
      named = h.named;
      sized = omega (arith, h.sized, Disk.size_self st.file w.sink.pending w.disk);
      kept = append-nil _ ∙ h.kept;
      bounded = λ f.
          size-le bound f st.file w.sink.pending w.disk (h.bounded f)
            (omega (arith, h.sized, h.fits));
      fits = h.fits;
      limit = h.limit;
    },
    refl,
  )
    where
      open h use {st}

  pub flush_pending-Flushed :
      (total : List ℕ) (w : World)
      → Tracks bound total w
      → Post (File.flush_pending sys w) (λ a. Flushed bound total)
  unfolding File.flush_pending
  flush_pending-Flushed total w h = elim (Bool-cases (is_empty w.sink.pending)) [
    | inl nothing ↦ rw nothing (h, is_empty-nil w.sink.pending nothing)
    | inr some_bytes ↦ rw some_bytes (
        Post-continue _ _ _ _ (write_stream-Post w.sink.pending h.st w h.opened)
          (λ a u e. written-Flushed total w u h e))
  ]

  -- The sink opens the file of its name and takes over the file's size.
  opened-Flushed :
      (total : List ℕ) (w u : World)
      → Between bound total w
      → SameButStream (asked (asked w)) u
      → Flushed bound total (record u {
        sink = record u.sink {
          out = some (record { file = make_log_file_name w.sink; good = true });
          current_size =
              if sys.knows_size w.clock then Disk.size (make_log_file_name w.sink) w.disk else 0;
        };
      })
  unfolding make_log_file_name
  opened-Flushed total w u h (o, n, e) =
      rw (e, knows w.clock)
        (
          record {
            st = record { file = make_log_file_name w.sink; good = true };
            opened = refl;
            named = refl;
            sized = omega (arith, ap length h.nothing);
            kept = ap (λ p. stream w.disk ++ p) h.nothing ∙ append-nil _ ∙ h.kept;
            bounded = h.bounded;
            fits = h.bounded (make_log_file_name w.sink);
            limit = h.limit;
          },
          h.nothing,
        )

  pub open_new_log_file-Flushed :
      (total : List ℕ) (w : World)
      → Between bound total w
      → Post (File.open_new_log_file sys w) (λ a. Flushed bound total)
  unfolding File.open_new_log_file
  open_new_log_file-Flushed total w h = elim (Bool-cases (sys.opens (suc w.clock))) [
    | inl works ↦
        rw (works, File.open_stream)
          (Post-continue _ _ _ _
            (flush_to-Post w.sink.out (sys.flushes (suc (suc w.clock))) File.flush_current_failed
              (asked (asked w)))
            (λ a u e. opened-Flushed total w u h e))
    | inr fails ↦ rw (fails, File.open_stream) tt
  ]

  pub Flushed-Between :
      (total : List ℕ) (w : World) (date : List ℕ) (index : ℕ)
      → Flushed bound total w
      → Between bound total
          (record w { sink = record w.sink { current_date = date; file_index = index } })
  Flushed-Between total w date index (h, e) = record {
    nothing = e;
    kept = sym (append-nil _) ∙ ap (λ p. stream w.disk ++ p) (sym e) ∙ h.kept;
    bounded = h.bounded;
    limit = h.limit;
  }

  pub next_index-Flushed :
      (total : List ℕ) (w : World)
      → Tracks bound total w
      → Post (File.next_index sys w) (λ a. Flushed bound total)
  unfolding File.next_index
  next_index-Flushed total w h = Post-continue _ _ _ _ (flush_pending-Flushed total w h) λ a u k.
      open_new_log_file-Flushed total _
        (Flushed-Between total u u.sink.current_date (suc u.sink.file_index) k)
