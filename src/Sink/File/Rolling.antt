-- ===== src/Sink/File/Rolling.antt =====
-- The loop of `rollIfNeeded` ends: it stops at the first number whose file is empty.
use mathlib.Core.Path.{subst, sym}
use mathlib.Core.List.{append_cancel_left, append_cancel_right}
use cpp_logger.Base.{
  ℕ, zero, suc, ◌+◌, ◌<◌, ◌≤◌, ◌≡◌, ◌≢◌, inl, inr, refl, ap, ◌∙◌, Bool, true, false, Option, some,
  none, List, [], ◌∷◌, if◌then◌else◌, arith, Bool-cases,
}
use cpp_logger.Base.Outcome.{Post, Post-continue, Post-mono, Finishes, Finishes-continue}
use cpp_logger.Base.Bytes.{codes}
use cpp_logger.Base.Decimal.{decimal-injective}
use cpp_logger.Sink.Disk.{Disk, FileName, size_ne}
use cpp_logger.Sink.Disk
use cpp_logger.Sink.File.{
  FilePath, Stream, FileSink, World, System, make_log_file_name, M, is_empty, asked, must_roll,
}
use cpp_logger.Sink.File.Streams.{SameButStream, flush_to-Post, next_index-Finishes}
use cpp_logger.Sink.File

one_more : (n : ℕ) → n + suc zero ≡ suc n
one_more n = omega arith

-- The name of the file with number `index`.
abbrev pub numbered : FileSink → ℕ → FileName
numbered s index = make_log_file_name (record s { file_index = index })

-- Files of one sink and day with different numbers have different names.
pub numbered-injective :
    (s : FileSink) (i j : ℕ) → (numbered s i).name ≡ (numbered s j).name → i ≡ j
unfolding make_log_file_name
numbered-injective s i j h = decimal-injective i j (
    append_cancel_right _ _ (codes ".log") (
      append_cancel_left (codes "_") _ _ (
        append_cancel_left s.current_date _ _
          (append_cancel_left (codes "_") _ _ (append_cancel_left s.base_path.filename _ _ h)))))

module _ (sys : System) where
  -- The stream is open on the file of the sink's name.
  pub record IsOn (w : World) : Type 0 where
    pub st : Stream
    pub opened : w.sink.out ≡ some st
    pub named : st.file ≡ make_log_file_name w.sink

  -- What a flush of the pending bytes leaves alone.
  record Settled (w u : World) : Type 0 where
    path : u.sink.base_path ≡ w.sink.base_path
    date : u.sink.current_date ≡ w.sink.current_date
    index : u.sink.file_index ≡ w.sink.file_index
    others :
        (j : ℕ)
        → j ≢ w.sink.file_index
        → Disk.size (numbered w.sink j) u.disk ≡ Disk.size (numbered w.sink j) w.disk

  abbrev pub Stored : Stream → World → World → Type 0
  Stored st w u =
      (bytes : List ℕ) × (n : ℕ) × (u
        ≡ record { sink = w.sink; disk = (st.file, bytes) ∷ w.disk; clock = n })

  pub write_open-Stored :
      (good : Bool) (cut : Option ℕ) (st : Stream) (bytes : List ℕ) (w : World)
      → Post (File.write_open good cut st bytes w) (λ a. Stored st w)
  unfolding File.write_open
  write_open-Stored true none st bytes w = (bytes, suc w.clock, refl)
  write_open-Stored true (some n) st bytes w = tt
  write_open-Stored false cut st bytes w = tt

  Stored-Settled :
      (w u : World) (h : IsOn w)
      → Stored h.st w u
      → Settled w (record u { sink = record u.sink { pending = [] } })
  Stored-Settled w u h (bytes, n, e) = rw e (record {
    path = refl;
    date = refl;
    index = refl;
    others = λ j ne. size_ne (numbered w.sink j) h.st.file bytes w.disk (λ same. ne (
        numbered-injective w.sink j w.sink.file_index
          (same ∙ ap (λ (f : FileName). f.name) h.named)));
  })

  flush_pending-Settled : (w : World) → IsOn w → Post (File.flush_pending sys w) (λ a. Settled w)
  unfolding File.flush_pending File.write_stream File.write_to
  flush_pending-Settled w h = elim (Bool-cases (is_empty w.sink.pending)) [
    | inl nothing ↦
        rw nothing (record { path = refl; date = refl; index = refl; others = λ j ne. refl })
    | inr some_bytes ↦ rw some_bytes (
        Post-continue _ _ (λ a. Stored h.st w) (λ a. Settled w)
          (subst
            (λ out.
              Post (File.write_to out (sys.cuts_write w.clock) w.sink.pending w)
                (λ a. Stored h.st w))
            (sym h.opened)
            (write_open-Stored h.st.good (sys.cuts_write w.clock) h.st w.sink.pending w))
          (λ a u k. Stored-Settled w u h k))
  ]

  -- What opening a file does.
  pub record Opened (w u : World) : Type 0 where
    pub on : IsOn u
    pub good : on.st.good ≡ true
    pub path : u.sink.base_path ≡ w.sink.base_path
    pub date : u.sink.current_date ≡ w.sink.current_date
    pub index : u.sink.file_index ≡ w.sink.file_index
    pub pending : u.sink.pending ≡ w.sink.pending
    pub disk : u.disk ≡ w.disk
    pub small : u.sink.current_size ≤ Disk.size (make_log_file_name w.sink) w.disk

  reopened-Opened :
      (w u : World) (known : Bool)
      → SameButStream (asked (asked w)) u
      → Opened w (record u {
        sink = record u.sink {
          out = some (record { file = make_log_file_name w.sink; good = true });
          current_size = if known then Disk.size (make_log_file_name w.sink) w.disk else 0;
        };
      })
  unfolding make_log_file_name
  reopened-Opened w u known (o, n, e) = rw e (record {
    on = record {
      st = record { file = make_log_file_name w.sink; good = true };
      opened = refl;
      named = refl;
    };
    good = refl;
    path = refl;
    date = refl;
    index = refl;
    pending = refl;
    disk = refl;
    small = ground arith;
  })

  pub open_new_log_file-Opened : (w : World) → Post (File.open_new_log_file sys w) (λ a. Opened w)
  unfolding File.open_new_log_file
  open_new_log_file-Opened w = elim (Bool-cases (sys.opens (suc w.clock))) [
    | inl works ↦
        rw (works, File.open_stream)
          (Post-continue _ _ _ (λ a. Opened w)
            (flush_to-Post w.sink.out (sys.flushes (suc (suc w.clock))) File.flush_current_failed
              (asked (asked w)))
            (λ a u e. reopened-Opened w u (sys.knows_size w.clock) e))
    | inr fails ↦ rw (fails, File.open_stream) tt
  ]

  numbered-eq :
      (s t : FileSink) (j : ℕ)
      → t.base_path ≡ s.base_path
      → t.current_date ≡ s.current_date
      → numbered t j ≡ numbered s j
  unfolding make_log_file_name
  numbered-eq s t j p d = rw (p, d)

  -- What a roll does: it moves on to the next number, and takes over the size of its file.
  record Rolled (w u : World) : Type 0 where
    on : IsOn u
    path : u.sink.base_path ≡ w.sink.base_path
    date : u.sink.current_date ≡ w.sink.current_date
    index : u.sink.file_index ≡ suc w.sink.file_index
    others :
        (j : ℕ)
        → j ≢ w.sink.file_index
        → Disk.size (numbered w.sink j) u.disk ≡ Disk.size (numbered w.sink j) w.disk
    small : u.sink.current_size ≤ Disk.size (numbered w.sink (suc w.sink.file_index)) w.disk

  Settled-Opened-Rolled :
      (w v u : World)
      → Settled w v
      → Opened (record v { sink = record v.sink { file_index = suc v.sink.file_index } }) u
      → Rolled w u
  Settled-Opened-Rolled w v u h k = record {
    on = k.on;
    path = k.path ∙ h.path;
    date = k.date ∙ h.date;
    index = k.index ∙ ap suc h.index;
    others = λ j ne. ap (Disk.size (numbered w.sink j)) k.disk ∙ h.others j ne;
    small = omega (
      arith,
      k.small,
      ap (λ f. Disk.size f v.disk)
          (numbered-eq w.sink v.sink (suc v.sink.file_index) h.path h.date
            ∙ ap (λ j. numbered w.sink (suc j)) h.index),
      h.others (suc w.sink.file_index) (omega arith),
    );
  }

  next_index-Rolled : (w : World) → IsOn w → Post (File.next_index sys w) (λ a. Rolled w)
  unfolding File.next_index
  next_index-Rolled w h =
      Post-continue _ _ (λ a. Settled w) (λ a. Rolled w) (flush_pending-Settled w h)
        λ a v k.
          Post-mono _
            (λ b. Opened (record v { sink = record v.sink { file_index = suc v.sink.file_index } }))
            (λ b. Rolled w) (open_new_log_file-Opened _) (λ b u o. Settled-Opened-Rolled w v u k o)

  roll_loop-empty :
      (fuel append_size : ℕ) (w : World)
      → w.sink.current_size ≡ 0
      → 0 < fuel
      → Finishes (File.roll_loop sys fuel append_size w)
  unfolding File.roll_loop
  roll_loop-empty zero append_size w e enough = absurd (omega arith)
  roll_loop-empty (suc fuel) append_size w e enough =
      let stops : must_roll w.sink append_size ≡ false = ground arith in rw stops tt

  still_free :
      (w u : World) (k : ℕ)
      → Rolled w u
      → Disk.size (numbered w.sink (w.sink.file_index + suc (suc k))) w.disk ≡ 0
      → Disk.size (numbered u.sink (u.sink.file_index + suc k)) u.disk ≡ 0
  still_free w u k r free =
      ap (λ f. Disk.size f u.disk)
        (numbered-eq w.sink u.sink (u.sink.file_index + suc k) r.path r.date
          ∙ ap (numbered w.sink) (omega (arith, r.index)))
      ∙ r.others (w.sink.file_index + suc (suc k)) (omega arith)
      ∙ free

  -- If the file with the `k + 1`-th next number is empty, then `k + 2` rounds are enough: the loop
  -- ends, by its test or by an exception.
  pub roll_loop-Finishes :
      (fuel append_size k : ℕ) (w : World)
      → IsOn w
      → Disk.size (numbered w.sink (w.sink.file_index + suc k)) w.disk ≡ 0
      → suc k < fuel
      → Finishes (File.roll_loop sys fuel append_size w)
  unfolding File.roll_loop
  roll_loop-Finishes zero append_size k w h free enough = absurd (omega arith)
  roll_loop-Finishes (suc fuel) append_size zero w h free enough =
      elim (Bool-cases (must_roll w.sink append_size)) [
        | inr fits ↦ rw fits tt
        | inl more ↦ rw more (
            Finishes-continue _ _ (λ a. Rolled w) (next_index-Finishes sys w)
              (next_index-Rolled w h)
              (λ a u r.
                roll_loop-empty fuel append_size u
                  (omega (
                    arith,
                    r.small,
                    free,
                    ap (λ j. Disk.size (numbered w.sink j) w.disk) (one_more w.sink.file_index),
                  ))
                  (omega arith)))
      ]
  roll_loop-Finishes (suc fuel) append_size (suc k) w h free enough =
      elim (Bool-cases (must_roll w.sink append_size)) [
        | inr fits ↦ rw fits tt
        | inl more ↦ rw more (
            Finishes-continue _ _ (λ a. Rolled w) (next_index-Finishes sys w)
              (next_index-Rolled w h)
              (λ a u r.
                roll_loop-Finishes fuel append_size k u r.on (still_free w u k r free)
                  (omega arith)))
      ]
