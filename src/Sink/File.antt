-- ===== src/Sink/File.antt =====
-- src/LogSink.cpp, `FileSink`: a sink that writes to numbered files and starts a new one when the day
-- changes or a record does not fit.
mod Streams
pub mod Contents
pub mod Batches
pub mod Rolling
pub mod Vacancy
pub mod Termination
pub mod Success
use cpp_logger.Base.{
  ℕ, zero, suc, ◌+◌, ◌-◌, ◌<◌, ◌≡◌, Bool, true, false, not, ◌&&◌, ◌||◌, Option, some, none, List,
  [], ◌∷◌, ◌++◌, ltb, ◌==◌, if◌then◌else◌, length, take,
}
use cpp_logger.Base.Outcome.{
  Outcome, ok, threw, unfinished, Run, Failure, invalid_file_sink, directory_failed, open_failed,
  flush_current_failed, write_failed, flush_failed, ◌>>=◌, ◌>>◌,
}
use cpp_logger.Base.Bytes.{codes, bytes_eq}
use cpp_logger.Base.Decimal.{decimal}
use cpp_logger.Sink.Disk.{Disk, FileName}
use cpp_logger.Sink.Disk

-- `fs::path`, split as `parent_path()` and `filename()` split it.
pub record FilePath : Type 0 where
  pub parent_path : List ℕ
  pub filename : List ℕ

-- An open `std::ofstream`; `good` is false once a write or a flush has failed.
pub record Stream : Type 0 where
  pub file : FileName
  pub good : Bool

pub record FileSink : Type 0 where
  pub base_path : FilePath
  pub out : Option Stream
  pub current_date : List ℕ
  pub pending : List ℕ
  pub current_size : ℕ
  pub max_file_size : ℕ
  pub file_index : ℕ

-- A sink, the files, and how many times the outside was asked.
pub record World : Type 0 where
  pub sink : FileSink
  pub disk : Disk
  pub clock : ℕ

-- What the system answers to the n-th question: the local date, and which operations succeed. A
-- write that fails may have stored a first part of its bytes.
pub record System : Type 0 where
  pub today : ℕ → List ℕ
  pub creates_directories : ℕ → Bool
  pub opens : ℕ → Bool
  pub knows_size : ℕ → Bool
  pub cuts_write : ℕ → Option ℕ
  pub flushes : ℕ → Bool

-- `makeLogFileName`
unfoldable pub make_log_file_name : FileSink → FileName
make_log_file_name s = record {
  directory = s.base_path.parent_path;
  name =
      s.base_path.filename
      ++ (codes "_" ++ (s.current_date ++ (codes "_" ++ (decimal s.file_index ++ codes ".log"))));
}

abbrev pub M : Type 0 → Type 0
M A = Run World A

abbrev pub done : M (Unit {0})
done w = (ok tt, w)

abbrev pub throws : Failure → M (Unit {0})
throws e w = (threw e, w)

abbrev pub asked : World → World
asked w = record w { clock = suc w.clock }

abbrev pub is_empty : List ℕ → Bool
is_empty [] = true
is_empty (x ∷ xs) = false

unfoldable pub write_open : Bool → Option ℕ → Stream → List ℕ → M (Unit {0})
write_open false cut st bytes w = (threw write_failed, w)
write_open true none st bytes w = (ok tt, record (asked w) { disk = (st.file, bytes) ∷ w.disk })
write_open true (some n) st bytes w = (
  threw write_failed,
  record (asked w) {
    disk = (st.file, take n bytes) ∷ w.disk;
    sink = record w.sink { out = some (record st { good = false }) };
  },
)

-- The test of the `while` in `rollIfNeeded`.
abbrev pub must_roll : FileSink → ℕ → Bool
must_roll s append_size =
    ltb 0 s.current_size
    && (ltb s.max_file_size append_size || ltb (s.max_file_size - append_size) s.current_size)

-- A write to a stream that is not open or not good stores nothing and fails.
unfoldable pub write_to : Option Stream → Option ℕ → List ℕ → M (Unit {0})
unfolding write_open
write_to none cut bytes w = (threw write_failed, w)
write_to (some st) cut bytes w = write_open st.good cut st bytes w

-- `out_.flush()` and the test of `out_`; `works` is what the system answers.
unfoldable pub flush_to : Option Stream → Bool → Failure → M (Unit {0})
flush_to none works e w = (ok tt, w)
flush_to (some st) works e w =
    let good : Bool = st.good && works in
    let w' : World = record (asked w) {
      sink = record w.sink { out = some (record st { good = good }) };
    } in
    if good then (ok tt, w') else (threw e, w')

module _ (sys : System) where
  -- `currentDate`
  unfoldable pub current_date : M (List ℕ)
  current_date w = (ok (sys.today w.clock), asked w)

  -- `fileSize`: 0 if the size cannot be read.
  unfoldable pub file_size : FileName → M ℕ
  file_size f w = (ok (if sys.knows_size w.clock then Disk.size f w.disk else 0), asked w)

  unfoldable pub flush_stream : Failure → M (Unit {0})
  unfolding flush_to
  flush_stream e w = flush_to w.sink.out (sys.flushes w.clock) e w

  -- `std::ofstream next(filename, out | app | binary)`
  unfoldable pub open_stream : FileName → M Stream
  open_stream f w =
      if sys.opens w.clock
      then (ok (record { file = f; good = true }), asked w)
      else (threw open_failed, asked w)

  -- `openNewLogFile`
  unfoldable pub open_new_log_file : M (Unit {0})
  unfolding file_size open_stream flush_stream
  open_new_log_file w =
      (do
        let filename = make_log_file_name w.sink
        existing ← file_size filename
        next ← open_stream filename
        flush_stream flush_current_failed
        λ u.
            (ok tt, record u { sink = record u.sink { out = some next; current_size = existing } }))
        w

  -- `out_.write(bytes)` and the test of `out_`.
  unfoldable pub write_stream : List ℕ → M (Unit {0})
  unfolding write_to
  write_stream bytes w = write_to w.sink.out (sys.cuts_write w.clock) bytes w

  -- `flushPending`
  unfoldable pub flush_pending : M (Unit {0})
  unfolding write_stream
  flush_pending w =
      if is_empty w.sink.pending
      then (ok tt, w)
      else (do
        write_stream w.sink.pending
        λ u. (ok tt, record u { sink = record u.sink { pending = [] } }))
          w

  -- The body of that `while`.
  unfoldable pub next_index : M (Unit {0})
  unfolding flush_pending open_new_log_file
  next_index = do
    flush_pending
    λ u. (ok tt, record u { sink = record u.sink { file_index = suc u.sink.file_index } })
    open_new_log_file

  unfoldable pub roll_loop : ℕ → ℕ → M (Unit {0})
  unfolding next_index
  roll_loop zero append_size w = (unfinished, w)
  roll_loop (suc fuel) append_size w =
      let again : Outcome (Unit {0}) × World = (next_index >>= λ _. roll_loop fuel append_size) w in
      if must_roll w.sink append_size then again else (ok tt, w)

  -- The first part of `rollIfNeeded`.
  unfoldable pub change_date : M (Unit {0})
  unfolding current_date flush_pending open_new_log_file
  change_date = do
    date ← current_date
    λ u.
        if bytes_eq date u.sink.current_date
        then (ok tt, u)
        else (do
          flush_pending
          λ v. (ok tt, record v { sink = record v.sink { current_date = date; file_index = 0 } })
          open_new_log_file)
            u

  unfoldable pub roll_if_needed : ℕ → List ℕ → M (Unit {0})
  unfolding change_date roll_loop
  roll_if_needed fuel rec = do change_date; roll_loop fuel (length rec + 1)

  -- One round of the loop of `writeBatch`.
  unfoldable pub append_record : ℕ → List ℕ → M (Unit {0})
  unfolding roll_if_needed
  append_record fuel rec = do
    roll_if_needed fuel rec
    λ u. (
      ok tt,
      record u {
        sink = record u.sink {
          pending = u.sink.pending ++ (rec ++ (b'\n' ∷ []));
          current_size = u.sink.current_size + (length rec + 1);
        };
      },
    )

  unfoldable pub append_records : ℕ → List (List ℕ) → M (Unit {0})
  unfolding append_record
  append_records fuel [] = done
  append_records fuel (rec ∷ rest) = do append_record fuel rec; append_records fuel rest

  -- `writeBatch`
  unfoldable pub write_batch : ℕ → List (List ℕ) → M (Unit {0})
  unfolding append_records flush_pending
  write_batch fuel batch = do append_records fuel batch; flush_pending

  -- `flush`
  unfoldable pub flush : M (Unit {0})
  unfolding flush_stream
  flush = flush_stream flush_failed

  -- `close`: what the stream does wrong is ignored.
  unfoldable pub close : World → World
  unfolding flush_stream
  close w =
      let w' : World = (flush_stream flush_failed w).1 in
      record w' { sink = record w'.sink { out = none } }

  -- The constructor. The members are initialised before its body runs.
  unfoldable pub create_directories : FilePath → M (Unit {0})
  create_directories path w =
      if is_empty path.parent_path
      then (ok tt, w)
      else if sys.creates_directories w.clock
      then (ok tt, asked w)
      else (threw directory_failed, asked w)

  unfoldable pub constructed : FilePath → ℕ → List ℕ → FileSink
  constructed path max_file_size date = record {
    base_path = path;
    out = none;
    current_date = date;
    pending = [];
    current_size = 0;
    max_file_size = max_file_size;
    file_index = 0;
  }

  -- `makeFileSink`, and so the constructor of `FileSink`. (`reservePending` only reserves memory.)
  unfoldable pub make_file_sink : FilePath → ℕ → Disk → ℕ → Outcome (Unit {0}) × World
  unfolding create_directories open_new_log_file constructed
  make_file_sink path max_file_size disk clock =
      let sink : FileSink = constructed path max_file_size (sys.today clock) in
      let w : World = record { sink = sink; disk = disk; clock = suc clock } in
      if (is_empty path.parent_path && is_empty path.filename) || max_file_size == 0
      then (threw invalid_file_sink, w)
      else (do create_directories path; open_new_log_file) w
