-- ===== src/Sink/BuiltIn/Made.antt =====
-- What the constructors of the built-in sinks make.
use mathlib.Core.Path.{subst}
use cpp_logger.Base.{
  ℕ, ◌+◌, ◌≤◌, ◌≡◌, inl, inr, refl, ap, ◌∙◌, true, ◌&&◌, ◌||◌, some, [], ◌∷◌, ◌==◌, length,
  length-append, arith, Bool-cases,
}
use cpp_logger.Base.Outcome.{Outcome, ok, threw, unfinished, Post, Post-continue, Post-mono}
use cpp_logger.Sink.{ConsoleStream, stdout, stderr}
use cpp_logger.Sink.Disk.{Disk, FileName, stream}
use cpp_logger.Sink.Disk
use cpp_logger.Sink.File.{FilePath, is_empty}
use cpp_logger.Sink.File.Batches.{create_directories-Post, make_file_sink-Tracks}
use cpp_logger.Sink.File.Contents.{Tracks}
use cpp_logger.Sink.File.Rolling.{Opened, open_new_log_file-Opened}
use cpp_logger.Sink.File.Success.{IsHealthy, IsGood}
use cpp_logger.Sink.File
use cpp_logger.Sink.Console.{output_stream}
use cpp_logger.Sink.Console
use cpp_logger.Sink.BuiltIn.{
  BuiltIn, file, console, Devices, make_file_sink, make_console, made, printed,
}
use cpp_logger.Sink.BuiltIn.Ready.{IsReady, Flushed-IsFileReady}

size_le_stream : (f : FileName) (disk : Disk) → Disk.size f disk ≤ length (stream disk)
unfolding Disk.size stream
size_le_stream f [] = omega arith
size_le_stream f ((g, bytes) ∷ disk) =
    ground (arith, size_le_stream f disk, length-append (stream disk) bytes)

-- A new sink has nothing pending and a good stream.
abbrev IsNew : File.World → Type 0
IsNew w = (w.sink.pending ≡ []) × IsGood w

module _ (dev : Devices) where
  make_file_sink-IsNew :
      (healthy : IsHealthy dev.files) (path : FilePath) (max_file_size : ℕ) (disk : Disk)
      (clock : ℕ)
      → Post (File.make_file_sink dev.files path max_file_size disk clock) (λ a. IsNew)
  unfolding File.make_file_sink File.constructed
  make_file_sink-IsNew healthy path max_file_size disk clock =
      elim (Bool-cases
        ((is_empty path.parent_path && is_empty path.filename) || max_file_size == 0)) [
          | inl refused ↦ rw refused tt
          | inr fine ↦ rw fine (
              Post-continue _ _ _ (λ a. IsNew)
                (create_directories-Post dev.files healthy.knows 0 path _)
                λ a u k.
                  Post-mono _ (λ b. Opened dev.files u) (λ b. IsNew)
                    (open_new_log_file-Opened dev.files u)
                    (λ b v o. (
                      o.pending ∙ ap (λ (s : File.FileSink). s.pending) k.0,
                      (o.on.st, o.on.opened, o.good),
                    )))
        ]

  both-made :
      (r : Outcome (Unit {0}) × File.World) (P Q : File.World → Type 0) (s : BuiltIn)
      → Post r (λ a. P)
      → Post r (λ a. Q)
      → made dev r ≡ some s
      → (w : File.World) × (file w ≡ s) × P w × Q w
  unfolding made
  both-made (ok a, w) P Q s p q e = (w, cc, p, q)
  both-made (threw x, w) P Q s p q e = cc
  both-made (unfinished, w) P Q s p q e = cc

  -- The file sink that was made.
  pub make_file_sink-IsReady :
      (disk : Disk) (clock : ℕ) (path : FilePath) (max_file_size : ℕ) (s : BuiltIn)
      → IsHealthy dev.files
      → make_file_sink dev disk clock path max_file_size ≡ some s
      → IsReady s × (printed s ≡ stream disk)
  unfolding make_file_sink printed
  make_file_sink-IsReady disk clock path max_file_size s healthy e =
      let bound : ℕ = max_file_size + length (stream disk) in
      let (w, f, tracks, (nothing, good)) =
        both-made _ (Tracks bound (stream disk)) IsNew s
          (make_file_sink-Tracks dev.files healthy.knows bound path max_file_size disk clock
            (omega arith) (λ f. omega (arith, size_le_stream f disk)))
          (make_file_sink-IsNew healthy path max_file_size disk clock) e in
      subst (λ s. IsReady s × (printed s ≡ stream disk)) f
        (Flushed-IsFileReady bound (stream disk) w tracks nothing good)

console_of : (cout cerr : Console.Output) → ConsoleStream → Console.World
unfolding Console.make_console_sink
console_of cout cerr target = record {
  sink = Console.make_console_sink target;
  cout = cout;
  cerr = cerr;
}

console_of-IsReady :
    (cout cerr : Console.Output) (target : ConsoleStream)
    → cout.good ≡ true
    → cerr.good ≡ true
    → IsReady (console (console_of cout cerr target))
unfolding console_of Console.make_console_sink output_stream
console_of-IsReady cout cerr stdout h k = (refl, h)
console_of-IsReady cout cerr stderr h k = (refl, k)
console_of-IsReady cout cerr (ConsoleStream.other n) h k = (refl, h)

some-injective : {A : Type 0} {x y : A} → some x ≡ some y → x ≡ y
some-injective e = cc

pub make_console-IsReady :
    (cout cerr : Console.Output) (target : ConsoleStream) (s : BuiltIn)
    → cout.good ≡ true
    → cerr.good ≡ true
    → make_console cout cerr target ≡ some s
    → IsReady s
unfolding make_console console_of
make_console-IsReady cout cerr target s h k e =
    subst IsReady (some-injective e) (console_of-IsReady cout cerr target h k)
