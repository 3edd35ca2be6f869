-- ===== src/Sink/Examples.antt =====
-- The sinks on small inputs.
use cpp_logger.Base.{ℕ, ◌≡◌, refl, true, none, some, List, [], ◌∷◌, ◌++◌, arith}
use cpp_logger.Base.Bytes.{codes, bytes_eq}
use cpp_logger.Base.Decimal.{decimal}
use cpp_logger.Base.Outcome.{ok, Post, Finishes}
use cpp_logger.Sink.Disk.{FileName, Disk, stream}
use cpp_logger.Sink.Disk
use cpp_logger.Sink.File.{
  FilePath, FileSink, World, System, make_log_file_name, write_batch, make_file_sink,
}
use cpp_logger.Sink.File.Contents.{Tracks}
use cpp_logger.Sink.File.Batches.{lines, write_batch-Tracks, make_file_sink-Tracks}
use cpp_logger.Sink.{stderr}
use cpp_logger.Sink.Console
use cpp_logger.Sink.Console.Lines.{Wrote, write_batch-Wrote}
use cpp_logger.Sink.File.Termination.{write_batch-Finishes}
use cpp_logger.Sink.File.Rolling.{IsOn}

-- A system where all goes well, on one day.
abbrev calm : System
calm = record {
  today = λ n. codes "2026-01-01";
  creates_directories = λ n. true;
  opens = λ n. true;
  knows_size = λ n. true;
  cuts_write = λ n. none;
  flushes = λ n. true;
}

abbrev path : FilePath
path = record { parent_path = codes "logs"; filename = codes "app" }

abbrev fresh : FileSink
fresh = record {
  base_path = path;
  out = some (record {
    file = record { directory = codes "logs"; name = codes "app_2026-01-01_0.log" };
    good = true;
  });
  current_date = codes "2026-01-01";
  pending = [];
  current_size = 0;
  max_file_size = 8;
  file_index = 0;
}

abbrev begun : World
begun = record { sink = fresh; disk = []; clock = 4 }

make_file_sink-begun : make_file_sink calm path 8 [] 0 ≡ (ok tt, begun)
unfolding make_file_sink make_log_file_name Disk.size decimal
make_file_sink-begun = refl

make_file_sink-Tracks_example : Post (make_file_sink calm path 8 [] 0) (λ a. Tracks 8 (stream []))
unfolding Disk.size
make_file_sink-Tracks_example =
    make_file_sink-Tracks calm (λ n. refl) 8 path 8 [] 0 (omega arith) (λ f. omega arith)

begun-Tracks : Tracks 8 [] begun
unfolding make_log_file_name Disk.size stream decimal
begun-Tracks = record {
  st = record { file = make_log_file_name fresh; good = true };
  opened = refl;
  named = refl;
  sized = refl;
  kept = refl;
  bounded = λ f. omega arith;
  fits = omega arith;
  limit = omega arith;
}

-- Two records that do not fit one file of 8 bytes.
abbrev two : List (List ℕ)
two = codes "hello" ∷ codes "world" ∷ []

write_batch_two :
    (write_batch calm 2 two begun).1.disk
    ≡ (
      record { directory = codes "logs"; name = codes "app_2026-01-01_1.log" },
      codes "world" ++ (10 ∷ []),
    )
      ∷ (
        record { directory = codes "logs"; name = codes "app_2026-01-01_0.log" },
        codes "hello" ++ (10 ∷ []),
      )
      ∷ []
unfolding write_batch make_log_file_name Disk.size bytes_eq decimal
write_batch_two = refl

write_batch-Tracks_example :
    Post
      (write_batch calm 2 two begun)
      (λ a u. Tracks 8 ([] ++ lines two) u × (u.sink.pending ≡ []))
write_batch-Tracks_example =
    write_batch-Tracks calm (λ n. refl) 8 2 two [] begun (omega arith, (omega arith, tt))
      begun-Tracks

begun-IsOn : IsOn calm begun
unfolding make_log_file_name decimal
begun-IsOn = record {
  st = record { file = make_log_file_name fresh; good = true };
  opened = refl;
  named = refl;
}

write_batch-Finishes_example : Finishes (write_batch calm 4 two begun)
write_batch-Finishes_example = write_batch-Finishes calm 4 two begun begun-IsOn (omega arith)

-- The sink after a record of 6 bytes that is still pending.
abbrev loaded : World
loaded = record begun {
  sink = record fresh { pending = codes "hello" ++ (10 ∷ []); current_size = 6 };
}

loaded-IsOn : IsOn calm loaded
unfolding make_log_file_name decimal
loaded-IsOn = record {
  st = record { file = make_log_file_name fresh; good = true };
  opened = refl;
  named = refl;
}

-- A console sink on `std::cerr` with bytes left from a write that failed.
abbrev console : Console.World
console = record {
  sink = record { target = stderr; pending = codes "old" ++ (10 ∷ []) };
  cout = record { bytes = codes "out"; good = true };
  cerr = record { bytes = []; good = true };
}

console-writes :
    (Console.write_batch none (codes "new" ∷ []) console).1.cerr.bytes
    ≡ codes "old" ++ (10 ∷ (codes "new" ++ (10 ∷ [])))
unfolding Console.write_batch
console-writes = refl

write_batch-Wrote_example :
    Wrote (codes "new" ∷ []) console (Console.write_batch none (codes "new" ∷ []) console)
write_batch-Wrote_example = write_batch-Wrote none (codes "new" ∷ []) console
