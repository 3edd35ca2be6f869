-- ===== src/Sink/Console.antt =====
-- src/LogSink.cpp, `ConsoleSink`: a sink that writes to `std::cout` or `std::cerr`.
pub mod Lines
use cpp_logger.Base.{
  ℕ, Bool, true, false, ◌&&◌, Option, none, some, List, [], ◌∷◌, ◌++◌, take, if◌then◌else◌,
}
use cpp_logger.Base.Outcome.{
  Outcome, ok, threw, unfinished, console_write_failed, console_flush_failed, Run,
}
use cpp_logger.Sink.{Batch, ConsoleStream, stdout, stderr}
use cpp_logger.Sink.File.{is_empty}

pub record ConsoleSink : Type 0 where
  pub target : ConsoleStream
  pub pending : List ℕ

-- A stream of the process: what it was given, and whether no operation on it has failed.
pub record Output : Type 0 where
  pub bytes : List ℕ
  pub good : Bool

pub record World : Type 0 where
  pub sink : ConsoleSink
  pub cout : Output
  pub cerr : Output

-- `outputStream`
unfoldable pub output_stream : ConsoleStream → World → Output
output_stream stderr w = w.cerr
output_stream _ w = w.cout

-- The world with another state of that stream.
unfoldable pub with_output : ConsoleStream → Output → World → World
with_output stderr o w = record w { cerr = o }
with_output _ o w = record w { cout = o }

-- `output.write(bytes)`: a write that fails may have stored a first part of its bytes.
unfoldable pub write : Bool → Option ℕ → List ℕ → Run Output (Unit {0})
write false cut bytes o = (threw console_write_failed, o)
write true none bytes o = (ok tt, record o { bytes = o.bytes ++ bytes })
write true (some n) bytes o =
    (threw console_write_failed, record { bytes = o.bytes ++ take n bytes; good = false })

-- The loop of `writeBatch`.
unfoldable pub gather : List ℕ → Batch → List ℕ
gather pending [] = pending
gather pending (rec ∷ rest) = gather ((pending ++ rec) ++ (b'\n' ∷ [])) rest

-- What follows the write.
unfoldable pub written : World → Outcome (Unit {0}) × Output → Outcome (Unit {0}) × World
unfolding with_output
written w (ok u, o) =
    let w' : World = with_output w.sink.target o w in
    (ok tt, record w' { sink = record w'.sink { pending = [] } })
written w (threw e, o) = (threw e, with_output w.sink.target o w)
written w (unfinished, o) = (unfinished, with_output w.sink.target o w)

-- `writeBatch`; `cut` is what the system answers to the write.
unfoldable pub write_batch : Option ℕ → Batch → Run World (Unit {0})
unfolding gather written write output_stream
write_batch cut batch w =
    let w' : World = record w { sink = record w.sink { pending = gather w.sink.pending batch } } in
    let o : Output = output_stream w.sink.target w in
    if is_empty w'.sink.pending
    then (ok tt, w')
    else written w' (write o.good cut w'.sink.pending o)

-- `flush`; `works` is what the system answers.
unfoldable pub flush : Bool → Run World (Unit {0})
unfolding output_stream with_output
flush works w =
    let o : Output = output_stream w.sink.target w in
    let good : Bool = o.good && works in
    let w' : World = with_output w.sink.target (record o { good = good }) w in
    if good then (ok tt, w') else (threw console_flush_failed, w')

-- `close`: what the flush does wrong is ignored.
unfoldable pub close : Bool → World → World
unfolding output_stream with_output
close works w =
    let o : Output = output_stream w.sink.target w in
    with_output w.sink.target (record o { good = o.good && works }) w

-- The constructor. (`reservePending` only reserves memory.)
unfoldable pub make_console_sink : ConsoleStream → ConsoleSink
make_console_sink target = record { target = target; pending = [] }
