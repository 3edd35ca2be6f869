-- ===== src/Sink/BuiltIn/Printed.antt =====
-- The console sink on a stream that works, and so either built-in sink on devices that work.
use mathlib.Core.Path.{sym}
use cpp_logger.Base.{
  ℕ, ◌≡◌, inl, inr, refl, ap, ◌∙◌, true, ◌&&◌, none, List, [], ◌++◌, append-nil, Bool-cases,
}
use cpp_logger.Base.Outcome.{Outcome, ok, threw, unfinished, Safe}
use cpp_logger.Sink.{Batch, ConsoleStream, stdout, stderr}
use cpp_logger.Sink.File.{is_empty}
use cpp_logger.Sink.File.Batches.{lines}
use cpp_logger.Sink.File.Contents.{is_empty-nil}
use cpp_logger.Sink.Console.{output_stream}
use cpp_logger.Sink.Console.Lines.{Wrote, output-sink, write_batch-Wrote}
use cpp_logger.Sink.Console
use cpp_logger.Sink.BuiltIn.{
  BuiltIn, file, console, of_console, Devices, write_batch, flush, printed,
}
use cpp_logger.Sink.BuiltIn.Ready.{
  IsConsoleReady, IsReady, IsWorking, Prints, file-writes, file-flushes,
}

put_back-ready :
    (t : ConsoleStream) (o : Console.Output) (w : Console.World)
    → w.sink.target ≡ t
    → o.good ≡ true
    → w.sink.pending ≡ []
    → let u = Console.with_output t o w in
      IsConsoleReady u × ((output_stream u.sink.target u).bytes ≡ o.bytes)
unfolding Console.with_output output_stream
put_back-ready stdout o w e h nothing = ((nothing, rw e h), rw e refl)
put_back-ready stderr o w e h nothing = ((nothing, rw e h), rw e refl)
put_back-ready (ConsoleStream.other k) o w e h nothing = ((nothing, rw e h), rw e refl)

-- A stream in a good state is put back, and nothing is pending.
stored-ready :
    (t : ConsoleStream) (o : Console.Output) (w : Console.World)
    → w.sink.target ≡ t
    → o.good ≡ true
    → IsConsoleReady (record (Console.with_output t o w) {
      sink = record (Console.with_output t o w).sink { pending = [] };
    })
unfolding Console.with_output output_stream
stored-ready stdout o w e h = (refl, rw e h)
stored-ready stderr o w e h = (refl, rw e h)
stored-ready (ConsoleStream.other k) o w e h = (refl, rw e h)

console_write-Safe :
    (batch : Batch) (w : Console.World)
    → IsConsoleReady w
    → Safe (Console.write_batch none batch w) IsConsoleReady
unfolding Console.write_batch Console.written Console.write
console_write-Safe batch w (nothing, good) =
    let bytes : List ℕ = Console.gather w.sink.pending batch in
    elim (Bool-cases (is_empty bytes)) [
      | inl empty ↦ rw empty (
        is_empty-nil bytes empty,
        ap (λ (o : Console.Output). o.good)
              (output-sink w.sink.target (record w.sink { pending = bytes }) w).0
            ∙ good,
      )
      | inr some_bytes ↦
          rw (some_bytes, good)
            (stored-ready w.sink.target _ (record w { sink = record w.sink { pending = bytes } })
              refl good)
    ]

module _ (dev : Devices) (working : IsWorking dev) where
  -- The console stream was given the records, and the sink has stayed ready.
  Wrote-Prints :
      (batch : Batch) (w : Console.World) (r : Outcome (Unit {0}) × Console.World)
      → w.sink.pending ≡ []
      → Safe r IsConsoleReady
      → Wrote batch w r
      → Prints (lines batch) (console w) (of_console r)
  unfolding printed
  Wrote-Prints batch w (ok tt, u) nothing ready (e, same, other) = (
    console u,
    refl,
    ready,
    e ∙ ap (λ p. (output_stream w.sink.target w).bytes ++ (p ++ lines batch)) nothing,
  )
  Wrote-Prints batch w (threw x, u) nothing ready h = absurd ready
  Wrote-Prints batch w (unfinished, u) nothing ready h = absurd h

  console-writes :
      (batch : Batch) (w : Console.World)
      → IsConsoleReady w
      → Prints (lines batch) (console w) (write_batch dev batch (console w))
  unfolding write_batch
  console-writes batch w h = rw (working.whole w) (
      Wrote-Prints batch w (Console.write_batch none batch w) h.0 (console_write-Safe batch w h)
        (write_batch-Wrote none batch w))

  console-flushes :
      (w : Console.World) → IsConsoleReady w → Prints [] (console w) (flush dev (console w))
  unfolding flush printed Console.flush
  console-flushes w (nothing, good) =
      let o : Console.Output = output_stream w.sink.target w in
      let works : (o.good && dev.flushes w) ≡ true = rw (good, working.flushes w) refl in
      let (ready, same) =
        put_back-ready w.sink.target (record o { good = o.good && dev.flushes w }) w refl works
          nothing in
      (
        console (Console.with_output w.sink.target (record o { good = o.good && dev.flushes w }) w),
        rw works refl,
        ready,
        same ∙ sym (append-nil o.bytes),
      )

  pub write_batch-Prints :
      (batch : Batch) (s : BuiltIn) → IsReady s → Prints (lines batch) s (write_batch dev batch s)
  write_batch-Prints batch (file w) h = file-writes dev working batch w h
  write_batch-Prints batch (console w) h = console-writes batch w h

  pub flush-Prints : (s : BuiltIn) → IsReady s → Prints [] s (flush dev s)
  flush-Prints (file w) h = file-flushes dev working w h
  flush-Prints (console w) h = console-flushes w h
