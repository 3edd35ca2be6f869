-- ===== src/Sink/Console/Lines.antt =====
-- What the console sink writes, and where.
use cpp_logger.Base.{
  ℕ, ◌≡◌, inl, inr, refl, sym, ap, ◌∙◌, Bool, true, false, Option, none, some, List, [], ◌∷◌, ◌++◌,
  append-nil, append_assoc, Bool-cases,
}
use cpp_logger.Base.Outcome.{Outcome, ok, threw, unfinished, console_write_failed}
use cpp_logger.Sink.{Batch, ConsoleStream, stdout, stderr}
use cpp_logger.Sink.File.{is_empty}
use cpp_logger.Sink.File.Batches.{line, lines}
use cpp_logger.Sink.Console.{ConsoleSink, Output, World, output_stream, with_output, gather}
use cpp_logger.Sink.File.Contents.{is_empty-nil}
use cpp_logger.Sink.Console

-- The stream that the sink does not write to.
abbrev pub other_stream : ConsoleStream → World → Output
other_stream stderr w = w.cout
other_stream _ w = w.cerr

abbrev chosen : World → Output
chosen w = output_stream w.sink.target w

gather-lines : (pending : List ℕ) (batch : Batch) → gather pending batch ≡ pending ++ lines batch
unfolding gather
gather-lines pending [] = sym (append-nil pending)
gather-lines pending (rec ∷ rest) =
    gather-lines ((pending ++ rec) ++ (b'\n' ∷ [])) rest
    ∙ ap (λ t. t ++ lines rest) (append_assoc pending rec (b'\n' ∷ []))
    ∙ append_assoc pending (line rec) (lines rest)

-- What a call of `writeBatch` did.
abbrev pub Wrote : Batch → World → Outcome (Unit {0}) × World → Type 0
Wrote batch w (ok a, u) =
    ((chosen u).bytes ≡ (chosen w).bytes ++ (w.sink.pending ++ lines batch))
    × (u.sink ≡ record w.sink { pending = [] })
    × (other_stream w.sink.target u ≡ other_stream w.sink.target w)
Wrote batch w (threw e, u) =
    (e ≡ console_write_failed)
    × ((chosen u).good ≡ false)
    × (u.sink ≡ record w.sink { pending = w.sink.pending ++ lines batch })
    × (other_stream w.sink.target u ≡ other_stream w.sink.target w)
Wrote batch w (unfinished, u) = ⊥

-- The bytes are gathered and go to the stream, which is in state `o`.
abbrev gathered : Batch → World → World
gathered batch w = record w { sink = record w.sink { pending = w.sink.pending ++ lines batch } }

-- A world from its parts.
abbrev world : ConsoleStream → List ℕ → (cout cerr : List ℕ) (cout_good cerr_good : Bool) → World
world target pending cout cerr cout_good cerr_good = record {
  sink = record { target = target; pending = pending };
  cout = record { bytes = cout; good = cout_good };
  cerr = record { bytes = cerr; good = cerr_good };
}

written-Wrote :
    (cut : Option ℕ) (batch : Batch) (target : ConsoleStream) (pending cout cerr : List ℕ)
    (cout_good cerr_good : Bool)
    → let w = world target pending cout cerr cout_good cerr_good in
      Wrote batch w (
        Console.written
          (gathered batch w)
          (Console.write (chosen w).good cut (pending ++ lines batch) (chosen w)))
unfolding Console.written Console.write output_stream with_output
written-Wrote none batch stdout pending cout cerr true b = (refl, refl, refl)
written-Wrote (some n) batch stdout pending cout cerr true b = (refl, refl, refl, refl)
written-Wrote cut batch stdout pending cout cerr false b = (refl, refl, refl, refl)
written-Wrote none batch stderr pending cout cerr b true = (refl, refl, refl)
written-Wrote (some n) batch stderr pending cout cerr b true = (refl, refl, refl, refl)
written-Wrote cut batch stderr pending cout cerr b false = (refl, refl, refl, refl)
written-Wrote none batch (ConsoleStream.other k) pending cout cerr true b = (refl, refl, refl)
written-Wrote (some n) batch (ConsoleStream.other k) pending cout cerr true b =
    (refl, refl, refl, refl)
written-Wrote cut batch (ConsoleStream.other k) pending cout cerr false b = (refl, refl, refl, refl)

-- Neither stream depends on the sink.
pub output-sink :
    (t : ConsoleStream) (s : ConsoleSink) (w : World)
    → (output_stream t (record w { sink = s }) ≡ output_stream t w)
      × (other_stream t (record w { sink = s }) ≡ other_stream t w)
unfolding output_stream
output-sink stdout s w = (refl, refl)
output-sink stderr s w = (refl, refl)
output-sink (ConsoleStream.other k) s w = (refl, refl)

nothing_to_write :
    (batch : Batch) (w : World) (bytes : List ℕ)
    → bytes ≡ w.sink.pending ++ lines batch
    → bytes ≡ []
    → Wrote batch w (ok tt, record w { sink = record w.sink { pending = bytes } })
nothing_to_write batch w bytes e h =
    let same = output-sink w.sink.target (record w.sink { pending = bytes }) w in
    (
      ap (λ (o : Output). o.bytes) same.0
          ∙ sym (append-nil (chosen w).bytes)
          ∙ ap (λ t. (chosen w).bytes ++ t) (sym h ∙ e),
      ap (λ t. record w.sink { pending = t }) h,
      same.1,
    )

-- `writeBatch` of the console sink, whatever the system does. Either it ends well: the stream that
-- the sink was made for was given what was pending and then each record with a line end, and nothing
-- is pending. Or the write has failed: the exception says so, the stream stays bad, and the records
-- stay pending. The other stream is left alone.
pub write_batch-Wrote :
    (cut : Option ℕ) (batch : Batch) (w : World) → Wrote batch w (Console.write_batch cut batch w)
unfolding Console.write_batch
write_batch-Wrote cut batch w =
    let bytes : List ℕ = gather w.sink.pending batch in
    let e : bytes ≡ w.sink.pending ++ lines batch = gather-lines w.sink.pending batch in
    elim (Bool-cases (is_empty bytes)) [
      | inl nothing ↦ rw nothing (nothing_to_write batch w bytes e (is_empty-nil bytes nothing))
      | inr some_bytes ↦
          rw (some_bytes, e)
            (written-Wrote cut batch w.sink.target w.sink.pending w.cout.bytes w.cerr.bytes
              w.cout.good w.cerr.good)
    ]
