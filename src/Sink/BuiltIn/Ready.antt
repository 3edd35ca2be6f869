-- ===== src/Sink/BuiltIn/Ready.antt =====
-- The built-in sinks on devices that work: every call succeeds, and prints what it should.
use mathlib.Core.Path.{subst, sym}
use cpp_logger.Base.{
  ℕ, ◌+◌, ◌≡◌, refl, ap, ◌∙◌, Bool, true, Option, some, none, List, [], ◌∷◌, ◌++◌, append-nil,
  append_assoc, length, length-append, arith,
}
use cpp_logger.Base.Outcome.{Outcome, ok, flush_failed, Safe-ok}
use cpp_logger.Sink.{Batch}
use cpp_logger.Sink.Disk.{Disk, FileName, stream}
use cpp_logger.Sink.Disk
use cpp_logger.Sink.File.{Stream, asked, is_empty}
use cpp_logger.Sink.File.Batches.{line, lines, AllFit, write_batch-Tracks}
use cpp_logger.Sink.File.Contents.{Tracks}
use cpp_logger.Sink.File.Rolling.{IsOn}
use cpp_logger.Sink.File.Success.{IsHealthy, IsGood, write_batch-Safe}
use cpp_logger.Sink.File.Termination.{write_batch-Finishes}
use cpp_logger.Sink.File
use cpp_logger.Sink.Console.{output_stream}
use cpp_logger.Sink.Console
use cpp_logger.Sink.BuiltIn.{
  BuiltIn, file, console, of_file, Devices, fuel_for, write_batch, flush, printed,
}

-- Between two calls, with nothing pending and a good stream.
abbrev pub IsFileReady : File.World → Type 0
IsFileReady w = (bound : ℕ) × Tracks bound (stream w.disk) w × (w.sink.pending ≡ []) × IsGood w

abbrev pub IsConsoleReady : Console.World → Type 0
IsConsoleReady w = (w.sink.pending ≡ []) × ((output_stream w.sink.target w).good ≡ true)

abbrev pub IsReady : BuiltIn → Type 0
IsReady (file w) = IsFileReady w
IsReady (console w) = IsConsoleReady w

pub record IsWorking (dev : Devices) : Type 0 where
  pub files : IsHealthy dev.files
  pub whole : (w : Console.World) → dev.cuts_write w ≡ none
  pub flushes : (w : Console.World) → dev.flushes w ≡ true

pub lines-append : (xs ys : Batch) → lines (xs ++ ys) ≡ lines xs ++ lines ys
lines-append [] ys = refl
lines-append (x ∷ xs) ys =
    ap (λ t. line x ++ t) (lines-append xs ys) ∙ sym (append_assoc (line x) (lines xs) (lines ys))

AllFit-lines : (k : ℕ) (batch : Batch) → AllFit (k + length (lines batch)) batch
AllFit-lines k [] = tt
AllFit-lines k (rec ∷ rest) = (
  omega (arith, length-append (line rec) (lines rest), length-append rec (b'\n' ∷ [])),
  subst (λ n. AllFit n rest) (omega (arith, length-append (line rec) (lines rest)))
      (AllFit-lines (k + length (line rec)) rest),
)

Tracks-wider :
    (k bound : ℕ) (total : List ℕ) (w : File.World)
    → Tracks bound total w
    → Tracks (bound + k) total w
Tracks-wider k bound total w h = record {
  st = h.st;
  opened = h.opened;
  named = h.named;
  sized = h.sized;
  kept = h.kept;
  bounded = λ f. omega (arith, h.bounded f);
  fits = omega (arith, h.fits);
  limit = omega (arith, h.limit);
}

pub Flushed-IsFileReady :
    (bound : ℕ) (total : List ℕ) (w : File.World)
    → Tracks bound total w
    → w.sink.pending ≡ []
    → IsGood w
    → IsFileReady w × (stream w.disk ≡ total)
Flushed-IsFileReady bound total w h nothing good =
    let e : stream w.disk ≡ total =
      sym (append-nil _) ∙ ap (λ p. stream w.disk ++ p) (sym nothing) ∙ h.kept in
    ((bound, subst (λ t. Tracks bound t w) (sym e) h, nothing, good), e)

-- A call that ends well and prints `bytes`.
abbrev pub Prints : List ℕ → BuiltIn → Outcome (Unit {0}) × BuiltIn → Type 0
Prints bytes s r = (t : BuiltIn) × (r ≡ (ok tt, t)) × IsReady t × (printed t ≡ printed s ++ bytes)

flush_to-ready :
    (out : Option Stream) (works : Bool) (w : File.World)
    → w.sink.out ≡ out
    → works ≡ true
    → IsFileReady w
    → (u : File.World) × (File.flush_to out works flush_failed w ≡ (ok tt, u))
      × IsFileReady u
      × (u.disk ≡ w.disk)
unfolding File.flush_to File.make_log_file_name
flush_to-ready none works w e lasts (bound, h, nothing, (st, opened, good)) = cc
flush_to-ready (some st) works w e lasts (bound, h, nothing, (st', opened, good)) =
    let fine : st.good ≡ true = cc in
    let found : some h.st ≡ some st = sym h.opened ∙ e in
    let one : h.st.file ≡ st.file = cc in
    (
      record (asked w) { sink = record w.sink { out = some (record st { good = true }) } },
      rw (fine, lasts) refl,
      (
        bound,
        record {
          st = record st { good = true };
          opened = refl;
          named = sym one ∙ h.named;
          sized =
              subst (λ f. w.sink.current_size ≡ Disk.size f w.disk + length w.sink.pending) one
                h.sized;
          kept = h.kept;
          bounded = h.bounded;
          fits = h.fits;
          limit = h.limit;
        },
        nothing,
        (record st { good = true }, refl, refl),
      ),
      refl,
    )

module _ (dev : Devices) (working : IsWorking dev) where
  pub file-writes :
      (batch : Batch) (w : File.World)
      → IsFileReady w
      → Prints (lines batch) (file w) (write_batch dev batch (file w))
  unfolding write_batch printed
  file-writes batch w (bound, h, nothing, good) =
      let more : ℕ = length (lines batch) in
      let on : IsOn dev.files w = record { st = h.st; opened = h.opened; named = h.named } in
      let (a, u, e, good', (tracks, nothing')) =
        Safe-ok (File.write_batch dev.files (fuel_for batch w) batch w) IsGood _
          (write_batch-Safe dev.files working.files (fuel_for batch w) batch w good)
          (write_batch-Finishes dev.files (fuel_for batch w) batch w on (omega arith))
          (write_batch-Tracks dev.files working.files.knows (bound + more) (fuel_for batch w) batch
            (stream w.disk) w (AllFit-lines bound batch)
            (Tracks-wider more bound (stream w.disk) w h)) in
      let (ready, all) =
        Flushed-IsFileReady (bound + more) (stream w.disk ++ lines batch) u tracks nothing' good' in
      (file u, ap of_file e, ready, all)

  pub file-flushes : (w : File.World) → IsFileReady w → Prints [] (file w) (flush dev (file w))
  unfolding flush printed File.flush File.flush_stream
  file-flushes w h =
      let (u, e, ready, same) =
        flush_to-ready w.sink.out (dev.files.flushes w.clock) w refl (working.files.flushes w.clock)
          h in
      (file u, ap of_file e, ready, ap stream same ∙ sym (append-nil (stream w.disk)))
