-- ===== src/Logger/Worker/Printing.antt =====
-- The worker over the built-in sinks: what arrives in the files and on the console.
use mathlib.Core.Path.{subst}
use cpp_logger.Base.{
  ℕ, ◌<◌, ◌≤◌, ◌≡◌, refl, sym, ap, ◌∙◌, true, some, List, [], ◌∷◌, ◌++◌, append-nil, append_assoc,
  map, length,
}
use cpp_logger.Base.Outcome.{ok}
use cpp_logger.Sink.{LogSink, Bytes, Batch}
use cpp_logger.Sink.BuiltIn.{BuiltIn, Devices, built_in, printed}
use cpp_logger.Sink.BuiltIn.Ready.{IsReady, IsWorking, lines-append}
use cpp_logger.Sink.BuiltIn.Printed.{write_batch-Prints, flush-Prints}
use cpp_logger.Sink.File.Batches.{lines}
use cpp_logger.Logger.{Logger, finished}
use cpp_logger.Logger.Format.{Locale}
use cpp_logger.Logger.Format.Text.{IsFresh}
use cpp_logger.Logger.Worker.{Readings, worker_loop}
use cpp_logger.Logger.Worker.Gains.{Reliable, Gains}
use cpp_logger.Logger.Worker.Rounds.{AllPrintable, texts}
use cpp_logger.Logger.Worker.Delivery.{worker_loop-delivers}
use cpp_logger.Logger.Worker.Simulation.{with_sinks, AllRelated, LoopAlike, Simulates}
use cpp_logger.Logger.Worker.Simulation.Loop.{worker_loop-LoopAlike}

-- A sink that keeps a ledger: what had been printed before, and the records since.
abbrev pub Ledger : Type 0
Ledger = Bytes × Batch

abbrev pub ledger : LogSink Ledger
ledger = record {
  write_batch = λ batch s. (ok tt, (s.0, s.1 ++ batch));
  flush = λ s. (ok tt, s);
  close = λ s. s;
}

abbrev pub entries : Ledger → List Bytes
entries s = s.0 ∷ s.1

pub ledger-Reliable : Reliable ledger entries
ledger-Reliable = record {
  writes = λ batch s. ((s.0, s.1 ++ batch), refl, refl);
  flushes = λ s. (s, refl, sym (append-nil (entries s)));
}

-- The sink is ready and has printed what the ledger says.
abbrev pub Agrees : Ledger → BuiltIn → Type 0
Agrees s t = IsReady t × (printed t ≡ s.0 ++ lines s.1)

abbrev pub AllReady : List BuiltIn → Type 0
AllReady [] = Unit
AllReady (s ∷ ss) = IsReady s × AllReady ss

-- Every sink has printed `bytes` more.
abbrev pub AllPrinted : Bytes → List BuiltIn → List BuiltIn → Type 0
AllPrinted bytes [] [] = Unit
AllPrinted bytes [] (t ∷ ts) = ⊥
AllPrinted bytes (s ∷ ss) [] = ⊥
AllPrinted bytes (s ∷ ss) (t ∷ ts) = (printed t ≡ printed s ++ bytes) × AllPrinted bytes ss ts

abbrev pub opened : List BuiltIn → List Ledger
opened = map (λ s. (printed s, []))

pub opened-AllRelated : (ss : List BuiltIn) → AllReady ss → AllRelated Agrees (opened ss) ss
opened-AllRelated [] h = tt
opened-AllRelated (s ∷ ss) h = ((h.0, sym (append-nil (printed s))), opened-AllRelated ss h.1)

pub Gains-AllPrinted :
    (batch : Batch) (ss : List BuiltIn) (ls : List Ledger) (ts : List BuiltIn)
    → Gains entries batch (opened ss) ls
    → AllRelated Agrees ls ts
    → AllPrinted (lines batch) ss ts × AllReady ts
Gains-AllPrinted batch [] [] [] g r = (tt, tt)
Gains-AllPrinted batch [] [] (t ∷ ts) g r = absurd r
Gains-AllPrinted batch [] (l ∷ ls) ts g r = absurd g
Gains-AllPrinted batch (s ∷ ss) [] ts g r = absurd g
Gains-AllPrinted batch (s ∷ ss) (l ∷ ls) [] g r = absurd r
Gains-AllPrinted batch (s ∷ ss) (l ∷ ls) (t ∷ ts) (e, g) ((ready, agrees), r) =
    let before : l.0 ≡ printed s = cc in
    let since : l.1 ≡ batch = cc in
    let (rest, ready') = Gains-AllPrinted batch ss ls ts g r in
    (
      (agrees ∙ ap (λ b. b ++ lines l.1) before ∙ ap (λ b. printed s ++ lines b) since, rest),
      (ready, ready'),
    )

module _ (dev : Devices) (working : IsWorking dev) where
  pub ledger-Simulates : Simulates ledger (built_in dev) Agrees
  ledger-Simulates = record {
    writes = λ batch s t (ready, agrees).
        let (u, e, ready', more) = write_batch-Prints dev working batch t ready in
        (
          u,
          e,
          (
            ready',
            more
                ∙ ap (λ p. p ++ lines batch) agrees
                ∙ append_assoc s.0 (lines s.1) (lines batch)
                ∙ ap (λ p. s.0 ++ p) (sym (lines-append s.1 batch)),
          ),
        );
    flushes = λ s t (ready, agrees).
        let (u, e, ready', more) = flush-Prints dev working t ready in
        (u, e, (ready', more ∙ append-nil (printed t) ∙ agrees));
  }

  -- The worker with files and consoles that work, over built-in sinks with nothing pending and good
  -- streams: once the queue is closed, it returns after at most one round more than there are queued
  -- records, with an empty queue. Each file sink has then written, and each console sink has given to
  -- its stream, the text of every queued record with a line end, once and in order, after what was
  -- there before, and nothing else. Whatever the clocks say, and however the files roll over.
  -- (The batch size is positive, hashes of threads have 64 bits, lines are `int`s, and the time cache is
  -- empty or holds the local time of its second.)
  pub worker_loop-prints :
      (locale : Locale) (fuel : ℕ) (clock : ℕ → Readings) (next_flush : ℕ) (l : Logger BuiltIn)
      → AllReady l.sinks
      → l.queue.is_closed ≡ true
      → 1 ≤ l.write_batch_size
      → AllPrintable locale l.queue.items
      → IsFresh locale l.cache
      → length l.queue.items < fuel
      → (m : Logger BuiltIn) × (worker_loop (built_in dev) locale fuel clock next_flush l ≡ some m)
        × (m.worker ≡ finished)
        × (m.queue.items ≡ [])
        × AllPrinted (lines (texts locale l.queue.items)) l.sinks m.sinks
        × AllReady m.sinks
  worker_loop-prints locale fuel clock next_flush l ready is_shut pos h fresh enough =
      let (m, e, ended) =
        worker_loop-delivers ledger entries ledger-Reliable locale fuel clock next_flush
          (with_sinks l (opened l.sinks)) is_shut pos h fresh enough in
      let (us, f, related) =
        subst (λ x. LoopAlike Agrees x (worker_loop (built_in dev) locale fuel clock next_flush l))
          e
          (worker_loop-LoopAlike ledger (built_in dev) Agrees ledger-Simulates locale fuel clock
            next_flush (with_sinks l (opened l.sinks)) l.sinks (opened-AllRelated l.sinks ready)) in
      let (all, ready') =
        Gains-AllPrinted (texts locale l.queue.items) l.sinks m.sinks us ended.gains related in
      (with_sinks m us, f, ended.worker, ended.empty, all, ready')
