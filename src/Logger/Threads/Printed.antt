-- ===== src/Logger/Threads/Printed.antt =====
-- The logger's threads over the built-in sinks: what has been printed when `stop` has its worker back.
mod Examples
use mathlib.Core.Path.{subst}
use cpp_logger.Base.{ℕ, ◌+◌, ◌%◌, ◌<◌, ◌≡◌, ◌≢◌, sym, true, false, List, [], ◌++◌, map, word_mod}
use cpp_logger.Queue.{block}
use cpp_logger.Queue.History.{value, evictions}
use cpp_logger.Queue.Handed.{handed_values}
use cpp_logger.Sink.BuiltIn.{BuiltIn, Devices}
use cpp_logger.Sink.BuiltIn.Ready.{IsWorking}
use cpp_logger.Sink.File.Batches.{lines}
use cpp_logger.Logger.{LogRecord, absent, finished}
use cpp_logger.Logger.Config.{is_periodic}
use cpp_logger.Logger.Format.{Locale}
use cpp_logger.Logger.Worker.Gains.{Gains}
use cpp_logger.Logger.Worker.Rounds.{texts}
use cpp_logger.Logger.Worker.Printing.{
  Ledger, ledger, entries, ledger-Reliable, AllPrinted, Gains-AllPrinted,
}
use cpp_logger.Logger.Threads.{System}
use cpp_logger.Logger.Threads.Conserved.{in_hands, Reach-Conserved, Reach-drains}
use cpp_logger.Logger.Threads.Mirror.{lifted, Mirrors, ReadyReach, ReadyReach-Mirrors}

-- A worker that has ended under `Block` and without periodic flushes has printed all.
abbrev pub HasPrinted : Locale → System BuiltIn → Type 0
HasPrinted locale t =
    t.logger.worker ≡ finished
    → t.logger.queue.overflow_policy ≡ block
    → is_periodic t.logger.flush_policy ≡ false
    → AllPrinted (lines (texts locale t.accepted)) t.given t.logger.sinks
      × (t.logger.queue.items ≡ [])
      × (t.logger.queue.is_closed ≡ true)

module _ (dev : Devices) (working : IsWorking dev) (locale : Locale)
    (hashes : (id : ℕ) → locale.thread_hash id < word_mod) where
  Mirrors-HasPrinted :
      (t : System BuiltIn) (h : Mirrors dev working locale t)
      → HasPrinted locale (lifted h.image h.sinks t.given)
  Mirrors-HasPrinted t h w policy untimed =
      let (gains, empty, is_shut) =
        Reach-drains ledger entries ledger-Reliable locale hashes h.reached w policy untimed in
      (
        (Gains-AllPrinted (texts locale h.image.accepted) t.given h.image.logger.sinks h.sinks
            (subst (λ gs. Gains entries (texts locale h.image.accepted) gs h.image.logger.sinks)
              h.given gains)
            h.related).0,
        empty,
        is_shut,
      )

  -- The program with its built-in sinks, on files and console streams that work: if the policy is
  -- `Block` and the flush policy is not periodic, then, when the worker has finished, what each file
  -- sink has written since `init`, and each console sink given to its stream, is the text of every
  -- record that the queue took in since `init`, with a line end, once and in order; and the queue is
  -- empty and closed. Whatever the producers, `stop`, `init` and `setLevel` did, in any order. (Every
  -- `init` so far has made sinks with nothing pending and good streams. Hashes of threads have 64 bits.)
  pub ReadyReach-prints :
      {t : System BuiltIn}
      → ReadyReach dev working locale t
      → t.logger.worker ≡ finished
      → t.logger.queue.overflow_policy ≡ block
      → is_periodic t.logger.flush_policy ≡ false
      → AllPrinted (lines (texts locale t.accepted)) t.given t.logger.sinks
        × (t.logger.queue.items ≡ [])
        × (t.logger.queue.is_closed ≡ true)
  ReadyReach-prints {t} r =
      let h : Mirrors dev working locale t = ReadyReach-Mirrors dev working locale r in
      subst (HasPrinted locale) (sym h.same) (Mirrors-HasPrinted t h)

  -- What the built-in sinks have printed of the records that the queue handed over.
  pub record PrintedSoFar (t : System BuiltIn) : Type 0 where
    pub fifo : t.accepted ≡ map value t.left ++ t.logger.queue.items
    pub counted : t.logger.queue.dropped_count ≡ (evictions t.left + t.refused) % word_mod
    pub done : List LogRecord
    pub split : handed_values t.left ≡ done ++ in_hands t.logger.worker t.phase
    pub all_printed : AllPrinted (lines (texts locale done)) t.given t.logger.sinks

  Mirrors-PrintedSoFar :
      (t : System BuiltIn) (h : Mirrors dev working locale t)
      → (lifted h.image h.sinks t.given).logger.worker ≢ absent
      → PrintedSoFar (lifted h.image h.sinks t.given)
  Mirrors-PrintedSoFar t h live =
      let c = Reach-Conserved ledger entries ledger-Reliable locale hashes h.reached live in
      record {
        fifo = c.fifo;
        counted = c.counted;
        done = c.done;
        split = c.split;
        all_printed =
            (Gains-AllPrinted (texts locale c.done) t.given h.image.logger.sinks h.sinks
              (subst (λ gs. Gains entries (texts locale c.done) gs h.image.logger.sinks) h.given
                c.gains)
              h.related).0;
      }

  -- The program with its built-in sinks, on files and console streams that work, under every overflow
  -- and flush policy and at every moment of a cycle: what the queue took in since `init` is what
  -- left it and then what is in it; of the records that it handed to the worker, the texts of all but
  -- the batch in the worker's hands are what each sink has printed since `init`, with line ends, once
  -- and in order; and `droppedCount` is the number of records that were evicted or refused by the
  -- policy, modulo 2^64. (Every `init` so far has made sinks with nothing pending and good streams, there
  -- is a worker, looping or finished, and hashes of threads have 64 bits.)
  pub ReadyReach-PrintedSoFar :
      {t : System BuiltIn}
      → ReadyReach dev working locale t
      → t.logger.worker ≢ absent
      → PrintedSoFar t
  ReadyReach-PrintedSoFar {t} r =
      let h : Mirrors dev working locale t = ReadyReach-Mirrors dev working locale r in
      subst (λ (x : System BuiltIn). x.logger.worker ≢ absent → PrintedSoFar x) (sym h.same)
        (Mirrors-PrintedSoFar t h)
