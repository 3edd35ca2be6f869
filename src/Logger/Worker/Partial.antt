-- ===== src/Logger/Worker/Partial.antt =====
-- A sink that throws in the middle of a batch.
use cpp_logger.Base.{ℕ, ◌≡◌, refl, sym, ap, ◌∙◌, false, List, [], ◌∷◌, ◌++◌}
use cpp_logger.Base.Outcome.{Outcome, ok, threw, unfinished, Failure, Run}
use cpp_logger.Queue.{close}
use cpp_logger.Sink.{LogSink, Batch}
use cpp_logger.Logger.{LogRecord, Logger, finished, Cache}
use cpp_logger.Logger.Format.{Locale}
use cpp_logger.Logger.Worker.{
  Readings, leaves, for_each, flush_sinks, format_batch, finish, finish_with, caught, batch_written,
  batch_formatted,
}

module _ {S : Type 0} where
  -- The call ends well on every sink, and leaves each as the second list says.
  abbrev pub AllWell : Run S (Unit {0}) → (ss ts : List S) → Type 0
  AllWell call [] [] = Unit
  AllWell call [] (t ∷ ts) = ⊥
  AllWell call (s ∷ ss) [] = ⊥
  AllWell call (s ∷ ss) (t ∷ ts) = (call s ≡ (ok tt, t)) × AllWell call ss ts

  for_each-threw :
      (call : Run S (Unit {0})) (ss ts : List S) (bad bad' : S) (rest : List S) (e : Failure)
      → AllWell call ss ts
      → call bad ≡ (threw e, bad')
      → for_each call (ss ++ (bad ∷ rest)) ≡ (threw e, ts ++ (bad' ∷ rest))
  unfolding for_each
  for_each-threw call [] [] bad bad' rest e h k = rw k refl
  for_each-threw call [] (t ∷ ts) bad bad' rest e h k = absurd h
  for_each-threw call (s ∷ ss) [] bad bad' rest e h k = absurd h
  for_each-threw call (s ∷ ss) (t ∷ ts) bad bad' rest e h k =
      rw (h.0, for_each-threw call ss ts bad bad' rest e h.1 k) refl

module _ {S : Type 0} (sink : LogSink S) where
  -- What a worker leaves that an exception has ended: its sinks after one last flush.
  pub record Stopped (l : Logger S) (sinks : List S) (m : Logger S) : Type 0 where
    pub flushed : m.sinks ≡ (flush_sinks sink sinks).1
    pub queue : m.queue ≡ close l.queue
    pub off : m.running ≡ false
    pub ended : m.worker ≡ finished

  finish-Stopped :
      (l : Logger S) (ss : List S) (c : Cache) (r : Outcome (Unit {0}) × List S)
      → flush_sinks sink ss ≡ r
      → Stopped l ss (finish_with (caught (record l { sinks = ss; cache = c })) r)
  unfolding finish_with caught close
  finish-Stopped l ss c (ok u, ts) e = record {
    flushed = λ i. (sym e i).1;
    queue = refl;
    off = refl;
    ended = refl;
  }
  finish-Stopped l ss c (threw x, ts) e = record {
    flushed = λ i. (sym e i).1;
    queue = refl;
    off = refl;
    ended = refl;
  }
  finish-Stopped l ss c (unfinished, ts) e = record {
    flushed = λ i. (sym e i).1;
    queue = refl;
    off = refl;
    ended = refl;
  }

  -- A sink that throws while a batch is written ends the worker. The sinks before it have been given
  -- the batch and those behind it have not; then all sinks are given one last flush, in order, up to
  -- one that throws. The queue is closed and keeps the records that are in it, which no
  -- sink is given any more, and `running_` is not set. (The batch could be formatted.)
  pub batch_formatted-Stopped :
      (locale : Locale) (now : Readings) (next_flush : ℕ) (batch : List LogRecord) (l : Logger S)
      (texts : Batch) (c : Cache) (ss ts : List S) (bad bad' : S) (rest : List S) (e : Failure)
      → l.sinks ≡ ss ++ (bad ∷ rest)
      → format_batch locale batch l.cache ≡ (ok texts, c)
      → AllWell (sink.write_batch texts) ss ts
      → sink.write_batch texts bad ≡ (threw e, bad')
      → (m : Logger S) × (batch_formatted sink locale now next_flush batch l
            (format_batch locale batch l.cache)
          ≡ leaves m)
        × Stopped l (ts ++ (bad' ∷ rest)) m
  unfolding batch_formatted batch_written finish
  batch_formatted-Stopped locale now next_flush batch l texts c ss ts bad bad' rest e split formats
        well throws =
      (
        finish sink (caught (record l { sinks = ts ++ (bad' ∷ rest); cache = c })),
        ap (batch_formatted sink locale now next_flush batch l) formats
            ∙ ap
                (λ xs.
                  batch_written sink now next_flush batch (record l { cache = c })
                    (for_each (sink.write_batch texts) xs))
                split
            ∙ ap (batch_written sink now next_flush batch (record l { cache = c }))
                (for_each-threw (sink.write_batch texts) ss ts bad bad' rest e well throws),
        finish-Stopped l (ts ++ (bad' ∷ rest)) c (flush_sinks sink (ts ++ (bad' ∷ rest))) refl,
      )
