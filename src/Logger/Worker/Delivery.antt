-- ===== src/Logger/Worker/Delivery.antt =====
-- The worker hands every queued record to every sink.
use cpp_logger.Base.{
  ℕ, zero, suc, ◌<◌, ◌≤◌, ◌≡◌, refl, sym, ap, ◌∙◌, true, some, List, [], ◌∷◌, ◌++◌, if◌then◌else◌,
  length, take, drop, length-drop, take-append-drop, arith,
}
use mathlib.Core.List.{map-append}
use mathlib.Core.Path.{subst}
use cpp_logger.Queue.{BlockingQueue}
use cpp_logger.Queue.Batch.{batch_cons, batch_closed}
use cpp_logger.Sink.{LogSink, Bytes, Batch}
use cpp_logger.Logger.{LogRecord, Logger, finished}
use cpp_logger.Logger.Config.{is_periodic}
use cpp_logger.Logger.Format.{Locale}
use cpp_logger.Logger.Format.Text.{IsFresh, message_text}
use cpp_logger.Logger.Worker.{
  Readings, goes_on, leaves, format_batch, batch_formatted, idle, popped, round, worker_loop,
}
use cpp_logger.Logger.Worker.Rounds.{
  AllPrintable, texts, AllPrintable-take, AllPrintable-drop, batch_formatted-Served, idle-Idles,
}
use cpp_logger.Logger.Worker.Gains.{Reliable, Gains, Gains-trans}

module _ {S : Type 0} (sink : LogSink S) (received : S → List Bytes) (good : Reliable sink received)
    (locale : Locale) where
  -- What a round leaves: the state between rounds.
  pub record Between (l : Logger S) (xs : List LogRecord) (given : Batch) (m : Logger S)
      : Type 0 where
    pub items : m.queue.items ≡ xs
    pub closed : m.queue.is_closed ≡ true
    pub size : m.write_batch_size ≡ l.write_batch_size
    pub running : m.running ≡ l.running
    pub gains : Gains received given l.sinks m.sinks
    pub fresh : IsFresh locale m.cache

  pub record Ended (l : Logger S) (given : Batch) (m : Logger S) : Type 0 where
    pub empty : m.queue.items ≡ []
    pub worker : m.worker ≡ finished
    pub running : m.running ≡ l.running
    pub gains : Gains received given l.sinks m.sinks

  batch_formatted-goes_on :
      (now : Readings) (next_flush : ℕ) (batch rest : List LogRecord) (l : Logger S)
      → AllPrintable locale batch
      → IsFresh locale l.cache
      → l.queue.items ≡ rest
      → l.queue.is_closed ≡ true
      → (m : Logger S) × (n : ℕ) × (batch_formatted sink locale now next_flush batch l
            (format_batch locale batch l.cache)
          ≡ goes_on m n)
        × Between l rest (texts locale batch) m
  batch_formatted-goes_on now next_flush batch rest l h fresh e closed =
      let (c, ts, n, k, gains, fresh') =
        batch_formatted-Served sink received good locale now next_flush batch l h fresh in
      (
        record l { cache = c; sinks = ts },
        n,
        k,
        record {
          items = e;
          closed = closed;
          size = refl;
          running = refl;
          gains = gains;
          fresh = fresh';
        },
      )

  round-batch :
      (now : Readings) (next_flush : ℕ) (l : Logger S) (x : LogRecord) (rest : List LogRecord)
      → l.queue.items ≡ x ∷ rest
      → l.queue.is_closed ≡ true
      → 1 ≤ l.write_batch_size
      → AllPrintable locale (x ∷ rest)
      → IsFresh locale l.cache
      → (m : Logger S) × (n : ℕ) × (round sink locale now next_flush l ≡ goes_on m n)
        × Between l
            (drop l.write_batch_size (x ∷ rest))
            (texts locale (take l.write_batch_size (x ∷ rest)))
            m
  unfolding round popped
  round-batch now next_flush l x rest e closed pos h fresh =
      let xs : List LogRecord = x ∷ rest in
      let size : ℕ = l.write_batch_size in
      let q : BlockingQueue LogRecord = record l.queue { items = drop size xs } in
      let (m, n, f, b) =
        batch_formatted-goes_on now next_flush (take size xs) (drop size xs)
          (record l { queue = q }) (AllPrintable-take locale size xs h) fresh refl closed in
      (
        m,
        n,
        rw (batch_cons l.queue size now.timed_out (is_periodic l.flush_policy) x rest e pos, popped)
            f,
        record {
          items = b.items;
          closed = b.closed;
          size = b.size;
          running = b.running;
          gains = b.gains;
          fresh = b.fresh;
        },
      )

  idle-Ended :
      (now : Readings) (next_flush : ℕ) (l : Logger S)
      → l.queue.items ≡ []
      → l.queue.is_closed ≡ true
      → (m : Logger S) × (idle sink now next_flush l ≡ leaves m) × Ended l [] m
  idle-Ended now next_flush l e closed =
      let (ts, n, f, g) = idle-Idles sink received good locale now next_flush l in
      (
        record l { sinks = ts; worker = finished },
        f
            ∙ ap
                (λ b.
                  if b
                  then leaves (record l { sinks = ts; worker = finished })
                  else goes_on (record l { sinks = ts }) n)
                closed,
        record { empty = e; worker = refl; running = refl; gains = g },
      )

  round-empty :
      (now : Readings) (next_flush : ℕ) (l : Logger S)
      → l.queue.items ≡ []
      → l.queue.is_closed ≡ true
      → (m : Logger S) × (round sink locale now next_flush l ≡ leaves m) × Ended l [] m
  unfolding round popped
  round-empty now next_flush l e closed =
      let (m, f, h) = idle-Ended now next_flush l e closed in
      (
        m,
        rw
            (
              batch_closed l.queue l.write_batch_size now.timed_out (is_periodic l.flush_policy) e
                  closed,
              popped,
            )
            f,
        h,
      )

  texts_split :
      (n : ℕ) (rs : List LogRecord)
      → texts locale (take n rs) ++ texts locale (drop n rs) ≡ texts locale rs
  texts_split n rs =
      sym (map-append (message_text locale) (take n rs) (drop n rs))
      ∙ ap (texts locale) (take-append-drop n rs)

  loop-from :
      (fuel : ℕ) (clock : ℕ → Readings) (next_flush : ℕ) (l : Logger S) (xs : List LogRecord)
      → l.queue.items ≡ xs
      → l.queue.is_closed ≡ true
      → 1 ≤ l.write_batch_size
      → AllPrintable locale xs
      → IsFresh locale l.cache
      → length xs < fuel
      → (m : Logger S) × (worker_loop sink locale fuel clock next_flush l ≡ some m)
        × Ended l (texts locale xs) m
  unfolding worker_loop
  loop-from zero clock next_flush l xs e closed pos h fresh enough = absurd (omega arith)
  loop-from (suc fuel) clock next_flush l [] e closed pos h fresh enough =
      let (m, f, k) = round-empty (clock fuel) next_flush l e closed in
      (m, rw (f, worker_loop) refl, k)
  loop-from (suc fuel) clock next_flush l (x ∷ rest) e closed pos h fresh enough =
      let xs : List LogRecord = x ∷ rest in
      let size : ℕ = l.write_batch_size in
      let (m, n, f, b) = round-batch (clock fuel) next_flush l x rest e closed pos h fresh in
      let (o, g, k) =
        loop-from fuel clock n m (drop size xs) b.items b.closed (omega (arith, b.size))
          (AllPrintable-drop locale size xs h) b.fresh (omega (arith, length-drop size xs)) in
      (
        o,
        rw (f, worker_loop) g,
        record {
          empty = k.empty;
          worker = k.worker;
          running = k.running ∙ b.running;
          gains =
              subst (λ t. Gains received t l.sinks o.sinks) (texts_split size xs)
                (Gains-trans received (texts locale (take size xs)) (texts locale (drop size xs))
                  l.sinks m.sinks o.sinks b.gains k.gains);
        },
      )

  -- Once the queue is closed, and if no sink throws, the worker returns after at most one round more
  -- than there are queued records; every sink has then received the text of every queued record, in
  -- order and once; the queue is empty, and the flag `running_` is what it was. Whatever the clock
  -- says. (The batch size is positive, hashes of threads have 64 bits, lines are `int`s, and the time
  -- cache is empty or holds the local time of its second.)
  pub worker_loop-delivers :
      (fuel : ℕ) (clock : ℕ → Readings) (next_flush : ℕ) (l : Logger S)
      → l.queue.is_closed ≡ true
      → 1 ≤ l.write_batch_size
      → AllPrintable locale l.queue.items
      → IsFresh locale l.cache
      → length l.queue.items < fuel
      → (m : Logger S) × (worker_loop sink locale fuel clock next_flush l ≡ some m)
        × Ended l (texts locale l.queue.items) m
  worker_loop-delivers fuel clock next_flush l closed pos h fresh enough =
      loop-from fuel clock next_flush l l.queue.items refl closed pos h fresh enough
