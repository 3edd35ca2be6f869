-- ===== src/Logger/Worker/Rounds.antt =====
-- One round of the worker where no sink throws: what it writes, and how it goes on.
use cpp_logger.Base.{
  ℕ, ◌+◌, zero, suc, ◌<◌, ◌≡◌, inl, inr, refl, ◌&&◌, ◌||◌, List, [], ◌∷◌, map, append-nil, leb,
  if◌then◌else◌, take, drop, Bool-cases, word_mod,
}
use mathlib.Core.Path.{subst}
use cpp_logger.Base.Outcome.{ok}
use cpp_logger.Sink.{LogSink, Bytes, Batch}
use cpp_logger.Logger.{LogRecord, Logger, finished, Cache}
use cpp_logger.Logger.Config.{is_periodic, is_every_batch}
use cpp_logger.Logger.Format.{Locale, seconds, refresh}
use cpp_logger.Logger.Format.Text.{IsFresh, IsInt, message_text, format_message-text}
use cpp_logger.Logger.Worker.{
  Readings, Round, interval_of, goes_on, leaves, format_batch, finish, after_flush, renewed,
  batch_written, batch_formatted, idle, any_demands, idle_end,
}
use cpp_logger.Logger.Worker.Gains.{
  Reliable, Gains, Gains-trans, Gains-nothing, for_each-Gains, flush_sinks-Gains,
}

module _ (locale : Locale) where
  -- Records that format without an exception.
  abbrev pub AllPrintable : List LogRecord → Type 0
  AllPrintable [] = Unit
  AllPrintable (r ∷ rs) =
      (locale.thread_hash r.thread_id < word_mod) × IsInt r.line × AllPrintable rs

  abbrev pub texts : List LogRecord → Batch
  texts = map (message_text locale)

  format_batch-texts :
      (rs : List LogRecord) (c : Cache)
      → AllPrintable rs
      → IsFresh locale c
      → (d : Cache) × (format_batch locale rs c ≡ (ok (texts rs), d)) × IsFresh locale d
  unfolding format_batch
  format_batch-texts [] c h fresh = (c, refl, fresh)
  format_batch-texts (r ∷ rs) c h fresh =
      let first = format_message-text locale r c h.0 h.1 fresh in
      let (d, e, k) = format_batch-texts rs (refresh locale c (seconds r.timestamp)) h.2 first.1 in
      (d, rw (first.0, format_batch, e) refl, k)

  pub AllPrintable-take : (n : ℕ) (rs : List LogRecord) → AllPrintable rs → AllPrintable (take n rs)
  AllPrintable-take zero rs h = tt
  AllPrintable-take (suc n) [] h = tt
  AllPrintable-take (suc n) (r ∷ rs) h = (h.0, h.1, AllPrintable-take n rs h.2)

  pub AllPrintable-drop : (n : ℕ) (rs : List LogRecord) → AllPrintable rs → AllPrintable (drop n rs)
  AllPrintable-drop zero rs h = h
  AllPrintable-drop (suc n) [] h = tt
  AllPrintable-drop (suc n) (r ∷ rs) h = AllPrintable-drop n rs h.2

module _ {S : Type 0} (sink : LogSink S) (received : S → List Bytes) (good : Reliable sink received)
    (locale : Locale) where
  -- With the batch in the sinks a round goes on, whether it flushes or not.
  batch_written-goes_on :
      (now : Readings) (next_flush : ℕ) (batch : List LogRecord) (l : Logger S) (ss : List S)
      → (ts : List S) × (n : ℕ) × (batch_written sink now next_flush batch l (ok tt, ss)
          ≡ goes_on (record l { sinks = ts }) n)
        × Gains received [] ss ts
  unfolding batch_written
  batch_written-goes_on now next_flush batch l ss =
      elim (Bool-cases (
        is_every_batch l.flush_policy
        || any_demands l.flush_at_or_above batch
        || (is_periodic l.flush_policy && leb next_flush now.check))) [
          | inl flushes ↦
              let (ts, e, g) = flush_sinks-Gains sink received good ss in
              (ts, renewed l now.after next_flush, rw (flushes, e, after_flush) refl, g)
          | inr skips ↦ (ss, next_flush, rw skips refl, Gains-nothing received ss)
        ]

  -- A batch that is formatted reaches every sink, once; only the sinks and the cache change.
  pub batch_formatted-Served :
      (now : Readings) (next_flush : ℕ) (batch : List LogRecord) (l : Logger S)
      → AllPrintable locale batch
      → IsFresh locale l.cache
      → (c : Cache) × (ts : List S) × (n : ℕ) × (batch_formatted sink locale now next_flush batch l
            (format_batch locale batch l.cache)
          ≡ goes_on (record l { cache = c; sinks = ts }) n)
        × Gains received (texts locale batch) l.sinks ts
        × IsFresh locale c
  unfolding batch_formatted
  batch_formatted-Served now next_flush batch l h fresh =
      let (c, f, fresh') = format_batch-texts locale batch l.cache h fresh in
      let (ss, g, gains) =
        for_each-Gains received (sink.write_batch (texts locale batch)) (texts locale batch) l.sinks
          (good.writes (texts locale batch)) in
      let (ts, n, k, more) =
        batch_written-goes_on now next_flush batch (record l { cache = c }) ss in
      (
        c,
        ts,
        n,
        rw (f, batch_formatted, g) k,
        subst (λ b. Gains received b l.sinks ts) (append-nil (texts locale batch))
            (Gains-trans received (texts locale batch) [] l.sinks ss ts gains more),
        fresh',
      )

  -- The answer of a round without a batch.
  abbrev pub Idles : Logger S → Round S → Type 0
  Idles l r =
      (ts : List S) × (n : ℕ) × (r ≡ (
        if l.queue.is_closed
        then leaves (record l { sinks = ts; worker = finished })
        else goes_on (record l { sinks = ts }) n))
      × Gains received [] l.sinks ts

  idle_end-Idles : (l : Logger S) (n : ℕ) → Idles l (idle_end sink (goes_on l n))
  unfolding finish
  idle_end-Idles l n = elim (Bool-cases l.queue.is_closed) [
    | inl closed ↦
        let (ts, f, g) = flush_sinks-Gains sink received good l.sinks in
        (ts, n, rw (closed, f, finish) refl, g)
    | inr open_still ↦ (l.sinks, n, rw open_still refl, Gains-nothing received l.sinks)
  ]

  -- Without a batch the sinks are flushed at most, and the loop ends exactly if the queue is closed.
  pub idle-Idles :
      (now : Readings) (next_flush : ℕ) (l : Logger S) → Idles l (idle sink now next_flush l)
  unfolding idle
  idle-Idles now next_flush l =
      elim (Bool-cases (is_periodic l.flush_policy && leb next_flush now.check)) [
        | inl due ↦
            let (ss, f, g) = flush_sinks-Gains sink received good l.sinks in
            let (ts, n, k, h) =
              idle_end-Idles (record l { sinks = ss }) (now.after + interval_of l.flush_interval) in
            (ts, n, rw (due, f, after_flush) k, Gains-trans received [] [] l.sinks ss ts g h)
        | inr early ↦ rw early (idle_end-Idles l next_flush)
      ]
