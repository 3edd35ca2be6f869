-- ===== src/Logger/Threads/Sound/Lawful.antt =====
-- The states of the logger's state machine.
use cpp_logger.Base.{ℕ, ◌≡◌, ◌≢◌, ◌⊎◌, inl, inr, refl, true, false, Bool-cases}
use cpp_logger.Queue.Invariant.{IsValid}
use cpp_logger.Sink.{LogSink}
use cpp_logger.Logger.{Thread, absent, looping, finished}
use cpp_logger.Logger.Format.{Locale}
use cpp_logger.Logger.Threads.{Phase, System, Reach}
use cpp_logger.Logger.Threads.Sound.{Fits, IsSound}
use cpp_logger.Logger.Threads.Sound.Reached.{Reach-IsSound}

-- What a worker has in its hands.
abbrev pub Carries : Thread → ℕ → Phase → Type 0
Carries looping size p = Fits size p
Carries _ size p = Unit

module _ {S : Type 0} where
  pub record IsLawful (s : System S) : Type 0 where
    pub valid : IsValid s.logger.queue
    pub open_or_off : (s.logger.queue.is_closed ≡ false) ⊎ (s.logger.running ≡ false)
    pub at_end :
        (s.logger.worker ≢ finished)
        ⊎ ((s.logger.running ≡ false) × (s.logger.queue.is_closed ≡ true))
    pub asked : (s.stopping ≡ false) ⊎ (s.logger.queue.is_closed ≡ true)
    pub carries : Carries s.logger.worker s.logger.write_batch_size s.phase

  IsSound-open_or_off :
      (s : System S) → IsSound s → (s.logger.queue.is_closed ≡ false) ⊎ (s.logger.running ≡ false)
  IsSound-open_or_off s h = elim (Bool-cases s.logger.running) [
    | inl on ↦ inl (h.live on).1
    | inr off ↦ inr off
  ]

  IsSound-at_end :
      (s : System S) (w : Thread)
      → IsSound s
      → s.logger.worker ≡ w
      → (w ≢ finished) ⊎ ((s.logger.running ≡ false) × (s.logger.queue.is_closed ≡ true))
  IsSound-at_end s absent h e = inl (λ k. cc)
  IsSound-at_end s looping h e = inl (λ k. cc)
  IsSound-at_end s finished h e = elim (Bool-cases s.logger.running) [
    | inl on ↦ let (w, o, n) = h.live on in cc
    | inr off ↦ inr (off, h.shut (λ a. cc) off)
  ]

  IsSound-asked :
      (s : System S) → IsSound s → (s.stopping ≡ false) ⊎ (s.logger.queue.is_closed ≡ true)
  IsSound-asked s h = elim (Bool-cases s.stopping) [
    | inl waits ↦ inr (h.waits_closed waits)
    | inr none_waits ↦ inl none_waits
  ]

  IsSound-Carries :
      (s : System S) (w : Thread)
      → IsSound s
      → s.logger.worker ≡ w
      → Carries w s.logger.write_batch_size s.phase
  IsSound-Carries s looping h e = h.fits e
  IsSound-Carries s absent h e = tt
  IsSound-Carries s finished h e = tt

-- The logger's state machine, after any steps of the threads, whatever the sinks do, throwing
-- included. (One step makes the two stores of `stop`, and so for a worker that fails and for the start
-- of a worker.) The queue is valid. A closed queue goes with a `running_` that is not set. When the
-- worker has finished, `running_` is not set and the queue is closed. While a `stop` waits, the queue is
-- closed. The batch in the hands of a looping worker has between one and `writeBatchSize` records.
pub Reach-IsLawful :
    {S : Type 0} (sink : LogSink S) (locale : Locale) {s : System S}
    → Reach sink locale s
    → IsLawful s
Reach-IsLawful sink locale {s} r =
    let h : IsSound s = Reach-IsSound sink locale r in
    record {
      valid = h.valid;
      open_or_off = IsSound-open_or_off s h;
      at_end = IsSound-at_end s s.logger.worker h refl;
      asked = IsSound-asked s h;
      carries = IsSound-Carries s s.logger.worker h refl;
    }
