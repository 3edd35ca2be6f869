-- ===== src/Logger/Threads/Serving.antt =====
-- What the sinks have been given while a cycle runs, and how calls on the queue keep it.
use cpp_logger.Base.{ℕ, ◌≤◌, ◌≡◌, sym, ap, ◌∙◌, Bool, true, false, List, [], ◌∷◌, ◌++◌, map}
use cpp_logger.Queue.{BlockingQueue, is_block}
use cpp_logger.Queue.History.{Trace, Exit, handed, evicted, value}
use cpp_logger.Queue.Fifo.{Accounts}
use cpp_logger.Queue.Lossless.{IsLossless}
use cpp_logger.Queue.Handed.{handed_values}
use cpp_logger.Sink.{Bytes}
use cpp_logger.Logger.{LogRecord, Thread, absent, looping, finished}
use cpp_logger.Logger.Format.{Locale}
use cpp_logger.Logger.Worker.Rounds.{AllPrintable, texts}
use cpp_logger.Logger.Worker.Gains.{Gains}
use cpp_logger.Logger.Threads.{Phase, ready, holds, missed}

module _ (locale : Locale) where
  pub AllPrintable-append :
      (rs us : List LogRecord)
      → AllPrintable locale rs
      → AllPrintable locale us
      → AllPrintable locale (rs ++ us)
  AllPrintable-append [] us h k = k
  AllPrintable-append (r ∷ rs) us h k = (h.0, h.1, AllPrintable-append rs us h.2 k)

  pub AllPrintable-left :
      (rs us : List LogRecord) → AllPrintable locale (rs ++ us) → AllPrintable locale rs
  AllPrintable-left [] us h = tt
  AllPrintable-left (r ∷ rs) us h = (h.0, h.1, AllPrintable-left rs us h.2)

  pub AllPrintable-right :
      (rs us : List LogRecord) → AllPrintable locale (rs ++ us) → AllPrintable locale us
  AllPrintable-right [] us h = h
  AllPrintable-right (r ∷ rs) us h = AllPrintable-right rs us h.2

  pub AllPrintable-handed :
      (es : List (Exit LogRecord))
      → AllPrintable locale (map value es)
      → AllPrintable locale (handed_values es)
  AllPrintable-handed [] h = tt
  AllPrintable-handed (handed r ∷ es) h = (h.0, h.1, AllPrintable-handed es h.2)
  AllPrintable-handed (evicted r ∷ es) h = AllPrintable-handed es h.2

  -- A call that hands nothing over.
  pub record Quiet (t u : Trace LogRecord) : Type 0 where
    pub accounts : Accounts t → Accounts u
    pub lossless : IsLossless t → IsLossless u
    pub policy : u.queue.overflow_policy ≡ t.queue.overflow_policy
    pub printable : AllPrintable locale t.accepted → AllPrintable locale u.accepted
    pub handed : handed_values u.left ≡ handed_values t.left
    pub closed : t.queue.is_closed ≡ true → u.queue ≡ t.queue

module _ {S : Type 0} (received : S → List Bytes) (locale : Locale) where
  -- What holds while a cycle runs: of the records that left the queue to the worker, `hand` is in its
  -- hands, and those before it have been given to every sink, in order.
  pub record Serving (t : Trace LogRecord) (size : ℕ) (sinks given : List S) (hand : List LogRecord)
      : Type 0 where
    pub accounts : Accounts t
    pub lossless : is_block t.queue.overflow_policy ≡ true → IsLossless t
    pub printable : AllPrintable locale t.accepted
    pub size_pos : 1 ≤ size
    pub done : List LogRecord
    pub split : handed_values t.left ≡ done ++ hand
    pub gains : Gains received (texts locale done) given sinks

  -- Without the periodic policy: nothing is left in the queue, and nothing can come.
  abbrev pub Drained : Bool → Trace LogRecord → Type 0
  Drained periodic t = periodic ≡ false → (t.queue.items ≡ []) × (t.queue.is_closed ≡ true)

  abbrev pub InPhase : Phase → Trace LogRecord → Bool → ℕ → (sinks given : List S) → Type 0
  InPhase (ready n) t periodic size sinks given = Serving t size sinks given []
  InPhase (holds n batch) t periodic size sinks given = Serving t size sinks given batch
  InPhase (missed n) t periodic size sinks given =
      Serving t size sinks given [] × Drained periodic t

  abbrev pub InCycle : Thread → Phase → Trace LogRecord → Bool → ℕ → (sinks given : List S) → Type 0
  InCycle absent p t periodic size sinks given = Unit
  InCycle looping p t periodic size sinks given = InPhase p t periodic size sinks given
  InCycle finished p t periodic size sinks given =
      Serving t size sinks given [] × (t.queue.is_closed ≡ true) × Drained periodic t

  Quiet-Serving :
      (t u : Trace LogRecord) (size : ℕ) (sinks given : List S) (hand : List LogRecord)
      → Quiet locale t u
      → Serving t size sinks given hand
      → Serving u size sinks given hand
  Quiet-Serving t u size sinks given hand k h = record {
    accounts = k.accounts h.accounts;
    lossless = λ e. k.lossless (h.lossless (ap is_block (sym k.policy) ∙ e));
    printable = k.printable h.printable;
    size_pos = h.size_pos;
    done = h.done;
    split = k.handed ∙ h.split;
    gains = h.gains;
  }

  Quiet-Drained :
      (t u : Trace LogRecord) (periodic : Bool)
      → Quiet locale t u
      → Drained periodic t
      → Drained periodic u
  Quiet-Drained t u periodic k h e =
      let (empty, closed) = h e in
      let same = k.closed closed in
      (
        ap (λ (q : BlockingQueue LogRecord). q.items) same ∙ empty,
        ap (λ (q : BlockingQueue LogRecord). q.is_closed) same ∙ closed,
      )

  pub Quiet-InCycle :
      (w : Thread) (p : Phase) (t u : Trace LogRecord) (periodic : Bool) (size : ℕ)
      (sinks given : List S)
      → Quiet locale t u
      → InCycle w p t periodic size sinks given
      → InCycle w p u periodic size sinks given
  Quiet-InCycle absent p t u periodic size sinks given k h = tt
  Quiet-InCycle looping (ready n) t u periodic size sinks given k h =
      Quiet-Serving t u size sinks given [] k h
  Quiet-InCycle looping (holds n batch) t u periodic size sinks given k h =
      Quiet-Serving t u size sinks given batch k h
  Quiet-InCycle looping (missed n) t u periodic size sinks given k h =
      (Quiet-Serving t u size sinks given [] k h.0, Quiet-Drained t u periodic k h.1)
  Quiet-InCycle finished p t u periodic size sinks given k h = (
    Quiet-Serving t u size sinks given [] k h.0,
    ap (λ (q : BlockingQueue LogRecord). q.is_closed) (k.closed h.1) ∙ h.1,
    Quiet-Drained t u periodic k h.2,
  )
