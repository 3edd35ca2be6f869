-- ===== src/Logger/Threads.antt =====
-- The logger with its threads: producers in `log`, one worker, callers of `init`, `stop` and
-- `setLevel`. A step is what happens between two points where another thread can come between: a turn
-- with the queue's mutex, or the worker's work on the sinks, which no other thread touches meanwhile.
-- The steps of `init` and `stop` stand for `lifecycleMutex_`: none is made while `stop` waits for the
-- worker, and neither does `log` begin then. What condition variables do is in Queue/Threads.antt: here
-- a waiting thread may go on whenever its wait would end.
pub mod Serving
pub mod Steps
pub mod Invariant
pub mod Preserved
pub mod Order
pub mod Refines
pub mod Sound
pub mod Stopping
pub mod Conserved
pub mod Race
pub mod Late
pub mod Mirror
pub mod Printed
mod Examples
use cpp_logger.Base.{ℕ, ◌≡◌, Bool, true, false, some, List, [], ◌∷◌, ◌++◌, if◌then◌else◌}
use cpp_logger.Base.Int.{ℤ}
use cpp_logger.Queue.{BlockingQueue, Push, Pop, push, push_waiting}
use cpp_logger.Queue.History.{Trace, Exit, Call, step, batched}
use cpp_logger.Queue.History
use cpp_logger.Sink.{LogSink}
use cpp_logger.Logger.{LogLevel, LogRecord, LoggerConfig, Logger, Thread, looping, new_logger}
use cpp_logger.Logger.Format.{Locale}
use cpp_logger.Logger.Format.Text.{IsInt}
use cpp_logger.Logger.Lifecycle.{
  Start, Init, failed, started, Stop, stopped, init, stop_request, stop_join, set_level, log_begin,
  log_end,
}
use cpp_logger.Logger.Worker.{
  Readings, Round, goes_on, leaves, pops_from, batch_formatted, format_batch, idle,
}

-- Where the worker is, with the time of its next flush: before a pop, with a batch, or after a pop
-- without one.
pub data Phase : Type 0 where
  ready : ℕ → Phase
  holds : ℕ → List LogRecord → Phase
  missed : ℕ → Phase

-- A call of `log` that has left the lifecycle lock, or that waits for a place in the queue.
pub data Producer : Type 0 where
  begun : ℕ → LogRecord → Producer
  blocked : ℕ → LogRecord → Producer

-- The producer that a push leaves behind.
abbrev pub left_behind : ℕ → LogRecord → Push LogRecord → List Producer
left_behind g r (Push.returns q result signal) = []
left_behind g r Push.waits = blocked g r ∷ []
left_behind g r Push.undefined = []

abbrev pub phase_after : ℕ → Pop LogRecord (List LogRecord × Bool) → Phase
phase_after n (Pop.returns (batch, true) q signal) = holds n batch
phase_after n (Pop.returns (batch, false) q signal) = missed n
phase_after n Pop.waits = ready n

-- The last four fields are what an observer writes down in a cycle: what the queue took in, what left
-- it, how many records it refused, and the sinks as `init` made them.
pub record System (S : Type 0) : Type 0 where
  pub logger : Logger S
  pub phase : Phase
  pub producers : List Producer
  pub stopping : Bool
  pub accepted : List LogRecord
  pub left : List (Exit LogRecord)
  pub refused : ℕ
  pub given : List S

module _ {S : Type 0} where
  abbrev pub trace_of : System S → Trace LogRecord
  trace_of s = record {
    queue = s.logger.queue;
    accepted = s.accepted;
    left = s.left;
    refused = s.refused;
  }

  abbrev pub with_trace : System S → Trace LogRecord → System S
  with_trace s t = record s {
    logger = record s.logger { queue = t.queue };
    accepted = t.accepted;
    left = t.left;
    refused = t.refused;
  }

  unfoldable pub ends_log :
      System S → Call LogRecord → (before after : List Producer) → List Producer → System S
  unfolding step
  ends_log s call before after waiting = record (with_trace s (step (trace_of s) call)) {
    producers = before ++ (waiting ++ after);
  }

  unfoldable pub ends_pop : System S → ℕ → Pop LogRecord (List LogRecord × Bool) → System S
  unfolding batched
  ends_pop s n popped = record (with_trace s (batched (trace_of s) popped)) {
    phase = phase_after n popped;
  }

  abbrev pub ends_round : System S → Round S → System S
  ends_round s (goes_on m n) = record s { logger = m; phase = ready n }
  ends_round s (leaves m) = record s { logger = m }
  ends_round s Round.waits = s

  -- A new cycle, or the end of one that could not begin.
  unfoldable pub ends_init : System S → Logger S → Phase → System S
  ends_init s m phase = record s {
    logger = m;
    phase = phase;
    accepted = m.queue.items;
    left = [];
    refused = 0;
    given = m.sinks;
  }

module _ {S : Type 0} (sink : LogSink S) (locale : Locale) where
  pub data Step (s t : System S) : Type 0 where
    begins :
        (g : ℕ) (r : LogRecord)
        → s.stopping ≡ false
        → IsInt r.line
        → log_begin s.logger r.level ≡ some g
        → t ≡ record s { producers = begun g r ∷ s.producers }
        → Step s t
    pushes :
        (before : List Producer) (g : ℕ) (r : LogRecord) (after : List Producer)
        → s.producers ≡ before ++ (begun g r ∷ after)
        → t ≡ ends_log s (History.pushes g r) before after (left_behind g r (log_end s.logger g r))
        → Step s t
    resumes :
        (before : List Producer) (g : ℕ) (r : LogRecord) (after : List Producer)
        → s.producers ≡ before ++ (blocked g r ∷ after)
        → t
          ≡ ends_log s
              (History.resumes g r)
              before
              after
              (left_behind g r (push_waiting s.logger.queue g r))
        → Step s t
    pops :
        (n : ℕ) (timed_out : Bool)
        → s.logger.worker ≡ looping
        → s.phase ≡ ready n
        → t ≡ ends_pop s n (pops_from s.logger timed_out)
        → Step s t
    works :
        (now : Readings) (n : ℕ) (batch : List LogRecord)
        → s.logger.worker ≡ looping
        → s.phase ≡ holds n batch
        → t
          ≡ ends_round s (
              batch_formatted sink locale now n batch s.logger
                (format_batch locale batch s.logger.cache))
        → Step s t
    idles :
        (now : Readings) (n : ℕ)
        → s.logger.worker ≡ looping
        → s.phase ≡ missed n
        → t ≡ ends_round s (idle sink now n s.logger)
        → Step s t
    levels : (level : LogLevel) → t ≡ record s { logger = set_level s.logger level } → Step s t
    stops :
        s.stopping ≡ false
        → t ≡ record s { logger = stop_request s.logger; stopping = true }
        → Step s t
    joins :
        (m : Logger S) (released : List S)
        → s.stopping ≡ true
        → stop_join sink s.logger ≡ stopped m released
        → t ≡ record s { logger = m; stopping = false }
        → Step s t
    inits :
        (st : Start S) (c : LoggerConfig S) (m : Logger S) (released : List S) (n : ℕ)
        → s.stopping ≡ false
        → init sink st c s.logger ≡ started m released
        → t ≡ ends_init s m (ready n)
        → Step s t
    fails :
        (st : Start S) (c : LoggerConfig S) (m : Logger S) (released : List S)
        → s.stopping ≡ false
        → init sink st c s.logger ≡ failed m released
        → t ≡ ends_init s m s.phase
        → Step s t

  -- The system as the program starts.
  abbrev pub initial : System S
  initial = record {
    logger = new_logger;
    phase = ready 0;
    producers = [];
    stopping = false;
    accepted = [];
    left = [];
    refused = 0;
    given = [];
  }

  pub data Reach : System S → Type 0 where
    start : Reach initial
    later : {s t : System S} → Reach s → Step s t → Reach t
