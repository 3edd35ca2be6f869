-- ===== src/Logger/Worker/Simulation/Loop.antt =====
-- Flushes, rounds and the loop of the worker over sinks that behave alike.
use cpp_logger.Base.{
  ℕ, zero, suc, ◌+◌, ◌≡◌, inl, inr, refl, ap, Bool, true, false, ◌&&◌, ◌||◌, none, some, List, leb,
  if◌then◌else◌, Bool-cases,
}
use cpp_logger.Base.Outcome.{Outcome, ok, threw, unfinished}
use cpp_logger.Queue.{Pop}
use cpp_logger.Sink.{LogSink, Batch}
use cpp_logger.Logger.{LogRecord, Logger, Cache}
use cpp_logger.Logger.Config.{is_periodic, is_every_batch}
use cpp_logger.Logger.Format.{Locale}
use cpp_logger.Logger.Worker.{
  Readings, Round, goes_on, leaves, waits, flush_sinks, format_batch, finish, finish_with, caught,
  after_flush, batch_written, batch_formatted, idle, idle_end, popped, pops_from, round,
  worker_loop, any_demands, interval_of, renewed,
}
use cpp_logger.Logger.Worker.Simulation.{
  with_sinks, AllRelated, AllAlike, RoundAlike, LoopAlike, Simulates, each-AllAlike,
}

module _ {A B : Type 0} (first : LogSink A) (second : LogSink B) (R : A → B → Type 0)
    (same : Simulates first second R) where
  flush_sinks-AllAlike :
      (ss : List A) (ts : List B)
      → AllRelated R ss ts
      → AllAlike R (flush_sinks first ss) (flush_sinks second ts)
  unfolding flush_sinks
  flush_sinks-AllAlike ss ts rs = each-AllAlike R first.flush second.flush ss ts same.flushes rs

  -- A logger over related sinks.
  abbrev LoggerAlike : Logger A → Logger B → Type 0
  LoggerAlike l m = (ts : List B) × (m ≡ with_sinks l ts) × AllRelated R l.sinks ts

  finish_with-LoggerAlike :
      (l : Logger A) (ts : List B) (x : Outcome (Unit {0}) × List A)
      (y : Outcome (Unit {0}) × List B)
      → AllAlike R x y
      → LoggerAlike (finish_with l x) (finish_with (with_sinks l ts) y)
  unfolding finish_with caught
  finish_with-LoggerAlike l ts (ok u, ss) y (us, e, rs) = (us, rw e refl, rs)
  finish_with-LoggerAlike l ts (threw x, ss) y (us, e, rs) = (us, rw e refl, rs)
  finish_with-LoggerAlike l ts (unfinished, ss) y (us, e, rs) = (us, rw e refl, rs)

  finish-LoggerAlike :
      (l : Logger A) (ts : List B)
      → AllRelated R l.sinks ts
      → LoggerAlike (finish first l) (finish second (with_sinks l ts))
  unfolding finish
  finish-LoggerAlike l ts rs =
      finish_with-LoggerAlike l ts (flush_sinks first l.sinks) (flush_sinks second ts)
        (flush_sinks-AllAlike l.sinks ts rs)

  leaves-RoundAlike :
      (l : Logger A) (m : Logger B) → LoggerAlike l m → RoundAlike R (leaves l) (leaves m)
  leaves-RoundAlike l m (ts, e, rs) = (ts, ap leaves e, rs)

  -- The end after an exception.
  caught-RoundAlike :
      (l : Logger A) (ts : List B)
      → AllRelated R l.sinks ts
      → RoundAlike R
          (leaves (finish first (caught l)))
          (leaves (finish second (caught (with_sinks l ts))))
  unfolding caught
  caught-RoundAlike l ts rs = leaves-RoundAlike _ _ (finish-LoggerAlike (caught l) ts rs)

  after_flush-RoundAlike :
      (l : Logger A) (ts : List B) (n : ℕ) (x : Outcome (Unit {0}) × List A)
      (y : Outcome (Unit {0}) × List B)
      → AllAlike R x y
      → RoundAlike R (after_flush first l n x) (after_flush second (with_sinks l ts) n y)
  unfolding after_flush
  after_flush-RoundAlike l ts n (ok u, ss) y (us, e, rs) = (us, rw e refl, rs)
  after_flush-RoundAlike l ts n (threw x, ss) y (us, e, rs) =
      rw e (caught-RoundAlike (record l { sinks = ss }) us rs)
  after_flush-RoundAlike l ts n (unfinished, ss) y (us, e, rs) =
      rw e (caught-RoundAlike (record l { sinks = ss }) us rs)

  batch_written-RoundAlike :
      (now : Readings) (n : ℕ) (batch : List LogRecord) (l : Logger A) (ts : List B)
      (x : Outcome (Unit {0}) × List A) (y : Outcome (Unit {0}) × List B)
      → AllAlike R x y
      → RoundAlike R
          (batch_written first now n batch l x)
          (batch_written second now n batch (with_sinks l ts) y)
  unfolding batch_written
  batch_written-RoundAlike now n batch l ts (ok u, ss) y (us, e, rs) =
      rw e
        (elim (Bool-cases (
          is_every_batch l.flush_policy
          || any_demands l.flush_at_or_above batch
          || (is_periodic l.flush_policy && leb n now.check))) [
            | inl flushes ↦ rw flushes (
                after_flush-RoundAlike (record l { sinks = ss }) us (renewed l now.after n)
                  (flush_sinks first ss) (flush_sinks second us) (flush_sinks-AllAlike ss us rs))
            | inr skips ↦ rw skips (us, refl, rs)
          ])
  batch_written-RoundAlike now n batch l ts (threw x, ss) y (us, e, rs) =
      rw e (caught-RoundAlike (record l { sinks = ss }) us rs)
  batch_written-RoundAlike now n batch l ts (unfinished, ss) y (us, e, rs) =
      rw e (caught-RoundAlike (record l { sinks = ss }) us rs)

  pub batch_formatted-RoundAlike :
      (locale : Locale) (now : Readings) (n : ℕ) (batch : List LogRecord) (l : Logger A)
      (ts : List B) (x : Outcome Batch × Cache)
      → AllRelated R l.sinks ts
      → RoundAlike R
          (batch_formatted first locale now n batch l x)
          (batch_formatted second locale now n batch (with_sinks l ts) x)
  unfolding batch_formatted
  batch_formatted-RoundAlike locale now n batch l ts (ok texts, c) rs =
      batch_written-RoundAlike now n batch (record l { cache = c }) ts _ _
        (each-AllAlike R (first.write_batch texts) (second.write_batch texts) l.sinks ts
          (same.writes texts) rs)
  batch_formatted-RoundAlike locale now n batch l ts (threw x, c) rs =
      caught-RoundAlike (record l { cache = c }) ts rs
  batch_formatted-RoundAlike locale now n batch l ts (unfinished, c) rs =
      caught-RoundAlike (record l { cache = c }) ts rs

  if-RoundAlike :
      (b : Bool) (x x' : Round A) (y y' : Round B)
      → RoundAlike R x y
      → RoundAlike R x' y'
      → RoundAlike R (if b then x else x') (if b then y else y')
  if-RoundAlike true x x' y y' h k = h
  if-RoundAlike false x x' y y' h k = k

  idle_end-RoundAlike :
      (x : Round A) (y : Round B)
      → RoundAlike R x y
      → RoundAlike R (idle_end first x) (idle_end second y)
  idle_end-RoundAlike (goes_on l n) y (ts, e, rs) = rw e (
      if-RoundAlike l.queue.is_closed (leaves (finish first l)) (goes_on l n) _ _
        (leaves-RoundAlike _ _ (finish-LoggerAlike l ts rs)) (ts, refl, rs))
  idle_end-RoundAlike (leaves l) y (ts, e, rs) = rw e (ts, refl, rs)
  idle_end-RoundAlike waits y e = rw e refl

  pub idle-RoundAlike :
      (now : Readings) (n : ℕ) (l : Logger A) (ts : List B)
      → AllRelated R l.sinks ts
      → RoundAlike R (idle first now n l) (idle second now n (with_sinks l ts))
  unfolding idle
  idle-RoundAlike now n l ts rs =
      elim (Bool-cases (is_periodic l.flush_policy && leb n now.check)) [
        | inl due ↦ rw due (
            idle_end-RoundAlike _ _ (
              after_flush-RoundAlike l ts (now.after + interval_of l.flush_interval)
                (flush_sinks first l.sinks) (flush_sinks second ts)
                (flush_sinks-AllAlike l.sinks ts rs)))
        | inr early ↦
            rw early
              (idle_end-RoundAlike (goes_on l n) (goes_on (with_sinks l ts) n) (ts, refl, rs))
      ]

  popped-RoundAlike :
      (locale : Locale) (now : Readings) (n : ℕ) (l : Logger A) (ts : List B)
      (p : Pop LogRecord (List LogRecord × Bool))
      → AllRelated R l.sinks ts
      → RoundAlike R
          (popped first locale now n l p)
          (popped second locale now n (with_sinks l ts) p)
  unfolding popped
  popped-RoundAlike locale now n l ts (Pop.returns (batch, true) q x) rs =
      batch_formatted-RoundAlike locale now n batch (record l { queue = q }) ts
        (format_batch locale batch l.cache) rs
  popped-RoundAlike locale now n l ts (Pop.returns (batch, false) q x) rs =
      idle-RoundAlike now n (record l { queue = q }) ts rs
  popped-RoundAlike locale now n l ts Pop.waits rs = refl

  round-RoundAlike :
      (locale : Locale) (now : Readings) (n : ℕ) (l : Logger A) (ts : List B)
      → AllRelated R l.sinks ts
      → RoundAlike R (round first locale now n l) (round second locale now n (with_sinks l ts))
  unfolding round pops_from
  round-RoundAlike locale now n l ts rs =
      popped-RoundAlike locale now n l ts (pops_from l now.timed_out) rs

  -- The worker depends on the kind of its sinks only by what they answer: if a second kind of sink
  -- answers `writeBatch` and `flush` as a first kind does, with an exception where the first throws
  -- that exception, in states that stay related, then a worker over the second kind ends, waits or runs
  -- on as one over the first does, and ends with the same logger over related sinks. Exceptions of the
  -- sinks, and of the formatting, included.
  pub worker_loop-LoopAlike :
      (locale : Locale) (fuel : ℕ) (clock : ℕ → Readings) (n : ℕ) (l : Logger A) (ts : List B)
      → AllRelated R l.sinks ts
      → LoopAlike R
          (worker_loop first locale fuel clock n l)
          (worker_loop second locale fuel clock n (with_sinks l ts))
  unfolding worker_loop
  worker_loop-LoopAlike locale zero clock n l ts rs = refl
  worker_loop-LoopAlike locale (suc fuel) clock n l ts rs =
      go (worker_loop-LoopAlike locale fuel clock) (round first locale (clock fuel) n l)
        (round second locale (clock fuel) n (with_sinks l ts))
        (round-RoundAlike locale (clock fuel) n l ts rs)
    where
      go :
          ((k : ℕ) (m : Logger A) (us : List B)
            → AllRelated R m.sinks us
            → LoopAlike R
                (worker_loop first locale fuel clock k m)
                (worker_loop second locale fuel clock k (with_sinks m us)))
          → (x : Round A) (y : Round B) → RoundAlike R x y
          → LoopAlike R
              (elim x [
                | goes_on l' next ↦ worker_loop first locale fuel clock next l'
                | leaves l' ↦ some l'
                | waits ↦ none
              ])
              (elim y [
                | goes_on l' next ↦ worker_loop second locale fuel clock next l'
                | leaves l' ↦ some l'
                | waits ↦ none
              ])
      go again (goes_on m k) y (us, e, ks) = rw e (again k m us ks)
      go again (leaves m) y (us, e, ks) = rw e (us, refl, ks)
      go again waits y e = rw e refl
