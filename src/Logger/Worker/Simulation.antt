-- ===== src/Logger/Worker/Simulation.antt =====
-- The worker uses its sinks through their interface only: over sinks that behave alike it behaves
-- alike.
pub mod Loop
use cpp_logger.Base.{
  ℕ, zero, suc, ◌+◌, ◌≡◌, inl, inr, refl, ap, Bool, true, false, ◌&&◌, ◌||◌, Option, none, some,
  List, [], ◌∷◌, leb, if◌then◌else◌, Bool-cases,
}
use cpp_logger.Base.Outcome.{Outcome, ok, threw, unfinished, Run}
use cpp_logger.Queue.{Pop}
use cpp_logger.Sink.{LogSink, Batch}
use cpp_logger.Logger.{LogRecord, Logger, Cache}
use cpp_logger.Logger.Config.{is_periodic, is_every_batch}
use cpp_logger.Logger.Format.{Locale}
use cpp_logger.Logger.Worker.{
  Readings, Round, goes_on, leaves, waits, each_after, for_each, flush_sinks, format_batch, finish,
  finish_with, caught, after_flush, batch_written, batch_formatted, idle, idle_end, popped,
  pops_from, round, worker_loop, any_demands, interval_of, renewed,
}

-- The same logger over other sinks.
abbrev pub with_sinks : {A B : Type 0} → Logger A → List B → Logger B
with_sinks l ts = record {
  queue = l.queue;
  worker = l.worker;
  sinks = ts;
  min_level = l.min_level;
  running = l.running;
  cache = l.cache;
  write_batch_size = l.write_batch_size;
  flush_policy = l.flush_policy;
  flush_interval = l.flush_interval;
  flush_at_or_above = l.flush_at_or_above;
}

module _ {A B : Type 0} (R : A → B → Type 0) where
  -- The second call ends as the first one does, in related states.
  abbrev pub Alike : Outcome (Unit {0}) × A → Outcome (Unit {0}) × B → Type 0
  Alike (o, a) r = (b : B) × (r ≡ (o, b)) × R a b

  abbrev pub AllRelated : List A → List B → Type 0
  AllRelated [] [] = Unit
  AllRelated [] (b ∷ bs) = ⊥
  AllRelated (a ∷ ss) [] = ⊥
  AllRelated (a ∷ ss) (b ∷ bs) = R a b × AllRelated ss bs

  abbrev pub AllAlike : Outcome (Unit {0}) × List A → Outcome (Unit {0}) × List B → Type 0
  AllAlike (o, ss) r = (bs : List B) × (r ≡ (o, bs)) × AllRelated ss bs

  abbrev pub RoundAlike : Round A → Round B → Type 0
  RoundAlike (goes_on l n) r =
      (ts : List B) × (r ≡ goes_on (with_sinks l ts) n) × AllRelated l.sinks ts
  RoundAlike (leaves l) r = (ts : List B) × (r ≡ leaves (with_sinks l ts)) × AllRelated l.sinks ts
  RoundAlike waits r = r ≡ waits

  abbrev pub LoopAlike : Option (Logger A) → Option (Logger B) → Type 0
  LoopAlike none r = r ≡ none
  LoopAlike (some m) r = (us : List B) × (r ≡ some (with_sinks m us)) × AllRelated m.sinks us

-- The second kind of sink behaves as the first does.
pub record Simulates {A B : Type 0} (first : LogSink A) (second : LogSink B) (R : A → B → Type 0)
    : Type 0 where
  pub writes :
      (batch : Batch) (a : A) (b : B)
      → R a b
      → Alike R (first.write_batch batch a) (second.write_batch batch b)
  pub flushes : (a : A) (b : B) → R a b → Alike R (first.flush a) (second.flush b)

module _ {A B : Type 0} (R : A → B → Type 0) where
  pub each-AllAlike :
      (call : Run A (Unit {0})) (call' : Run B (Unit {0})) (ss : List A) (bs : List B)
      → ((a : A) (b : B) → R a b → Alike R (call a) (call' b))
      → AllRelated R ss bs
      → AllAlike R (for_each call ss) (for_each call' bs)
  unfolding for_each
  each-AllAlike call call' [] [] h rs = ([], refl, tt)
  each-AllAlike call call' [] (b ∷ bs) h rs = absurd rs
  each-AllAlike call call' (a ∷ ss) [] h rs = absurd rs
  each-AllAlike call call' (a ∷ ss) (b ∷ bs) h (r, rs) =
      step (call a) (call' b) (for_each call ss) (for_each call' bs) (h a b r)
        (each-AllAlike call call' ss bs h rs)
    where
      step :
          (x : Outcome (Unit {0}) × A) (y : Outcome (Unit {0}) × B)
          (rest : Outcome (Unit {0}) × List A) (rest' : Outcome (Unit {0}) × List B)
          → Alike R x y
          → AllAlike R rest rest'
          → AllAlike R (each_after x ss rest) (each_after y bs rest')
      step (ok u, s) y (o, ss') rest' (t, e, k) (bs', f, ks) = (t ∷ bs', rw (e, f) refl, (k, ks))
      step (threw x, s) y (o, ss') rest' (t, e, k) (bs', f, ks) = (t ∷ bs, rw e refl, (k, rs))
      step (unfinished, s) y (o, ss') rest' (t, e, k) (bs', f, ks) = (t ∷ bs, rw e refl, (k, rs))
