-- ===== src/Logger/Cycles.antt =====
-- The cycles of a logger: what `init` starts and what `stop` ends.
pub mod Stops
pub mod Succeeds
use cpp_logger.Base.{
  ℕ, ◌+◌, ◌%◌, ◌<◌, ◌≡◌, ◌≢◌, ◌⊎◌, inl, inr, refl, Bool, true, false, Option, none, some, List, [],
  arith, Bool-cases, Option-cases, word_mod,
}
use mathlib.Core.Path.{subst}
use cpp_logger.Queue.{Push, push, close, reset, closed, quiet}
use cpp_logger.Sink.{LogSink}
use cpp_logger.Logger.{
  LogLevel, level_code, LogRecord, LoggerConfig, Logger, Thread, absent, looping, finished,
}
use cpp_logger.Logger.Config.{rejects, non_null, IsAcceptable, rejects_iff}
use cpp_logger.Logger.Lifecycle.{
  Start, Init, refused, failed, started, close_sinks, new_sinks, configured, launch, init_sinks,
  init_joined, init_checked, init, log_begin, log_end,
}

module _ {S : Type 0} (sink : LogSink S) (st : Start S) (c : LoggerConfig S) where
  -- The sinks that `init` makes, after a check of the user's.
  abbrev Made : Option (List S) → Type 0
  Made sinks =
      (extra : List S) × (non_null c.additional_sinks ≡ some extra)
      × (new_sinks sink st c extra ≡ sinks)

  -- A cycle that `init` has started, seen from the logger before.
  pub record Begins (l m : Logger S) (released : List S) : Type 0 where
    pub stopped_before : l.running ≡ false
    pub acceptable : IsAcceptable c
    pub joined : l.worker ≢ looping
    pub running : m.running ≡ true
    pub worker : m.worker ≡ looping
    pub empty : m.queue.items ≡ []
    pub accepts : m.queue.is_closed ≡ false
    pub counts : m.queue.dropped_count ≡ 0
    pub capacity : m.queue.capacity ≡ c.queue_capacity
    pub policy : m.queue.overflow_policy ≡ c.overflow_policy
    pub batches : m.write_batch_size ≡ c.write_batch_size
    pub generation : m.queue.generation ≡ (l.queue.generation + 1) % word_mod
    pub level : m.min_level ≡ level_code c.min_level
    pub sinks : Made (some m.sinks)
    pub state : m ≡ record (configured sink (record l { worker = absent; sinks = [] }) c m.sinks) {
      running = true;
      worker = looping;
    }
    pub blank : m.cache.filled ≡ false
    pub lets_go : released ≡ close_sinks sink l.sinks

  abbrev Answers : Logger S → Init S → Type 0
  Answers l (started m r) = Begins l m r
  Answers l (failed m r) =
      (m.running ≡ false)
      × (m.worker ≡ absent)
      × (m.sinks ≡ [])
      × (((m.cache.filled ≡ false)
            × (m.queue ≡ close (reset l.queue c.queue_capacity c.overflow_policy)))
          ⊎ ((m.cache ≡ l.cache) × (m.queue ≡ l.queue)))
  Answers l refused = Unit
  Answers l Init.waits = Unit

  launch-Answers :
      (starts : Bool) (l : Logger S) (sinks : List S)
      → l.running ≡ false
      → IsAcceptable c
      → l.worker ≢ looping
      → Made (some sinks)
      → Answers l (
          launch sink starts
            (configured sink (record l { worker = absent; sinks = [] }) c sinks)
            (close_sinks sink l.sinks))
  unfolding launch configured reset
  launch-Answers true l sinks h ok join made = record {
    stopped_before = h;
    acceptable = ok;
    joined = join;
    running = refl;
    worker = refl;
    empty = refl;
    accepts = refl;
    counts = refl;
    capacity = ground (arith, ok.queues);
    policy = refl;
    batches = refl;
    generation = refl;
    level = refl;
    sinks = made;
    state = refl;
    blank = refl;
    lets_go = refl;
  }
  launch-Answers false l sinks h ok join made = (refl, refl, refl, inl (refl, refl))

  init_sinks-Answers :
      (l : Logger S) (sinks : Option (List S))
      → l.running ≡ false
      → IsAcceptable c
      → l.worker ≢ looping
      → Made sinks
      → Answers l (
          init_sinks sink st c
            (record l { worker = absent; sinks = [] })
            (close_sinks sink l.sinks)
            sinks)
  unfolding init_sinks
  init_sinks-Answers l none h ok join made = (h, refl, refl, inr (refl, refl))
  init_sinks-Answers l (some sinks) h ok join made =
      launch-Answers st.starts_thread l sinks h ok join made

  init_checked-Answers :
      (l : Logger S) (extra : List S) (t : Thread)
      → l.worker ≡ t
      → l.running ≡ false
      → IsAcceptable c
      → non_null c.additional_sinks ≡ some extra
      → Answers l (init_checked sink st c l extra t)
  unfolding init_checked init_joined
  init_checked-Answers l extra looping e h ok some_extra = tt
  init_checked-Answers l extra absent e h ok some_extra =
      init_sinks-Answers l (new_sinks sink st c extra) h ok (λ k. cc) (extra, some_extra, refl)
  init_checked-Answers l extra finished e h ok some_extra =
      init_sinks-Answers l (new_sinks sink st c extra) h ok (λ k. cc) (extra, some_extra, refl)

  init-Answers : (l : Logger S) → Answers l (init sink st c l)
  unfolding init
  init-Answers l = elim (Bool-cases (rejects l.running c)) [
    | inl bad ↦ rw bad tt
    | inr fine ↦
        let (h, ok) = (rejects_iff c l.running).0 fine in
        elim (Option-cases (non_null c.additional_sinks)) [
          | inl e ↦ rw (fine, e, init) tt
          | inr (extra, e) ↦ rw (fine, e, init) (init_checked-Answers l extra l.worker refl h ok e)
        ]
  ]

  pub init-Begins :
      (l m : Logger S) (released : List S)
      → init sink st c l ≡ started m released
      → Begins l m released
  init-Begins l m released e = subst (Answers l) e (init-Answers l)

  -- If `init` fails after its checks, the logger does not run, has no worker and holds no sink.
  pub init-failed :
      (l m : Logger S) (released : List S)
      → init sink st c l ≡ failed m released
      → (m.running ≡ false) × (m.worker ≡ absent) × (m.sinks ≡ [])
  init-failed l m released e = let h = subst (Answers l) e (init-Answers l) in (h.0, h.1, h.2)

  -- It has left the time cache and the queue as they were, or emptied the one, and reset and closed
  -- the other.
  pub failed-kept :
      (l m : Logger S) (released : List S)
      → init sink st c l ≡ failed m released
      → ((m.cache.filled ≡ false)
          × (m.queue ≡ close (reset l.queue c.queue_capacity c.overflow_policy)))
        ⊎ ((m.cache ≡ l.cache) × (m.queue ≡ l.queue))
  failed-kept l m released e = (subst (Answers l) e (init-Answers l)).3
