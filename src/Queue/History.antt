-- ===== src/Queue/History.antt =====
-- Histories of a queue: the calls that its clients make, in the order in which they take the mutex,
-- with what went in and what came out.
use cpp_logger.Base.{ℕ, suc, ◌+◌, Bool, Option, none, some, List, [], ◌∷◌, ◌++◌, map}
use cpp_logger.Queue.{
  BlockingQueue, OverflowPolicy, QueuePushResult, enqueued, dropped_newest, dropped_oldest, closed,
  Push, Pop, push, push_waiting, pop, pop_batch_for, close, reset,
}

-- One turn with the mutex. `pushes` begins a push, `resumes` goes on with one that had waited, and
-- `batches` is `popBatchFor` (`popBatch` when the time is never up).
pub data Call {ℓ} (A : Type ℓ) : Type ℓ where
  pushes : ℕ → A → Call A
  resumes : ℕ → A → Call A
  pops : Call A
  batches : ℕ → Bool → Call A
  closes : Call A
  resets : ℕ → OverflowPolicy → Call A

-- How a value left the queue: to a consumer, or removed by `DropOldest`.
pub data Exit {ℓ} (A : Type ℓ) : Type ℓ where
  handed : A → Exit A
  evicted : A → Exit A

abbrev pub value {ℓ} : {A : Type ℓ} → Exit A → A
value (handed x) = x
value (evicted x) = x

-- What happened since the last reset. `accepted` are the values that entered the queue and `left`
-- those that left it, both oldest first; `refused` counts the values that `DropNewest` turned away.
pub record Trace {ℓ} (A : Type ℓ) : Type ℓ where
  pub queue : BlockingQueue A
  pub accepted : List A
  pub left : List (Exit A)
  pub refused : ℕ

module _ {ℓ} {A : Type ℓ} where
  abbrev pub evictions : List (Exit A) → ℕ
  evictions [] = 0
  evictions (handed x ∷ es) = evictions es
  evictions (evicted x ∷ es) = suc (evictions es)

  abbrev pub deliveries : List (Exit A) → ℕ
  deliveries [] = 0
  deliveries (handed x ∷ es) = suc (deliveries es)
  deliveries (evicted x ∷ es) = deliveries es

  unfoldable pub front : List A → List (Exit A)
  front [] = []
  front (x ∷ rest) = evicted x ∷ []

  -- A push that came back with a result, seen from outside.
  unfoldable pub pushed : Trace A → A → BlockingQueue A → QueuePushResult → Trace A
  unfolding front
  pushed t v q enqueued = record t { queue = q; accepted = t.accepted ++ (v ∷ []) }
  pushed t v q dropped_newest = record t { queue = q; refused = t.refused + 1 }
  pushed t v q dropped_oldest = record t {
    queue = q;
    accepted = t.accepted ++ (v ∷ []);
    left = t.left ++ front t.queue.items;
  }
  pushed t v q closed = record t { queue = q }

  unfoldable pub after_push : Trace A → A → Push A → Trace A
  unfolding pushed
  after_push t v (Push.returns q r s) = pushed t v q r
  after_push t v Push.waits = t
  after_push t v Push.undefined = t

  unfoldable pub popped : Trace A → Pop A (Option A) → Trace A
  popped t (Pop.returns (some x) q s) = record t { queue = q; left = t.left ++ (handed x ∷ []) }
  popped t (Pop.returns none q s) = record t { queue = q }
  popped t Pop.waits = t

  unfoldable pub batched : Trace A → Pop A (List A × Bool) → Trace A
  batched t (Pop.returns (xs, b) q s) = record t { queue = q; left = t.left ++ map handed xs }
  batched t Pop.waits = t

  unfoldable pub start : BlockingQueue A → Trace A
  start q = record { queue = q; accepted = q.items; left = []; refused = 0 }

  unfoldable pub step : Trace A → Call A → Trace A
  unfolding after_push popped batched start
  step t (pushes g v) = after_push t v (push t.queue g v)
  step t (resumes g v) = after_push t v (push_waiting t.queue g v)
  step t pops = popped t (pop t.queue)
  step t (batches n timed_out) = batched t (pop_batch_for t.queue n timed_out)
  step t closes = record t { queue = close t.queue }
  step t (resets capacity policy) = start (reset t.queue capacity policy)

  unfoldable pub run : Trace A → List (Call A) → Trace A
  run t [] = t
  run t (c ∷ cs) = run (step t c) cs
