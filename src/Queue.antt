-- ===== src/Queue.antt =====
-- include/BlockingQueue.h: the queue's state, and each member function as what it does from the
-- point where it holds the mutex up to its return or to a wait on a condition variable.
pub mod Batch
pub mod Fifo
pub mod Lifecycle
pub mod Policy
pub mod Lossless
pub mod Threads
pub mod History
pub mod Handed
pub mod Taken
pub mod Outcomes
mod Examples
pub mod Invariant
use cpp_logger.Base.{
  ℕ, zero, suc, ◌+◌, ◌%◌, Bool, true, false, not, ◌||◌, Option, none, some, List, [], ◌∷◌, ◌++◌,
  ltb, leb, ◌==◌, if◌then◌else◌, length, word_mod, size_max,
}

-- `other` is a value that is none of the enumerators, which a cast can make.
pub data OverflowPolicy : Type 0 where
  block drop_newest drop_oldest : OverflowPolicy
  other : ℕ → OverflowPolicy

pub data QueuePushResult : Type 0 where
  enqueued dropped_newest dropped_oldest closed : QueuePushResult

abbrev pub is_block : OverflowPolicy → Bool
is_block block = true
is_block _ = false

abbrev pub is_drop_newest : OverflowPolicy → Bool
is_drop_newest drop_newest = true
is_drop_newest _ = false

-- What a call does to a condition variable once it has released the mutex.
pub data Signal : Type 0 where
  quiet notify_one notify_all : Signal

-- The front of `std::queue` is the head of the list.
pub record BlockingQueue {ℓ} (A : Type ℓ) : Type ℓ where
  pub items : List A
  pub capacity : ℕ
  pub high_water_mark : ℕ
  pub generation : ℕ
  pub dropped_count : ℕ
  pub overflow_policy : OverflowPolicy
  pub is_closed : Bool

-- `push` returns its result, the queue and what it does to `notEmpty_`; or it waits on `notFull_`;
-- or it calls `queue_.pop()` on an empty queue, which has no defined behaviour.
pub data Push {ℓ} (A : Type ℓ) : Type ℓ where
  returns : BlockingQueue A → QueuePushResult → Signal → Push A
  waits : Push A
  undefined : Push A

-- `pop` and `popBatch` return a value, the queue and what they do to `notFull_`; or they wait on
-- `notEmpty_`.
pub data Pop {ℓ} (A : Type ℓ) (R : Type ℓ) : Type ℓ where
  returns : R → BlockingQueue A → Signal → Pop A R
  waits : Pop A R

-- `waitForData`: it returns a Boolean, or it waits on `notEmpty_`.
pub data Wait : Type 0 where
  woken : Bool → Wait
  sleeps : Wait

-- The member initialisers.
unfoldable pub new {ℓ} : {A : Type ℓ} → BlockingQueue A
new = record {
  items = [];
  capacity = size_max;
  high_water_mark = 0;
  generation = 0;
  dropped_count = 0;
  overflow_policy = block;
  is_closed = false;
}

module _ {ℓ} {A : Type ℓ} where
  unfoldable pub size : BlockingQueue A → ℕ
  size q = length q.items

  unfoldable pub peak_size : BlockingQueue A → ℕ
  peak_size q = q.high_water_mark

  unfoldable pub is_empty : List A → Bool
  is_empty [] = true
  is_empty (x ∷ xs) = false

  unfoldable pub empty : BlockingQueue A → Bool
  unfolding is_empty
  empty q = is_empty q.items

  unfoldable pub emplace_locked : BlockingQueue A → A → BlockingQueue A
  emplace_locked q v =
      let items : List A = q.items ++ (v ∷ []) in
      record q {
        items = items;
        high_water_mark =
            if ltb q.high_water_mark (length items) then length items else q.high_water_mark;
      }

  -- `closed_ || expectedGeneration != generation_`
  abbrev pub refuses : BlockingQueue A → ℕ → Bool
  refuses q expected = q.is_closed || not (expected == q.generation)

  -- The predicate of the wait on `notFull_`.
  abbrev pub may_push : BlockingQueue A → ℕ → Bool
  may_push q expected = refuses q expected || ltb (length q.items) q.capacity

  -- The wait on `notFull_` and what follows it. A producer that was woken goes on here.
  unfoldable pub push_waiting : BlockingQueue A → ℕ → A → Push A
  unfolding emplace_locked
  push_waiting q expected v =
      if may_push q expected
      then (if refuses q expected
          then Push.returns q closed quiet
          else Push.returns (emplace_locked q v) enqueued notify_one)
      else Push.waits

  -- `DropOldest` on a full queue: remove the front, count it, append the new value.
  unfoldable pub replace_oldest : BlockingQueue A → List A → A → Push A
  unfolding emplace_locked
  replace_oldest q [] v = Push.undefined
  replace_oldest q (x ∷ rest) v =
      Push.returns
        (emplace_locked
          (record q { items = rest; dropped_count = (q.dropped_count + 1) % word_mod }) v)
        dropped_oldest notify_one

  -- `pushLocked`, and so `push(expectedGeneration, value)`.
  unfoldable pub push : BlockingQueue A → ℕ → A → Push A
  unfolding push_waiting replace_oldest emplace_locked
  push q expected v =
      if refuses q expected
      then Push.returns q closed quiet
      else if is_block q.overflow_policy
      then push_waiting q expected v
      else if leb q.capacity (length q.items)
      then (if is_drop_newest q.overflow_policy
          then Push.returns (record q { dropped_count = (q.dropped_count + 1) % word_mod })
              dropped_newest quiet
          else replace_oldest q q.items v)
      else Push.returns (emplace_locked q v) enqueued notify_one

  -- `push(value)`: with the generation of the moment.
  unfoldable pub push_now : BlockingQueue A → A → Push A
  unfolding push
  push_now q v = push q q.generation v

  -- The predicate of the waits on `notEmpty_`.
  unfoldable pub may_pop : BlockingQueue A → Bool
  unfolding empty
  may_pop q = q.is_closed || not (empty q)

  -- `pop` after its wait.
  unfoldable pub pop_front : BlockingQueue A → List A → Pop A (Option A)
  pop_front q [] = Pop.returns none q quiet
  pop_front q (x ∷ rest) = Pop.returns (some x) (record q { items = rest }) notify_one

  unfoldable pub pop : BlockingQueue A → Pop A (Option A)
  unfolding may_pop pop_front
  pop q = if may_pop q then pop_front q q.items else Pop.waits

  -- The loop of `popBatchImpl`: `room` is `maxCount - index`.
  unfoldable pub drain : List A → ℕ → List A → List A × List A
  drain values zero items = (values, items)
  drain values (suc room) [] = (values, [])
  drain values (suc room) (x ∷ rest) = drain (values ++ (x ∷ [])) room rest

  -- `popBatchImpl` after its wait: `false` with no value, or `true` with a batch.
  unfoldable pub take_batch : BlockingQueue A → ℕ → List A → Pop A (List A × Bool)
  unfolding drain
  take_batch q max_count [] = Pop.returns ([], false) q quiet
  take_batch q max_count (x ∷ rest) =
      let (values, left) = drain [] max_count (x ∷ rest) in
      Pop.returns (values, true) (record q { items = left }) notify_all

  unfoldable pub pop_batch_impl : BlockingQueue A → ℕ → Wait → Pop A (List A × Bool)
  unfolding take_batch
  pop_batch_impl q zero wait = Pop.returns ([], false) q quiet
  pop_batch_impl q (suc n) (woken true) = take_batch q (suc n) q.items
  pop_batch_impl q (suc n) (woken false) = Pop.returns ([], false) q quiet
  pop_batch_impl q (suc n) sleeps = Pop.waits

  unfoldable pub pop_batch : BlockingQueue A → ℕ → Pop A (List A × Bool)
  unfolding pop_batch_impl may_pop
  pop_batch q max_count = pop_batch_impl q max_count (if may_pop q then woken true else sleeps)

  -- `wait_for` returns the predicate's value once it holds or the time is up.
  unfoldable pub pop_batch_for : BlockingQueue A → ℕ → Bool → Pop A (List A × Bool)
  unfolding pop_batch_impl may_pop
  pop_batch_for q max_count timed_out =
      pop_batch_impl q max_count
        (if may_pop q then woken true else if timed_out then woken false else sleeps)

  unfoldable pub close : BlockingQueue A → BlockingQueue A
  close q = record q { is_closed = true }

  unfoldable pub reset : BlockingQueue A → ℕ → OverflowPolicy → BlockingQueue A
  reset q capacity policy = record {
    items = [];
    capacity = if capacity == 0 then 1 else capacity;
    high_water_mark = 0;
    generation = (q.generation + 1) % word_mod;
    dropped_count = 0;
    overflow_policy = policy;
    is_closed = false;
  }

  unfoldable pub reset_unbounded : BlockingQueue A → BlockingQueue A
  unfolding reset
  reset_unbounded q = reset q size_max block
