-- ===== src/Logger/Spec.antt =====
-- What the logger is for its callers, without threads, generations and sinks: a bounded buffer of
-- records in front of a log. It is the specification that the threads of src/Logger.cpp implement.
use cpp_logger.Base.{ℕ, suc, ◌≤◌, ◌<◌, ◌≡◌, Bool, true, false, List, [], ◌∷◌, ◌++◌, length}
use cpp_logger.Queue.{OverflowPolicy, is_block, is_drop_newest}
use cpp_logger.Logger.{LogRecord}

-- The records that wait, those that are being written, those that have been written, and the number
-- of records that the policy has given up.
pub record Log : Type 0 where
  pub waiting : List LogRecord
  pub in_hand : List LogRecord
  pub written : List LogRecord
  pub lost : ℕ
  pub is_closed : Bool
  pub capacity : ℕ
  pub policy : OverflowPolicy

-- What can happen to a log. A record comes in if there is room; else `DropNewest` gives it up, and
-- `DropOldest` gives up the oldest that waits; `Block` gives up none. Closed, it takes nothing in.
pub data Does (a b : Log) : Type 0 where
  nothing : b ≡ a → Does a b
  accepts :
      (r : LogRecord)
      → a.is_closed ≡ false
      → length a.waiting < a.capacity
      → b ≡ record a { waiting = a.waiting ++ (r ∷ []) }
      → Does a b
  drops_newest :
      a.is_closed ≡ false
      → a.capacity ≤ length a.waiting
      → is_drop_newest a.policy ≡ true
      → b ≡ record a { lost = suc a.lost }
      → Does a b
  drops_oldest :
      (oldest r : LogRecord) (rest : List LogRecord)
      → a.is_closed ≡ false
      → a.capacity ≤ length a.waiting
      → is_block a.policy ≡ false
      → is_drop_newest a.policy ≡ false
      → a.waiting ≡ oldest ∷ rest
      → b ≡ record a { waiting = rest ++ (r ∷ []); lost = suc a.lost }
      → Does a b
  hands :
      (batch rest : List LogRecord)
      → a.in_hand ≡ []
      → a.waiting ≡ batch ++ rest
      → b ≡ record a { waiting = rest; in_hand = batch }
      → Does a b
  writes : b ≡ record a { written = a.written ++ a.in_hand; in_hand = [] } → Does a b
  closes : b ≡ record a { is_closed = true } → Does a b

-- Two logs with the same parts.
pub Log-eq :
    (a b : Log)
    → a.waiting ≡ b.waiting
    → a.in_hand ≡ b.in_hand
    → a.written ≡ b.written
    → a.lost ≡ b.lost
    → a.is_closed ≡ b.is_closed
    → a.capacity ≡ b.capacity
    → a.policy ≡ b.policy
    → a ≡ b
Log-eq a b w h d l c n p = λ i. record {
  waiting = w i;
  in_hand = h i;
  written = d i;
  lost = l i;
  is_closed = c i;
  capacity = n i;
  policy = p i;
}
