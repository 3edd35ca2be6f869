-- ===== src/Queue/Outcomes.antt =====
-- What a push has done to the queue, by what it returns.
use cpp_logger.Base.{ℕ, ◌≤◌, ◌<◌, ◌≡◌, refl, true, false, List, [], ◌∷◌, ◌++◌, arith, length}
use cpp_logger.Queue.{
  BlockingQueue, QueuePushResult, enqueued, dropped_newest, dropped_oldest, closed, is_block,
  is_drop_newest, Push, push, push_waiting, replace_oldest, emplace_locked,
}

module _ {A : Type 0} where
  -- The capacity and the policy as they were, and the queue still open.
  pub record Stays (q r : BlockingQueue A) : Type 0 where
    pub was_open : q.is_closed ≡ false
    pub is_open : r.is_closed ≡ false
    pub capacity : r.capacity ≡ q.capacity
    pub policy : r.overflow_policy ≡ q.overflow_policy

  pub record Replaced (q r : BlockingQueue A) (v : A) : Type 0 where
    pub oldest : A
    pub rest : List A
    pub held : q.items ≡ oldest ∷ rest
    pub holds : r.items ≡ rest ++ (v ∷ [])
    pub full : q.capacity ≤ length q.items
    pub waits_not : is_block q.overflow_policy ≡ false
    pub keeps_not : is_drop_newest q.overflow_policy ≡ false
    pub stays : Stays q r

  abbrev pub Answered : BlockingQueue A → A → BlockingQueue A → QueuePushResult → Type 0
  Answered q v r enqueued =
      (r.items ≡ q.items ++ (v ∷ [])) × (length q.items < q.capacity) × Stays q r
  Answered q v r dropped_newest =
      (r.items ≡ q.items)
      × (q.capacity ≤ length q.items)
      × (is_drop_newest q.overflow_policy ≡ true)
      × Stays q r
  Answered q v r dropped_oldest = Replaced q r v
  Answered q v r closed = r ≡ q

  abbrev pub Answers : BlockingQueue A → A → Push A → Type 0
  Answers q v (Push.returns r result signal) = Answered q v r result
  Answers q v Push.waits = q ≡ q
  Answers q v Push.undefined = q ≡ q

  pub push_waiting-Answers :
      (q : BlockingQueue A) (g : ℕ) (v : A) → Answers q v (push_waiting q g v)
  unfolding push_waiting emplace_locked
  push_waiting-Answers q g v = ground arith

  replace_oldest-Answers :
      (q : BlockingQueue A) (xs : List A) (v : A)
      → q.items ≡ xs
      → q.is_closed ≡ false
      → q.capacity ≤ length q.items
      → is_block q.overflow_policy ≡ false
      → is_drop_newest q.overflow_policy ≡ false
      → Answers q v (replace_oldest q xs v)
  unfolding replace_oldest emplace_locked
  replace_oldest-Answers q [] v e o f b n = refl
  replace_oldest-Answers q (x ∷ rest) v e o f b n = record {
    oldest = x;
    rest = rest;
    held = e;
    holds = refl;
    full = f;
    waits_not = b;
    keeps_not = n;
    stays = record { was_open = o; is_open = o; capacity = refl; policy = refl };
  }

  pub push-Answers : (q : BlockingQueue A) (g : ℕ) (v : A) → Answers q v (push q g v)
  unfolding push emplace_locked
  push-Answers q g v =
      ground (arith, push_waiting-Answers q g v, replace_oldest-Answers q q.items v refl)
