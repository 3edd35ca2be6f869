-- ===== src/Queue/Taken.antt =====
-- What a turn with the mutex leaves of the closed flag, and what a batch takes.
use cpp_logger.Base.{
  ℕ, zero, suc, ◌≤◌, ◌≡◌, refl, inl, inr, Bool, true, false, not, ◌||◌, List, [], ◌∷◌, arith,
  length, take, drop, Bool-cases,
}
use cpp_logger.Queue.{
  BlockingQueue, Pop, push, push_waiting, replace_oldest, take_batch, is_empty, pop_batch_for,
}
use cpp_logger.Queue.Batch.{drain_lem}
use cpp_logger.Queue.History.{Trace, pushes, resumes, step, after_push}

module _ {ℓ} {A : Type ℓ} where
  replace_oldest-is_closed :
      (t : Trace A) (xs : List A) (v : A)
      → (after_push t v (replace_oldest t.queue xs v)).queue.is_closed ≡ t.queue.is_closed
  unfolding replace_oldest after_push
  replace_oldest-is_closed t [] v = refl
  replace_oldest-is_closed t (x ∷ rest) v = refl

  -- A push neither closes a queue nor opens it.
  pub resumes-is_closed :
      (t : Trace A) (g : ℕ) (v : A) → (step t (resumes g v)).queue.is_closed ≡ t.queue.is_closed
  unfolding step push_waiting after_push
  resumes-is_closed t g v = ground arith

  pub pushes-is_closed :
      (t : Trace A) (g : ℕ) (v : A) → (step t (pushes g v)).queue.is_closed ≡ t.queue.is_closed
  unfolding step push push_waiting after_push
  pushes-is_closed t g v =
      ground (arith, resumes-is_closed t g v, replace_oldest-is_closed t t.queue.items v)

  -- A batch is the first items, up to `n`; without a batch the queue is as it was; and only a queue
  -- that is open lets a consumer wait.
  abbrev pub Took : BlockingQueue A → ℕ → Pop A (List A × Bool) → Type ℓ
  Took q n (Pop.returns (xs, true) r x) =
      (xs ≡ take n q.items) × (r ≡ record q { items = drop n q.items }) × (1 ≤ length xs)
  Took q n (Pop.returns (xs, false) r x) = r ≡ q
  Took q n Pop.waits = q ≡ record q { is_closed = false }

  take_batch-Took :
      (q : BlockingQueue A) (n : ℕ) (xs : List A)
      → q.items ≡ xs
      → Took q (suc n) (take_batch q (suc n) xs)
  unfolding take_batch
  take_batch-Took q n [] e = refl
  take_batch-Took q n (x ∷ rest) e =
      rw (drain_lem [] (suc n) (x ∷ rest)) (rw e (refl, refl, omega arith))

  opens : (q : BlockingQueue A) → q.is_closed ≡ false → q ≡ record q { is_closed = false }
  opens q h = λ i. record q { is_closed = h i }

  pub pop_batch_for-Took :
      (q : BlockingQueue A) (n : ℕ) (timed_out : Bool) → Took q n (pop_batch_for q n timed_out)
  unfolding pop_batch_for
  pop_batch_for-Took q zero timed_out = refl
  pop_batch_for-Took q (suc n) timed_out =
      elim (Bool-cases (q.is_closed || not (is_empty q.items))) [
        | inl may ↦ rw may (take_batch-Took q n q.items refl)
        | inr waits ↦ elim (Bool-cases timed_out) [
          | inl over ↦ rw (waits, over) refl
          | inr early ↦ rw (waits, early) (opens q (ground arith))
        ]
      ]
