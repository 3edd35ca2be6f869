-- ===== src/Queue/Handed.antt =====
-- What consumers got in a history, and what a push cannot change about it.
use cpp_logger.Base.{
  ℕ, zero, suc, not, ◌||◌, Bool-cases, ◌≤◌, ◌≡◌, ◌⊎◌, inl, inr, refl, ap, Bool, true, false, List,
  [], ◌∷◌, ◌++◌, map, arith,
}
use cpp_logger.Queue.{
  BlockingQueue, enqueued, dropped_newest, dropped_oldest, closed, Push, Pop, push, push_waiting,
  pop_batch_for, take_batch, is_empty,
}
use cpp_logger.Queue.History.{
  Trace, Exit, handed, evicted, value, evictions, pushes, resumes, after_push, pushed, front, step,
}

module _ {ℓ} {A : Type ℓ} where
  abbrev pub handed_values : List (Exit A) → List A
  handed_values [] = []
  handed_values (handed x ∷ es) = x ∷ handed_values es
  handed_values (evicted x ∷ es) = handed_values es

  pub handed_values-append :
      (es fs : List (Exit A)) → handed_values (es ++ fs) ≡ handed_values es ++ handed_values fs
  handed_values-append [] fs = refl
  handed_values-append (handed x ∷ es) fs = ap (◌∷◌ x) (handed_values-append es fs)
  handed_values-append (evicted x ∷ es) fs = handed_values-append es fs

  pub handed_values-handed : (xs : List A) → handed_values (map handed xs) ≡ xs
  handed_values-handed [] = refl
  handed_values-handed (x ∷ xs) = ap (◌∷◌ x) (handed_values-handed xs)

  -- Without an eviction everything that left was handed over.
  pub map-value-handed : (es : List (Exit A)) → evictions es ≡ 0 → map value es ≡ handed_values es
  map-value-handed [] h = refl
  map-value-handed (handed x ∷ es) h = ap (◌∷◌ x) (map-value-handed es h)
  map-value-handed (evicted x ∷ es) h = absurd (omega arith)

  handed_values-front :
      (es : List (Exit A)) (xs : List A) → handed_values (es ++ front xs) ≡ handed_values es
  unfolding front
  handed_values-front [] [] = refl
  handed_values-front [] (x ∷ xs) = refl
  handed_values-front (handed e ∷ es) xs = ap (◌∷◌ e) (handed_values-front es xs)
  handed_values-front (evicted e ∷ es) xs = handed_values-front es xs

  -- A push hands nothing over, and accepts its own value or none.
  pub after_push-handed :
      (t : Trace A) (v : A) (p : Push A)
      → (handed_values (after_push t v p).left ≡ handed_values t.left)
        × (((after_push t v p).accepted ≡ t.accepted)
            ⊎ ((after_push t v p).accepted ≡ t.accepted ++ (v ∷ [])))
  unfolding after_push pushed
  after_push-handed t v (Push.returns q enqueued x) = (refl, inr refl)
  after_push-handed t v (Push.returns q dropped_newest x) = (refl, inl refl)
  after_push-handed t v (Push.returns q dropped_oldest x) =
      (handed_values-front t.left t.queue.items, inr refl)
  after_push-handed t v (Push.returns q closed x) = (refl, inl refl)
  after_push-handed t v Push.waits = (refl, inl refl)
  after_push-handed t v Push.undefined = (refl, inl refl)

  -- A closed queue stays as it is.
  pub push-closed :
      (t : Trace A) (g : ℕ) (v : A)
      → t.queue.is_closed ≡ true
      → (step t (pushes g v)).queue ≡ t.queue
  unfolding step after_push pushed push
  push-closed t g v h = rw h refl

  pub resume-closed :
      (t : Trace A) (g : ℕ) (v : A)
      → t.queue.is_closed ≡ true
      → (step t (resumes g v)).queue ≡ t.queue
  unfolding step after_push pushed push_waiting
  resume-closed t g v h = rw h refl

  -- A batch that is not there: the queue is as it was, and unless the time was up it is closed and
  -- empty.
  abbrev pub Missed : BlockingQueue A → ℕ → Bool → Pop A (List A × Bool) → Type ℓ
  Missed q n timed_out (Pop.returns (xs, true) r x) = Unit
  Missed q n timed_out (Pop.returns (xs, false) r x) =
      (xs ≡ []) × (r ≡ q) × (timed_out ≡ false → 1 ≤ n → (q.items ≡ []) × (q.is_closed ≡ true))
  Missed q n timed_out Pop.waits = Unit

  take_batch-Missed :
      (q : BlockingQueue A) (n : ℕ) (timed_out : Bool) (xs : List A)
      → q.items ≡ xs
      → (q.is_closed || not (is_empty xs)) ≡ true
      → Missed q (suc n) timed_out (take_batch q (suc n) xs)
  unfolding take_batch is_empty
  take_batch-Missed q n timed_out [] e may = (refl, refl, λ h k. (e, ground arith))
  take_batch-Missed q n timed_out (x ∷ rest) e may = tt

  pub pop_batch_for-Missed :
      (q : BlockingQueue A) (n : ℕ) (timed_out : Bool)
      → Missed q n timed_out (pop_batch_for q n timed_out)
  unfolding pop_batch_for
  pop_batch_for-Missed q zero timed_out = (refl, refl, λ h k. absurd (omega arith))
  pop_batch_for-Missed q (suc n) timed_out =
      elim (Bool-cases (q.is_closed || not (is_empty q.items))) [
        | inl may ↦ rw may (take_batch-Missed q n timed_out q.items refl may)
        | inr waits ↦ elim (Bool-cases timed_out) [
          | inl over ↦ rw (waits, over) (refl, refl, λ h k. cc)
          | inr early ↦ rw (waits, early) tt
        ]
      ]
