-- ===== src/Queue/Batch.antt =====
-- The loop of `popBatchImpl`, and a batch against single pops.
use cpp_logger.Base.{
  ℕ, zero, suc, ◌≡◌, ◌≢◌, ◌≤◌, refl, true, false, Bool, if◌then◌else◌, List, [], ◌∷◌, ◌++◌,
  append-nil, append_assoc, some, arith, take, drop,
}
use cpp_logger.Queue.{
  BlockingQueue, Pop, drain, pop, pop_batch, take_batch, notify_all, quiet, pop_batch_for,
}

module _ {ℓ} {A : Type ℓ} where
  pub drain_lem :
      (values : List A) (n : ℕ) (items : List A)
      → drain values n items ≡ (values ++ take n items, drop n items)
  unfolding drain
  drain_lem values zero items = rw append-nil
  drain_lem values (suc n) [] = rw append-nil
  drain_lem values (suc n) (x ∷ rest) =
      rw (drain_lem (values ++ (x ∷ [])) n rest, append_assoc values (x ∷ []) (take n rest))

  -- Up to `n` calls of `pop`, stopped where one would wait or finds the queue closed and empty.
  pub pop_many : ℕ → BlockingQueue A → List A × BlockingQueue A
  pop_many zero q = ([], q)
  pop_many (suc n) q = elim (pop q) [
    | Pop.returns (some x) q' s ↦ let r = pop_many n q' in (x ∷ r.0, r.1)
    | _ ↦ ([], q)
  ]

  pop_many_lem :
      (n : ℕ) (q : BlockingQueue A) (xs : List A)
      → q.items ≡ xs
      → pop_many n q ≡ (take n xs, record q { items = drop n xs })
  unfolding pop_many pop
  pop_many_lem zero q xs e = ground arith
  pop_many_lem (suc n) q [] e = ground arith
  pop_many_lem (suc n) q (x ∷ rest) e =
      ground (arith, pop_many_lem n (record q { items = rest }) rest refl)

  -- On a queue with items, `popBatch` for `n ≥ 1` returns the values that up to `n` calls of `pop`
  -- return one by one, leaves the queue that they leave, and notifies all waiting producers.
  pub pop_batch-pop_many :
      (q : BlockingQueue A) (n : ℕ)
      → 1 ≤ n
      → q.items ≢ []
      → pop_batch q n ≡ Pop.returns ((pop_many n q).0, true) (pop_many n q).1 notify_all
  unfolding pop_batch take_batch
  pop_batch-pop_many q zero le h = absurd (omega arith)
  pop_batch-pop_many q (suc n) le h = rw (pop_many_lem (suc n) q q.items refl) (go q.items refl)
    where
      go :
          (xs : List A)
          → q.items ≡ xs
          → pop_batch q (suc n)
            ≡ Pop.returns
                (take (suc n) q.items, true)
                (record q { items = drop (suc n) q.items })
                notify_all
      go [] e = absurd (h e)
      go (x ∷ rest) e = ground (arith, drain_lem [] (suc n) (x ∷ rest))

  -- A batch from a queue with items, waiting or with a timeout.
  pub batch_cons :
      (q : BlockingQueue A) (n : ℕ) (timed_out periodic : Bool) (x : A) (rest : List A)
      → q.items ≡ x ∷ rest
      → 1 ≤ n
      → (if periodic then pop_batch_for q n timed_out else pop_batch q n)
        ≡ Pop.returns (take n (x ∷ rest), true) (record q { items = drop n (x ∷ rest) }) notify_all
  unfolding pop_batch pop_batch_for take_batch
  batch_cons q zero timed_out periodic x rest e h = absurd (omega arith)
  batch_cons q (suc n) timed_out true x rest e h = ground (arith, drain_lem [] (suc n) (x ∷ rest))
  batch_cons q (suc n) timed_out false x rest e h = ground (arith, drain_lem [] (suc n) (x ∷ rest))

  pub batch_closed :
      (q : BlockingQueue A) (n : ℕ) (timed_out periodic : Bool)
      → q.items ≡ []
      → q.is_closed ≡ true
      → (if periodic then pop_batch_for q n timed_out else pop_batch q n)
        ≡ Pop.returns ([], false) q quiet
  unfolding pop_batch pop_batch_for take_batch
  batch_closed q zero timed_out true e h = refl
  batch_closed q zero timed_out false e h = refl
  batch_closed q (suc n) timed_out true e h = ground arith
  batch_closed q (suc n) timed_out false e h = ground arith
