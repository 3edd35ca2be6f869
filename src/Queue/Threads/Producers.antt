-- ===== src/Queue/Threads/Producers.antt =====
-- The producers that wait on `notFull_`: what each step keeps of them.
use mathlib.Core.Path.{subst, sym}
use cpp_logger.Base.{
  ℕ, suc, ◌+◌, ◌≤◌, ◌≡◌, ◌⊎◌, inl, inr, refl, Bool, true, false, List, [], ◌∷◌, ◌++◌, arith, ◌==◌,
  if◌then◌else◌, length, length-append, ap, Bool-cases, ltb, leb,
}
use cpp_logger.Queue.{
  BlockingQueue, Push, Pop, push, push_waiting, replace_oldest, pop, pop_front, pop_batch_for,
  take_batch, refuses, is_block, is_drop_newest,
}
use cpp_logger.Queue.Threads.Condition.{
  CondVar, Wakes, woken_one, lost_one, woken_all, spurious, signal, sleep, live,
}

module _ {ℓ} {A : Type ℓ} where
  live-append : (g : ℕ) (xs ys : List (ℕ × A)) → live g (xs ++ ys) ≡ live g xs + live g ys
  live-append g [] ys = omega arith
  live-append g ((k, v) ∷ xs) ys = ground (arith, live-append g xs ys)

  -- Every producer that sleeps expects generation `g`.
  abbrev pub AllCurrent : ℕ → List (ℕ × A) → Type 0
  AllCurrent g [] = Unit
  AllCurrent g ((k, v) ∷ ws) = (k ≡ g) × AllCurrent g ws

  AllCurrent-remove :
      (g : ℕ) (xs ys : List (ℕ × A)) (w : ℕ × A)
      → AllCurrent g (xs ++ (w ∷ ys))
      → (w.0 ≡ g) × AllCurrent g (xs ++ ys)
  AllCurrent-remove g [] ys (k, v) h = h
  AllCurrent-remove g ((k, v) ∷ xs) ys w h =
      let r : (w.0 ≡ g) × AllCurrent g (xs ++ ys) = AllCurrent-remove g xs ys w h.1 in
      (r.0, (h.0, r.1))

  -- If a producer sleeps, a `notify_all` is pending, or the queue is open and there are at least as
  -- many pending `notify_one`, woken producers of the generation and `more` as free places.
  abbrev pub FullCovered : BlockingQueue A → CondVar (ℕ × A) → ℕ → Type ℓ
  FullCovered q c more =
      (c.asleep ≡ [])
      ⊎ ((1 ≤ c.alls)
          ⊎ ((q.is_closed ≡ false)
              × (q.capacity ≤ length q.items + c.ones + live q.generation c.awake + more)))

  pub record ProducersOk (q : BlockingQueue A) (c : CondVar (ℕ × A)) : Type ℓ where
    pub current : AllCurrent q.generation c.asleep
    pub covered : FullCovered q c 0

  abbrev pub PushOk : BlockingQueue A → CondVar (ℕ × A) → ℕ → A → Push A → Type ℓ
  PushOk q c g v (Push.returns q' r s) = ProducersOk q' c
  PushOk q c g v Push.waits = ProducersOk q (sleep (g, v) c)
  PushOk q c g v Push.undefined = ProducersOk q c

  -- A producer with generation `g` that has the mutex may itself be one of those that cover a place.
  abbrev credit : BlockingQueue A → ℕ → ℕ
  credit q g = if g == q.generation then 1 else 0

  pub push_waiting-PushOk :
      (q : BlockingQueue A) (c : CondVar (ℕ × A)) (g : ℕ) (v : A)
      → AllCurrent q.generation c.asleep
      → FullCovered q c (credit q g)
      → PushOk q c g v (push_waiting q g v)
  unfolding push_waiting
  push_waiting-PushOk q c g v current h = elim (Bool-cases (refuses q g)) [
    | inl refused ↦ rw refused (record { current = current; covered = ground arith })
    | inr admits ↦ elim (Bool-cases (ltb (length q.items) q.capacity)) [
      | inl room ↦
          rw (admits, room)
            (record { current = current; covered = ground (arith, length-append q.items (v ∷ [])) })
      | inr full ↦
          rw (admits, full)
            (record {
              current = (ground arith, current);
              covered = inr (inr (ground arith, ground arith));
            })
    ]
  ]

  replace_oldest-PushOk :
      (q : BlockingQueue A) (c : CondVar (ℕ × A)) (g : ℕ) (v : A) (xs : List A)
      → q.items ≡ xs
      → ProducersOk q c
      → PushOk q c g v (replace_oldest q xs v)
  unfolding replace_oldest
  replace_oldest-PushOk q c g v [] e h = h
  replace_oldest-PushOk q c g v (x ∷ rest) e h = record {
    current = h.current;
    covered = ground (arith, h.covered, ap length e, length-append rest (v ∷ []));
  }

  push-block :
      (q : BlockingQueue A) (g : ℕ) (v : A)
      → refuses q g ≡ false
      → is_block q.overflow_policy ≡ true
      → push q g v ≡ push_waiting q g v
  unfolding push
  push-block q g v admits blocks = rw (admits, blocks, push_waiting)

  pub push-PushOk :
      (q : BlockingQueue A) (c : CondVar (ℕ × A)) (g : ℕ) (v : A)
      → ProducersOk q c
      → PushOk q c g v (push q g v)
  unfolding push
  push-PushOk q c g v h = elim (Bool-cases (refuses q g)) [
    | inl refused ↦ rw refused h
    | inr admits ↦ elim (Bool-cases (is_block q.overflow_policy)) [
      | inl blocks ↦
          subst (PushOk q c g v) (sym (push-block q g v admits blocks))
            (push_waiting-PushOk q c g v h.current (ground (arith, h.covered)))
      | inr unblocked ↦ elim (Bool-cases (leb q.capacity (length q.items))) [
        | inl full ↦ elim (Bool-cases (is_drop_newest q.overflow_policy)) [
          | inl newest ↦
              rw (admits, unblocked, full, newest)
                (record { current = h.current; covered = h.covered })
          | inr oldest ↦
              rw (admits, unblocked, full, oldest) (replace_oldest-PushOk q c g v q.items refl h)
        ]
        | inr room ↦
            rw (admits, unblocked, room)
              (record {
                current = h.current;
                covered = ground (arith, h.covered, length-append q.items (v ∷ []));
              })
      ]
    ]
  ]

  -- A woken producer takes the mutex and is no longer one of those who are on their way.
  pub resumed-FullCovered :
      (q : BlockingQueue A) (c : CondVar (ℕ × A)) (before : List (ℕ × A)) (g : ℕ) (v : A)
      (after : List (ℕ × A))
      → c.awake ≡ before ++ ((g, v) ∷ after)
      → FullCovered q c 0
      → FullCovered q (record c { awake = before ++ after }) (credit q g)
  resumed-FullCovered q c before g v after e h = ground (
    arith,
    ap (live q.generation) e,
    live-append q.generation before ((g, v) ∷ after),
    live-append q.generation before after,
  )

  abbrev pub TakeOk : {R : Type ℓ} → BlockingQueue A → CondVar (ℕ × A) → Pop A R → Type ℓ
  TakeOk q c (Pop.returns r q' s) = ProducersOk q' (signal s c)
  TakeOk q c Pop.waits = ProducersOk q c

  pop_front-TakeOk :
      (q : BlockingQueue A) (c : CondVar (ℕ × A)) (xs : List A)
      → q.items ≡ xs
      → ProducersOk q c
      → TakeOk q c (pop_front q xs)
  unfolding pop_front
  pop_front-TakeOk q c [] e h = h
  pop_front-TakeOk q c (x ∷ rest) e h = record {
    current = h.current;
    covered = ground (arith, h.covered, ap length e);
  }

  pub pop-TakeOk :
      (q : BlockingQueue A) (c : CondVar (ℕ × A)) → ProducersOk q c → TakeOk q c (pop q)
  unfolding pop
  pop-TakeOk q c h = ground (arith, pop_front-TakeOk q c q.items refl h)

  take_batch-TakeOk :
      (q : BlockingQueue A) (c : CondVar (ℕ × A)) (n : ℕ) (xs : List A)
      → ProducersOk q c
      → TakeOk q c (take_batch q n xs)
  unfolding take_batch
  take_batch-TakeOk q c n [] h = h
  take_batch-TakeOk q c n (x ∷ rest) h = record {
    current = h.current;
    covered = inr (inl (omega arith));
  }

  pub batch-TakeOk :
      (q : BlockingQueue A) (c : CondVar (ℕ × A)) (n : ℕ) (timed_out : Bool)
      → ProducersOk q c
      → TakeOk q c (pop_batch_for q (suc n) timed_out)
  unfolding pop_batch_for
  batch-TakeOk q c n timed_out h = ground (arith, take_batch-TakeOk q c (suc n) q.items h)

  pub Wakes-ProducersOk :
      (q : BlockingQueue A) (c d : CondVar (ℕ × A)) → Wakes c d → ProducersOk q c → ProducersOk q d
  Wakes-ProducersOk q c d (woken_one before (g, v) after pending e f) h =
      let r =
        AllCurrent-remove q.generation before after (g, v)
          (subst (AllCurrent q.generation) e h.current) in
      rw f (record {
        current = r.1;
        covered =
            ground (arith, h.covered, ap length e, length-append before ((g, v) ∷ after), r.0);
      })
  Wakes-ProducersOk q c d (lost_one pending e f) h =
      rw f (record { current = h.current; covered = inl e })
  Wakes-ProducersOk q c d (woken_all pending f) h =
      rw f (record { current = tt; covered = inl refl })
  Wakes-ProducersOk q c d (spurious before (g, v) after e f) h =
      let r =
        AllCurrent-remove q.generation before after (g, v)
          (subst (AllCurrent q.generation) e h.current) in
      rw f (record {
        current = r.1;
        covered =
            ground (arith, h.covered, ap length e, length-append before ((g, v) ∷ after), r.0);
      })
