-- ===== src/Queue/Policy.antt =====
-- What each overflow policy promises.
use cpp_logger.Base.{
  ℕ, zero, suc, ◌+◌, ◌-◌, ◌%◌, ◌≤◌, ◌<◌, ◌≡◌, refl, sym, ap, false, List, [], ◌∷◌, ◌++◌, arith,
  length, take, drop, word_mod, length-append, Bool-cases, inl, inr, leb, ◌⊎◌,
}
use cpp_logger.Queue.{
  BlockingQueue, OverflowPolicy, block, drop_newest, drop_oldest, other, is_block, is_drop_newest,
  Push, push, replace_oldest, refuses, enqueued, dropped_newest, dropped_oldest, emplace_locked,
  QueuePushResult, Signal,
}
use cpp_logger.Queue.Invariant.{IsValid}

module _ {ℓ} {A : Type ℓ} where
  -- What a full queue keeps of its items and one more: the oldest, or the newest.
  abbrev pub kept : OverflowPolicy → ℕ → List A → List A
  kept drop_newest capacity xs = take capacity xs
  kept _ capacity xs = drop (length xs - capacity) xs

  take_all : (n : ℕ) (xs : List A) → length xs ≤ n → take n xs ≡ xs
  take_all zero [] h = refl
  take_all zero (x ∷ xs) h = absurd (omega arith)
  take_all (suc n) [] h = refl
  take_all (suc n) (x ∷ xs) h = ap (◌∷◌ x) (take_all n xs (omega arith))

  take-append_front : (n : ℕ) (xs ys : List A) → length xs ≡ n → take n (xs ++ ys) ≡ xs
  take-append_front zero [] ys h = refl
  take-append_front zero (x ∷ xs) ys h = absurd (omega arith)
  take-append_front (suc n) [] ys h = absurd (omega arith)
  take-append_front (suc n) (x ∷ xs) ys h = ap (◌∷◌ x) (take-append_front n xs ys (omega arith))

  drop_none : (n : ℕ) (xs : List A) → n ≡ 0 → drop n xs ≡ xs
  drop_none zero xs h = refl
  drop_none (suc n) xs h = absurd (omega arith)

  kept_room : (p : OverflowPolicy) (n : ℕ) (xs : List A) → length xs ≤ n → kept p n xs ≡ xs
  kept_room drop_newest n xs h = take_all n xs h
  kept_room block n xs h = drop_none (length xs - n) xs (omega arith)
  kept_room drop_oldest n xs h = drop_none (length xs - n) xs (omega arith)
  kept_room (other k) n xs h = drop_none (length xs - n) xs (omega arith)

  drop_one : (n : ℕ) (x : A) (xs : List A) → n ≡ 1 → drop n (x ∷ xs) ≡ xs
  drop_one zero x xs h = absurd (omega arith)
  drop_one (suc n) x xs h = drop_none n xs (omega arith)

  -- A push that the policy decides at once: what it returns.
  pub record Decided (q : BlockingQueue A) (v : A) (p : Push A) : Type ℓ where
    pub after : BlockingQueue A
    pub result : QueuePushResult
    pub signal : Signal
    pub returned : p ≡ Push.returns after result signal
    pub holds : after.items ≡ kept q.overflow_policy q.capacity (q.items ++ (v ∷ []))
    pub counts :
        after.dropped_count
        ≡ (q.dropped_count + (length q.items + 1 - length after.items)) % word_mod

  enqueued-Decided :
      (q : BlockingQueue A) (v : A)
      → IsValid q
      → length q.items < q.capacity
      → Decided q v (Push.returns (emplace_locked q v) enqueued Signal.notify_one)
  unfolding emplace_locked
  enqueued-Decided q v h room = record {
    after = emplace_locked q v;
    result = enqueued;
    signal = Signal.notify_one;
    returned = refl;
    holds = sym (
        kept_room q.overflow_policy q.capacity (q.items ++ (v ∷ []))
          (omega (arith, length-append q.items (v ∷ []))));
    counts = omega (arith, length-append q.items (v ∷ []), h.count_fits);
  }

  newest-Decided :
      (q : BlockingQueue A) (v : A)
      → IsValid q
      → q.capacity ≤ length q.items
      → q.overflow_policy ≡ drop_newest
      → Decided q v (
          Push.returns
            (record q { dropped_count = (q.dropped_count + 1) % word_mod })
            dropped_newest
            Signal.quiet)
  newest-Decided q v h full e = record {
    after = record q { dropped_count = (q.dropped_count + 1) % word_mod };
    result = dropped_newest;
    signal = Signal.quiet;
    returned = refl;
    holds = rw e (sym (take-append_front q.capacity q.items (v ∷ []) (omega (arith, h.bounded))));
    counts = omega arith;
  }

  oldest-Decided :
      (q : BlockingQueue A) (v : A) (xs : List A)
      → q.items ≡ xs
      → IsValid q
      → q.capacity ≤ length q.items
      → ((n : ℕ) (ys : List A) → kept q.overflow_policy n ys ≡ drop (length ys - n) ys)
      → Decided q v (replace_oldest q xs v)
  unfolding replace_oldest emplace_locked
  oldest-Decided q v [] e h full k = absurd (omega (arith, h.positive, ap length e))
  oldest-Decided q v (x ∷ rest) e h full k = record {
    after = _;
    result = dropped_oldest;
    signal = Signal.notify_one;
    returned = refl;
    holds =
        rw (k, e)
          (sym (
            drop_one (length (x ∷ rest ++ (v ∷ [])) - q.capacity) x (rest ++ (v ∷ []))
              (omega (arith, length-append rest (v ∷ []), ap length e, h.bounded))));
    counts = omega (arith, length-append rest (v ∷ []), ap length e);
  }

  policy_cases :
      (p : OverflowPolicy)
      → (p ≡ drop_newest)
        ⊎ ((is_drop_newest p ≡ false)
            × ((n : ℕ) (ys : List A) → kept p n ys ≡ drop (length ys - n) ys))
  policy_cases drop_newest = inl refl
  policy_cases block = inr (refl, λ n ys. refl)
  policy_cases drop_oldest = inr (refl, λ n ys. refl)
  policy_cases (other k) = inr (refl, λ n ys. refl)

  -- A push of the current generation to an open queue whose policy is not `Block` returns at once.
  -- The queue then holds its items and the new one, cut to the capacity: `DropNewest` keeps the
  -- oldest of them, every other policy the newest; `droppedCount_` grows by the number cut off,
  -- modulo 2^64.
  pub push-kept :
      (q : BlockingQueue A) (g : ℕ) (v : A)
      → IsValid q
      → refuses q g ≡ false
      → is_block q.overflow_policy ≡ false
      → Decided q v (push q g v)
  unfolding push
  push-kept q g v h admits unblocked = elim (Bool-cases (leb q.capacity (length q.items))) [
    | inl full ↦ elim (policy_cases q.overflow_policy) [
      | inl e ↦
          rw (admits, unblocked, full, ap is_drop_newest e) (newest-Decided q v h (ground arith) e)
      | inr (e, k) ↦
          rw (admits, unblocked, full, e) (oldest-Decided q v q.items refl h (ground arith) k)
    ]
    | inr room ↦ rw (admits, unblocked, room) (enqueued-Decided q v h (ground arith))
  ]
