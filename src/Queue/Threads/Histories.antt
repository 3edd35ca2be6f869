-- ===== src/Queue/Threads/Histories.antt =====
-- The threads' interleavings are histories: what is proved of every history holds under threads.
use mathlib.Core.Path.{subst}
use cpp_logger.Base.{ℕ, suc, ◌≡◌, refl, sym, ap, ◌∙◌, Bool, List, [], ◌∷◌, ◌++◌, Option, some, none}
use cpp_logger.Queue.{
  BlockingQueue, Push, Pop, new, push, push_waiting, pop, pop_batch_for, close, reset, enqueued,
  dropped_newest, dropped_oldest, closed,
}
use cpp_logger.Queue.History.{Trace, Call, after_push, popped, batched, step, run}
use cpp_logger.Queue.History
use cpp_logger.Queue.Invariant.{IsValid, new-IsValid, run-IsValid}
use cpp_logger.Queue.Threads.{
  Take, single, batch, System, ends_push, ends_take, take_turn, Step, pushes, resumes, takes,
  retakes, wakes_producer, wakes_consumer, closes, resets, Reach, start, later,
}

module _ {ℓ} {A : Type ℓ} where
  ends_push-queue :
      (s : System A) (t : Trace A) (g : ℕ) (v : A) (p : Push A)
      → s.queue ≡ t.queue
      → (ends_push s g v p).queue ≡ (after_push t v p).queue
  unfolding ends_push after_push
  ends_push-queue s t g v (Push.returns q enqueued x) e = refl
  ends_push-queue s t g v (Push.returns q dropped_newest x) e = refl
  ends_push-queue s t g v (Push.returns q dropped_oldest x) e = refl
  ends_push-queue s t g v (Push.returns q closed x) e = refl
  ends_push-queue s t g v Push.waits e = e
  ends_push-queue s t g v Push.undefined e = e

  ends_pop-queue :
      (s : System A) (t : Trace A) (k : Take) (p : Pop A (Option A))
      → s.queue ≡ t.queue
      → (ends_take s k p).queue ≡ (popped t p).queue
  unfolding ends_take popped
  ends_pop-queue s t k (Pop.returns (some r) q x) e = refl
  ends_pop-queue s t k (Pop.returns none q x) e = refl
  ends_pop-queue s t k Pop.waits e = e

  ends_batch-queue :
      (s : System A) (t : Trace A) (k : Take) (p : Pop A (List A × Bool))
      → s.queue ≡ t.queue
      → (ends_take s k p).queue ≡ (batched t p).queue
  unfolding ends_take batched
  ends_batch-queue s t k (Pop.returns (xs, b) q x) e = refl
  ends_batch-queue s t k Pop.waits e = e

  -- The queue after a step is the queue after some calls.
  abbrev Follows : Trace A → BlockingQueue A → Type ℓ
  Follows t q = (cs : List (Call A)) × (q ≡ (run t cs).queue)

  take_turn-Follows :
      (s : System A) (t : Trace A) (k : Take) (timed_out : Bool)
      → s.queue ≡ t.queue
      → Follows t (take_turn s k timed_out).queue
  unfolding take_turn run step
  take_turn-Follows s t single timed_out e = (
    Call.pops ∷ [],
    ends_pop-queue s t single (pop s.queue) e ∙ ap (λ q. (popped t (pop q)).queue) e,
  )
  take_turn-Follows s t (batch n) timed_out e = (
    Call.batches (suc n) timed_out ∷ [],
    ends_batch-queue s t (batch n) (pop_batch_for s.queue (suc n) timed_out) e
        ∙ ap (λ q. (batched t (pop_batch_for q (suc n) timed_out)).queue) e,
  )

  Step-Follows : {s u : System A} (t : Trace A) → Step s u → s.queue ≡ t.queue → Follows t u.queue
  unfolding run step
  Step-Follows {s} t (pushes g v f) e = (
    Call.pushes g v ∷ [],
    rw f (
        ends_push-queue s t g v (push s.queue g v) e
        ∙ ap (λ q. (after_push t v (push q g v)).queue) e),
  )
  Step-Follows {s} t (resumes before g v after h f) e = (
    Call.resumes g v ∷ [],
    rw f (
        ends_push-queue _ t g v (push_waiting s.queue g v) e
        ∙ ap (λ q. (after_push t v (push_waiting q g v)).queue) e),
  )
  Step-Follows {s} t (takes k timed_out f) e = rw f (take_turn-Follows s t k timed_out e)
  Step-Follows {s} t (retakes before k after timed_out h f) e =
      rw f (take_turn-Follows _ t k timed_out e)
  Step-Follows t (wakes_producer c w f) e = ([], rw f e)
  Step-Follows t (wakes_consumer c w f) e = ([], rw f e)
  Step-Follows t (closes f) e = (Call.closes ∷ [], rw f (ap close e))
  Step-Follows t (resets capacity policy f) e =
      (Call.resets capacity policy ∷ [], rw f (ap (λ q. reset q capacity policy) e))

  run-append : (t : Trace A) (cs ds : List (Call A)) → run t (cs ++ ds) ≡ run (run t cs) ds
  unfolding run
  run-append t [] ds = refl
  run-append t (c ∷ cs) ds = run-append (step t c) cs ds

  -- In every reachable state of the threads, the queue is the one that some history of calls makes of
  -- a new queue.
  pub Reach-history :
      {s : System A}
      → Reach s
      → (cs : List (Call A)) × (s.queue ≡ (run (History.start new) cs).queue)
  unfolding run History.start
  Reach-history start = ([], refl)
  Reach-history (later r st) =
      let (cs, e) = Reach-history r in
      let (ds, f) = Step-Follows (run (History.start new) cs) st e in
      (cs ++ ds, f ∙ ap (λ t. t.queue) (sym (run-append (History.start new) cs ds)))

  -- So the threads' queue is valid too.
  pub Reach-IsValid : {s : System A} → Reach s → IsValid s.queue
  unfolding History.start
  Reach-IsValid r =
      let (cs, e) = Reach-history r in subst IsValid (sym e) (run-IsValid _ cs new-IsValid)
