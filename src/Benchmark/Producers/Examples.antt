-- ===== src/Benchmark/Producers/Examples.antt =====
-- One producer with one message, up to the return of `start`.
use cpp_logger.Base.{
  ℕ, suc, ◌+◌, ◌*◌, ◌≤◌, ◌≡◌, ◌⊎◌, refl, Bool, true, false, none, some, [], ◌∷◌, arith, length,
}
use cpp_logger.Base.Outcome.{custom}
use cpp_logger.Benchmark.Producers.{
  Place, preparing, arriving, at_start, submitting, completing, at_release, Worker, Main, launching,
  at_ready, at_completion, checking, returned, launch_failed, ProducerGroup, new_group, worker_turn,
  record_worker_failure, main_turn, Step, works, leads, Reach, start, later,
}
use cpp_logger.Benchmark.Producers.Counts.{sent_of, AllSent}
use cpp_logger.Benchmark.Producers.Start.{LaunchFailed, sent-ready, returned-AllSent}
use cpp_logger.Benchmark.Producers.Notices.{Condition, predicate, wakes, notice_of}
use cpp_logger.Benchmark.Producers.Told.{step-wakes}
use cpp_logger.Benchmark.Producers.Ends.{HasNext, Reach-ends}

-- The group with its producer at a place.
abbrev with_one : Place → (sent prepared ready completed : ℕ) → Bool → Main → ProducerGroup
with_one place sent prepared ready completed started main = record {
  thread_count = 1;
  messages_per_thread = 1;
  workers = record { place = place; sent = sent } ∷ [];
  prepared = prepared;
  ready_workers = ready;
  start_workers = started;
  completed_workers = completed;
  release_workers = false;
  worker_failure = none;
  main = main;
}

-- A failing `prepare_` is recorded once.
first_failure :
    worker_turn (some custom) (with_one preparing 0 0 0 0 false at_ready) 0 preparing
    ≡ some (
      record { place = arriving false; sent = 0 },
      record (with_one preparing 0 0 0 0 false at_ready) {
        worker_failure = some custom;
        prepared = 1;
      },
    )
unfolding worker_turn record_worker_failure
first_failure = refl

-- No thread is launched after one could not be.
launch_fails :
    main_turn false (new_group 2 1) launching
    ≡ some (record (new_group 2 1) { start_workers = true; main = launch_failed })
unfolding main_turn new_group
launch_fails = refl

abbrev sent_group : ProducerGroup
sent_group = with_one (submitting 0) 1 1 1 0 true at_completion

abbrev returned_group : ProducerGroup
returned_group = with_one at_release 1 1 1 1 true returned

-- A turn of the only producer.
one_turn :
    {n : ℕ} {g : ProducerGroup}
    → Reach 1 1 n g
    → (w u : Worker) (h : ProducerGroup) → g.workers ≡ w ∷ []
    → worker_turn none g w.sent w.place ≡ some (u, h)
    → Reach 1 1 (suc n) (record h { workers = u ∷ [] })
one_turn r w u h e f = later r (works [] w [] none u h e f refl)

one_lead :
    {n : ℕ} {g : ProducerGroup}
    → Reach 1 1 n g
    → (t : ProducerGroup) → main_turn true g g.main ≡ some t
    → Reach 1 1 (suc n) t
one_lead r t e = later r (leads true e)

waiting-Reach : Reach 1 1 4 (with_one (at_start true) 0 1 1 0 false at_ready)
unfolding new_group worker_turn main_turn
waiting-Reach =
    let launched = one_lead start (with_one preparing 0 0 0 0 false launching) refl in
    let all_launched = one_lead launched (with_one preparing 0 0 0 0 false at_ready) refl in
    let prepared =
      one_turn all_launched (record { place = preparing; sent = 0 })
        (record { place = arriving true; sent = 0 })
        (record (with_one preparing 0 0 0 0 false at_ready) { prepared = 1 }) refl refl in
    one_turn prepared (record { place = arriving true; sent = 0 })
      (record { place = at_start true; sent = 0 }) (with_one (arriving true) 0 1 1 0 false at_ready)
      refl refl

sent-Reach : Reach 1 1 7 sent_group
unfolding worker_turn main_turn
sent-Reach =
    let started =
      one_lead waiting-Reach (with_one (at_start true) 0 1 1 0 true at_completion) refl in
    let passed =
      one_turn started (record { place = at_start true; sent = 0 })
        (record { place = submitting 1; sent = 0 })
        (with_one (at_start true) 0 1 1 0 true at_completion) refl refl in
    one_turn passed (record { place = submitting 1; sent = 0 })
      (record { place = submitting 0; sent = 1 })
      (with_one (submitting 1) 0 1 1 0 true at_completion) refl refl

returned-Reach : Reach 1 1 11 returned_group
unfolding worker_turn main_turn
returned-Reach =
    let left =
      one_turn sent-Reach (record { place = submitting 0; sent = 1 })
        (record { place = completing; sent = 1 }) sent_group refl refl in
    let done =
      one_turn left (record { place = completing; sent = 1 })
        (record { place = at_release; sent = 1 }) (with_one completing 1 1 1 1 true at_completion)
        refl refl in
    let seen = one_lead done (with_one at_release 1 1 1 1 true checking) refl in
    one_lead seen returned_group refl

sent-ready_example :
    ((length sent_group.workers ≡ 1) × (sent_group.ready_workers ≡ 1) × (sent_group.prepared ≡ 1))
    ⊎ LaunchFailed at_completion
sent-ready_example = sent-ready sent-Reach (omega arith)

returned-AllSent_example :
    (length returned_group.workers ≡ 1)
    × AllSent 1 returned_group.workers
    × (sent_of returned_group.workers ≡ 1 * 1)
    × (returned_group.worker_failure ≡ none)
returned-AllSent_example = returned-AllSent returned-Reach refl

Reach-ends_example : (11 ≤ 1 * (1 + 8) + 8) × HasNext returned_group
Reach-ends_example = Reach-ends returned-Reach

-- The only producer comes to the start, where the leader waits for it.
abbrev arriving_group : ProducerGroup
arriving_group = with_one (arriving true) 0 1 0 0 false at_ready

arriving-Step : Step arriving_group (with_one (at_start true) 0 1 1 0 false at_ready)
unfolding worker_turn
arriving-Step =
    works [] (record { place = arriving true; sent = 0 }) [] none
      (record { place = at_start true; sent = 0 }) (with_one (arriving true) 0 1 1 0 false at_ready)
      refl refl refl

step-wakes_example : wakes Condition.ready (notice_of arriving-Step) ≡ true
unfolding predicate
step-wakes_example = step-wakes arriving-Step Condition.ready refl refl
