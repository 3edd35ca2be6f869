-- ===== src/Benchmark/Producers/Start.antt =====
-- What the common start and a normal return of `start` promise.
use mathlib.Core.Path.{subst}
use cpp_logger.Base.{
  ℕ, zero, suc, ◌*◌, ◌≤◌, ◌≡◌, ◌⊎◌, inl, inr, refl, sym, ap, ◌∙◌, true, none, List, [], ◌∷◌, arith,
  length,
}
use cpp_logger.Benchmark.Producers.{
  Place, preparing, arriving, at_start, submitting, completing, at_release, ended, Worker, timing,
  launch_threw, failure_thrown, Main, launching, launch_failed, at_ready, at_completion, checking,
  returned, failing, joining, over, ProducerGroup, Reach,
}
use cpp_logger.Benchmark.Producers.Places.{Fits}
use cpp_logger.Benchmark.Producers.Counts.{
  sent_of, completed_of, AllFit, AllSent, AllFit-AllSent, AllSent-sum, prepared_of-between,
}
use cpp_logger.Benchmark.Producers.Invariant.{Started, AtPlace, Inv}
use cpp_logger.Benchmark.Producers.Reached.{Reach-Inv}
use cpp_logger.Benchmark.Producers.Fixed.{Reach-options}

-- A thread could not be launched.
abbrev pub LaunchFailed : Main → Type 0
LaunchFailed launch_failed = Unit
LaunchFailed (joining launch_threw) = Unit
LaunchFailed (over launch_threw) = Unit
LaunchFailed _ = ⊥

-- A message is sent behind the start only.
sent-started :
    (g : ProducerGroup) (p : Place) (sent : ℕ) → Fits g p sent → 1 ≤ sent → g.start_workers ≡ true
sent-started g preparing sent f h = absurd (omega (arith, f, h))
sent-started g (arriving c) sent f h = absurd (omega (arith, f.0, h))
sent-started g (at_start c) sent f h = absurd (omega (arith, f.0, h))
sent-started g (submitting k) sent f h = f.1
sent-started g completing sent f h = f.2
sent-started g at_release sent f h = f.2
sent-started g ended sent f h = f.2

none_or_some : (k : ℕ) → (k ≡ 0) ⊎ (1 ≤ k)
none_or_some zero = inl refl
none_or_some (suc k) = inr (omega arith)

some-started :
    (g : ProducerGroup) (ws : List Worker) → AllFit g ws → 1 ≤ sent_of ws → g.start_workers ≡ true
some-started g [] a h = absurd (omega (arith, h))
some-started g (w ∷ ws) a h = elim (none_or_some w.sent) [
  | inl none_sent ↦ some-started g ws a.1 (omega (arith, none_sent, h))
  | inr sent ↦ sent-started g w.place w.sent a.0 sent
]

AtPlace-Started :
    (g : ProducerGroup) (m : Main)
    → AtPlace g m
    → g.start_workers ≡ true
    → Started g ⊎ LaunchFailed m
AtPlace-Started g launching p on = cc
AtPlace-Started g launch_failed p on = inr tt
AtPlace-Started g at_ready p on = let off = p.0 in cc
AtPlace-Started g at_completion p on = inl p
AtPlace-Started g checking p on = inl p.0
AtPlace-Started g returned p on = inl p.0
AtPlace-Started g (failing e) p on = inl p.0
AtPlace-Started g (joining timing) p on = inl p.0.0
AtPlace-Started g (joining launch_threw) p on = inr tt
AtPlace-Started g (joining (failure_thrown e)) p on = inl p.0.0
AtPlace-Started g (over timing) p on = inl p.0.0
AtPlace-Started g (over launch_threw) p on = inr tt
AtPlace-Started g (over (failure_thrown e)) p on = inl p.0.0

-- The common start of a benchmark's producers: when the first message has been submitted, all
-- `threadCount` threads have been launched, all of them have counted themselves ready, and as many calls
-- of `prepare_` have come to an end, so that none runs beside a submission; unless a thread could not be
-- launched, in which case `start` throws.
pub sent-ready :
    {threads messages n : ℕ} {g : ProducerGroup}
    → Reach threads messages n g
    → 1 ≤ sent_of g.workers
    → ((length g.workers ≡ threads) × (g.ready_workers ≡ threads) × (g.prepared ≡ threads))
      ⊎ LaunchFailed g.main
sent-ready {g = g} r h =
    let i : Inv g = Reach-Inv r in
    let n = (Reach-options r).0 in
    elim (AtPlace-Started g g.main i.at_place (some-started g g.workers i.fit h)) [
      | inl (on, l, k) ↦
          let (low, high) = prepared_of-between g.workers in
          inl (l ∙ n, k ∙ n, omega (arith, l, k, n, low, high, i.ready, i.prepares))
      | inr f ↦ inr f
    ]

-- If `start` returns, then each of the `threadCount` threads has submitted exactly `messagesPerThread`
-- messages, as many as `makeRunContext` counts as attempted, and no callback threw.
pub returned-AllSent :
    {threads messages n : ℕ} {g : ProducerGroup}
    → Reach threads messages n g
    → g.main ≡ returned
    → (length g.workers ≡ threads)
      × AllSent messages g.workers
      × (sent_of g.workers ≡ threads * messages)
      × (g.worker_failure ≡ none)
returned-AllSent {messages = messages} {g = g} r e =
    let i : Inv g = Reach-Inv r in
    let ((on, l, k), d, calm) = subst (AtPlace g) e i.at_place in
    let (n, m) = Reach-options r in
    let all : completed_of g.workers ≡ length g.workers = sym i.done ∙ d ∙ sym l in
    let sent : AllSent messages g.workers =
      subst (λ k. AllSent k g.workers) m (AllFit-AllSent g g.workers i.fit all calm) in
    (l ∙ n, sent, AllSent-sum messages g.workers sent ∙ ap (λ k. k * messages) (l ∙ n), calm)
