-- ===== src/Benchmark/Producers/Worked.antt =====
-- A producer's turn keeps the invariant.
use mathlib.Core.Path.{subst}
use cpp_logger.Base.{ℕ, ◌+◌, ◌≡◌, refl, sym, ap, ◌∙◌, true, List, ◌∷◌, ◌++◌, arith, length}
use cpp_logger.Benchmark.Producers.{Worker, ProducerGroup}
use cpp_logger.Benchmark.Producers.Places.{arrived, prepared, completed, GoesOn}
use cpp_logger.Benchmark.Producers.Counts.{
  arrived_of, prepared_of, completed_of, sum_of, sum_of-middle, length-middle, arrived_of-length,
  completed_of-length, completed-among, AllFit, GoesOn-AllFit, AllFit-replace,
}
use cpp_logger.Benchmark.Producers.Turned.{Turned}
use cpp_logger.Benchmark.Producers.Invariant.{AtPlace, Inv, Onward, Onward-AtPlace}

-- The counters after a producer's turn.
counts :
    (f : Worker → ℕ) (before : List Worker) (w u : Worker) (after : List Worker) (c d : ℕ)
    → c ≡ sum_of f (before ++ (w ∷ after))
    → d + f w ≡ c + f u
    → d ≡ sum_of f (before ++ (u ∷ after))
counts f before w u after c d e h =
    omega (arith, e, h, sum_of-middle f before w after, sum_of-middle f before u after)

-- The flags as they were.
pub same_flags :
    (g t : ProducerGroup)
    → t.messages_per_thread ≡ g.messages_per_thread
    → t.worker_failure ≡ g.worker_failure
    → (g.start_workers ≡ true → t.start_workers ≡ true)
    → (g.release_workers ≡ true → t.release_workers ≡ true)
    → GoesOn g t
same_flags g t m f s r = record {
  messages = m;
  failure = λ n. sym f ∙ n;
  started = s;
  released = r;
}

pub works-Inv :
    (g : ProducerGroup) (before : List Worker) (w : Worker) (after : List Worker) (u : Worker)
    (h : ProducerGroup)
    → Inv g
    → g.workers ≡ before ++ (w ∷ after)
    → Turned g w.sent w.place u h
    → Inv (record h { workers = before ++ (u ∷ after) })
works-Inv g before w after u h i e k =
    let t : ProducerGroup = record h { workers = before ++ (u ∷ after) } in
    let ready : t.ready_workers ≡ arrived_of t.workers =
      counts (λ x. arrived x.place) before w u after g.ready_workers h.ready_workers
        (i.ready ∙ ap arrived_of e) k.ready in
    let prepares : t.prepared ≡ prepared_of t.workers =
      counts (λ x. prepared x.place) before w u after g.prepared h.prepared
        (i.prepares ∙ ap prepared_of e) k.prepares in
    let done : t.completed_workers ≡ completed_of t.workers =
      counts (λ x. completed x.place) before w u after g.completed_workers h.completed_workers
        (i.done ∙ ap completed_of e) k.done in
    let same : length t.workers ≡ length g.workers = omega (
      arith,
      length-middle before w after,
      length-middle before u after,
      ap (λ (ws : List Worker). length ws) e,
    ) in
    let o : Onward g t = record {
      threads = k.threads;
      starts = k.starts;
      releases = k.releases;
      same_length = same;
      more_ready = omega (arith, k.ready, k.arrives);
      more_done = omega (arith, k.done, k.completes);
      ready_bound = omega (arith, ready, arrived_of-length t.workers);
      done_bound = omega (arith, done, completed_of-length t.workers);
      calm = λ all. k.calm (
          completed-among before w after
            (sym (i.done ∙ ap completed_of e) ∙ all ∙ ap (λ (ws : List Worker). length ws) e));
    } in
    record {
      ready = ready;
      prepares = prepares;
      done = done;
      fit =
          GoesOn-AllFit h t t.workers (same_flags h t refl refl (λ s. s) (λ r. r))
            (AllFit-replace g h before w u after k.goes_on k.fits (subst (AllFit g) e i.fit));
      few = omega (arith, same, i.few, k.threads);
      at_place = subst (AtPlace t) (sym k.main) (Onward-AtPlace g t g.main o i.at_place);
    }
