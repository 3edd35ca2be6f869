-- ===== src/Benchmark/Producers/Turned.antt =====
-- What one turn of a producer does to the group's counters and to what the producer has sent.
use cpp_logger.Base.{
  ℕ, suc, ◌+◌, ◌≤◌, ◌<◌, ◌≡◌, ◌≢◌, refl, Bool, true, false, Option, none, some, arith,
  if◌then◌else◌,
}
use cpp_logger.Base.Outcome.{Failure}
use cpp_logger.Benchmark.Producers.Places.{
  arrived, prepared, completed, turns_left, Fits, GoesOn, GoesOn-refl,
}
use cpp_logger.Benchmark.Producers.{
  Place, preparing, arriving, at_start, submitting, completing, at_release, Worker, ProducerGroup,
  or_first, record_worker_failure,
}

-- The turn took the producer from `p` to `u.place`, and the group from `g` to `h`.
pub record Turned (g : ProducerGroup) (sent : ℕ) (p : Place) (u : Worker) (h : ProducerGroup)
    : Type 0 where
  pub threads : h.thread_count ≡ g.thread_count
  pub main : h.main ≡ g.main
  pub starts : h.start_workers ≡ g.start_workers
  pub releases : h.release_workers ≡ g.release_workers
  pub ready : h.ready_workers + arrived p ≡ g.ready_workers + arrived u.place
  pub prepares : h.prepared + prepared p ≡ g.prepared + prepared u.place
  pub done : h.completed_workers + completed p ≡ g.completed_workers + completed u.place
  pub arrives : arrived p ≤ arrived u.place
  pub completes : completed p ≤ completed u.place
  pub calm : completed p ≡ 1 → h.worker_failure ≡ g.worker_failure
  pub goes_on : GoesOn g h
  pub fits : Fits g p sent → Fits h u.place u.sent
  pub fewer : turns_left g.messages_per_thread u.place < turns_left g.messages_per_thread p

pub has_failure : (o : Option Failure) (e : Failure) → or_first o e ≢ none
has_failure none e h = cc
has_failure (some f) e h = cc

records-GoesOn : (g : ProducerGroup) (e : Failure) → GoesOn g (record_worker_failure g e)
unfolding record_worker_failure
records-GoesOn g e = record {
  messages = refl;
  failure = λ n. absurd (has_failure g.worker_failure e n);
  started = λ s. s;
  released = λ s. s;
}

-- A turn that leaves the group, and one that records a failure.
pub stays :
    (g : ProducerGroup) (sent : ℕ) (p : Place) (u : Worker)
    → prepared u.place ≡ prepared p
    → arrived u.place ≡ arrived p
    → completed u.place ≡ completed p
    → (Fits g p sent → Fits g u.place u.sent)
    → turns_left g.messages_per_thread u.place < turns_left g.messages_per_thread p
    → Turned g sent p u g
stays g sent p u b a c f l = record {
  threads = refl;
  main = refl;
  starts = refl;
  releases = refl;
  prepares = omega (arith, b);
  ready = omega (arith, a);
  done = omega (arith, c);
  arrives = omega (arith, a);
  completes = omega (arith, c);
  calm = λ d. refl;
  goes_on = GoesOn-refl g;
  fits = f;
  fewer = l;
}

pub fails :
    (g : ProducerGroup) (e : Failure) (sent : ℕ) (p : Place) (u : Worker)
    → prepared u.place ≡ prepared p
    → arrived u.place ≡ arrived p
    → completed u.place ≡ completed p
    → completed p ≡ 0
    → (Fits g p sent → Fits (record_worker_failure g e) u.place u.sent)
    → turns_left g.messages_per_thread u.place < turns_left g.messages_per_thread p
    → Turned g sent p u (record_worker_failure g e)
unfolding record_worker_failure
fails g e sent p u b a c z f l = record {
  threads = refl;
  main = refl;
  starts = refl;
  releases = refl;
  prepares = omega (arith, b);
  ready = omega (arith, a);
  done = omega (arith, c);
  arrives = omega (arith, a);
  completes = omega (arith, c);
  calm = λ d. absurd (omega (arith, d, z));
  goes_on = records-GoesOn g e;
  fits = f;
  fewer = l;
}

-- The end of `prepare_`.
pub prepared-Turned :
    (g : ProducerGroup) (sent : ℕ)
    → Turned g sent preparing
        (record { place = arriving true; sent = sent })
        (record g { prepared = suc g.prepared })
prepared-Turned g sent = record {
  threads = refl;
  main = refl;
  starts = refl;
  releases = refl;
  prepares = omega arith;
  ready = omega arith;
  done = omega arith;
  arrives = omega arith;
  completes = omega arith;
  calm = λ d. refl;
  goes_on = record { messages = refl; failure = λ n. n; started = λ s. s; released = λ s. s };
  fits = λ f. (f, λ e. cc);
  fewer = omega arith;
}

pub unprepared-Turned :
    (g : ProducerGroup) (e : Failure) (sent : ℕ)
    → Turned g sent preparing
        (record { place = arriving false; sent = sent })
        (record (record_worker_failure g e) { prepared = suc g.prepared })
unfolding record_worker_failure
unprepared-Turned g e sent = record {
  threads = refl;
  main = refl;
  starts = refl;
  releases = refl;
  prepares = omega arith;
  ready = omega arith;
  done = omega arith;
  arrives = omega arith;
  completes = omega arith;
  calm = λ d. cc;
  goes_on = record {
    messages = refl;
    failure = λ n. absurd (has_failure g.worker_failure e n);
    started = λ s. s;
    released = λ s. s;
  };
  fits = λ f. (f, λ c. has_failure g.worker_failure e);
  fewer = omega arith;
}

pub arriving-Turned :
    (g : ProducerGroup) (sent : ℕ) (c : Bool)
    → Turned g sent
        (arriving c)
        (record { place = at_start c; sent = sent })
        (record g { ready_workers = suc g.ready_workers })
arriving-Turned g sent c = record {
  threads = refl;
  main = refl;
  starts = refl;
  releases = refl;
  prepares = omega arith;
  ready = omega arith;
  done = omega arith;
  arrives = omega arith;
  completes = omega arith;
  calm = λ d. refl;
  goes_on = record { messages = refl; failure = λ n. n; started = λ s. s; released = λ s. s };
  fits = λ f. f;
  fewer = omega arith;
}

pub completing-Turned :
    (g : ProducerGroup) (sent : ℕ)
    → Turned g sent completing
        (record { place = at_release; sent = sent })
        (record g { completed_workers = suc g.completed_workers })
completing-Turned g sent = record {
  threads = refl;
  main = refl;
  starts = refl;
  releases = refl;
  prepares = omega arith;
  ready = omega arith;
  done = omega arith;
  arrives = omega arith;
  completes = omega arith;
  calm = λ d. refl;
  goes_on = record { messages = refl; failure = λ n. n; started = λ s. s; released = λ s. s };
  fits = λ f. f;
  fewer = omega arith;
}

pub start-Turned :
    (g : ProducerGroup) (sent : ℕ) (c : Bool)
    → g.start_workers ≡ true
    → Turned g sent
        (at_start c)
        (record { place = if c then submitting g.messages_per_thread else completing; sent = sent })
        g
start-Turned g sent true s =
    stays g sent (at_start true) _ refl refl refl (λ f. (omega (arith, f.0), s)) (omega arith)
start-Turned g sent false s =
    stays g sent (at_start false) _ refl refl refl
      (λ f. (λ n. absurd (f.1 refl n), omega (arith, f.0), s)) (omega arith)
