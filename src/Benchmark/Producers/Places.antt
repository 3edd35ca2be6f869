-- ===== src/Benchmark/Producers/Places.antt =====
-- The producers of a group by where they are.
use cpp_logger.Base.{ℕ, ◌+◌, ◌≤◌, ◌≡◌, ◌≢◌, refl, true, false, none, arith}
use cpp_logger.Benchmark.Producers.{
  Place, preparing, arriving, at_start, submitting, completing, at_release, ended, ProducerGroup,
}

-- One for a producer that `readyWorkers_` counts, and for one that `completedWorkers_` counts.
abbrev pub arrived : Place → ℕ
arrived preparing = 0
arrived (arriving c) = 0
arrived _ = 1

-- One for a producer whose call of `prepare_` has come to an end.
abbrev pub prepared : Place → ℕ
prepared preparing = 0
prepared _ = 1

abbrev pub completed : Place → ℕ
completed at_release = 1
completed ended = 1
completed _ = 0

-- The turns that a producer still has at most.
abbrev pub turns_left : ℕ → Place → ℕ
turns_left messages preparing = messages + 6
turns_left messages (arriving c) = messages + 5
turns_left messages (at_start c) = messages + 4
turns_left messages (submitting left) = left + 3
turns_left messages completing = 2
turns_left messages at_release = 1
turns_left messages ended = 0

-- What holds of a producer: of its messages it has sent those that are not left, all once it has left
-- the loop unless a failure was recorded; it is behind the start only if `startWorkers_` was set, and has
-- ended only if `releaseWorkers_` was.
abbrev pub Fits : ProducerGroup → Place → ℕ → Type 0
Fits g preparing sent = sent ≡ 0
Fits g (arriving c) sent = (sent ≡ 0) × (c ≡ false → g.worker_failure ≢ none)
Fits g (at_start c) sent = (sent ≡ 0) × (c ≡ false → g.worker_failure ≢ none)
Fits g (submitting left) sent = (sent + left ≡ g.messages_per_thread) × (g.start_workers ≡ true)
Fits g completing sent =
    (g.worker_failure ≡ none → sent ≡ g.messages_per_thread)
    × (sent ≤ g.messages_per_thread)
    × (g.start_workers ≡ true)
Fits g at_release sent =
    (g.worker_failure ≡ none → sent ≡ g.messages_per_thread)
    × (sent ≤ g.messages_per_thread)
    × (g.start_workers ≡ true)
Fits g ended sent =
    (g.worker_failure ≡ none → sent ≡ g.messages_per_thread)
    × (sent ≤ g.messages_per_thread)
    × (g.start_workers ≡ true)
    × (g.release_workers ≡ true)

-- A group that has gone on: the flags stay set, and a failure stays recorded.
pub record GoesOn (g h : ProducerGroup) : Type 0 where
  pub messages : h.messages_per_thread ≡ g.messages_per_thread
  pub failure : h.worker_failure ≡ none → g.worker_failure ≡ none
  pub started : g.start_workers ≡ true → h.start_workers ≡ true
  pub released : g.release_workers ≡ true → h.release_workers ≡ true

pub GoesOn-refl : (g : ProducerGroup) → GoesOn g g
GoesOn-refl g = record { messages = refl; failure = λ e. e; started = λ e. e; released = λ e. e }

pub GoesOn-Fits :
    (g h : ProducerGroup) (p : Place) (sent : ℕ) → GoesOn g h → Fits g p sent → Fits h p sent
GoesOn-Fits g h preparing sent k f = f
GoesOn-Fits g h (arriving c) sent k f = (f.0, λ e n. f.1 e (k.failure n))
GoesOn-Fits g h (at_start c) sent k f = (f.0, λ e n. f.1 e (k.failure n))
GoesOn-Fits g h (submitting left) sent k f = (omega (arith, f.0, k.messages), k.started f.1)
GoesOn-Fits g h completing sent k f = (
  λ n. omega (arith, f.0 (k.failure n), k.messages),
  omega (arith, f.1, k.messages),
  k.started f.2,
)
GoesOn-Fits g h at_release sent k f = (
  λ n. omega (arith, f.0 (k.failure n), k.messages),
  omega (arith, f.1, k.messages),
  k.started f.2,
)
GoesOn-Fits g h ended sent k f = (
  λ n. omega (arith, f.0 (k.failure n), k.messages),
  omega (arith, f.1, k.messages),
  k.started f.2,
  k.released f.3,
)
