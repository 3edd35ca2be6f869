-- ===== src/Benchmark/Producers/Ends.antt =====
-- A group of producers comes to an end.
use cpp_logger.Base.{
  ℕ, zero, suc, ◌+◌, ◌-◌, ◌*◌, ◌≤◌, ◌<◌, ◌≡◌, ◌≢◌, ◌⊎◌, inl, inr, refl, ap, ◌∙◌, Bool, true, false,
  none, some, List, [], ◌∷◌, ◌++◌, arith, length, ltb, ◌==◌, if◌then◌else◌, Bool-cases,
}
use cpp_logger.Benchmark.Producers.{
  Place, preparing, arriving, at_start, submitting, completing, at_release, ended, Worker, Result,
  timing, launch_threw, failure_thrown, Main, launching, launch_failed, at_ready, at_completion,
  checking, returned, failing, joining, over, ProducerGroup, new_group, worker_turn, main_turn,
  has_ended, all_ended, Step, works, leads, Reach, start, later,
}
use cpp_logger.Benchmark.Producers.Places.{arrived, completed}
use cpp_logger.Benchmark.Producers.Counts.{sum_of, arrived_of-length, completed_of-length}
use cpp_logger.Benchmark.Producers.Invariant.{Ended, AtPlace, Inv}
use cpp_logger.Benchmark.Producers.Reached.{Reach-Inv}
use cpp_logger.Benchmark.Producers.Fewer.{turns_of_group, step_fewer}

holds_if : {A : Type 0} (x y : A) (flag : Bool) → flag ≡ true → (if flag then x else y) ≡ x
holds_if x y true e = refl
holds_if x y false e = cc

lacks_if : {A : Type 0} (x y : A) (flag : Bool) → flag ≡ false → (if flag then x else y) ≡ y
lacks_if x y false e = refl
lacks_if x y true e = cc

-- A turn that is there.
abbrev HasTurn : ProducerGroup → ℕ → Place → Type 0
HasTurn g sent p = (u : Worker) × (h : ProducerGroup) × (worker_turn none g sent p ≡ some (u, h))

arriving-HasTurn : (g : ProducerGroup) (sent : ℕ) (p : Place) → arrived p ≡ 0 → HasTurn g sent p
unfolding worker_turn
arriving-HasTurn g sent preparing z = (_, _, refl)
arriving-HasTurn g sent (arriving c) z = (_, _, refl)
arriving-HasTurn g sent (at_start c) z = absurd (omega (arith, z))
arriving-HasTurn g sent (submitting k) z = absurd (omega (arith, z))
arriving-HasTurn g sent completing z = absurd (omega (arith, z))
arriving-HasTurn g sent at_release z = absurd (omega (arith, z))
arriving-HasTurn g sent ended z = absurd (omega (arith, z))

started-HasTurn :
    (g : ProducerGroup) (sent : ℕ) (p : Place)
    → g.start_workers ≡ true
    → completed p ≡ 0
    → HasTurn g sent p
unfolding worker_turn
started-HasTurn g sent preparing on z = (_, _, refl)
started-HasTurn g sent (arriving c) on z = (_, _, refl)
started-HasTurn g sent (at_start c) on z = (
  record { place = if c then submitting g.messages_per_thread else completing; sent = sent },
  g,
  holds_if _ none g.start_workers on,
)
started-HasTurn g sent (submitting zero) on z = (_, _, refl)
started-HasTurn g sent (submitting (suc k)) on z = (_, _, refl)
started-HasTurn g sent completing on z = (_, _, refl)
started-HasTurn g sent at_release on z = absurd (omega (arith, z))
started-HasTurn g sent ended on z = absurd (omega (arith, z))

released-HasTurn :
    (g : ProducerGroup) (sent : ℕ) (p : Place)
    → g.start_workers ≡ true
    → g.release_workers ≡ true
    → p ≢ ended
    → HasTurn g sent p
unfolding worker_turn
released-HasTurn g sent preparing on off z = started-HasTurn g sent preparing on refl
released-HasTurn g sent (arriving c) on off z = started-HasTurn g sent (arriving c) on refl
released-HasTurn g sent (at_start c) on off z = started-HasTurn g sent (at_start c) on refl
released-HasTurn g sent (submitting k) on off z = started-HasTurn g sent (submitting k) on refl
released-HasTurn g sent completing on off z = started-HasTurn g sent completing on refl
released-HasTurn g sent at_release on off z =
    (record { place = ended; sent = sent }, g, holds_if _ none g.release_workers off)
released-HasTurn g sent ended on off z = absurd (z refl)

-- One producer among them.
record Among (P : Worker → Type 0) (ws : List Worker) : Type 0 where
  before : List Worker
  one : Worker
  after : List Worker
  split : ws ≡ before ++ (one ∷ after)
  has : P one

Among-cons : (P : Worker → Type 0) (w : Worker) (ws : List Worker) → Among P ws → Among P (w ∷ ws)
Among-cons P w ws a = record {
  before = w ∷ a.before;
  one = a.one;
  after = a.after;
  split = ap (λ us. w ∷ us) a.split;
  has = a.has;
}

none_or_some : (k : ℕ) → (k ≡ 0) ⊎ (1 ≤ k)
none_or_some zero = inl refl
none_or_some (suc k) = inr (omega arith)

missing : (f : Worker → ℕ) (ws : List Worker) → sum_of f ws < length ws → Among (λ w. f w ≡ 0) ws
missing f [] h = absurd (omega (arith, h))
missing f (w ∷ ws) h = elim (none_or_some (f w)) [
  | inl z ↦ record { before = []; one = w; after = ws; split = refl; has = z }
  | inr some_of ↦ Among-cons (λ x. f x ≡ 0) w ws (missing f ws (omega (arith, h, some_of)))
]

alive : (ws : List Worker) → all_ended ws ≡ false → Among (λ w. w.place ≢ ended) ws
alive [] h = cc
alive (w ∷ ws) h = elim (Bool-cases (has_ended w.place)) [
  | inl gone ↦ Among-cons (λ x. x.place ≢ ended) w ws (alive ws (ground arith))
  | inr here ↦ record {
    before = [];
    one = w;
    after = ws;
    split = refl;
    has = λ e. let gone : has_ended w.place ≡ true = ap has_ended e in cc;
  }
]

-- The producer's turn as a step of the group.
turn-Step :
    (g : ProducerGroup) (P : Worker → Type 0)
    → ((w : Worker) → P w → HasTurn g w.sent w.place)
    → Among P g.workers
    → (t : ProducerGroup) × Step g t
turn-Step g P turns a =
    let (u, h, e) = turns a.one a.has in
    (
      record h { workers = a.before ++ (u ∷ a.after) },
      works a.before a.one a.after none u h a.split e refl,
    )

Ended-started : (g : ProducerGroup) (r : Result) → Ended g r → g.start_workers ≡ true
Ended-started g timing e = e.0.0
Ended-started g launch_threw e = e
Ended-started g (failure_thrown x) e = e.0.0

-- The leader's turn as a step.
lead-Step :
    (g t : ProducerGroup) (m : Main)
    → g.main ≡ m
    → main_turn true g m ≡ some t
    → (t : ProducerGroup) × Step g t
lead-Step g t m e f = (t, leads true (ap (main_turn true g) e ∙ f))

all_or_fewer : (a b : ℕ) → a ≤ b → ((a == b) ≡ true) ⊎ (a < b)
all_or_fewer a b h = elim (Bool-cases (a == b)) [ inl e ↦ inl e | inr e ↦ inr (ground arith) ]

abbrev pub HasNext : ProducerGroup → Type 0
HasNext g = ((t : ProducerGroup) × Step g t) ⊎ ((r : Result) × (g.main ≡ over r))

goes_on : (g : ProducerGroup) (m : Main) → g.main ≡ m → Inv g → AtPlace g m → HasNext g
unfolding main_turn
goes_on g launching e i p = elim (Bool-cases (ltb (length g.workers) g.thread_count)) [
  | inl l ↦ inl (lead-Step g _ launching e (holds_if _ _ (ltb (length g.workers) g.thread_count) l))
  | inr l ↦ inl (lead-Step g _ launching e (lacks_if _ _ (ltb (length g.workers) g.thread_count) l))
]
goes_on g launch_failed e i p = inl (lead-Step g _ launch_failed e refl)
goes_on g at_ready e i p =
    elim (all_or_fewer g.ready_workers g.thread_count
      (omega (arith, i.ready, i.few, arrived_of-length g.workers))) [
        | inl h ↦
            inl (lead-Step g _ at_ready e (holds_if _ none (g.ready_workers == g.thread_count) h))
        | inr h ↦ inl (
            turn-Step g (λ w. arrived w.place ≡ 0) (λ w z. arriving-HasTurn g w.sent w.place z)
              (missing (λ w. arrived w.place) g.workers (omega (arith, h, p.1, i.ready))))
      ]
goes_on g at_completion e i (on, l, k) =
    elim (all_or_fewer g.completed_workers g.thread_count
      (omega (arith, i.done, i.few, completed_of-length g.workers))) [
        | inl h ↦ inl (
            lead-Step g _ at_completion e
              (holds_if _ none (g.completed_workers == g.thread_count) h))
        | inr h ↦ inl (
            turn-Step g (λ w. completed w.place ≡ 0) (λ w z. started-HasTurn g w.sent w.place on z)
              (missing (λ w. completed w.place) g.workers (omega (arith, h, l, i.done))))
      ]
goes_on g checking e i p = inl (lead-Step g _ checking e refl)
goes_on g returned e i p = inl (lead-Step g _ returned e refl)
goes_on g (failing x) e i p = inl (lead-Step g _ (failing x) e refl)
goes_on g (joining r) e i (p, off) = elim (Bool-cases (all_ended g.workers)) [
  | inl h ↦ inl (lead-Step g _ (joining r) e (holds_if _ none (all_ended g.workers) h))
  | inr h ↦ inl (
      turn-Step g (λ w. w.place ≢ ended)
        (λ w z. released-HasTurn g w.sent w.place (Ended-started g r p) off z) (alive g.workers h))
]
goes_on g (over r) e i p = inr (r, e)

sub_zero : (k : ℕ) → k - 0 ≡ k
sub_zero k = omega arith

while_turns :
    {threads messages n : ℕ} {g : ProducerGroup}
    → Reach threads messages n g
    → n + turns_of_group g ≤ threads * (messages + 8) + 8
unfolding new_group
while_turns {threads} {messages} start =
    let all : turns_of_group (new_group threads messages)
        ≡ 0 + ((threads - 0) * (messages + 8) + 8) =
      refl in
    omega (arith, all, ap (λ k. k * (messages + 8)) (sub_zero threads))
while_turns (later r s) = omega (arith, while_turns r, step_fewer s)

-- The threads of a benchmark run come to an end, in turns: whatever their order, whether threads can be
-- launched or not, and whatever the callbacks throw, they make at most
-- `threadCount * (messagesPerThread + 8) + 8` turns, and in every state that they reach either the leader
-- has joined all threads, or some thread has a turn, that is, it has work to do or waits for a predicate
-- that holds already. (That a wait ends once its predicate holds is not part of this.)
pub Reach-ends :
    {threads messages n : ℕ} {g : ProducerGroup}
    → Reach threads messages n g
    → (n ≤ threads * (messages + 8) + 8) × HasNext g
Reach-ends {g = g} r =
    let i : Inv g = Reach-Inv r in
    (omega (arith, while_turns r), goes_on g g.main refl i i.at_place)
