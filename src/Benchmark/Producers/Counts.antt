-- ===== src/Benchmark/Producers/Counts.antt =====
-- Sums over the producers of a group, with one producer taken out.
use cpp_logger.Base.{ℕ, ◌+◌, ◌*◌, ◌≤◌, ◌≡◌, refl, none, List, [], ◌∷◌, ◌++◌, arith, length}
use cpp_logger.Benchmark.Producers.{
  Place, preparing, arriving, at_start, submitting, completing, at_release, ended, Worker,
  ProducerGroup,
}
use cpp_logger.Benchmark.Producers.Places.{
  arrived, prepared, completed, turns_left, Fits, GoesOn, GoesOn-Fits,
}

abbrev pub sum_of : (Worker → ℕ) → List Worker → ℕ
sum_of f [] = 0
sum_of f (w ∷ ws) = f w + sum_of f ws

abbrev pub arrived_of : List Worker → ℕ
arrived_of = sum_of (λ w. arrived w.place)

abbrev pub prepared_of : List Worker → ℕ
prepared_of = sum_of (λ w. prepared w.place)

abbrev pub completed_of : List Worker → ℕ
completed_of = sum_of (λ w. completed w.place)

abbrev pub sent_of : List Worker → ℕ
sent_of = sum_of (λ w. w.sent)

abbrev pub turns_of : ℕ → List Worker → ℕ
turns_of messages = sum_of (λ w. turns_left messages w.place)

pub sum_of-middle :
    (f : Worker → ℕ) (before : List Worker) (w : Worker) (after : List Worker)
    → sum_of f (before ++ (w ∷ after)) ≡ f w + sum_of f (before ++ after)
sum_of-middle f [] w after = refl
sum_of-middle f (b ∷ before) w after = omega (arith, sum_of-middle f before w after)

pub sum_of-append :
    (f : Worker → ℕ) (ws us : List Worker) → sum_of f (ws ++ us) ≡ sum_of f ws + sum_of f us
sum_of-append f [] us = omega arith
sum_of-append f (w ∷ ws) us = omega (arith, sum_of-append f ws us)

pub length-middle :
    (before : List Worker) (w : Worker) (after : List Worker)
    → length (before ++ (w ∷ after)) ≡ 1 + length (before ++ after)
length-middle [] w after = omega arith
length-middle (b ∷ before) w after = omega (arith, length-middle before w after)

pub sum_of-length :
    (f : Worker → ℕ) (ws : List Worker) → ((w : Worker) → f w ≤ 1) → sum_of f ws ≤ length ws
sum_of-length f [] h = omega arith
sum_of-length f (w ∷ ws) h = omega (arith, h w, sum_of-length f ws h)

arrived-bound : (w : Worker) → arrived w.place ≤ 1
arrived-bound w = elim w.place as (λ p. arrived p ≤ 1) [
  | preparing ↦ omega arith
  | arriving c ↦ omega arith
  | at_start c ↦ omega arith
  | submitting k ↦ omega arith
  | completing ↦ omega arith
  | at_release ↦ omega arith
  | ended ↦ omega arith
]

completed-bound : (w : Worker) → completed w.place ≤ 1
completed-bound w = elim w.place as (λ p. completed p ≤ 1) [
  | preparing ↦ omega arith
  | arriving c ↦ omega arith
  | at_start c ↦ omega arith
  | submitting k ↦ omega arith
  | completing ↦ omega arith
  | at_release ↦ omega arith
  | ended ↦ omega arith
]

pub arrived_of-length : (ws : List Worker) → arrived_of ws ≤ length ws
arrived_of-length ws = sum_of-length _ ws arrived-bound

prepared-bounds : (w : Worker) → (arrived w.place ≤ prepared w.place) × (prepared w.place ≤ 1)
prepared-bounds w = elim w.place as (λ p. (arrived p ≤ prepared p) × (prepared p ≤ 1)) [
  | preparing ↦ (omega arith, omega arith)
  | arriving c ↦ (omega arith, omega arith)
  | at_start c ↦ (omega arith, omega arith)
  | submitting k ↦ (omega arith, omega arith)
  | completing ↦ (omega arith, omega arith)
  | at_release ↦ (omega arith, omega arith)
  | ended ↦ (omega arith, omega arith)
]

-- A producer that has come to the start has prepared.
pub prepared_of-between :
    (ws : List Worker) → (arrived_of ws ≤ prepared_of ws) × (prepared_of ws ≤ length ws)
prepared_of-between [] = (omega arith, omega arith)
prepared_of-between (w ∷ ws) =
    let (low, high) = prepared_of-between ws in
    let (arrives, one) = prepared-bounds w in
    (omega (arith, low, arrives), omega (arith, high, one))

pub completed_of-length : (ws : List Worker) → completed_of ws ≤ length ws
completed_of-length ws = sum_of-length _ ws completed-bound

-- A producer among those that have all completed.
pub completed-among :
    (before : List Worker) (w : Worker) (after : List Worker)
    → completed_of (before ++ (w ∷ after)) ≡ length (before ++ (w ∷ after))
    → completed w.place ≡ 1
completed-among before w after h = omega (
  arith,
  h,
  sum_of-middle (λ x. completed x.place) before w after,
  length-middle before w after,
  completed-bound w,
  completed_of-length (before ++ after),
)

abbrev pub AllFit : ProducerGroup → List Worker → Type 0
AllFit g [] = Unit
AllFit g (w ∷ ws) = Fits g w.place w.sent × AllFit g ws

pub GoesOn-AllFit :
    (g h : ProducerGroup) (ws : List Worker) → GoesOn g h → AllFit g ws → AllFit h ws
GoesOn-AllFit g h [] k a = tt
GoesOn-AllFit g h (w ∷ ws) k a = (GoesOn-Fits g h w.place w.sent k a.0, GoesOn-AllFit g h ws k a.1)

-- A turn of one of them.
pub AllFit-replace :
    (g h : ProducerGroup) (before : List Worker) (w u : Worker) (after : List Worker)
    → GoesOn g h
    → (Fits g w.place w.sent → Fits h u.place u.sent)
    → AllFit g (before ++ (w ∷ after))
    → AllFit h (before ++ (u ∷ after))
AllFit-replace g h [] w u after k f a = (f a.0, GoesOn-AllFit g h after k a.1)
AllFit-replace g h (b ∷ before) w u after k f a =
    (GoesOn-Fits g h b.place b.sent k a.0, AllFit-replace g h before w u after k f a.1)

pub AllFit-append :
    (g : ProducerGroup) (ws us : List Worker) → AllFit g ws → AllFit g us → AllFit g (ws ++ us)
AllFit-append g [] us a b = b
AllFit-append g (w ∷ ws) us a b = (a.0, AllFit-append g ws us a.1 b)

-- Without a failure, producers that have all completed have sent all their messages.
sent_all :
    (g : ProducerGroup) (w : Worker)
    → Fits g w.place w.sent
    → completed w.place ≡ 1
    → g.worker_failure ≡ none
    → w.sent ≡ g.messages_per_thread
sent_all g w f c n = go w.place f c
  where
    go : (p : Place) → Fits g p w.sent → completed p ≡ 1 → w.sent ≡ g.messages_per_thread
    go at_release f c = f.0 n
    go ended f c = f.0 n
    go preparing f c = absurd (omega (arith, c))
    go (arriving b) f c = absurd (omega (arith, c))
    go (at_start b) f c = absurd (omega (arith, c))
    go (submitting k) f c = absurd (omega (arith, c))
    go completing f c = absurd (omega (arith, c))

abbrev pub AllSent : ℕ → List Worker → Type 0
AllSent messages [] = Unit
AllSent messages (w ∷ ws) = (w.sent ≡ messages) × AllSent messages ws

pub AllFit-AllSent :
    (g : ProducerGroup) (ws : List Worker)
    → AllFit g ws
    → completed_of ws ≡ length ws
    → g.worker_failure ≡ none
    → AllSent g.messages_per_thread ws
AllFit-AllSent g [] a c n = tt
AllFit-AllSent g (w ∷ ws) a c n =
    let one : completed w.place ≡ 1 = completed-among [] w ws c in
    (sent_all g w a.0 one n, AllFit-AllSent g ws a.1 (omega (arith, c, one)) n)

pub AllSent-sum :
    (messages : ℕ) (ws : List Worker) → AllSent messages ws → sent_of ws ≡ length ws * messages
AllSent-sum messages [] a = omega arith
AllSent-sum messages (w ∷ ws) a = omega (arith, a.0, AllSent-sum messages ws a.1)
