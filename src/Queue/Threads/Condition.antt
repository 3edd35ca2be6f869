-- ===== src/Queue/Threads/Condition.antt =====
-- A condition variable: who sleeps on it, who was woken and has not had the mutex again, and the
-- notifications that are called and not delivered.
use cpp_logger.Base.{ℕ, suc, ◌-◌, ◌<◌, ◌≡◌, List, [], ◌∷◌, ◌++◌, ◌==◌, if◌then◌else◌}
use cpp_logger.Queue.{Signal, quiet, notify_one, notify_all}

pub record CondVar {ℓ} (W : Type ℓ) : Type ℓ where
  pub asleep : List W
  pub awake : List W
  pub ones : ℕ
  pub alls : ℕ

module _ {ℓ} {W : Type ℓ} where
  abbrev pub no_waiters : CondVar W
  no_waiters = record { asleep = []; awake = []; ones = 0; alls = 0 }

  abbrev pub signal : Signal → CondVar W → CondVar W
  signal quiet c = c
  signal notify_one c = record c { ones = suc c.ones }
  signal notify_all c = record c { alls = suc c.alls }

  abbrev pub sleep : W → CondVar W → CondVar W
  sleep w c = record c { asleep = w ∷ c.asleep }

  abbrev pub wake_all : CondVar W → CondVar W
  wake_all c = record c { asleep = []; awake = c.asleep ++ c.awake }

  -- What may happen between turns: a pending notification is delivered, to any one of the threads
  -- that sleep or to all; or a thread wakes without one.
  pub data Wakes (c d : CondVar W) : Type ℓ where
    woken_one :
        (before : List W) (w : W) (after : List W)
        → 0 < c.ones
        → c.asleep ≡ before ++ (w ∷ after)
        → d ≡ record {
          asleep = before ++ after;
          awake = w ∷ c.awake;
          ones = c.ones - 1;
          alls = c.alls;
        }
        → Wakes c d
    lost_one : 0 < c.ones → c.asleep ≡ [] → d ≡ record c { ones = c.ones - 1 } → Wakes c d
    woken_all : 0 < c.alls → d ≡ record (wake_all c) { alls = c.alls - 1 } → Wakes c d
    spurious :
        (before : List W) (w : W) (after : List W)
        → c.asleep ≡ before ++ (w ∷ after)
        → d ≡ record c { asleep = before ++ after; awake = w ∷ c.awake }
        → Wakes c d

-- How many producers expect generation `g`.
module _ {ℓ} {A : Type ℓ} where
  abbrev pub live : ℕ → List (ℕ × A) → ℕ
  live g [] = 0
  live g ((k, v) ∷ ws) = if k == g then suc (live g ws) else live g ws
