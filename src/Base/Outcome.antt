-- ===== src/Base/Outcome.antt =====
-- Calls that may throw, over a state that keeps what was done before the exception.
use mathlib.Core.Path.{◌≡◌, refl}

-- The `what()` texts of the exceptions, one constructor for each `throw`; `custom` is one that a
-- sink of the user's own throws, or the standard library.
pub data Failure : Type 0 where
  invalid_file_sink directory_failed open_failed flush_current_failed write_failed flush_failed :
      Failure
  console_write_failed console_flush_failed integer_failed thread_failed custom : Failure

-- `unfinished` is a loop that has used up its fuel.
pub data Outcome {ℓ} (A : Type ℓ) : Type ℓ where
  ok : A → Outcome A
  threw : Failure → Outcome A
  unfinished : Outcome A

abbrev pub Run {ℓ} : Type ℓ → Type ℓ → Type ℓ
Run S A = S → Outcome A × S

module _ {ℓ} {S A B : Type ℓ} where
  abbrev pub continue : Outcome A × S → (A → Run S B) → Outcome B × S
  continue (ok a, s) f = f a s
  continue (threw e, s) f = (threw e, s)
  continue (unfinished, s) f = (unfinished, s)

  infixl 5 ◌>>=◌ ◌>>◌
  abbrev pub ◌>>=◌ : Run S A → (A → Run S B) → Run S B
  ◌>>=◌ m f s = continue (m s) f

  abbrev pub ◌>>◌ : Run S A → Run S B → Run S B
  m >> k = m >>= λ _. k

  -- A sequence that ends well: its first part ended well, and its second from there.
  pub >>=-eq-ok :
      (m : Run S A) (f : A → Run S B) (s : S) {b : B} {t : S}
      → (m >>= f) s ≡ (ok b, t)
      → (a : A) × (u : S) × (m s ≡ (ok a, u)) × (f a u ≡ (ok b, t))
  >>=-eq-ok m f s h = go (m s) refl h
    where
      go :
          {b : B} {t : S} (r : Outcome A × S)
          → m s ≡ r
          → continue r f ≡ (ok b, t)
          → (a : A) × (u : S) × (m s ≡ (ok a, u)) × (f a u ≡ (ok b, t))
      go (ok a, u) e h = (a, u, e, h)
      go (threw x, u) e h = cc
      go (unfinished, u) e h = cc

-- What holds if the call ends well.
abbrev pub Post {ℓ κ} : {S A : Type ℓ} → Outcome A × S → (A → S → Type κ) → Type κ
Post (ok a, s) P = P a s
Post (threw e, s) P = Unit
Post (unfinished, s) P = Unit

pub Post-continue {ℓ κ ι} :
    {S A B : Type ℓ} (r : Outcome A × S) (f : A → Run S B) (P : A → S → Type κ) (Q : B → S → Type ι)
    → Post r P
    → ((a : A) (s : S) → P a s → Post (f a s) Q)
    → Post (continue r f) Q
Post-continue (ok a, s) f P Q h k = k a s h
Post-continue (threw e, s) f P Q h k = tt
Post-continue (unfinished, s) f P Q h k = tt

pub Post-mono {ℓ κ ι} :
    {S A : Type ℓ} (r : Outcome A × S) (P : A → S → Type κ) (Q : A → S → Type ι)
    → Post r P
    → ((a : A) (s : S) → P a s → Q a s)
    → Post r Q
Post-mono (ok a, s) P Q h k = k a s h
Post-mono (threw e, s) P Q h k = tt
Post-mono (unfinished, s) P Q h k = tt

-- The call does not run out of fuel.
abbrev pub Finishes {ℓ} : {S A : Type ℓ} → Outcome A × S → Type 0
Finishes (ok a, s) = Unit
Finishes (threw e, s) = Unit
Finishes (unfinished, s) = ⊥

pub Finishes-continue {ℓ κ} :
    {S A B : Type ℓ} (r : Outcome A × S) (f : A → Run S B) (P : A → S → Type κ)
    → Finishes r
    → Post r P
    → ((a : A) (s : S) → P a s → Finishes (f a s))
    → Finishes (continue r f)
Finishes-continue (ok a, s) f P fin h k = k a s h
Finishes-continue (threw e, s) f P fin h k = tt
Finishes-continue (unfinished, s) f P fin h k = elim fin [ ]

-- The call does not throw, and what holds if it ends.
abbrev pub Safe {ℓ} : {S A : Type ℓ} → Outcome A × S → (S → Type 0) → Type 0
Safe (ok a, s) P = P s
Safe (threw e, s) P = ⊥
Safe (unfinished, s) P = Unit

pub Safe-continue {ℓ} :
    {S A B : Type ℓ} (r : Outcome A × S) (f : A → Run S B) (P Q : S → Type 0)
    → Safe r P
    → ((a : A) (s : S) → P s → Safe (f a s) Q)
    → Safe (continue r f) Q
Safe-continue (ok a, s) f P Q h k = k a s h
Safe-continue (threw e, s) f P Q h k = absurd h
Safe-continue (unfinished, s) f P Q h k = tt

-- A call that neither throws nor runs out of fuel.
pub Safe-ok {ℓ κ} :
    {S A : Type ℓ} (r : Outcome A × S) (P : S → Type 0) (Q : A → S → Type κ)
    → Safe r P
    → Finishes r
    → Post r Q
    → (a : A) × (t : S) × (r ≡ (ok a, t)) × P t × Q a t
Safe-ok (ok a, t) P Q h fin k = (a, t, refl, h, k)
Safe-ok (threw e, t) P Q h fin k = absurd h
Safe-ok (unfinished, t) P Q h fin k = absurd fin
