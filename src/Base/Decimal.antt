-- ===== src/Base/Decimal.antt =====
-- Decimal digits, as `std::to_string` and `std::to_chars` write a number that is not negative.
use Prim.Native.Nat.{ℕ, zero, suc, ◌+◌, ◌-◌, ◌*◌, ◌/◌, ◌%◌, ◌^◌, ◌<◌, ◌≤◌}
use mathlib.Core.Path.{◌≡◌, refl, ap, sym, ◌∙◌}
use mathlib.Core.List.{List, [], ◌∷◌, ◌++◌}
use native.Mathlib.Omega.{arith}
use native.Mathlib.Nat.{pow-suc}
use cpp_logger.Base.Tests.{ltb, if◌then◌else◌, Bool-cases}
use cpp_logger.Base.Lists.{length, length-append}
use mathlib.Core.Logic.{inl, inr}

-- The fuel `n + 1` is enough: each round divides by ten.
digits_fuel : ℕ → ℕ → List ℕ
digits_fuel zero n = []
digits_fuel (suc fuel) n =
    let rest = digits_fuel fuel (n / 10) in
    if ltb n 10 then (48 + n) ∷ [] else rest ++ ((48 + n % 10) ∷ [])

unfoldable pub decimal : ℕ → List ℕ
unfolding digits_fuel
decimal n = digits_fuel (suc n) n

-- The number that a text of digits stands for, read on from `acc`.
abbrev pub number_from : ℕ → List ℕ → ℕ
number_from acc [] = acc
number_from acc (d ∷ ds) = number_from (acc * 10 + (d - 48)) ds

number_from-append :
    (acc d : ℕ) (ds : List ℕ)
    → number_from acc (ds ++ (d ∷ [])) ≡ number_from acc ds * 10 + (d - 48)
number_from-append acc d [] = refl
number_from-append acc d (c ∷ ds) = number_from-append (acc * 10 + (c - 48)) d ds

number_from-digits : (fuel n : ℕ) → n < fuel → number_from 0 (digits_fuel fuel n) ≡ n
unfolding digits_fuel
number_from-digits zero n h = absurd (omega arith)
number_from-digits (suc fuel) n h = elim (Bool-cases (ltb n 10)) [
  | inl small ↦ rw small (omega arith)
  | inr large ↦
      rw (large, number_from-append 0 (48 + n % 10) (digits_fuel fuel (n / 10)))
        (ground (arith, number_from-digits fuel (n / 10)))
]

-- Reading back what was printed gives the number.
pub number_from-decimal : (n : ℕ) → number_from 0 (decimal n) ≡ n
unfolding decimal
number_from-decimal n = number_from-digits (suc n) n (omega arith)

pub decimal-injective : (m n : ℕ) → decimal m ≡ decimal n → m ≡ n
decimal-injective m n h = sym (number_from-decimal m) ∙ ap (number_from 0) h ∙ number_from-decimal n

-- More fuel makes no difference.
digits_fuel-enough : (f g n : ℕ) → n < f → n < g → digits_fuel f n ≡ digits_fuel g n
unfolding digits_fuel
digits_fuel-enough zero g n h k = absurd (omega arith)
digits_fuel-enough (suc f) zero n h k = absurd (omega arith)
digits_fuel-enough (suc f) (suc g) n h k = elim (Bool-cases (ltb n 10)) [
  | inl small ↦ rw small refl
  | inr large ↦ rw large (
      ap (λ ds. ds ++ ((48 + n % 10) ∷ []))
        (digits_fuel-enough f g (n / 10) (ground arith) (ground arith)))
]

-- The digits one by one.
pub decimal-digit : (n : ℕ) → n < 10 → decimal n ≡ (48 + n) ∷ []
unfolding decimal digits_fuel
decimal-digit n h = ground arith

pub decimal-more : (n : ℕ) → 10 ≤ n → decimal n ≡ decimal (n / 10) ++ ((48 + n % 10) ∷ [])
unfolding decimal digits_fuel
decimal-more n h = ground (arith, digits_fuel-enough n (suc (n / 10)) (n / 10))

-- A number below 10 ^ k has at most k digits.
pub length-decimal-le : (k n : ℕ) → 0 < k → n < 10 ^ k → length (decimal n) ≤ k
length-decimal-le zero n h lt = absurd (omega arith)
length-decimal-le (suc zero) n h lt = omega (arith, ap length (decimal-digit n (omega arith)))
length-decimal-le (suc (suc k)) n h lt = elim (Bool-cases (ltb n 10)) [
  | inl small ↦ omega (arith, ap length (decimal-digit n (ground arith)))
  | inr large ↦ omega (
    arith,
    ap length (decimal-more n (ground arith)),
    length-append (decimal (n / 10)) ((48 + n % 10) ∷ []),
    length-decimal-le (suc k) (n / 10) (omega arith) (omega (arith, pow-suc 10 (suc k))),
  )
]
