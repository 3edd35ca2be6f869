-- ===== src/Base.antt =====
-- What the modules share: the libraries' names, Boolean tests, lists over native numbers, `int`.
mod Tests
mod Lists
pub mod Outcome
pub mod Decimal
pub mod Bytes
pub mod Int
pub use Tests.*
pub use Lists.*
pub use Prim.Native.Nat.{ℕ, zero, suc, ◌+◌, ◌-◌, ◌*◌, ◌/◌, ◌%◌, ◌^◌, ◌≤◌, ◌<◌, min}
pub use mathlib.Core.Path.{◌≡◌, refl, sym, ap, ◌∙◌}
pub use mathlib.Core.Logic.{◌≢◌, ◌↔◌, ◌⊎◌, inl, inr}
pub use mathlib.Core.Bool.{Bool, true, false, not, ◌&&◌, ◌||◌}
pub use mathlib.Core.Option.{Option, none, some}
pub use mathlib.Core.List.{List, [], ◌∷◌, ◌++◌, map, append-nil, append_assoc}
pub use native.Mathlib.Omega.{arith}

-- `std::size_t` and `std::uint64_t` have 64 bits.
abbrev pub word_mod : ℕ
word_mod = 2 ^ 64

abbrev pub size_max : ℕ
size_max = 2 ^ 64 - 1
