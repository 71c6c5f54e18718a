-- ===== src/Common.antt =====
-- Names that every part of the development shares: the libraries' own, passed on, and those of the
-- children: tests and branches, lists, machine words, bit laws.
pub mod Tests
pub mod Lists
pub mod Loops
pub mod Outcome
pub mod Yields
pub mod Ends
pub mod Bits
pub mod Digits
pub mod Word
pub mod Powers
pub use Tests.*
unfoldable pub use Lists.{chunks_exact}
pub use Lists.*
unfoldable pub use Loops.{for_range}
pub use Loops.{for_range_inv}
pub use Prim.Native.Nat.{ℕ, zero, suc, ◌+◌, ◌-◌, ◌*◌, ◌/◌, ◌%◌, ◌^◌, ◌≤◌, ◌<◌, min}
pub use Prim.Native.Nat.{bit_and, bit_or, bit_xor}
pub use mathlib.Core.Path.{◌≡◌, refl, sym, ap, ap₂, subst, ◌∙◌}
pub use mathlib.Core.Logic.{◌≢◌, ◌↔◌, ◌⊎◌, inl, inr}
pub use mathlib.Core.Bool.{Bool, true, false, not, ◌&&◌, ◌||◌}
pub use mathlib.Core.Option.{Option, none, some}
pub use mathlib.Core.List.{List, [], ◌∷◌, ◌++◌, map, foldl, append-nil, append_assoc}
pub use native.Mathlib.Omega.{arith}
