-- ===== src/Common.antt =====
-- The names that the components share: those of the libraries, passed on, and those of the
-- children: Boolean tests, C arrays as lists, machine words, `memcmp`, signed
-- integers, laws of the bit operations.
mod Tests
mod Lists
mod Word
mod Bits
mod Lanes
mod Ranges
mod Bytes
mod Integers
pub use Tests.*
pub use Lists.*
pub use Word.*
pub use Bits.*
pub use Lanes.*
pub use Integers.*
unfoldable pub use Ranges.*
unfoldable pub use Bytes.*
pub use Prim.Native.Nat.{ℕ, zero, suc, ◌+◌, ◌-◌, ◌*◌, ◌/◌, ◌%◌, ◌^◌, ◌≤◌, ◌<◌, min, max}
pub use Prim.Native.Nat.{bit_and, bit_or, bit_xor}
pub use mathlib.Core.Path.{◌≡◌, refl, sym, ap, ap₂, ◌∙◌}
pub use mathlib.Core.Logic.{◌≢◌, ◌↔◌, ◌⊎◌, inl, inr}
pub use mathlib.Core.Bool.{Bool, true, false, not, ◌&&◌, ◌||◌}
pub use mathlib.Core.Option.{Option, none, some}
pub use mathlib.Core.List.{List, [], ◌∷◌, ◌++◌, map}
pub use native.Mathlib.Omega.{arith}
