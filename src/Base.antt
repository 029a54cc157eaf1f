-- ===== src/Base.antt =====
-- The names that the other modules share: the libraries' names passed on, tests and lists over the
-- native numbers, casts to the fixed widths, bits, and the monad of the kernel's actions.
mod Tests
mod Lists
pub mod Int
pub mod Word
pub mod Text
pub mod Bits
pub mod Fields
pub mod Panics
pub mod Action
pub mod Leaves
pub use Tests.*
pub use Lists.*
pub use Prim.Native.Nat.{
  ℕ, zero, suc, ◌+◌, ◌-◌, ◌*◌, ◌/◌, ◌%◌, ◌^◌, ◌≤◌, ◌<◌, min, max, bit_and, bit_or,
}
pub use mathlib.Core.Path.{◌≡◌, refl, sym, ap, ◌∙◌}
pub use mathlib.Core.Logic.{◌≢◌, ◌↔◌, ◌⊎◌, inl, inr}
pub use mathlib.Core.Bool.{Bool, true, false, not, ◌&&◌, ◌||◌}
pub use mathlib.Core.Option.{Option, none, some}
pub use mathlib.Core.List.{List, [], ◌∷◌, ◌++◌, map}
pub use native.Mathlib.Omega.{arith}
