-- ===== src/Prelude.antt =====
-- Names that every other module shares: those of the libraries, passed on, and those of the
-- children, which hold tests, lists, integers, machine words and bit operations.
mod Tests
mod Lists
mod Ints
mod Words
mod Bits
mod Fields
mod Aborts
pub use Tests.*
unfoldable pub use Lists.*
pub use Ints.*
pub use Words.*
pub use Bits.*
pub use Fields.*
pub use Aborts.*
pub use Prim.Native.Nat.{
  ℕ, zero, suc, ◌+◌, ◌-◌, ◌*◌, ◌/◌, ◌%◌, ◌^◌, ◌≤◌, ◌<◌, min, max, bit_and, bit_or, bit_xor,
}
pub use mathlib.Core.Path.{◌≡◌, refl, sym, ap, ap₂, ◌∙◌, subst, fun_ext}
pub use mathlib.Core.Logic.{◌≢◌, ◌↔◌, ◌⊎◌, inl, inr}
pub use mathlib.Core.Bool.{Bool, true, false, not, ◌&&◌, ◌||◌}
pub use mathlib.Core.Option.{Option, none, some}
pub use mathlib.Core.List.{List, [], ◌∷◌, ◌++◌}
pub use native.Mathlib.Omega.{arith}
