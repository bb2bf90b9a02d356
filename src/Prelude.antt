-- ===== src/Prelude.antt =====
-- Names that the other modules share: those of the libraries, passed on, and those of the
-- children: Boolean tests, lists indexed by native numbers, blocks of memory, tables over bytes.
mod Tests
mod Lists
mod Memory
mod Tables
mod Int
mod Bits
pub use Tests.*
pub use Lists.*
pub use Memory.*
pub use Tables.*
pub use Bits.*
unfoldable pub use Int.*
pub use Prim.Native.Nat.{
  ℕ, zero, suc, ◌+◌, ◌-◌, ◌*◌, ◌/◌, ◌%◌, ◌^◌, ◌≤◌, ◌<◌, min, max, bit_and, bit_or,
}
pub use mathlib.Core.Path.{◌≡◌, refl, sym, ap, ◌∙◌, ap₂, subst}
pub use mathlib.Core.Logic.{◌≢◌, ◌↔◌, ◌⊎◌, inl, inr}
pub use mathlib.Core.Bool.{Bool, true, false, ◌&&◌, ◌||◌, not}
pub use mathlib.Core.Option.{Option, none, some}
pub use mathlib.Core.List.{List, [], ◌∷◌, ◌++◌, append_assoc, append-nil}
pub use native.Mathlib.Omega.{arith}
