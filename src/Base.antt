-- ===== src/Base.antt =====
-- The names that the other modules share: the libraries' names, passed on, and those of four
-- children (tests on numbers, lists, total orders, and words of the machine).
pub mod Tests
pub mod Lists
pub mod Order
pub mod Word
pub mod ByteString
pub mod Sort
pub mod Text
pub mod Outcome
unfoldable pub use Tests.*
unfoldable pub use Lists.*
unfoldable pub use Order.*
unfoldable pub use ByteString.*
unfoldable pub use Sort.*
unfoldable pub use Word.*
unfoldable pub use Text.*
pub use Outcome.{Result, ok, err}
pub use Prim.Native.Nat.{
  ℕ, zero, suc, ◌+◌, ◌-◌, ◌*◌, ◌/◌, ◌%◌, ◌^◌, ◌≤◌, ◌<◌, max, min, bit_and, bit_xor, bit_or,
}
pub use Prim.Native.Nat.{compare, Ordering}
pub use Prim.Native.Nat.Ordering.{lt, eq, gt}
pub use mathlib.Core.Path.{◌≡◌, refl, sym, ap, ◌∙◌, fun_ext}
pub use mathlib.Core.Logic.{◌≢◌, ◌↔◌, ◌⊎◌, inl, inr}
pub use mathlib.Core.Bool.{Bool, true, false, ◌&&◌, ◌||◌, not}
pub use mathlib.Core.Option.{Option, none, some}
pub use mathlib.Core.List.{List, [], ◌∷◌, ◌++◌, map}
pub use native.Mathlib.Omega.{arith}
