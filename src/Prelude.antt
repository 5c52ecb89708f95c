-- ===== src/Prelude.antt =====
-- Names that every other module shares: the libraries' names passed on, and four children with
-- Boolean tests, lists over native numbers, byte texts and machine words.
mod Tests
mod Lists
mod Text
mod Words
mod Count
unfoldable pub use Tests.*
pub use Lists.*
pub use Count.*
unfoldable pub use Text.*
pub use Words.*
pub use Prim.Native.Nat.{
  ℕ, zero, suc, ◌+◌, ◌-◌, ◌*◌, ◌/◌, ◌%◌, ◌^◌, ◌≤◌, ◌<◌, bit_and, bit_or, bit_xor,
}
pub use mathlib.Core.Path.{◌≡◌, refl, sym, ap, ◌∙◌}
pub use mathlib.Core.Logic.{◌≢◌, ◌↔◌, ◌⊎◌, inl, inr}
pub use mathlib.Core.Bool.{Bool, true, false, not, ◌&&◌, ◌||◌}
pub use mathlib.Core.Option.{Option, none, some}
pub use mathlib.Core.List.{List, [], ◌∷◌, ◌++◌, map}
pub use native.Mathlib.Omega.{arith}
