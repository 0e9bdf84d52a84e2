-- ===== src/Base.antt =====
-- What the modules share: the libraries' names, passed on, tests on native numbers, lists, words.
mod Tests
mod Lists
mod Word
mod Table
mod Bits
pub use Bits.{
  bit_or-zero, bit_or-low, bit_or-lt, bit_or-mod_two, bit_or-high, bit_and-zero, bit_and-halves,
  bit_and-ones,
}
pub use Tests.*
pub use Lists.*
pub use Word.*
unfoldable pub use Table.{all_below}
pub use Table.{all_below_sound}
pub use Prim.Native.Nat.{ℕ, zero, suc, ◌+◌, ◌-◌, ◌*◌, ◌/◌, ◌%◌, ◌^◌, ◌≤◌, ◌<◌, bit_and, bit_or}
pub use mathlib.Core.Path.{◌≡◌, refl, sym, ap, subst, ◌∙◌, fun_ext}
pub use mathlib.Core.Logic.{◌≢◌, ◌↔◌, ◌⊎◌, inl, inr}
pub use mathlib.Core.Bool.{Bool, true, false, not, ◌&&◌, ◌||◌}
pub use mathlib.Core.Option.{Option, none, some}
pub use mathlib.Core.List.{List, [], ◌∷◌, ◌++◌, map}
pub use native.Mathlib.Omega.{arith}
