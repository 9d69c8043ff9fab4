-- ===== src/Base.antt =====
-- The names that the other modules share, passed on from the libraries and from the children of
-- this module: numbers, texts, association lists and decidable equality.
mod Equality
mod Number
mod Lists
pub mod Dict
pub mod Text
unfoldable pub use Equality.*
unfoldable pub use Number.*
pub use Number.Laws.{IsNumeral, itoa-IsNumeral, atoi-itoa}
pub use Lists.*
pub use Prim.Native.Nat.{ℕ, zero, suc, ◌+◌, ◌-◌, ◌*◌, ◌/◌, ◌%◌, ◌^◌, ◌≤◌, ◌<◌}
pub use Prim.Native.String.{String, ◌++◌ as ◌<>◌}
pub use mathlib.Core.Path.{◌≡◌, refl, sym, ap, ◌∙◌, fun_ext}
pub use mathlib.Core.Logic.{◌≢◌, ◌↔◌, ◌⊎◌, inl, inr}
pub use mathlib.Core.Bool.{Bool, true, false, not, ◌&&◌, ◌||◌}
pub use mathlib.Core.Option.{Option, none, some}
pub use mathlib.Core.List.{List, [], ◌∷◌, ◌++◌, map}
pub use native.Mathlib.Omega.{arith}
