-- ===== src/Prelude.antt =====
-- The names that the components share: the libraries', passed on, and those of the children below
-- (tests on numbers, lists over the native numbers, texts as code points, signed integers).
mod Tests
mod Lists
mod Texts
mod Int
mod Results
mod Decimals
mod Maps
pub mod Members
unfoldable pub use Tests.*
unfoldable pub use Lists.*
unfoldable pub use Texts.*
unfoldable pub use Int.*
pub use Results.*
unfoldable pub use Decimals.*
unfoldable pub use Maps.*
pub use Prim.Native.Nat.{ℕ, min, max, zero, suc, ◌+◌, ◌-◌, ◌*◌, ◌/◌, ◌%◌, ◌^◌, ◌≤◌, ◌<◌}
pub use Prim.Native.String.{String}
pub use mathlib.Core.Path.{◌≡◌, refl, sym, ap, ◌∙◌, subst, fun_ext}
pub use mathlib.Core.Logic.{◌≢◌, ◌↔◌, ◌⊎◌, inl, inr}
pub use mathlib.Core.Bool.{Bool, true, false, not, ◌&&◌, ◌||◌}
pub use mathlib.Core.Option.{Option, none, some}
pub use mathlib.Core.List.{List, [], ◌∷◌, ◌++◌, map, append_assoc, append-nil}
pub use native.Mathlib.Omega.{arith}
unfoldable pub use native.Mathlib.Decide.{dec_le, dec_lt, ℕ_discrete}
