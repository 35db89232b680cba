-- ===== src/Prelude.antt =====
-- The names that the other modules share.
pub mod Tests
pub mod Int
pub mod Equality
pub mod Lists
pub mod Texts
pub mod Errors
pub mod Exec
pub mod Dicts
pub mod Rows
pub mod Ids
pub use Tests.*
unfoldable pub use Int.*
unfoldable pub use Equality.*
pub use Lists.*
unfoldable pub use Texts.*
pub use Errors.{Error, Result, ok, err}
unfoldable pub use Dicts.*
unfoldable pub use Rows.*
pub use Ids.*
pub use Prim.Native.Nat.{ℕ, zero, suc, ◌+◌, ◌-◌, ◌*◌, ◌/◌, ◌%◌, ◌^◌, ◌≤◌, ◌<◌, min}
pub use mathlib.Core.Path.{◌≡◌, refl, sym, ap, ◌∙◌, fun_ext}
pub use mathlib.Core.Logic.{◌≢◌, ◌↔◌, ◌⊎◌, inl, inr}
pub use mathlib.Core.Bool.{Bool, true, false, not, ◌&&◌, ◌||◌}
pub use mathlib.Core.Option.{Option, none, some}
pub use mathlib.Core.List.{List, [], ◌∷◌, ◌++◌, map}
pub use native.Mathlib.Omega.{arith}
