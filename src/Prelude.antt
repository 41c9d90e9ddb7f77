-- ===== src/Prelude.antt =====
-- The names that every module shares: the libraries', passed on, and those of three children.
mod Tests
mod Text
mod Errors
mod Table
mod Select
pub mod Trace
pub mod Caps
pub mod Decimal
pub use Tests.*
pub use Text.*
unfoldable pub use Text.{◌<>◌}
pub use Errors.*
pub use Table.*
pub use Select.*
pub use Trace.{run_keeps, run_keeps_free, run_keeps_fitting, total_bounded, total_paid}
unfoldable pub use Trace.{run, total}
unfoldable pub use Table.{upsert, lookup, where_update, where_delete, rowcount}
unfoldable pub use Select.{sql, where_select, insert_by, order_by}
pub use Prim.Native.Nat.{ℕ, zero, suc, ◌+◌, ◌-◌, ◌*◌, ◌≤◌, ◌<◌, max}
pub use Prim.Native.String.{String}
pub use mathlib.Core.Path.{◌≡◌, refl, sym, ap, subst, ◌∙◌}
pub use mathlib.Core.Logic.{◌≢◌, ◌↔◌, ◌⊎◌, inl, inr}
pub use mathlib.Core.Bool.{Bool, true, false, not, ◌&&◌, ◌||◌}
pub use mathlib.Core.Option.{Option, none, some}
pub use mathlib.Core.List.{List, [], ◌∷◌, ◌++◌, map}
pub use native.Mathlib.Omega.{arith}
pub use text.Mathlib.Text.{◌==◌}
pub use text.Mathlib.TextEquality.{eq_iff}
pub use text.Mathlib.TextPositions.{eq_refl}
