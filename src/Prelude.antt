-- ===== src/Prelude.antt =====
-- The names that the other modules share: those of the libraries, passed on, and those of the
-- children (Boolean tests, lists over the native numbers, texts, predicates on lists).
mod Tests
mod Lists
mod Member
mod Texts
mod Collect
mod Sort
mod Integers
mod Ordered
mod Select
pub use Tests.*
pub use Lists.*
pub use Member.*
pub use Texts.*
pub use Collect.*
pub use Sort.*
pub use Integers.*
pub use Ordered.*
pub use Select.*
unfoldable pub use Texts.{◌==◌, starts_with, ends_with}
unfoldable pub use Collect.{effective_limit, reached, collect}
unfoldable pub use Sort.{insert_by, sort_by, text_le, sort}
pub use Prim.Native.Nat.{ℕ, zero, suc, ◌+◌, ◌-◌, ◌*◌, ◌/◌, ◌%◌, ◌≤◌, ◌<◌, max, min}
pub use Prim.Native.String.{String}
pub use mathlib.Core.Path.{◌≡◌, refl, sym, ap, ◌∙◌}
pub use mathlib.Core.Logic.{◌≢◌, ◌↔◌, ◌⊎◌, inl, inr}
pub use mathlib.Core.Bool.{Bool, true, false, not, ◌&&◌, ◌||◌}
pub use mathlib.Core.Option.{Option, none, some}
pub use mathlib.Core.List.{List, [], ◌∷◌, ◌++◌, map, foldl, append-nil, append_assoc, Perm}
pub use native.Mathlib.Omega.{arith}
