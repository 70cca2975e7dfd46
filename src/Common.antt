-- ===== src/Common.antt =====
-- The names that the other modules share.
mod Tests
mod Lists
mod Map
mod Files
mod Words
mod Text
pub mod Int
pub mod Sort
pub use Tests.*
pub use Lists.*
unfoldable pub use Map.{lookup, remove, insert}
pub use Map.*
unfoldable pub use Files.{bytes_eq, take_exact, read_at, write_at}
pub use Files.*
unfoldable pub use Words.{get_u32}
pub use Words.*
unfoldable pub use Text.{trim_space}
pub use Text.*
pub use Prim.Native.Nat.{ℕ, zero, suc, ◌+◌, ◌-◌, ◌*◌, ◌/◌, ◌%◌, ◌^◌, ◌≤◌, ◌<◌}
pub use mathlib.Core.Path.{◌≡◌, refl, sym, ap, ◌∙◌}
pub use mathlib.Core.Logic.{◌≢◌, ◌↔◌, ◌⊎◌, inl, inr}
pub use mathlib.Core.Bool.{Bool, true, false, ◌&&◌, ◌||◌}
pub use mathlib.Core.Option.{Option, none, some}
pub use mathlib.Core.List.{List, [], ◌∷◌, ◌++◌, map}
pub use native.Mathlib.Omega.{arith}
