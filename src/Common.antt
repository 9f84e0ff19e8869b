-- ===== src/Common.antt =====
-- The names that the modules of the development share: the libraries', passed on, and those of the
-- child modules on Boolean tests, lists, integers, texts, dictionaries and abstract floats.
mod Tests
mod Lists
mod Int
pub mod Text
mod Floats
pub mod NatFloat
pub mod Dict
pub mod Sort
pub use Tests.*
pub use Lists.*
unfoldable pub use Int.*
pub use Floats.*
pub use Prim.Native.Nat.{ℕ, zero, suc, ◌+◌, ◌-◌, ◌*◌, ◌/◌, ◌≤◌, ◌<◌, min}
pub use Prim.Native.String.{String}
pub use mathlib.Core.Path.{◌≡◌, refl, sym, ap, ◌∙◌, ◌≡⟨◌⟩◌, ◌∎}
pub use mathlib.Core.Logic.{◌≢◌, ◌↔◌, ◌⊎◌, inl, inr}
pub use mathlib.Core.Bool.{Bool, true, false, not, ◌&&◌, ◌||◌}
pub use mathlib.Core.Option.{Option, none, some}
pub use mathlib.Core.List.{List, [], ◌∷◌, ◌++◌, map, foldl}
pub use native.Mathlib.Omega.{arith}
