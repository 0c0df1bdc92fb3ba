-- ===== src/Prelude.antt =====
-- Names shared by all modules: the libraries' names passed on, and those of the children below.
mod Tests
mod Lists
mod Word
mod Result
mod Patch
mod Post
pub mod Below
pub use Tests.*
pub use Lists.*
pub use Word.*
pub use Result.*
pub use Patch.*
pub use Post.*
pub use Prim.Native.Nat.{ℕ, zero, suc, ◌+◌, ◌-◌, ◌*◌, ◌/◌, ◌%◌, ◌^◌, ◌≤◌, ◌<◌, min, max}
pub use Prim.Native.Nat.{bit_and, bit_or}
pub use mathlib.Core.Path.{◌≡◌, refl, sym, ap, subst, ◌∙◌}
pub use mathlib.Core.Logic.{◌≢◌, ◌↔◌, ◌⊎◌, inl, inr}
pub use mathlib.Core.Bool.{Bool, true, false, not, ◌&&◌, ◌||◌}
pub use mathlib.Core.Option.{Option, none, some}
pub use mathlib.Core.List.{List, [], ◌∷◌, ◌++◌, map, reverse_aux, append_assoc}
pub use native.Mathlib.Omega.{arith}
