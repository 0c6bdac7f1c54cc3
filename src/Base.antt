-- ===== src/Base.antt =====
-- Shared names: the library's, passed on, the Boolean tests, lists measured by native numbers, and
-- the insertion-ordered dictionary that stands for a JavaScript `Map`.
mod Tests
mod Lists
mod Results
pub mod Dict
pub mod Picking
pub use Tests.*
unfoldable pub use Lists.{same_text}
pub use Lists.{length, length-append, All, same_text_refl}
pub use Results.{Result, ok, err}
pub use Prim.Native.Nat.{ℕ, zero, suc, ◌+◌, ◌-◌, ◌*◌, ◌/◌, ◌%◌, ◌^◌, ◌≤◌, ◌<◌}
pub use mathlib.Core.Path.{◌≡◌, refl, sym, ap, subst, ◌∙◌}
pub use mathlib.Core.Logic.{◌≢◌, ◌↔◌, ◌⊎◌, inl, inr}
pub use mathlib.Core.Bool.{Bool, true, false, ◌&&◌, ◌||◌, not}
pub use mathlib.Core.Option.{Option, none, some}
pub use mathlib.Core.List.{List, [], ◌∷◌, ◌++◌, map}
pub use native.Mathlib.Omega.{arith}
