-- ===== src/Prelude.antt =====
-- The names that the other modules share: the libraries', passed on, and those of the children.
mod Tests
mod Arrays
mod Int
mod Lists
mod Rings
unfoldable pub use Rings.{ring_from}
pub use Rings.{
  next_pos, distance, mod-next_pos, ring_from-update, ring_from-snoc, ring_from-cons,
  length-ring_from,
}
unfoldable pub use Lists.{length, take, drop}
pub use Lists.{take-append-drop, length-drop}
pub use Tests.*
unfoldable pub use Arrays.{update, blit}
pub use Arrays.{update_self, update_twice, update_ne, blit_inside, blit_other}
pub use Int.*
pub use Prim.Native.Nat.{ℕ, zero, suc, ◌+◌, ◌-◌, ◌*◌, ◌/◌, ◌%◌, ◌^◌, ◌≤◌, ◌<◌, bit_and, bit_or}
pub use mathlib.Core.Path.{◌≡◌, refl, sym, ap, ◌∙◌, fun_ext}
pub use mathlib.Core.Logic.{◌≢◌, ◌↔◌, ◌⊎◌, inl, inr}
pub use mathlib.Core.Bool.{Bool, true, false, not, ◌&&◌, ◌||◌}
pub use mathlib.Core.Option.{Option, none, some}
pub use mathlib.Core.List.{List, [], ◌∷◌, ◌++◌, map}
pub use native.Mathlib.Omega.{arith}
