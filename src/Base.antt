-- ===== src/Base.antt =====
-- The names that the other modules share: the libraries', passed on, and those of the children.
mod Tests
mod Results
mod Bits
mod Lists
mod Updates
mod Words
pub mod Bytes
pub mod Table
pub mod Sorting
pub use Tests.*
pub use Results.*
pub use Lists.*
pub use Updates.*
unfoldable pub use Words.{
  checked_add, checked_sub, checked_mul, saturating_add, saturating_sub, mask_down, is_power_of_two,
  round_up,
}
pub use Words.{
  word_modulus, word_max, is_power_of_two-pos, is_power_of_two_sound, mask_down-eq, round_up-eq,
  round_up-bounds, checked_add-some, checked_sub-some, checked_mul-some, checked_add-fits,
  checked_sub-fits, checked_mul-fits,
}
pub use Prim.Native.Nat.{ℕ, zero, suc, ◌+◌, ◌-◌, ◌*◌, ◌/◌, ◌%◌, ◌^◌, ◌≤◌, ◌<◌, min, max, bit_and}
pub use Prim.Native.String.{String}
pub use mathlib.Core.Path.{◌≡◌, refl, sym, ap, ◌∙◌, subst}
pub use mathlib.Core.Logic.{◌≢◌, ◌↔◌, ◌⊎◌, inl, inr, ite, if_pos, if_neg}
pub use mathlib.Core.Bool.{Bool, true, false, ◌&&◌, ◌||◌, not}
pub use mathlib.Core.Option.{Option, none, some}
pub use mathlib.Core.List.{List, [], ◌∷◌, ◌++◌, map, append-nil, append_assoc}
pub use native.Mathlib.Omega.{arith}
unfoldable pub use native.Mathlib.Decide.{dec_lt, dec_le, ℕ_discrete}
