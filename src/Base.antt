-- ===== src/Base.antt =====
-- The names that the other modules share: the libraries', passed on, and those of the children.
mod Tests
mod Lists
mod Text
mod Throwing
pub mod Dict
pub use Tests.*
pub use Lists.*
unfoldable pub use Text.{same_text, text_lt, insert_text, sort_texts, starts_with, ends_with, js}
unfoldable pub use Text.{to_lower, decimal_from, decimal, split_from, split}
pub use Text.{JsString, same_text_refl, same_text→eq, same_text_iff, lower_unit, is_digit}
pub use Throwing.{
  Result, ok, throw, ◌>>=◌, ◌>>◌, throw_if, >>=-eq-ok, >>-eq-ok, throw_if-eq-ok, ok-injective,
}
pub use Prim.Native.String.{String}
pub use Prim.Native.Nat.{ℕ, zero, suc, ◌+◌, ◌-◌, ◌*◌, ◌/◌, ◌%◌, ◌^◌, ◌≤◌, ◌<◌, max, min}
pub use mathlib.Core.Path.{◌≡◌, refl, sym, ap, ◌∙◌, subst, fun_ext, ◌≡⟨◌⟩◌, ◌∎}
pub use mathlib.Core.Logic.{◌≢◌, ◌↔◌, ◌⊎◌, inl, inr}
pub use mathlib.Core.Bool.{Bool, true, false, not, ◌&&◌, ◌||◌}
pub use mathlib.Core.Option.{Option, none, some}
pub use mathlib.Core.List.{List, [], ◌∷◌, ◌++◌, map, append_assoc, append-nil}
pub use native.Mathlib.Omega.{arith}
