-- ===== src/Base.antt =====
-- Names shared by every module: the libraries', passed on, with Boolean tests, lists over native
-- numbers, results of fallible code, and the arithmetic of bits.
mod Tests
mod Lists
mod Results
pub mod Bits
pub mod BitOf
pub mod Parity
pub mod Exec
pub mod Dicts
pub use Tests.*
pub use Lists.*
pub use Results.*
pub use Prim.Native.Nat.{ℕ, zero, suc, ◌+◌, ◌-◌, ◌*◌, ◌/◌, ◌%◌, ◌^◌, ◌≤◌, ◌<◌}
pub use Prim.Native.String.{String}
pub use mathlib.Core.Path.{◌≡◌, refl, sym, ap, ap₂, subst, subst₂, fun_ext, ◌∙◌, ◌≡⟨◌⟩◌, ◌∎}
pub use mathlib.Core.Logic.{◌≢◌, ◌↔◌, ◌⊎◌, inl, inr}
pub use mathlib.Core.Bool.{Bool, true, false, ◌&&◌, ◌||◌, not}
pub use mathlib.Core.Option.{Option, none, some}
pub use mathlib.Core.List.{
  List, [], ◌∷◌, ◌++◌, map, reverse, append-nil, append_assoc, map-append, reverse-cons,
  reverse-reverse, reverse-append,
}
pub use native.Mathlib.Omega.{arith}
