-- ===== src/Base.antt =====
-- The names that every module shares: those of the libraries, passed on, and those of the children.
mod Tests
mod Lists
mod Arrays
mod Bits
mod Xors
mod Words
mod Order
pub use Tests.*
unfoldable pub use Lists.{replicate}
pub use Lists.*
unfoldable pub use Arrays.{write_at}
pub use Arrays.*
pub use Bits.*
pub use Xors.*
unfoldable pub use Words.{be16, be32}
pub use Words.*
pub use Order.*
pub use Prim.Native.Nat.{ℕ, zero, suc, ◌+◌, ◌-◌, ◌*◌, ◌/◌, ◌%◌, ◌^◌, ◌≤◌, ◌<◌, min, max}
pub use Prim.Native.Nat.{bit_or, bit_and, bit_xor}
pub use mathlib.Core.Path.{◌≡◌, refl, sym, ap, ap₂, ◌∙◌}
pub use mathlib.Core.Logic.{◌≢◌, ◌↔◌, ◌⊎◌, inl, inr}
pub use mathlib.Core.Bool.{Bool, true, false, not, ◌&&◌, ◌||◌}
pub use mathlib.Core.Option.{Option, none, some}
pub use mathlib.Core.List.{List, [], ◌∷◌, ◌++◌, map, append-nil, append_assoc}
pub use native.Mathlib.Omega.{arith}
