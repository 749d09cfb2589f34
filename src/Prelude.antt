-- ===== src/Prelude.antt =====
-- The names that the other modules share: the libraries', passed on, and those of the children.
mod Tests
mod Lists
mod Words
mod Ids
mod Counts
mod Bytes
mod LittleEndian
mod Chains
mod Elements
pub use Tests.*
pub use Lists.*
pub use Words.*
unfoldable pub use Ids.{id_eq}
pub use Ids.{NodeId, id_eq_iff, id_eq_refl, update}
pub use Counts.*
pub use Bytes.*
unfoldable pub use Bytes.{read_bytes}
pub use LittleEndian.*
unfoldable pub use LittleEndian.{read_le16, read_le32, read_le64}
pub use Chains.*
pub use Elements.*
pub use Prim.Native.Nat.{ℕ, zero, suc, ◌+◌, ◌-◌, ◌*◌, ◌/◌, ◌%◌, ◌^◌, ◌≤◌, ◌<◌, min, max}
pub use mathlib.Core.Path.{◌≡◌, refl, sym, ap, ◌∙◌, subst}
pub use mathlib.Core.Logic.{◌≢◌, ◌↔◌, ◌⊎◌, inl, inr}
pub use mathlib.Core.Bool.{Bool, true, false, not, ◌&&◌, ◌||◌}
pub use mathlib.Core.Option.{Option, none, some}
pub use mathlib.Core.List.{List, [], ◌∷◌, ◌++◌, map, reverse, Mem, Perm}
pub use native.Mathlib.Omega.{arith}
