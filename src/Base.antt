-- ===== src/Base.antt =====
-- The names that the other modules share: the libraries' names, passed on, and the Boolean tests,
-- list functions, number lemmas, texts and heaps of its children.
mod Tests
mod Lists
mod Words
mod Text
mod Decimal
mod Heap
mod Int
pub use Tests.*
pub use Lists.*
pub use Words.*
pub use Text.*
unfoldable pub use Decimal.*
pub use Heap.*
pub use Int.*
pub use Prim.Native.Nat.{ℕ, zero, suc, ◌+◌, ◌-◌, ◌*◌, ◌/◌, ◌%◌, ◌^◌, ◌≤◌, ◌<◌}
pub use mathlib.Core.Path.{◌≡◌, refl, sym, ap, subst, ◌∙◌}
pub use mathlib.Core.Logic.{◌≢◌, ◌↔◌, ◌⊎◌, inl, inr}
pub use mathlib.Core.Bool.{Bool, true, false, not, ◌&&◌, ◌||◌}
pub use mathlib.Core.Option.{Option, none, some}
pub use mathlib.Core.List.{List, [], ◌∷◌, ◌++◌, map, append-nil, append_assoc}
pub use native.Mathlib.Omega.{arith}
use mathlib.Core.List.{map-append}

-- Appended lists, with the brackets to the right and no empty list in them.
pub ruleset append_laws = (append-nil, append_assoc, map-append)
