-- ===== src/Base.antt =====
-- The names and small functions that the other modules share: the libraries' names passed on, and
-- children for Boolean tests, decidable equality, lists, finite sets, dictionaries, sorting, vote
-- tallies, numbers as text and results.
pub mod Tests
pub mod Equality
pub mod Lists
pub mod Sets
pub mod Dictionaries
pub mod Sort
pub mod Decimal
pub mod Tally
pub mod Plurality
pub mod Results
pub use Tests.*
unfoldable pub use Equality.*
unfoldable pub use Lists.*
unfoldable pub use Sets.*
unfoldable pub use Dictionaries.*
unfoldable pub use Sort.*
unfoldable pub use Decimal.*
unfoldable pub use Tally.*
pub use Plurality.*
pub use Results.*
pub use Prim.Native.Nat.{ℕ, zero, suc, ◌+◌, ◌-◌, ◌*◌, ◌/◌, ◌%◌, ◌≤◌, ◌<◌}
pub use Prim.Native.String.{String, ◌++◌ as append_text}
pub use mathlib.Core.Path.{◌≡◌, refl, sym, ap, ◌∙◌, fun_ext}
pub use mathlib.Core.Logic.{◌≢◌, ◌↔◌, ◌⊎◌, inl, inr}
pub use mathlib.Core.Bool.{Bool, true, false, ◌&&◌, ◌||◌, not}
pub use mathlib.Core.Option.{Option, none, some}
pub use mathlib.Core.List.{List, [], ◌∷◌, ◌++◌, map, map-map, map-id}
pub use native.Mathlib.Omega.{arith}
