-- ===== src/Game.antt =====
-- The data that the engine's parts share: core/enums.py, core/engine/state.py, actions.py and
-- events.py, under the names of the source.
pub mod Enums
pub mod State
pub mod Payloads
pub mod Events
unfoldable pub use Enums.*
unfoldable pub use State.*
pub use Payloads.*
unfoldable pub use Events.*
