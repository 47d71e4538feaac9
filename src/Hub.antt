-- ===== src/Hub.antt =====
-- server/kk_local/rooms.py and engine.py: the state of the shared rooms.
mod State
mod Queue
pub mod QueueLaws
pub use State.*
unfoldable pub use State.{mode_of, capacity_of, watchable}
unfoldable pub use Queue.*
