-- ===== src/Store.antt =====
-- The shared state of the backend and the handlers' monad.
pub mod Tables
pub mod Schema
pub mod State
pub mod Effects
pub mod Atomic
pub mod Frame
pub use Tables.*
pub use Schema.*
pub use State.*
pub use Effects.*
