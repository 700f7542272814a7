-- ===== src/Dashboard.antt =====
-- frontend/src/App.tsx and the key editor of frontend/src/components/Header.tsx: the state of the page,
-- and the handlers of its buttons, forms and timers.
pub mod Page
pub mod Handlers
pub mod Scenarios
pub mod Actions
pub mod Frame
pub mod Walk
pub mod View
pub mod Settled
pub mod Keyed
pub mod Clicks
mod Tests
pub mod Rate
