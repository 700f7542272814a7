-- ===== src/System.antt =====
-- The backend as one system: the handlers of backend/src/api and the rounds of backend/src/worker that
-- change the tables, one after the other, in any order.
pub mod Writers
pub mod Jobs
pub mod History
mod Tests
