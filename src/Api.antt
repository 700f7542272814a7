-- ===== src/Api.antt =====
-- backend/src/api: the handlers of endpoints, of breakers, and of the lists.
pub mod Endpoints
pub mod Created
pub mod Listings
pub mod Hidden
mod Tests
