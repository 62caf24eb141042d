-- ===== src/Payout.antt =====
-- The payout service: internal/service/payout_service.go with its selector, router, errors and
-- callbacks.
pub mod Model
pub mod Failure
pub mod Store
pub mod Routing
pub mod Callback
pub mod Submit
pub mod Status
pub mod Request
pub mod Inquiry
pub mod Create
pub mod Transfer
mod Tests
