-- ===== src/Ppob.antt =====
-- The prepaid and postpaid products: internal/service/provider_router.go.
pub mod Model
pub mod Attempt
pub mod Router
pub mod Tests
