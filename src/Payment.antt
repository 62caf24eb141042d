-- ===== src/Payment.antt =====
-- The payment side of the service: internal/models/payment.go, internal/service/payment_service.go,
-- internal/service/payment_provider_selector.go and the table of internal/repository/payment_repo.go.
pub mod Model
pub mod Store
pub mod Lifecycle
pub mod Fee
pub mod Selector
pub mod Request
pub mod Fallback
pub mod Insert
pub mod Detail
pub mod Create
pub mod Tests
pub mod Delivery
