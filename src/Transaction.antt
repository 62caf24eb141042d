-- ===== src/Transaction.antt =====
-- The transactions of prepaid and postpaid products: internal/service/transaction_service.go and
-- its neighbours.
pub mod Model
pub mod Codes
pub mod FailureCodes
pub mod Failure
pub mod Store
pub mod Settle
pub mod Bookkeeping
pub mod RefId
pub mod Skus
pub mod Route
pub mod Retry
pub mod Create
pub mod KiosbankRequest
pub mod CachedInquiry
pub mod Inquiry
pub mod PayInquiry
pub mod Payment
pub mod Dispatch
pub mod Told
pub mod Callback
pub mod ProviderFields
pub mod ProviderCallback
pub mod Announced
mod Tests
