-- ===== src/Lib.antt =====
-- The GTD API gateway (the Go module at the repository's root) sells payments, payouts and
-- prepaid products to merchants: a service validates a merchant's request, chooses one of several
-- providers, writes a row, asks the provider, falls back to the next one where that is safe, and later
-- follows the row to its final status by webhooks, inquiries and workers. This library models those
-- services and states what keeps them correct.
--
-- Prelude, Prelude/Tests, Prelude/Lists, Prelude/Int, Prelude/Text: the shared names; int64 with its
--   wrap-around (add64, sub64), and the functions of Go's strings package that the services call.
-- Errors: Go's error values that the services tell apart: sql.ErrNoRows, *pq.Error, the SNAP errors
--   of pkg/, PaymentServiceError and PayoutServiceError, with extractSNAPError, isUniqueViolation and
--   isReferenceUniqueViolation of internal/service/payout_errors.go and payout_helpers.go.
-- Run, Run/Keeps: an operation is the list of its effects (writes of rows, log entries, notifications,
--   queued callbacks) in their order, and its outcome. Everything that it reads (the clock, fresh ids, the
--   database, the providers' adapters) is a field of an environment, so that every theorem holds
--   whatever these answer.
-- Client: internal/models/client.go.
-- Payment: internal/service/payment_service.go with its neighbours:
--   Model       internal/models/payment.go, method_provider.go, reconciliation.go; the types of
--               internal/service/payment_provider.go
--   Store       internal/repository/payment_repo.go (the INSERT and the UPDATE of payments),
--               internal/service/payment_provider_router.go, mergeProviderData
--   Lifecycle   ApplyWebhook, openReconciliation, refreshStatus, CancelPayment, GetPayment, and the step
--               of ExpirePendingPayments; History is the life of one row, whose operations run one
--               after another
--   Fee         PaymentMethod.CalculateFee, computeTotal
--   Selector    internal/service/payment_provider_selector.go
--   Request     CreatePaymentRequest and the validation of CreatePayment
--   Fallback    the loop of CreatePayment over the providers, writeCreateLog
--   Insert      createWithGeneratedID
--   Detail      simplifyPaymentDetail, renderInstruction, resolveExpiredAt
--   Delivery    internal/service/payment_callback_service.go
--   Create      CreatePayment as a whole, markFailed, findExistingPaymentForDup
--   Tests       sample data, and each theorem at a concrete input
-- Payout: internal/service/payout_service.go with its neighbours:
--   Model       internal/models/payout.go and the types of internal/service/payout_provider.go
--   Failure     internal/service/payout_errors.go and the helpers of payout_helpers.go
--   Store       internal/repository/payout_repo.go (the UPDATE), payout_provider_router.go,
--               mergePayoutProviderData
--   Routing     internal/service/payout_provider_selector.go
--   Request     the requests and their validation, resolveMinAmount, resolveFee
--   Inquiry     runInquiry, createInquiryWithGeneratedID
--   Callback    internal/service/payout_callback_service.go, trySendFinalCallback,
--               trySendProcessingCallback
--   Submit      submitWithFallback
--   Status      refreshStatus, applyStatus, GetPayout
--   Create      Create, Inquiry, createPayoutWithGeneratedID
--   Transfer    what stays the same over the submission, the refresh and the callback
--   Tests       sample data, and each theorem at a concrete input
-- Ppob: internal/service/provider_router.go (Execute, executeWithProvider) with ProviderOption of
--   internal/models/ppob_provider.go: Model, Attempt (the loop), Router, and Tests.
-- Emvco: walkTLV of internal/utils/emvco.go, with Parse for its ParseQRIS and Spaces for the white space
--   that it trims; Framing, Fields and Ends have the theorems.
-- Transaction: internal/service/transaction_service.go with its neighbours:
--   Model       internal/models/transaction.go and the records that the service reads
--   Codes       pkg/digiflazz/rc_codes.go, and ClassifyRC and the tests of pkg/kiosbank/rc_codes.go
--               and pkg/alterra/rc_codes.go
--   FailureCodes, Failure
--               internal/service/provider_public_contract.go, extractProviderErrorCode,
--               providerResponseFromError
--   Store       what the service talks to; the UPDATE of internal/repository/transaction_repo.go
--   Settle      the handle functions, applyProviderTrace, applyAttemptProvider
--   Bookkeeping the effects that an ending has
--   Skus        tryAllSKUs, tryAllSKUsWithOffset
--   RefId       extractRefIDSuffix, and extractBaseRefID of internal/service/callback_service.go
--   Route       executeWithProviderRouter, RetryWithNextProvider
--   Retry       RetryTransaction, RetryWithNextSKU
--   Create      processPrepaid
--   KiosbankRequest
--               mergeAnyMap and normalizeKiosbankRequestData of
--               internal/service/provider_kiosbank.go
--   CachedInquiry, Inquiry
--               processInquiry with its two flows, cachedInquiryToTransaction
--   PayInquiry, Payment
--               executePaymentWithProvider, processPayment
--   Dispatch    CreateTransaction, GetTransaction
--   Callback, ProviderFields, ProviderCallback, ProviderCallback/Alterra
--               ProcessDigiflazzCallback and processCallbackImmediate of
--               internal/service/callback_service.go; internal/service/provider_callback_service.go
--   Told        when the merchant is told by a callback
--   Announced   when the merchant is told of a transaction
--   Tests       sample data, and each theorem at a concrete input
--
-- Bounds and fuel: the loop over the providers runs on as much fuel as the group has bindings, which
-- Payment.Fallback.Loop is about; the loop of an insertion has the 5 rounds that the source
-- has; the loop over the SKUs of Digiflazz takes one unit of fuel for each call, which Transaction.Skus.Ends
-- is about; the walk over an EMVCo payload has one more than its bytes, which Emvco.Ends is about; the
-- trimming of white space takes one for each byte.
-- Amounts are integers of 64 bits; a sum wraps as Go's does.
--
-- Not modelled: the rendering of a row as JSON, log lines, goroutine scheduling (a queued callback is an
-- effect), the arithmetic of floating point (a parameter, with the laws of IEEE 754 where one is needed),
-- random ids (a field of the environment), the wire formats of the providers under pkg/, the HTTP
-- handlers, the walks over JSON texts (parameters of Transaction.FailureCodes), the choice of the sandbox's test
-- numbers, configuration, and SQL beyond the columns that a statement writes. Nor are the PPOB callbacks to
-- merchants (SendCallback of internal/service/callback_service.go; the transactions see a started callback
-- as an effect), the registration of QRIS merchants, the inbound notifications of the banks, the edits of
-- the admin pages, the authentication and the rate limit.
pub mod Prelude
pub mod Errors
pub mod Run
pub mod Client
pub mod Payment
pub mod Payout
pub mod Ppob
pub mod Transaction
pub mod Emvco
