-- ===== src/Transaction/FailureCodes.antt =====
-- The canonical failures of internal/service/provider_public_contract.go, with their precedence, and
-- its tests of the text of a failure.
use gtd_api.Prelude.{
  ℕ, String, Bool, ◌||◌, Option, none, some, List, [], ◌∷◌, str_eq, if◌then◌else◌,
}
use gtd_api.Prelude.Text.{trim_space, to_lower, contains}
use gtd_api.Ppob.Model.{ProviderResponse}
use gtd_api.Transaction.Codes.{Phase}
use Prim.Native.String.{◌++◌ as ◌<>◌}

-- What the service takes from JSON texts: SanitizePublicProviderDescription, the code and the
-- message that extractRawProviderError finds, and the text of an error with its phase.
pub record JsonTexts : Type 0 where
  pub sanitize : String → String
  pub raw_error : String → String × String
  pub transport_error : (message : String) → Phase → String

pub record CanonicalFailure : Type 0 where
  pub code : String
  pub http_status : ℕ
  pub message : String

abbrev pub failure : (code : String) → (http_status : ℕ) → (message : String) → CanonicalFailure
failure code http_status message = record {
  code = code;
  http_status = http_status;
  message = message;
}

unfoldable pub canonical_failures : List CanonicalFailure
canonical_failures =
    failure "DUPLICATE_TRANSACTION" 409 "Duplicate transaction"
    ∷ failure "ALREADY_PAID" 409 "Bill or transaction has already been paid"
    ∷ failure "INQUIRY_REQUIRED" 409 "Inquiry must be completed before payment"
    ∷ failure "REQUEST_EXPIRED" 409 "Transaction request has expired"
    ∷ failure "COOLDOWN_ACTIVE" 409 "Similar transaction is temporarily restricted"
    ∷ failure "ORDER_CANCELED" 409 "Transaction was canceled by upstream operations"
    ∷ failure "INVALID_CUSTOMER" 422 "Customer number or account is invalid"
    ∷ failure "CUSTOMER_RESTRICTED" 422 "Customer is not allowed to transact"
    ∷ failure "INVALID_AMOUNT" 422 "Transaction amount is invalid"
    ∷ failure "INQUIRY_NOT_FOUND" 422 "Inquiry not found or amount has changed"
    ∷ failure "BILL_UNAVAILABLE" 422 "Bill is not available"
    ∷ failure "LIMIT_EXCEEDED" 422 "Transaction exceeds the allowed limit"
    ∷ failure "PRODUCT_UNAVAILABLE" 503 "Product is temporarily unavailable"
    ∷ failure "PROVIDER_BALANCE_INSUFFICIENT" 503 "Transaction cannot be processed at the moment"
    ∷ failure "PROVIDER_UNAVAILABLE" 503 "Provider service is temporarily unavailable"
    ∷ failure "NO_PROVIDER_AVAILABLE" 503 "No provider could complete the transaction"
    ∷ failure "PROVIDER_TIMEOUT" 504 "Provider did not respond in time"
    ∷ failure "UPSTREAM_REQUEST_INVALID" 502 "Upstream request could not be processed"
    ∷ failure "UPSTREAM_AUTH_ERROR" 502 "Upstream authentication failed"
    ∷ failure "GENERAL_PROVIDER_ERROR" 502 "Transaction could not be completed"
    ∷ []

-- ORDER_CANCELED has no entry.
unfoldable pub failure_precedence : List (String × ℕ)
failure_precedence =
    ("INVALID_CUSTOMER", 10)
    ∷ ("CUSTOMER_RESTRICTED", 11)
    ∷ ("INVALID_AMOUNT", 12)
    ∷ ("INQUIRY_NOT_FOUND", 13)
    ∷ ("BILL_UNAVAILABLE", 14)
    ∷ ("LIMIT_EXCEEDED", 15)
    ∷ ("ALREADY_PAID", 16)
    ∷ ("INQUIRY_REQUIRED", 17)
    ∷ ("DUPLICATE_TRANSACTION", 18)
    ∷ ("REQUEST_EXPIRED", 19)
    ∷ ("COOLDOWN_ACTIVE", 20)
    ∷ ("PRODUCT_UNAVAILABLE", 30)
    ∷ ("PROVIDER_BALANCE_INSUFFICIENT", 40)
    ∷ ("UPSTREAM_REQUEST_INVALID", 41)
    ∷ ("UPSTREAM_AUTH_ERROR", 42)
    ∷ ("PROVIDER_UNAVAILABLE", 43)
    ∷ ("PROVIDER_TIMEOUT", 44)
    ∷ ("GENERAL_PROVIDER_ERROR", 45)
    ∷ ("NO_PROVIDER_AVAILABLE", 99)
    ∷ []

unfoldable pub find {ℓ} : {A : Type ℓ} → String → List (String × A) → Option A
find k [] = none
find k ((j, v) ∷ rest) = if str_eq j k then some v else find k rest

unfoldable pub find_failure : String → List CanonicalFailure → CanonicalFailure
find_failure code [] = failure "GENERAL_PROVIDER_ERROR" 502 "Transaction could not be completed"
find_failure code (f ∷ rest) = if str_eq f.code code then f else find_failure code rest

-- GetCanonicalProviderFailure
unfoldable pub get_canonical_failure : String → CanonicalFailure
unfolding find_failure canonical_failures
get_canonical_failure code = find_failure code canonical_failures

abbrev pub rank_or : Option ℕ → ℕ
rank_or none = 0
rank_or (some n) = n

-- The entry of providerFailurePrecedence, where Go's map gives 0 for a code that it does not have.
unfoldable pub precedence : String → ℕ
unfolding find failure_precedence
precedence code = rank_or (find code failure_precedence)

unfoldable pub looks_like_timeout_message : String → Bool
unfolding contains to_lower trim_space
looks_like_timeout_message message =
    let lower = to_lower (trim_space message) in
    contains lower "context deadline exceeded"
    || contains lower "timeout"
    || contains lower "deadline exceeded"

-- strings.ToLower(strings.Join(…, " ")) of the two functions below.
abbrev pub combined : JsonTexts → ProviderResponse → String
combined texts r =
    let raw = texts.raw_error r.raw_response in
    to_lower (r.rc <> " " <> r.message <> " " <> raw.0 <> " " <> raw.1)

unfoldable pub looks_like_transport_timeout : JsonTexts → ProviderResponse → Bool
unfolding looks_like_timeout_message to_lower
looks_like_transport_timeout texts r = looks_like_timeout_message (combined texts r)

unfoldable pub looks_like_transport_failure : JsonTexts → ProviderResponse → Bool
unfolding contains to_lower
looks_like_transport_failure texts r =
    let text = combined texts r in
    contains text "transport error"
    || contains text "tls:"
    || contains text "dial tcp"
    || contains text "no response"
