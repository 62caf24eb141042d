-- ===== src/Transaction/Failure.antt =====
-- What a merchant is told of a failure: internal/service/provider_public_contract.go, with
-- extractProviderErrorCode and providerResponseFromError of
-- internal/service/transaction_service.go.
pub mod Final
pub mod Least
use gtd_api.Prelude.{
  ℕ, String, Bool, true, false, ◌&&◌, ◌||◌, Option, none, some, List, [], ◌∷◌, any, ltb, leb, ◌==◌,
  str_eq, starts_with, if◌then◌else◌, length,
}
use gtd_api.Prelude.Int.{ℤ, pos, same_ℤ}
use gtd_api.Prelude.Text.{trim_space, to_lower, contains, codes}
use gtd_api.Errors.{GoError, error_text, Result, ok, err}
use gtd_api.Ppob.Model.{ProviderResponse, ProviderAttempt}
use gtd_api.Transaction.Codes.{Phase, inquiry_phase, initial_payment, async, listed}
use Prim.Native.Char.{Char, code as char_code}
use Prim.Native.String.{◌++◌ as ◌<>◌}
use gtd_api.Transaction.FailureCodes.{
  JsonTexts, CanonicalFailure, failure, canonical_failures, failure_precedence, find, find_failure,
  get_canonical_failure, rank_or, precedence, looks_like_timeout_message, combined,
  looks_like_transport_timeout, looks_like_transport_failure,
}

-- The first row of a table that has the code.
unfoldable pub failure_by_rc : List (List String × String) → String → CanonicalFailure
unfolding get_canonical_failure
failure_by_rc [] rc = get_canonical_failure "GENERAL_PROVIDER_ERROR"
failure_by_rc ((codes, failure) ∷ rest) rc =
    if listed codes rc then get_canonical_failure failure else failure_by_rc rest rc

unfoldable pub kiosbank_inquiry_failures : List (List String × String)
kiosbank_inquiry_failures =
    ("04" ∷ "39" ∷ [], "PROVIDER_TIMEOUT")
    ∷ ("05" ∷ "14" ∷ "18" ∷ "38" ∷ "85" ∷ [], "PROVIDER_UNAVAILABLE")
    ∷ ("15" ∷ [], "UPSTREAM_REQUEST_INVALID")
    ∷ ("19" ∷ [], "INQUIRY_NOT_FOUND")
    ∷ ("60" ∷ "62" ∷ "80" ∷ [], "BILL_UNAVAILABLE")
    ∷ ("64" ∷ "74" ∷ [], "ALREADY_PAID")
    ∷ ("65" ∷ "78" ∷ [], "INVALID_CUSTOMER")
    ∷ ("68" ∷ "69" ∷ "83" ∷ [], "CUSTOMER_RESTRICTED")
    ∷ ("70" ∷ [], "INVALID_AMOUNT")
    ∷ ("72" ∷ "79" ∷ [], "LIMIT_EXCEEDED")
    ∷ ("61" ∷ [], "INQUIRY_REQUIRED")
    ∷ ("46" ∷ [], "REQUEST_EXPIRED")
    ∷ ("75" ∷ [], "COOLDOWN_ACTIVE")
    ∷ ("02" ∷ "37" ∷ "40" ∷ "42" ∷ [], "UPSTREAM_REQUEST_INVALID")
    ∷ ("12" ∷ [], "PROVIDER_BALANCE_INSUFFICIENT")
    ∷ []

unfoldable pub kiosbank_payment_failures : List (List String × String)
kiosbank_payment_failures =
    ("17" ∷ [], "GENERAL_PROVIDER_ERROR")
    ∷ ("12" ∷ [], "PROVIDER_BALANCE_INSUFFICIENT")
    ∷ ("15" ∷ "42" ∷ "02" ∷ "37" ∷ "40" ∷ [], "UPSTREAM_REQUEST_INVALID")
    ∷ ("18" ∷ "85" ∷ [], "PROVIDER_UNAVAILABLE")
    ∷ ("41" ∷ [], "PRODUCT_UNAVAILABLE")
    ∷ ("46" ∷ [], "REQUEST_EXPIRED")
    ∷ ("60" ∷ "62" ∷ "80" ∷ [], "BILL_UNAVAILABLE")
    ∷ ("61" ∷ [], "INQUIRY_REQUIRED")
    ∷ ("64" ∷ "74" ∷ [], "ALREADY_PAID")
    ∷ ("65" ∷ "78" ∷ [], "INVALID_CUSTOMER")
    ∷ ("68" ∷ "69" ∷ "83" ∷ [], "CUSTOMER_RESTRICTED")
    ∷ ("70" ∷ [], "INVALID_AMOUNT")
    ∷ ("72" ∷ "79" ∷ [], "LIMIT_EXCEEDED")
    ∷ ("75" ∷ [], "COOLDOWN_ACTIVE")
    ∷ ("86" ∷ [], "DUPLICATE_TRANSACTION")
    ∷ []

-- The switch on the phase.
unfoldable pub kiosbank_by_phase : Phase → (rc : String) → CanonicalFailure
unfolding failure_by_rc get_canonical_failure kiosbank_inquiry_failures kiosbank_payment_failures
kiosbank_by_phase inquiry_phase rc = failure_by_rc kiosbank_inquiry_failures rc
kiosbank_by_phase initial_payment rc = failure_by_rc kiosbank_payment_failures rc
kiosbank_by_phase async rc =
    get_canonical_failure
      (if str_eq rc "17" then "GENERAL_PROVIDER_ERROR" else "PROVIDER_UNAVAILABLE")

unfoldable pub kiosbank_failure : JsonTexts → Phase → ProviderResponse → CanonicalFailure
unfolding kiosbank_by_phase looks_like_transport_timeout looks_like_transport_failure trim_space
    get_canonical_failure
kiosbank_failure texts phase r =
    if looks_like_transport_timeout texts r
    then get_canonical_failure "PROVIDER_TIMEOUT"
    else if looks_like_transport_failure texts r
    then get_canonical_failure "PROVIDER_UNAVAILABLE"
    else if str_eq r.public_code ""
    then kiosbank_by_phase phase (trim_space r.rc)
    else get_canonical_failure r.public_code

unfoldable pub generic_failure : JsonTexts → ProviderResponse → CanonicalFailure
unfolding looks_like_transport_timeout looks_like_transport_failure get_canonical_failure
generic_failure texts r = get_canonical_failure (
    if looks_like_transport_timeout texts r
    then "PROVIDER_TIMEOUT"
    else if looks_like_transport_failure texts r
    then "PROVIDER_UNAVAILABLE"
    else "GENERAL_PROVIDER_ERROR")

-- The cases on the response code alone, of canonicalAlterraFailure.
unfoldable pub alterra_failures : List (String × String)
alterra_failures =
    ("20", "INVALID_CUSTOMER")
    ∷ ("21", "PRODUCT_UNAVAILABLE")
    ∷ ("22", "DUPLICATE_TRANSACTION")
    ∷ ("23", "PROVIDER_TIMEOUT")
    ∷ ("24", "PROVIDER_UNAVAILABLE")
    ∷ ("25", "LIMIT_EXCEEDED")
    ∷ ("26", "LIMIT_EXCEEDED")
    ∷ ("50", "ALREADY_PAID")
    ∷ ("51", "INQUIRY_NOT_FOUND")
    ∷ ("98", "ORDER_CANCELED")
    ∷ ("99", "GENERAL_PROVIDER_ERROR")
    ∷ []

-- The cases behind them; `message`, `raw_code` and `raw_message` are in lower case.
unfoldable pub alterra_by_text :
    JsonTexts → ProviderResponse → (rc message raw_code raw_message : String) → String
unfolding contains trim_space looks_like_transport_timeout looks_like_transport_failure
alterra_by_text texts r rc message raw_code raw_message =
    let is_status = λ (n : ℕ). same_ℤ r.http_status (pos n) in
    let says = λ (part : String). contains message part || contains raw_message part in
    if contains rc "product_closed"
      || contains raw_code "product_closed"
      || says "product closed"
      || is_status 450
    then "PRODUCT_UNAVAILABLE"
    else if contains rc "insufficient_deposit"
        || contains raw_code "insufficient_deposit"
        || says "insufficient deposit"
    then "PROVIDER_BALANCE_INSUFFICIENT"
    else if says "duplicate order id" || is_status 422
    then "DUPLICATE_TRANSACTION"
    else if is_status 400 || is_status 406
    then "UPSTREAM_REQUEST_INVALID"
    else if is_status 401
    then "UPSTREAM_AUTH_ERROR"
    else if is_status 403 && (says "invalid product" || says "product unavailable")
    then "UPSTREAM_REQUEST_INVALID"
    else if is_status 403
    then "UPSTREAM_AUTH_ERROR"
    else if is_status 504
    then "PROVIDER_TIMEOUT"
    else if looks_like_transport_timeout texts r
    then "PROVIDER_TIMEOUT"
    else if looks_like_transport_failure texts r
    then "PROVIDER_UNAVAILABLE"
    else if starts_with (trim_space r.rc) "4"
    then "UPSTREAM_REQUEST_INVALID"
    else "GENERAL_PROVIDER_ERROR"

abbrev code_or : String → Option String → String
code_or other none = other
code_or other (some found) = found

unfoldable pub alterra_failure : JsonTexts → ProviderResponse → CanonicalFailure
unfolding find alterra_failures alterra_by_text get_canonical_failure to_lower trim_space
alterra_failure texts r =
    let raw = texts.raw_error r.raw_response in
    let rc = to_lower (trim_space r.rc) in
    let by_text =
      alterra_by_text texts r rc (to_lower (trim_space r.message)) (to_lower raw.0)
        (to_lower raw.1) in
    get_canonical_failure (code_or by_text (find rc alterra_failures))

-- CanonicalFailureForResponse, for a response that is not nil.
unfoldable pub canonical_failure :
    JsonTexts → (provider : String) → Phase → ProviderResponse → CanonicalFailure
unfolding alterra_failure kiosbank_failure generic_failure get_canonical_failure
canonical_failure texts provider phase r =
    if str_eq r.public_code ""
    then (if str_eq provider "alterra"
        then alterra_failure texts r
        else if str_eq provider "kiosbank"
        then kiosbank_failure texts phase r
        else generic_failure texts r)
    else get_canonical_failure r.public_code
