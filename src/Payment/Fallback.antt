-- ===== src/Payment/Fallback.antt =====
-- The loop over the providers in CreatePayment of internal/service/payment_service.go: what is
-- asked of each adapter, and which failures go on to the next one.
pub mod Loop
pub mod Charges
use gtd_api.Prelude.{
  ℕ, zero, suc, ◌+◌, ◌*◌, String, ◌≡◌, Bool, true, false, ◌&&◌, ◌||◌, not, Option, none, some, List,
  [], ◌∷◌, ◌++◌, leb, str_eq, length, if◌then◌else◌,
}
use gtd_api.Prelude.Int.{ℤ, pos, negsuc, ltb_ℤ}
use gtd_api.Prelude.Text.{trim_space, equal_fold}
use gtd_api.Errors.{
  GoError, no_cause, pq_error, payment_error, payout_error, is_no_rows, is_unique_violation,
  is_reference_unique_violation, error_text, Result, ok, err,
}
use gtd_api.Run.{Run, return_ok, fail, emit, emit_if, write}
use gtd_api.Payment.Model.{
  Payment, PaymentType, va, ewallet, qris, retail, other_type, type_text, pending, failed,
  PaymentMethod, MethodProviderBinding, PaymentCreateRequest, PaymentCreateResponse,
  PaymentDetailNormalized, Raw,
}
use gtd_api.Payment.Store.{
  Env, Effect, Inserted, PaymentProviderClient, inserted, updated, create_logged, create_called,
  notified_created, notified_changed, callback_enqueued, router_get, scan_inserted, update_payment,
  merge_provider_data,
}
use gtd_api.Payment.Fee.{Float64, calculate_fee, compute_total}
use gtd_api.Payment.Selector.{select, next, method_unavailable}
use gtd_api.Payment.Request.{
  ValidRequest, is_blank, validation_error, CreatePaymentRequest, validate,
}
use Prim.Native.String.{◌++◌ as ◌<>◌}

-- paymentProviderErrorCode: errors.As finds the outermost service error of the chain, whose code
-- counts unless it is empty.
abbrev code_or_default : String → String
code_or_default code = if str_eq code "" then "PROVIDER_ERROR" else code

unfoldable pub payment_provider_error_code : GoError → String
payment_provider_error_code (payment_error http code message cause) = code_or_default code
payment_provider_error_code (payout_error http code message retryable cause) =
    payment_provider_error_code cause
payment_provider_error_code _ = "PROVIDER_ERROR"

abbrev retryable_code : (http : ℕ) → (code : String) → Bool
retryable_code http code =
    if str_eq code "PROVIDER_UNAVAILABLE" || str_eq code "PROVIDER_TIMEOUT"
    then true
    else if str_eq code "PROVIDER_DUPLICATE"
    then false
    else leb 500 http

-- isRetryableProviderError of an error that is not nil. An error with no PaymentServiceError in its
-- chain is retryable.
unfoldable pub is_retryable_provider_error : GoError → Bool
is_retryable_provider_error (payment_error http code message cause) = retryable_code http code
is_retryable_provider_error (payout_error http code message retryable cause) =
    is_retryable_provider_error cause
is_retryable_provider_error _ = true

-- What one creation works with, once the method and the amounts are fixed.
pub record Order : Type 0 where
  pub env : Env
  pub method_type : PaymentType
  pub method_code : String
  pub request : ValidRequest
  pub fee : ℤ
  pub total_amount : ℤ
  pub expired_at : ℕ
  pub client_name : String
  pub partner_ref : String
  pub bindings : List MethodProviderBinding

abbrev bank_code_of : (method_code : String) → Option String → String
bank_code_of method_code none = method_code
bank_code_of method_code (some code) =
    if str_eq (trim_space code) "" then method_code else trim_space code

unfoldable pub provider_request : Order → MethodProviderBinding → PaymentCreateRequest
unfolding trim_space
provider_request o b = record {
  type = o.method_type;
  code = o.method_code;
  bank_code = bank_code_of o.method_code b.provider_bank_code;
  partner_ref = o.partner_ref;
  amount = o.request.amount;
  fee = o.fee;
  total_amount = o.total_amount;
  expired_at = o.expired_at;
  description = o.request.description;
  client_name = o.client_name;
  customer_name = o.request.customer.name;
  customer_email = o.request.customer.email;
  customer_phone = o.request.customer.phone;
  return_url = o.request.return_url;
  scan_data = o.request.scan_data;
}

-- How the loop over the providers ends: a provider accepted, a provider knows the reference already, or
-- the creation failed with the error of the last attempt.
pub data Created : Type 0 where
  accepted : MethodProviderBinding → PaymentCreateResponse → Created
  duplicate : MethodProviderBinding → GoError → Created
  refused : MethodProviderBinding → GoError → Created

-- writeCreateLog, after the call of an adapter.
abbrev log_entry : (provider : String) → Result PaymentCreateResponse → Effect
log_entry provider (ok response) = create_logged provider true none
log_entry provider (err e) = create_logged provider false (some (payment_provider_error_code e))

-- One attempt: the effects of asking the binding's adapter, if there is one, and its answer.
unfoldable pub ask :
    Order
    → MethodProviderBinding
    → Result PaymentProviderClient
    → List Effect × Result PaymentCreateResponse
ask o b (err e) = ([], err e)
ask o b (ok client) =
    let answer = client.create_payment (provider_request o b) in
    (create_called b.provider (provider_request o b) ∷ log_entry b.provider answer ∷ [], answer)

unfoldable pub attempt : Order → MethodProviderBinding → List Effect × Result PaymentCreateResponse
unfolding ask router_get
attempt o b = ask o b (router_get o.env.clients b.provider)

-- A loop that ran out of fuel gives `none`.
abbrev pub Attempts : Type 0
Attempts = List Effect × Option Created

abbrev pub advance :
    (MethodProviderBinding → Attempts)
    → MethodProviderBinding
    → GoError
    → Option MethodProviderBinding
    → Attempts
advance go b e none = ([], some (refused b e))
advance go b e (some n) = go n

abbrev pub after_attempt :
    (MethodProviderBinding → Attempts)
    → MethodProviderBinding
    → Option MethodProviderBinding
    → Result PaymentCreateResponse
    → Attempts
after_attempt go b following (ok response) = ([], some (accepted b response))
after_attempt go b following (err e) =
    if str_eq (payment_provider_error_code e) "PROVIDER_DUPLICATE"
    then ([], some (duplicate b e))
    else if is_retryable_provider_error e
    then advance go b e following
    else ([], some (refused b e))

abbrev pub followed_by : List Effect → Attempts → Attempts
followed_by effects (rest, end) = (effects ++ rest, end)

-- `for binding != nil`: each round asks one provider, and a retryable failure goes on to the next.
unfoldable pub fallback : ℕ → Order → MethodProviderBinding → Attempts
unfolding attempt
fallback zero o b = ([], none)
fallback (suc fuel) o b =
    followed_by (attempt o b).0
      (after_attempt (λ n. fallback fuel o n) b (next o.env.clients o.bindings b) (attempt o b).1)
