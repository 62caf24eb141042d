-- ===== src/Transaction/Payment.antt =====
-- processPayment of internal/service/transaction_service.go: the checks of a payment against the
-- inquiry of the bill, and its row.
pub mod Quoted
use gtd_api.Prelude.{
  ℕ, String, Bool, true, false, not, ◌&&◌, ◌||◌, Option, none, some, List, [], ◌∷◌, ltb, ◌==◌,
  str_eq, if◌then◌else◌,
}
use gtd_api.Prelude.Int.{ℤ, pos, ltb_ℤ}
use gtd_api.Errors.{GoError, plain_error, error_text, Result, ok, err}
use gtd_api.Run.{Run, emit, fail, return_ok}
use gtd_api.Client.{Client}
use gtd_api.Ppob.Model as Ppob
use gtd_api.Ppob.Model.{
  ExtraValue, number, text, ProviderRequest, ProviderResponse, ProviderOption, PpobProviderClient,
}
use gtd_api.Ppob.Attempt.{Providers}
use gtd_api.Transaction.Model.{
  Transaction, payment, processing, success, failed, CreateTransactionRequest, Product,
  DigiResponse, DigiCall, InquiryData,
}
use gtd_api.Transaction.Codes.{initial_payment, is_success, is_pending}
use gtd_api.Transaction.Failure.Final.{provider_response_from_error}
use gtd_api.Transaction.Store.{
  Env, Effect, paid, digi_paid, logged, uncached, callback_started, persist, notify_status,
}
use gtd_api.Transaction.Settle.{
  Handled, unless_empty, some_if_positive, settle, keep_going, described, apply_provider_trace,
  handle_provider_failed, handle_all_skus_failed,
}
use gtd_api.Transaction.Skus.{Running, finished, log_attempt}
use gtd_api.Transaction.Route.{log_provider_attempt}
use gtd_api.Transaction.KiosbankRequest.{set_key, merge_extra, normalize_kiosbank_request_data}
use gtd_api.Transaction.Create.{new_transaction, after_insert}
use Prim.Native.String.{◌++◌ as ◌<>◌}
use gtd_api.Transaction.PayInquiry.{
  with_reference, is_kiosbank, payment_extra, payment_ref, payment_request, assigned,
  payment_option, payment_succeeded, payment_pending, settle_paid, payment_answered,
  execute_payment_with_provider, digi_payment_succeeded, digi_payment_answered, digi_payment_call,
  pay_digiflazz, client_of, pay_routed, submit_payment,
}

-- The validation of a payment against its inquiry, with the answer of the product's lookup.
abbrev pub product_matches : (product_id : ℕ) → Result (Option Product) → Bool
product_matches product_id (ok (some product)) = product.id == product_id
product_matches product_id _ = false

unfoldable pub check_payment :
    Env → CreateTransactionRequest → Client → InquiryData → Option GoError
check_payment env req client d =
    if not (str_eq d.reference_id req.reference_id)
    then some (plain_error "REFERENCE_MISMATCH")
    else if not (str_eq d.customer_no req.customer_no)
    then some (plain_error "CUSTOMER_MISMATCH")
    else if not (d.client_id == client.id)
    then some (plain_error "TRANSACTION_NOT_FOUND")
    else if not (str_eq d.status "") && not (str_eq d.status "Success")
    then some (plain_error "INVALID_TRANSACTION_TYPE")
    else if not (product_matches d.product_id (env.by_sku_code req.sku_code))
    then some (plain_error "SKU_MISMATCH")
    else if ltb d.expired_at env.now
    then some (plain_error "INQUIRY_EXPIRED")
    else none

abbrev pub payment_row :
    (id : String)
    → CreateTransactionRequest
    → Client
    → InquiryData
    → (is_sandbox : Bool) → Transaction
payment_row id req client d is_sandbox =
    new_transaction id req client d.product_id d.sku_code d.customer_no payment is_sandbox
      (if ltb_ℤ (pos 0) d.amount then some d.amount else none)

unfoldable pub create_payment_transaction :
    Env
    → CreateTransactionRequest
    → Client
    → InquiryData
    → (is_sandbox : Bool) → Result String
    → Running
unfolding submit_payment
create_payment_transaction env req client d is_sandbox (err e) = fail e
create_payment_transaction env req client d is_sandbox (ok id) =
    after_insert env (payment_row id req client d is_sandbox) (λ e. fail e)
      (submit_payment env d req) (env.insert (payment_row id req client d is_sandbox))

abbrev pub checked_payment :
    Env
    → CreateTransactionRequest
    → Client
    → InquiryData
    → (is_sandbox : Bool) → Option GoError
    → Running
checked_payment env req client d is_sandbox (some e) = fail e
checked_payment env req client d is_sandbox none =
    create_payment_transaction env req client d is_sandbox env.new_transaction_id

unfoldable pub found_inquiry :
    Env
    → CreateTransactionRequest
    → Client
    → (is_sandbox : Bool) → Result (Option InquiryData)
    → Running
unfolding check_payment create_payment_transaction error_text
found_inquiry env req client is_sandbox (err e) =
    fail (plain_error ("failed to get inquiry: " <> error_text e))
found_inquiry env req client is_sandbox (ok none) = fail (plain_error "TRANSACTION_NOT_FOUND")
found_inquiry env req client is_sandbox (ok (some d)) =
    checked_payment env req client d is_sandbox (check_payment env req client d)

unfoldable pub process_payment :
    Env → CreateTransactionRequest → Client → (is_sandbox : Bool) → Running
unfolding found_inquiry
process_payment env req client is_sandbox =
    found_inquiry env req client is_sandbox (env.cached_by_id req.transaction_id)
