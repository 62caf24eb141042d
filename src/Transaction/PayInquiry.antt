-- ===== src/Transaction/PayInquiry.antt =====
-- executePaymentWithProvider and the end of processPayment in
-- internal/service/transaction_service.go: what follows the insertion of a payment. An adapter that
-- rewrites the reference of its request is not modelled.
use gtd_api.Prelude.{
  ℕ, String, Bool, false, not, ◌&&◌, ◌||◌, Option, none, some, List, [], str_eq, if◌then◌else◌,
}
use gtd_api.Prelude.Int.{pos}
use gtd_api.Errors.{plain_error, error_text, Result, ok, err}
use gtd_api.Run.{emit, fail, return_ok}
use gtd_api.Ppob.Model as Ppob
use gtd_api.Ppob.Model.{
  ExtraValue, number, text, ProviderRequest, ProviderResponse, ProviderOption, PpobProviderClient,
}
use gtd_api.Ppob.Attempt.{Providers}
use gtd_api.Transaction.Model.{
  Transaction, processing, success, failed, CreateTransactionRequest, DigiResponse, DigiCall,
  InquiryData,
}
use gtd_api.Transaction.Codes.{initial_payment, is_success, is_pending}
use gtd_api.Transaction.Failure.Final.{provider_response_from_error}
use gtd_api.Transaction.Store.{
  Env, paid, digi_paid, logged, uncached, callback_started, persist, notify_status,
}
use gtd_api.Transaction.Settle.{
  Handled, unless_empty, some_if_positive, settle, keep_going, described, apply_provider_trace,
  handle_provider_failed, handle_all_skus_failed,
}
use gtd_api.Transaction.Skus.{Running, finished, log_attempt}
use gtd_api.Transaction.Route.{log_provider_attempt}
use gtd_api.Transaction.KiosbankRequest.{set_key, merge_extra, normalize_kiosbank_request_data}
use Prim.Native.String.{◌++◌ as ◌<>◌}

abbrev pub with_reference : String → List (String × ExtraValue) → List (String × ExtraValue)
with_reference ref extra = if str_eq ref "" then extra else set_key "reference_no" (text ref) extra

abbrev pub is_kiosbank : String → Bool
is_kiosbank provider = str_eq provider "kiosbank"

unfoldable pub payment_extra :
    Env → InquiryData → CreateTransactionRequest → List (String × ExtraValue)
unfolding set_key merge_extra normalize_kiosbank_request_data
payment_extra env d req =
    let extra =
      set_key "admin" (number d.admin)
        (with_reference d.provider_ref_no (merge_extra d.provider_extra req.extra)) in
    if is_kiosbank d.provider_code then normalize_kiosbank_request_data env extra else extra

unfoldable pub payment_ref : InquiryData → String
payment_ref d =
    if is_kiosbank d.provider_code && not (str_eq d.provider_transaction_id "")
    then d.provider_transaction_id
    else d.transaction_id

unfoldable pub payment_request :
    Env → Transaction → InquiryData → CreateTransactionRequest → ProviderRequest
unfolding payment_extra payment_ref
payment_request env t d req = record {
  ref_id = payment_ref d;
  sku_code = d.provider_sku_code;
  customer_no = d.customer_no;
  amount = d.amount;
  type = Ppob.payment;
  is_sandbox = t.is_sandbox;
  extra = payment_extra env d req;
  excluded_provider_sku_ids = [];
  force_provider = none;
  inquiry_ref_id = "";
}

-- The payment with the provider of the inquiry.
unfoldable pub assigned : Transaction → InquiryData → Transaction
unfolding payment_ref
assigned t d = record t {
  provider_id = some d.provider_id;
  provider_sku_id = some d.provider_sku_id;
  provider_code = some d.provider_code;
  admin = d.admin;
  amount = some_if_positive d.amount t.amount;
  provider_ref_id =
      if is_kiosbank d.provider_code
      then unless_empty (payment_ref d) t.provider_ref_id
      else t.provider_ref_id;
}

abbrev pub payment_option : InquiryData → ProviderOption
payment_option d = record {
  provider_id = d.provider_id;
  provider_code = d.provider_code;
  provider_sku_id = d.provider_sku_id;
  provider_sku_code = d.provider_sku_code;
  price = d.amount;
  admin = d.admin;
  commission = pos 0;
  is_backup = false;
}

unfoldable pub payment_succeeded : Env → Transaction → ProviderResponse → Transaction
unfolding described
payment_succeeded env t r = record (described env.texts t r) {
  status = success;
  failed_code = none;
  failed_reason = none;
  serial_number = unless_empty r.serial_number t.serial_number;
  amount = some_if_positive r.amount t.amount;
  buy_price = some_if_positive r.amount t.buy_price;
  processed_at = some env.now;
}

unfoldable pub payment_pending : Env → Transaction → ProviderResponse → Transaction
unfolding described
payment_pending env t r = record (described env.texts t r) {
  status = processing;
  failed_code = none;
  failed_reason = none;
  amount = some_if_positive r.amount t.amount;
}

-- A success also forgets the inquiry, between the write and the notification.
unfoldable pub settle_paid : Env → Transaction → InquiryData → Handled
settle_paid env t d = persist env t (
    emit (uncached d)
      (notify_status env t (emit (callback_started t "transaction.success") (return_ok t))))

unfoldable pub payment_answered :
    Env → Transaction → InquiryData → Result ProviderResponse → Handled
unfolding payment_succeeded payment_pending settle_paid handle_provider_failed keep_going
payment_answered env t d (err e) =
    let r = provider_response_from_error env.texts d.provider_code initial_payment (error_text e) in
    if r.pending
    then keep_going env (record t { status = processing })
    else handle_provider_failed env t r
payment_answered env t d (ok r) =
    let traced =
      apply_provider_trace
        (record t { provider_ref_id = unless_empty r.provider_ref_id t.provider_ref_id }) r in
    if r.success
    then settle_paid env (payment_succeeded env traced r) d
    else if r.pending
    then keep_going env (payment_pending env traced r)
    else handle_provider_failed env traced r

-- executePaymentWithProvider
unfoldable pub execute_payment_with_provider :
    Env → Transaction → InquiryData → CreateTransactionRequest → Option PpobProviderClient → Handled
unfolding payment_request assigned payment_answered log_provider_attempt
execute_payment_with_provider env t d req none =
    fail (plain_error ("provider adapter not found: " <> d.provider_code))
execute_payment_with_provider env t d req (some c) =
    let request = payment_request env t d req in
    let answer = c.payment request in
    emit (paid d.provider_code request answer) (
      emit (logged (log_provider_attempt t.id (payment_option d) request.ref_id answer))
        (payment_answered env (assigned t d) d answer))

unfoldable pub digi_payment_succeeded : Env → Transaction → InquiryData → DigiResponse → Transaction
digi_payment_succeeded env t d r = record t {
  status = success;
  serial_number = unless_empty r.sn t.serial_number;
  amount = some r.price;
  buy_price = some r.price;
  processed_at = some env.now;
  digi_ref_id = some d.transaction_id;
}

unfoldable pub digi_payment_answered :
    Env → Transaction → InquiryData → Result DigiResponse → Handled
unfolding digi_payment_succeeded settle_paid settle keep_going handle_all_skus_failed is_success
    is_pending
digi_payment_answered env t d (err e) = handle_all_skus_failed env t
digi_payment_answered env t d (ok r) =
    if is_success r.rc
    then settle_paid env (digi_payment_succeeded env t d r) d
    else if is_pending r.rc
    then keep_going env (record t {
      status = processing;
      amount = some r.price;
      digi_ref_id = some d.transaction_id;
    })
    else settle env
        (record t {
          status = failed;
          failed_reason = some r.message;
          processed_at = some env.now;
          digi_ref_id = some d.transaction_id;
        })
        "transaction.failed"

unfoldable pub digi_payment_call :
    Env → Transaction → InquiryData → CreateTransactionRequest → DigiCall
digi_payment_call env t d req =
    let goal =
      if t.is_sandbox
      then env.test_mapping req.sku_code t.type
      else (req.sku_code, d.customer_no) in
    record {
      sku_code = goal.0;
      customer_no = goal.1;
      ref_id = d.transaction_id;
      testing = t.is_sandbox;
      answer = env.digi_payment goal.0 goal.1 d.transaction_id t.is_sandbox;
    }

-- The legacy flow.
unfoldable pub pay_digiflazz : Env → Transaction → InquiryData → CreateTransactionRequest → Handled
unfolding digi_payment_answered digi_payment_call log_attempt
pay_digiflazz env t d req =
    let c = digi_payment_call env t d req in
    emit (digi_paid c)
      (emit (logged (log_attempt t.id 0 c)) (digi_payment_answered env t d c.answer))

abbrev pub client_of :
    (provider : String) → (product_id : ℕ) → (ℕ → Providers) → Option PpobProviderClient
client_of provider product_id router = (router product_id).clients provider

abbrev pub pay_routed :
    Env → Transaction → InquiryData → CreateTransactionRequest → Option (ℕ → Providers) → Handled
pay_routed env t d req none = pay_digiflazz env t d req
pay_routed env t d req (some router) =
    if str_eq d.provider_code "" || t.is_sandbox
    then pay_digiflazz env t d req
    else execute_payment_with_provider env t d req (client_of d.provider_code d.product_id router)

unfoldable pub submit_payment : Env → InquiryData → CreateTransactionRequest → Transaction → Running
unfolding pay_digiflazz execute_payment_with_provider
submit_payment env d req t = finished (pay_routed env t d req env.router)
