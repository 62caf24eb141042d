-- ===== src/Payment/Create.antt =====
-- CreatePayment of internal/service/payment_service.go: validation, idempotency, the checks of the
-- method, the choice of a provider, the insertion under a fresh id, the attempts over the
-- providers, and the outcome.
pub mod Row
pub mod Passed
pub mod First
use gtd_api.Prelude.{
  ℕ, String, Bool, true, false, ◌&&◌, not, Option, none, some, List, [], ◌∷◌, ◌++◌, length, str_eq,
  if◌then◌else◌,
}
use gtd_api.Prelude.Int.{ℤ, pos, ltb_ℤ}
use gtd_api.Prelude.Text.{trim_space, equal_fold}
use gtd_api.Errors.{GoError, no_cause, payment_error, is_no_rows, error_text, Result, ok, err}
use gtd_api.Run.{Run, return_ok, fail, emit, emit_if, write}
use gtd_api.Client.{Client}
use gtd_api.Payment.Model.{
  Payment, PaymentType, qris, pending, failed, PaymentMethod, MethodProviderBinding,
  PaymentCreateResponse,
}
use gtd_api.Payment.Store.{
  Env, Effect, inserted, updated, notified_created, notified_changed, callback_enqueued,
  update_payment, merge_provider_data,
}
use gtd_api.Payment.Fee.{Float64, calculate_fee, compute_total}
use gtd_api.Payment.Selector.{select, method_unavailable}
use gtd_api.Payment.Request.{
  ◌otherwise◌, reject_if, is_blank, validation_error, ValidRequest, CreatePaymentRequest, validate,
}
use gtd_api.Payment.Fallback.{
  Order, Created, accepted, duplicate, refused, fallback, payment_provider_error_code,
}
use gtd_api.Payment.Insert.{insert_loop, duplicate_reference}
use gtd_api.Payment.Detail.{simplify_payment_detail, render_instruction, resolve_expired_at}
use Prim.Native.String.{◌++◌ as ◌<>◌}

-- Further answers of the outside: the catalogue of methods and bindings, the second lookup of the
-- reference after a provider's duplicate, the order of a map's iteration and the decimal form of a
-- number.
pub record Catalog (Real : Type 0) : Type 0 where
  pub env : Env
  pub method_by_code : (type code : String) → Result (PaymentMethod Real)
  pub providers_by_code : PaymentType → String → Result (List MethodProviderBinding)
  pub by_reference_again : ℕ → String → Result Payment
  pub order : List (String × String) → List (String × String)
  pub decimal : ℤ → String

abbrev some_if_set : String → Option String
some_if_set s = if str_eq s "" then none else some s

abbrev message_or : Option String → String → String
message_or none standard = standard
message_or (some m) standard = if str_eq m "" then standard else m

abbrev is_cpm : PaymentType → String → Bool
is_cpm qris code = equal_fold (trim_space code) "CPM"
is_cpm _ code = false

-- p.Description is set only if there is none.
abbrev pub described : String → Option String → Option String
described text none = some text
described text (some d) = some d

abbrev pub answer_duplicate : Result Payment → GoError → Run Effect Payment
answer_duplicate (ok existing) e = return_ok existing
answer_duplicate (err _) e = fail (duplicate_reference e)

abbrev pub prefixed : List Effect → Run Effect Payment → Run Effect Payment
prefixed effects r = record { effects = effects ++ r.effects; outcome = r.outcome }

abbrev pub rejected : Option GoError → Run Effect Payment → Run Effect Payment
rejected none next = next
rejected (some e) next = fail e

module _ (F : Float64) where
  open F use {Real}

  -- The checks of the method, from is_active to the scan data.
  unfoldable pub check_method : Catalog Real → ValidRequest → PaymentMethod Real → Option GoError
  check_method c v m =
      reject_if (not m.is_active) method_unavailable
      otherwise reject_if m.is_maintenance (
          payment_error 503 "METHOD_UNAVAILABLE"
            (message_or m.maintenance_message "Payment method is temporarily unavailable") no_cause)
      otherwise reject_if (ltb_ℤ (pos 0) m.min_amount && ltb_ℤ v.amount m.min_amount) (
          payment_error 400 "INVALID_AMOUNT" ("amount must be >= " <> c.decimal m.min_amount)
            no_cause)
      otherwise reject_if (ltb_ℤ (pos 0) m.max_amount && ltb_ℤ m.max_amount v.amount) (
          payment_error 400 "INVALID_AMOUNT" ("amount must be <= " <> c.decimal m.max_amount)
            no_cause)
      otherwise reject_if (is_cpm m.type m.code && is_blank v.scan_data)
          (validation_error "scanData is required for QRIS CPM")

  -- The row as it is first inserted; the ids are set by the insertion.
  unfoldable pub build_payment :
      (now : ℕ)
      → ValidRequest
      → Client
      → (is_sandbox : Bool) → PaymentMethod Real
      → MethodProviderBinding
      → Payment
  build_payment now v client is_sandbox m b = record {
    id = 0;
    payment_id = "";
    reference_id = v.reference_id;
    partner_ref = "";
    client_id = client.id;
    payment_method_id = m.id;
    is_sandbox = is_sandbox;
    payment_type = m.type;
    payment_code = m.code;
    provider = b.provider;
    amount = v.amount;
    fee = calculate_fee F m v.amount;
    total_amount = compute_total v.amount (calculate_fee F m v.amount) v.fee_paid_by;
    fee_paid_by = v.fee_paid_by;
    customer_name = some_if_set v.customer.name;
    customer_email = some_if_set v.customer.email;
    customer_phone = some_if_set v.customer.phone;
    status = pending;
    payment_detail = [];
    payment_instruction = none;
    sender_bank = none;
    sender_name = none;
    sender_account = none;
    provider_ref = none;
    provider_data = [];
    callback_type = none;
    callback_url = some_if_set (trim_space v.callback_url);
    return_url = some_if_set (trim_space v.return_url);
    description = some_if_set v.description;
    metadata = none;
    callback_sent = false;
    callback_sent_at = none;
    callback_attempts = 0;
    expired_at = resolve_expired_at now m.expired_duration;
    created_at = 0;
    paid_at = none;
    cancelled_at = none;
    updated_at = 0;
  }

  unfoldable pub order_of :
      Env
      → ValidRequest
      → Client
      → PaymentMethod Real
      → List MethodProviderBinding
      → Payment
      → Order
  order_of env v client m bindings p = record {
    env = env;
    method_type = m.type;
    method_code = m.code;
    request = v;
    fee = p.fee;
    total_amount = p.total_amount;
    expired_at = p.expired_at;
    client_name = client.name;
    partner_ref = p.partner_ref;
    bindings = bindings;
  }

  -- markFailed, and the error of the last attempt. The error of the update is dropped.
  unfoldable pub mark_failed : Env → Payment → MethodProviderBinding → GoError → Run Effect Payment
  mark_failed env p b e =
      let q = record p {
        provider = b.provider;
        status = failed;
        description =
            described (payment_provider_error_code e <> ": " <> error_text e) p.description;
      } in
      let announced =
        emit_if env.has_notifier (notified_changed q)
          (emit (callback_enqueued q "payment.failed") (fail e)) in
      update_payment env q (λ _. announced) announced

  unfoldable pub complete :
      Catalog Real
      → PaymentMethod Real
      → Payment
      → MethodProviderBinding
      → PaymentCreateResponse
      → Payment
  complete c m p b response = record p {
    provider = b.provider;
    payment_detail = simplify_payment_detail m.type m.code response.normalized;
    provider_ref =
        if str_eq response.provider_ref "" then p.provider_ref else some response.provider_ref;
    provider_data = merge_provider_data p.provider_data "create" response.raw_response;
    payment_instruction =
        render_instruction c.order m.payment_instruction response.normalized (c.decimal p.amount);
  }

  -- What follows the loop over the providers. The loop's fuel is enough, so `none` does not come.
  unfoldable pub finish_create :
      Catalog Real → PaymentMethod Real → Payment → Option Created → Run Effect Payment
  finish_create c m p none = fail no_cause
  finish_create c m p (some (accepted b response)) =
      let q = complete c m p b response in
      update_payment c.env q fail (
        emit_if c.env.has_notifier (notified_created q)
          (emit (callback_enqueued q "payment.pending") (return_ok q)))
  finish_create c m p (some (duplicate b e)) =
      answer_duplicate (c.by_reference_again p.client_id p.reference_id) e
  finish_create c m p (some (refused b e)) = mark_failed c.env p b e

  -- The attempts, behind the insertion of `p`; `b` is the selected binding.
  unfoldable pub create_inserted :
      Catalog Real
      → ValidRequest
      → Client
      → PaymentMethod Real
      → List MethodProviderBinding
      → MethodProviderBinding
      → Payment
      → Run Effect Payment
  create_inserted c v client m bindings b p =
      let tried = fallback (length bindings) (order_of c.env v client m bindings p) b in
      emit (inserted p) (prefixed tried.0 (finish_create c m p tried.1))

  unfoldable pub after_insertion :
      Catalog Real
      → ValidRequest
      → Client
      → PaymentMethod Real
      → List MethodProviderBinding
      → MethodProviderBinding
      → Result Payment
      → Run Effect Payment
  after_insertion c v client m bindings b (err e) = fail e
  after_insertion c v client m bindings b (ok p) = create_inserted c v client m bindings b p

  unfoldable pub create_selected :
      Catalog Real
      → ValidRequest
      → Client
      → (is_sandbox : Bool) → PaymentMethod Real
      → List MethodProviderBinding
      → Result MethodProviderBinding
      → Run Effect Payment
  create_selected c v client is_sandbox m bindings (err e) = fail e
  create_selected c v client is_sandbox m bindings (ok b) =
      after_insertion c v client m bindings b
        (insert_loop 5 0 c.env (build_payment c.env.now v client is_sandbox m b) no_cause)

  -- selector.Resolve looks the method up once more before its bindings.
  unfoldable pub create_grouped :
      Catalog Real
      → ValidRequest
      → Client
      → (is_sandbox : Bool) → PaymentMethod Real
      → Result (List MethodProviderBinding)
      → Run Effect Payment
  create_grouped c v client is_sandbox m (err e) = fail e
  create_grouped c v client is_sandbox m (ok bindings) =
      create_selected c v client is_sandbox m bindings (select c.env.clients bindings)

  unfoldable pub create_for_method :
      Catalog Real
      → ValidRequest
      → Client
      → (is_sandbox : Bool) → Result (PaymentMethod Real)
      → Run Effect Payment
  create_for_method c v client is_sandbox (err e) = fail (
      if is_no_rows e
      then payment_error 404 "PAYMENT_METHOD_NOT_FOUND" "Payment method not found" no_cause
      else e)
  create_for_method c v client is_sandbox (ok m) =
      rejected (check_method c v m)
        (create_grouped c v client is_sandbox m (c.providers_by_code m.type m.code))

  unfoldable pub create_unless_existing :
      Catalog Real
      → ValidRequest
      → Client
      → (is_sandbox : Bool) → Result Payment
      → Run Effect Payment
  create_unless_existing c v client is_sandbox (ok existing) = return_ok existing
  create_unless_existing c v client is_sandbox (err e) =
      if is_no_rows e
      then create_for_method c v client is_sandbox (c.method_by_code v.type v.code)
      else fail e

  unfoldable pub create_validated :
      Catalog Real → Client → (is_sandbox : Bool) → Result ValidRequest → Run Effect Payment
  create_validated c client is_sandbox (err e) = fail e
  create_validated c client is_sandbox (ok v) =
      create_unless_existing c v client is_sandbox (c.env.by_reference_id client.id v.reference_id)

  unfoldable pub create_payment :
      Catalog Real
      → Option CreatePaymentRequest
      → Option Client
      → (is_sandbox : Bool) → Run Effect Payment
  create_payment c none client is_sandbox = fail (validation_error "Invalid request body")
  create_payment c (some request) none is_sandbox =
      fail (payment_error 401 "UNAUTHORIZED" "Missing or invalid API key" no_cause)
  create_payment c (some request) (some client) is_sandbox =
      create_validated c client is_sandbox (validate request)
