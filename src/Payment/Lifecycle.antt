-- ===== src/Payment/Lifecycle.antt =====
-- The operations of internal/service/payment_service.go on a payment that exists: the provider's
-- webhook, the refresh by inquiry, cancelling, expiring, and reading. An answer of the provider
-- is first merged into the payment, and then decides its status.
pub mod Final
pub mod Confirmed
pub mod Held
pub mod Timed
pub mod History
use gtd_api.Prelude.{
  ℕ, ◌-◌, String, Bool, true, false, Option, none, some, List, [], ◌∷◌, ◌&&◌, ◌||◌, not, ltb, ◌==◌,
  str_eq, if◌then◌else◌,
}
use gtd_api.Prelude.Int.{ℤ, pos, same_ℤ}
use gtd_api.Prelude.Text.{trim_space}
use gtd_api.Errors.{GoError, no_cause, payment_error, is_no_rows, Result, ok, err, map_ok}
use gtd_api.Run.{Run, return_ok, fail, emit, emit_if}
use gtd_api.Payment.Model.{
  Payment, PaymentStatus, pending, success, expired, cancelled, is_final, is_set, same_status,
  status_text, payment_event_name, PaymentInquiryResult, PaymentWebhookEvent, PaymentReconciliation,
  ReconReason, status_mismatch, amount_mismatch, status_amount_mismatch,
}
use gtd_api.Payment.Store.{
  Env, Effect, PaymentProviderClient, updated, cancel_called, notified_changed, callback_enqueued,
  recon_opened, recon_resolved, router_get, update_payment, merge_provider_data, is_empty_raw,
}

-- if r.ProviderRef != "" { p.ProviderRef = &v }
abbrev pub set_provider_ref : Payment → String → Payment
set_provider_ref p ref = if str_eq ref "" then p else record p { provider_ref = some ref }

-- if t == nil { t = &now }
abbrev pub first_time : (now : ℕ) → Option ℕ → Option ℕ
first_time now none = some now
first_time now (some t) = some t

-- p.Status = status, with the time of a first success or of a first cancellation.
unfoldable pub settle : (now : ℕ) → Payment → PaymentStatus → Payment
settle now p success = record p { status = success; paid_at = first_time now p.paid_at }
settle now p cancelled = record p {
  status = cancelled;
  cancelled_at = first_time now p.cancelled_at;
}
settle now p status = record p { status = status }

unfoldable pub merge_inquiry : Payment → PaymentInquiryResult → Payment
merge_inquiry p result =
    let q = set_provider_ref p result.provider_ref in
    if is_empty_raw result.raw_response then q else record q {
      provider_data = merge_provider_data q.provider_data "inquiry" result.raw_response;
    }

unfoldable pub merge_webhook : Payment → PaymentWebhookEvent → Payment
merge_webhook p event =
    let q = if is_empty_raw event.raw_payload then p else record p {
      provider_data = merge_provider_data p.provider_data "webhook" event.raw_payload;
    } in
    set_provider_ref q event.provider_ref

-- s.refreshStatus: the provider's answer is applied if it names another status. The result is the
-- payment as the caller's pointer shows it then, with the error; an update that failed leaves its
-- changes.
unfoldable pub refresh_settled : Env → Payment → Run Effect (Payment × Option GoError)
refresh_settled env s =
    update_payment env s (λ e. return_ok (s, some e))
      (emit_if env.has_reconciliation (recon_resolved s.payment_id (status_text s.status) "worker")
        (emit_if env.has_notifier (notified_changed s)
          (emit (callback_enqueued s (payment_event_name s.status)) (return_ok (s, none)))))

unfoldable pub refresh_merged :
    Env → Payment → PaymentStatus → Run Effect (Payment × Option GoError)
refresh_merged env q status =
    if is_set status && not (same_status status q.status)
    then refresh_settled env (settle env.now q status)
    else update_payment env q (λ e. return_ok (q, some e)) (return_ok (q, none))

unfoldable pub refresh_answered :
    Env → Payment → Result (Option PaymentInquiryResult) → Run Effect (Payment × Option GoError)
refresh_answered env p (err e) = return_ok (p, some e)
refresh_answered env p (ok none) = return_ok (p, none)
refresh_answered env p (ok (some result)) =
    refresh_merged env (merge_inquiry p result) result.status

unfoldable pub refresh_with :
    Env → Payment → Result PaymentProviderClient → Run Effect (Payment × Option GoError)
refresh_with env p (err _) = return_ok (p, none)
refresh_with env p (ok provider) = refresh_answered env p (provider.inquiry_payment p)

unfoldable pub refresh_status : Env → Payment → Run Effect (Payment × Option GoError)
refresh_status env p =
    if is_final p.status
    then return_ok (p, none)
    else refresh_with env p (router_get env.clients p.provider)

-- The chain of lookups of a webhook's reference: partner_ref, payment_id, provider_ref. The next one is
-- tried only where no row was found.
unfoldable pub or_find : Result Payment → Result Payment → Result Payment
or_find (ok p) other = ok p
or_find (err e) other = if is_no_rows e then other else err e

unfoldable pub find_webhook_payment : Env → (provider partner_ref : String) → Result Payment
find_webhook_payment env provider partner_ref =
    or_find (env.by_partner_ref partner_ref)
      (or_find (env.by_payment_id partner_ref) (env.by_provider_ref provider partner_ref))

abbrev pub recon_reason : (status_match amount_match : Bool) → ReconReason
recon_reason true _ = amount_mismatch
recon_reason false true = status_mismatch
recon_reason false false = status_amount_mismatch

-- if amount != 0 { rec.Amount = &amount }
abbrev pub nonzero : ℤ → Option ℤ
nonzero a = if same_ℤ a (pos 0) then none else some a

unfoldable pub open_reconciliation :
    Payment
    → PaymentWebhookEvent
    → PaymentInquiryResult
    → (status_match amount_match : Bool) → PaymentReconciliation
open_reconciliation p event result status_match amount_match = record {
  payment_id = p.payment_id;
  provider = p.provider;
  reason = recon_reason status_match amount_match;
  webhook_status = some (status_text event.status);
  inquiry_status = some (status_text result.status);
  webhook_amount = nonzero event.paid_amount;
  inquiry_amount = nonzero result.paid_amount;
  expected_amount = some p.total_amount;
  webhook_payload = if is_empty_raw event.raw_payload then none else some event.raw_payload;
  inquiry_payload = if is_empty_raw result.raw_response then none else some result.raw_response;
}

-- 0 means that a side did not report an amount.
abbrev pub amounts_agree : ℤ → ℤ → Bool
amounts_agree a b = same_ℤ a (pos 0) || same_ℤ b (pos 0) || same_ℤ a b

-- The part of ApplyWebhook behind the comparison: the confirmed status is written and announced.
unfoldable pub apply_confirmed : Env → Payment → PaymentStatus → Run Effect Payment
apply_confirmed env p status =
    let s = settle env.now p status in
    update_payment env s fail (
      emit_if env.has_reconciliation (recon_resolved s.payment_id (status_text s.status) "webhook")
        (if same_status p.status s.status
          then return_ok s
          else emit_if env.has_notifier (notified_changed s)
              (emit (callback_enqueued s (payment_event_name s.status)) (return_ok s))))

-- The disagreement freezes the payment: it is written with its old status and the merchant is not told.
unfoldable pub hold_webhook :
    Env
    → Payment
    → PaymentWebhookEvent
    → PaymentInquiryResult
    → (status_match amount_match : Bool) → Run Effect Payment
hold_webhook env p event result status_match amount_match =
    emit_if env.has_reconciliation
      (recon_opened (open_reconciliation p event result status_match amount_match))
      (update_payment env p fail (return_ok p))

unfoldable pub conclusive :
    Env
    → Payment
    → PaymentWebhookEvent
    → PaymentInquiryResult
    → (status_match amount_match : Bool) → Run Effect Payment
conclusive env p event result true true = apply_confirmed env p result.status
conclusive env p event result true false = hold_webhook env p event result true false
conclusive env p event result false amount_match =
    hold_webhook env p event result false amount_match

-- The part of ApplyWebhook behind the inquiry, with the inquiry's result merged into `p`.
unfoldable pub compare_webhook :
    Env → Payment → PaymentWebhookEvent → PaymentInquiryResult → Run Effect Payment
compare_webhook env p event result =
    if is_set result.status
    then conclusive env p event result (same_status event.status result.status)
        (amounts_agree event.paid_amount result.paid_amount)
    else apply_confirmed env p event.status

-- The inquiry that validates the webhook: without an answer the payment is only written.
unfoldable pub webhook_answered :
    Env → Payment → PaymentWebhookEvent → Result (Option PaymentInquiryResult) → Run Effect Payment
webhook_answered env q event (err _) = update_payment env q fail (return_ok q)
webhook_answered env q event (ok none) = update_payment env q fail (return_ok q)
webhook_answered env q event (ok (some result)) =
    compare_webhook env (merge_inquiry q result) event result

unfoldable pub webhook_with :
    Env → Payment → PaymentWebhookEvent → Result PaymentProviderClient → Run Effect Payment
webhook_with env q event (err _) = update_payment env q fail (return_ok q)
webhook_with env q event (ok client) = webhook_answered env q event (client.inquiry_payment q)

-- What ApplyWebhook does with the payment that it found. It returns the payment as it is held at
-- the end.
unfoldable pub apply_webhook_to : Env → Payment → PaymentWebhookEvent → Run Effect Payment
apply_webhook_to env p event =
    if is_final p.status
    then return_ok p
    else (let q = merge_webhook p event in
        webhook_with env q event (router_get env.clients q.provider))

unfoldable pub apply_webhook_found : Env → PaymentWebhookEvent → Result Payment → Run Effect Payment
apply_webhook_found env event (err e) = fail e
apply_webhook_found env event (ok p) = apply_webhook_to env p event

unfoldable pub apply_webhook :
    Env → (provider partner_ref : String) → PaymentWebhookEvent → Run Effect Payment
apply_webhook env provider partner_ref event =
    apply_webhook_found env event (find_webhook_payment env provider partner_ref)

unfoldable pub payment_not_found : GoError
payment_not_found = payment_error 404 "PAYMENT_NOT_FOUND" "Payment not found" no_cause

unfoldable pub owned : (client_id : ℕ) → Result Payment → Result Payment
unfolding payment_not_found
owned client_id (err e) = if is_no_rows e then err payment_not_found else err e
owned client_id (ok p) = if p.client_id == client_id then ok p else err payment_not_found

-- GetByPaymentID with the error of a missing row, and the check of the owner.
unfoldable pub find_owned : Env → (payment_id : String) → (client_id : ℕ) → Result Payment
unfolding owned
find_owned env payment_id client_id = owned client_id (env.by_payment_id payment_id)

abbrev pub invalid_state : GoError
invalid_state = payment_error 409 "INVALID_STATE" "Only pending payments can be cancelled" no_cause

-- The payment's adapter, where there is one, is asked to cancel; its error is only logged.
unfoldable pub ask_cancel :
    Payment
    → (reason : String) → Result PaymentProviderClient
    → Run Effect Payment
    → Run Effect Payment
ask_cancel p reason (err e) next = next
ask_cancel p reason (ok provider) next = emit (cancel_called p.provider p reason) next

unfoldable pub cancel_found : Env → (reason : String) → Result Payment → Run Effect Payment
unfolding ask_cancel
cancel_found env reason (err e) = fail e
cancel_found env reason (ok p) =
    if same_status p.status pending
    then (let q = record p { status = cancelled; cancelled_at = some env.now } in
        ask_cancel p reason (router_get env.clients p.provider) (
          update_payment env q fail (
            emit_if env.has_notifier (notified_changed q)
              (emit (callback_enqueued q "payment.cancelled") (return_ok q)))))
    else fail invalid_state

unfoldable pub cancel_payment :
    Env → (payment_id : String) → (client_id : ℕ) → (reason : String) → Run Effect Payment
cancel_payment env payment_id client_id reason =
    cancel_found env reason (find_owned env (trim_space payment_id) client_id)

-- 15 * time.Second
abbrev pub stale_read : ℕ
stale_read = 15000000000

abbrev pub refreshed : Run Effect (Payment × Option GoError) → Run Effect Payment
refreshed r = record { effects = r.effects; outcome = map_ok (λ answer. answer.0) r.outcome }

unfoldable pub get_found : Env → Result Payment → Run Effect Payment
get_found env (err e) = fail e
get_found env (ok p) =
    if same_status p.status pending && ltb stale_read (env.now - p.updated_at)
    then refreshed (refresh_status env p)
    else return_ok p

-- A Pending payment that was last written more than 15 seconds ago is refreshed before it is shown.
unfoldable pub get_payment : Env → (payment_id : String) → (client_id : ℕ) → Run Effect Payment
get_payment env payment_id client_id =
    if str_eq (trim_space payment_id) ""
    then fail (payment_error 400 "VALIDATION_ERROR" "paymentId is required" no_cause)
    else get_found env (find_owned env (trim_space payment_id) client_id)

-- The body of the loop of ExpirePendingPayments; an error of the update is logged and skipped.
unfoldable pub expire_payment : Env → Payment → Run Effect Payment
expire_payment env p =
    let q = record p { status = expired } in
    update_payment env q fail (
      emit_if env.has_notifier (notified_changed q)
        (emit (callback_enqueued q "payment.expired") (return_ok q)))
