-- ===== src/Payment/Lifecycle/Timed.antt =====
-- The times of a settled payment.
use gtd_api.Prelude.{ℕ, String, ◌≡◌, ◌≢◌, Bool, true, false, Option, none, some, arith}
use gtd_api.Prelude.Text.{trim_space}
use gtd_api.Errors.{Result, ok, err}
use gtd_api.Run.{Run}
use gtd_api.Run.Keeps.{Keeps, keeps_rules}
use gtd_api.Payment.Model.{
  Payment, PaymentStatus, success, cancelled, expired, PaymentInquiryResult, PaymentWebhookEvent,
}
use gtd_api.Payment.Store.{
  Env, Effect, PaymentProviderClient, updated, notified_changed, callback_enqueued,
}
use gtd_api.Payment.Lifecycle.{
  refresh_status, apply_webhook_to, cancel_payment, expire_payment, refresh_settled, refresh_merged,
  refresh_answered, refresh_with, settle, merge_inquiry, merge_webhook, apply_confirmed,
  hold_webhook, conclusive, compare_webhook, webhook_answered, webhook_with, cancel_found,
  ask_cancel, find_owned,
}

pub record IsTimed (p : Payment) : Type 0 where
  pub paid : p.status ≡ success → p.paid_at ≢ none
  pub stopped : p.status ≡ cancelled → p.cancelled_at ≢ none

-- Every row written and every payment announced has its times.
abbrev pub TimedEffect : Effect → Type 0
TimedEffect (updated q) = IsTimed q
TimedEffect (notified_changed q) = IsTimed q
TimedEffect (callback_enqueued q event) = IsTimed q
TimedEffect _ = Unit

settle-IsTimed : (now : ℕ) (p : Payment) (s : PaymentStatus) → IsTimed (settle now p s)
unfolding settle
settle-IsTimed now p s = ground arith

merge_inquiry-IsTimed :
    (p : Payment) (r : PaymentInquiryResult) → IsTimed p → IsTimed (merge_inquiry p r)
unfolding merge_inquiry
merge_inquiry-IsTimed p r h = ground arith

merge_webhook-IsTimed :
    (p : Payment) (r : PaymentWebhookEvent) → IsTimed p → IsTimed (merge_webhook p r)
unfolding merge_webhook
merge_webhook-IsTimed p r h = ground arith

ruleset timed_rules = (keeps_rules, settle-IsTimed, merge_inquiry-IsTimed, merge_webhook-IsTimed)

apply_confirmed-IsTimed :
    (env : Env) (p : Payment) (s : PaymentStatus) → Keeps TimedEffect (apply_confirmed env p s)
unfolding apply_confirmed
apply_confirmed-IsTimed env p s = search timed_rules depth 9

hold_webhook-IsTimed :
    (env : Env) (p : Payment) (event : PaymentWebhookEvent) (result : PaymentInquiryResult)
    (status_match amount_match : Bool)
    → IsTimed p
    → Keeps TimedEffect (hold_webhook env p event result status_match amount_match)
unfolding hold_webhook
hold_webhook-IsTimed env p event result sm am h = search timed_rules

conclusive-IsTimed :
    (env : Env) (p : Payment) (event : PaymentWebhookEvent) (result : PaymentInquiryResult)
    (status_match amount_match : Bool)
    → IsTimed p
    → Keeps TimedEffect (conclusive env p event result status_match amount_match)
unfolding conclusive
conclusive-IsTimed env p event result true true h = apply_confirmed-IsTimed env p result.status
conclusive-IsTimed env p event result true false h = search hold_webhook-IsTimed
conclusive-IsTimed env p event result false am h = search hold_webhook-IsTimed

compare_webhook-IsTimed :
    (env : Env) (p : Payment) (event : PaymentWebhookEvent) (result : PaymentInquiryResult)
    → IsTimed p
    → Keeps TimedEffect (compare_webhook env p event result)
unfolding compare_webhook
compare_webhook-IsTimed env p event result h =
    search (timed_rules, conclusive-IsTimed, apply_confirmed-IsTimed)

webhook_answered-IsTimed :
    (env : Env) (p : Payment) (event : PaymentWebhookEvent)
    (r : Result (Option PaymentInquiryResult))
    → IsTimed p
    → Keeps TimedEffect (webhook_answered env p event r)
unfolding webhook_answered
webhook_answered-IsTimed env p event (err _) h = search timed_rules
webhook_answered-IsTimed env p event (ok none) h = search timed_rules
webhook_answered-IsTimed env p event (ok (some r)) h = search (timed_rules, compare_webhook-IsTimed)

webhook_with-IsTimed :
    (env : Env) (p : Payment) (event : PaymentWebhookEvent) (c : Result PaymentProviderClient)
    → IsTimed p
    → Keeps TimedEffect (webhook_with env p event c)
unfolding webhook_with
webhook_with-IsTimed env p event (err _) h = search timed_rules
webhook_with-IsTimed env p event (ok c) h =
    webhook_answered-IsTimed env p event (c.inquiry_payment p) h

apply_webhook-IsTimed :
    (env : Env) (p : Payment) (event : PaymentWebhookEvent)
    → IsTimed p
    → Keeps TimedEffect (apply_webhook_to env p event)
unfolding apply_webhook_to
apply_webhook-IsTimed env p event h = search (timed_rules, webhook_with-IsTimed)

refresh_settled-IsTimed :
    (env : Env) (p : Payment) → IsTimed p → Keeps TimedEffect (refresh_settled env p)
unfolding refresh_settled
refresh_settled-IsTimed env p h = search timed_rules depth 9

refresh_merged-IsTimed :
    (env : Env) (p : Payment) (s : PaymentStatus)
    → IsTimed p
    → Keeps TimedEffect (refresh_merged env p s)
unfolding refresh_merged
refresh_merged-IsTimed env p s h = search (timed_rules, refresh_settled-IsTimed)

refresh_answered-IsTimed :
    (env : Env) (p : Payment) (r : Result (Option PaymentInquiryResult))
    → IsTimed p
    → Keeps TimedEffect (refresh_answered env p r)
unfolding refresh_answered
refresh_answered-IsTimed env p (err _) h = search timed_rules
refresh_answered-IsTimed env p (ok none) h = search timed_rules
refresh_answered-IsTimed env p (ok (some r)) h = search (timed_rules, refresh_merged-IsTimed)

refresh_with-IsTimed :
    (env : Env) (p : Payment) (c : Result PaymentProviderClient)
    → IsTimed p
    → Keeps TimedEffect (refresh_with env p c)
unfolding refresh_with
refresh_with-IsTimed env p (err _) h = search timed_rules
refresh_with-IsTimed env p (ok c) h = refresh_answered-IsTimed env p (c.inquiry_payment p) h

refresh-IsTimed : (env : Env) (p : Payment) → IsTimed p → Keeps TimedEffect (refresh_status env p)
unfolding refresh_status
refresh-IsTimed env p h = search (timed_rules, refresh_with-IsTimed)

now_cancelled-IsTimed :
    (now : ℕ) (p : Payment) → IsTimed (record p { status = cancelled; cancelled_at = some now })
now_cancelled-IsTimed now p = ground arith

now_expired-IsTimed : (p : Payment) → IsTimed (record p { status = expired })
now_expired-IsTimed p = ground arith

ask_cancel-IsTimed :
    (p : Payment) (reason : String) (c : Result PaymentProviderClient) (next : Run Effect Payment)
    → Keeps TimedEffect next
    → Keeps TimedEffect (ask_cancel p reason c next)
unfolding ask_cancel
ask_cancel-IsTimed p reason (err e) next h = h
ask_cancel-IsTimed p reason (ok provider) next h = search keeps_rules

cancel_found-IsTimed :
    (env : Env) (reason : String) (r : Result Payment)
    → Keeps TimedEffect (cancel_found env reason r)
unfolding cancel_found
cancel_found-IsTimed env reason (err e) = search timed_rules
cancel_found-IsTimed env reason (ok p) =
    search (timed_rules, ask_cancel-IsTimed, now_cancelled-IsTimed) depth 9

expire-IsTimed : (env : Env) (p : Payment) → Keeps TimedEffect (expire_payment env p)
unfolding expire_payment
expire-IsTimed env p = search (timed_rules, now_expired-IsTimed) depth 9

-- From a payment whose times fit its status, whatever the webhook, the inquiry, the client that
-- cancels and the database answer, the webhook, the refresh, the cancelling and the expiry write
-- and announce only payments that are so: Success with a time of payment, Cancelled with a time of
-- cancelling.
pub lifecycle-IsTimed :
    (env : Env) (p : Payment) (event : PaymentWebhookEvent) (payment_id : String) (client_id : ℕ)
    (reason : String)
    → IsTimed p
    → Keeps TimedEffect (apply_webhook_to env p event)
      × Keeps TimedEffect (refresh_status env p)
      × Keeps TimedEffect (cancel_payment env payment_id client_id reason)
      × Keeps TimedEffect (expire_payment env p)
unfolding cancel_payment
lifecycle-IsTimed env p event payment_id client_id reason h = (
  apply_webhook-IsTimed env p event h,
  refresh-IsTimed env p h,
  cancel_found-IsTimed env reason (find_owned env (trim_space payment_id) client_id),
  expire-IsTimed env p,
)
