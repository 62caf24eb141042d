-- ===== src/Payment/Lifecycle/Final.antt =====
-- What no operation on an existing payment changes.
use gtd_api.Prelude.{ℕ, ◌≡◌, Bool, true, false, Option, none, some, arith}
use gtd_api.Errors.{Result, ok, err}
use gtd_api.Run.Keeps.{Keeps, keeps_rules}
use gtd_api.Payment.Model.{
  Payment, PaymentStatus, expired, PaymentInquiryResult, PaymentWebhookEvent,
}
use gtd_api.Payment.Store.{
  Env, Effect, PaymentProviderClient, updated, notified_changed, callback_enqueued,
}
use gtd_api.Payment.Lifecycle.{
  refresh_status, apply_webhook_to, expire_payment, refresh_settled, refresh_merged,
  refresh_answered, refresh_with, settle, merge_inquiry, merge_webhook, apply_confirmed,
  hold_webhook, conclusive, compare_webhook, webhook_answered, webhook_with,
}

-- What no operation on an existing payment changes.
pub record SameCharge (p q : Payment) : Type 0 where
  pub id : q.id ≡ p.id
  pub payment_id : q.payment_id ≡ p.payment_id
  pub partner_ref : q.partner_ref ≡ p.partner_ref
  pub client : q.client_id ≡ p.client_id
  pub provider : q.provider ≡ p.provider
  pub amount : q.amount ≡ p.amount
  pub fee : q.fee ≡ p.fee
  pub total : q.total_amount ≡ p.total_amount
  pub created : q.created_at ≡ p.created_at
  pub expiry : q.expired_at ≡ p.expired_at

abbrev pub OnCharge : Payment → Effect → Type 0
OnCharge p (updated q) = SameCharge p q
OnCharge p (notified_changed q) = SameCharge p q
OnCharge p (callback_enqueued q event) = SameCharge p q
OnCharge p _ = Unit

settle-SameCharge :
    (now : ℕ) (p q : Payment) (s : PaymentStatus) → SameCharge p q → SameCharge p (settle now q s)
unfolding settle
settle-SameCharge now p q s h = ground arith

merge_inquiry-SameCharge :
    (p q : Payment) (r : PaymentInquiryResult) → SameCharge p q → SameCharge p (merge_inquiry q r)
unfolding merge_inquiry
merge_inquiry-SameCharge p q r h = ground arith

merge_webhook-SameCharge :
    (p : Payment) (r : PaymentWebhookEvent) → SameCharge p (merge_webhook p r)
unfolding merge_webhook
merge_webhook-SameCharge p r = ground arith

ruleset charge_rules =
    (keeps_rules, settle-SameCharge, merge_inquiry-SameCharge, merge_webhook-SameCharge)

apply_confirmed-OnCharge :
    (env : Env) (p q : Payment) (s : PaymentStatus)
    → SameCharge p q
    → Keeps (OnCharge p) (apply_confirmed env q s)
unfolding apply_confirmed
apply_confirmed-OnCharge env p q s h = search charge_rules depth 9

hold_webhook-OnCharge :
    (env : Env) (p q : Payment) (event : PaymentWebhookEvent) (result : PaymentInquiryResult)
    (status_match amount_match : Bool)
    → SameCharge p q
    → Keeps (OnCharge p) (hold_webhook env q event result status_match amount_match)
unfolding hold_webhook
hold_webhook-OnCharge env p q event result sm am h = search charge_rules

conclusive-OnCharge :
    (env : Env) (p q : Payment) (event : PaymentWebhookEvent) (result : PaymentInquiryResult)
    (status_match amount_match : Bool)
    → SameCharge p q
    → Keeps (OnCharge p) (conclusive env q event result status_match amount_match)
unfolding conclusive
conclusive-OnCharge env p q event result true true h =
    apply_confirmed-OnCharge env p q result.status h
conclusive-OnCharge env p q event result true false h = search hold_webhook-OnCharge
conclusive-OnCharge env p q event result false am h = search hold_webhook-OnCharge

compare_webhook-OnCharge :
    (env : Env) (p q : Payment) (event : PaymentWebhookEvent) (result : PaymentInquiryResult)
    → SameCharge p q
    → Keeps (OnCharge p) (compare_webhook env q event result)
unfolding compare_webhook
compare_webhook-OnCharge env p q event result h =
    search (charge_rules, conclusive-OnCharge, apply_confirmed-OnCharge)

webhook_answered-OnCharge :
    (env : Env) (p q : Payment) (event : PaymentWebhookEvent)
    (r : Result (Option PaymentInquiryResult))
    → SameCharge p q
    → Keeps (OnCharge p) (webhook_answered env q event r)
unfolding webhook_answered
webhook_answered-OnCharge env p q event (err _) h = search charge_rules
webhook_answered-OnCharge env p q event (ok none) h = search charge_rules
webhook_answered-OnCharge env p q event (ok (some r)) h =
    search (charge_rules, compare_webhook-OnCharge)

webhook_with-OnCharge :
    (env : Env) (p q : Payment) (event : PaymentWebhookEvent) (c : Result PaymentProviderClient)
    → SameCharge p q
    → Keeps (OnCharge p) (webhook_with env q event c)
unfolding webhook_with
webhook_with-OnCharge env p q event (err _) h = search charge_rules
webhook_with-OnCharge env p q event (ok c) h =
    webhook_answered-OnCharge env p q event (c.inquiry_payment q) h

apply_webhook-OnCharge :
    (env : Env) (p : Payment) (event : PaymentWebhookEvent)
    → Keeps (OnCharge p) (apply_webhook_to env p event)
unfolding apply_webhook_to
apply_webhook-OnCharge env p event = search (charge_rules, webhook_with-OnCharge)

refresh_settled-OnCharge :
    (env : Env) (p q : Payment) → SameCharge p q → Keeps (OnCharge p) (refresh_settled env q)
unfolding refresh_settled
refresh_settled-OnCharge env p q h = search charge_rules depth 9

refresh_merged-OnCharge :
    (env : Env) (p q : Payment) (s : PaymentStatus)
    → SameCharge p q
    → Keeps (OnCharge p) (refresh_merged env q s)
unfolding refresh_merged
refresh_merged-OnCharge env p q s h = search (charge_rules, refresh_settled-OnCharge)

refresh_answered-OnCharge :
    (env : Env) (p : Payment) (r : Result (Option PaymentInquiryResult))
    → SameCharge p p
    → Keeps (OnCharge p) (refresh_answered env p r)
unfolding refresh_answered
refresh_answered-OnCharge env p (err _) h = search charge_rules
refresh_answered-OnCharge env p (ok none) h = search charge_rules
refresh_answered-OnCharge env p (ok (some r)) h = search (charge_rules, refresh_merged-OnCharge)

refresh_with-OnCharge :
    (env : Env) (p : Payment) (c : Result PaymentProviderClient)
    → SameCharge p p
    → Keeps (OnCharge p) (refresh_with env p c)
unfolding refresh_with
refresh_with-OnCharge env p (err _) h = search charge_rules
refresh_with-OnCharge env p (ok c) h = refresh_answered-OnCharge env p (c.inquiry_payment p) h

SameCharge-refl : (p : Payment) → SameCharge p p
SameCharge-refl p = ground arith

refresh-OnCharge : (env : Env) (p : Payment) → Keeps (OnCharge p) (refresh_status env p)
unfolding refresh_status
refresh-OnCharge env p = search (charge_rules, refresh_with-OnCharge, SameCharge-refl)

now_expired-SameCharge : (p : Payment) → SameCharge p (record p { status = expired })
now_expired-SameCharge p = ground arith

expire-OnCharge : (env : Env) (p : Payment) → Keeps (OnCharge p) (expire_payment env p)
unfolding expire_payment
expire-OnCharge env p = search (charge_rules, now_expired-SameCharge) depth 9

-- Nothing that happens to an existing payment changes whose it is or what it is for: every row that
-- the webhook, the refresh and the expiry write, and every payment that they announce, has the ids,
-- the client, the provider, the amounts and the times of creation and expiry of the payment that
-- they started from.
pub lifecycle-SameCharge :
    (env : Env) (p : Payment) (event : PaymentWebhookEvent)
    → Keeps (OnCharge p) (apply_webhook_to env p event)
      × Keeps (OnCharge p) (refresh_status env p)
      × Keeps (OnCharge p) (expire_payment env p)
lifecycle-SameCharge env p event =
    (apply_webhook-OnCharge env p event, refresh-OnCharge env p, expire-OnCharge env p)
