-- ===== src/Payment/Tests/Lifecycle.antt =====
-- Runs of the operations on an existing payment, and their theorems at them.
use gtd_api.Prelude.{List, ◌+◌, ◌≤◌, ◌≡◌, refl, some, [], ◌∷◌, arith}
use gtd_api.Errors.{ok, err}
use gtd_api.Run.Keeps.{Keeps}
use gtd_api.Payment.Model.{Payment, success, is_final, PaymentInquiryResult, payment_event_name}
use gtd_api.Payment.Store.{Env, router_get, merge_provider_data, PaymentProviderClient}
use gtd_api.Payment.Lifecycle.{
  apply_webhook_to, refresh_status, cancel_payment, expire_payment, merge_webhook, merge_inquiry,
  invalid_state, webhook_with, webhook_answered, compare_webhook, conclusive, apply_confirmed,
  settle,
}
use gtd_api.Payment.Lifecycle.Final.{OnCharge, lifecycle-SameCharge}
use gtd_api.Payment.Lifecycle.Confirmed.{
  callbacks, expected_callbacks, apply_webhook-announces, apply_webhook-IsConfirmed, IsConfirmed,
  Answers,
}
use gtd_api.Payment.Lifecycle.History.{
  LifecycleEvent, webhook_came, cancel_asked, expiry_due, history, end_of, final_events, one_if,
}
use gtd_api.Payment.Lifecycle.History.Once.{history_tells_once}
use gtd_api.Payment.Lifecycle.Held.{IsHeld, apply_webhook-IsHeld}
use gtd_api.Payment.Lifecycle.Timed.{IsTimed, TimedEffect, lifecycle-IsTimed}
use gtd_api.Payment.Tests.{waiting, paid_event, short_result, adapter, world, good, down}

abbrev short : PaymentProviderClient
short = adapter (err invalid_state) (ok (some short_result))

paid_run :
    callbacks (apply_webhook_to (world good down) waiting paid_event).effects
    ≡ "payment.success" ∷ []
unfolding apply_webhook_to webhook_with webhook_answered compare_webhook conclusive apply_confirmed
    settle merge_webhook merge_inquiry router_get payment_event_name merge_provider_data
paid_run = refl

lifecycle-SameCharge_example :
    Keeps (OnCharge waiting) (apply_webhook_to (world good down) waiting paid_event)
    × Keeps (OnCharge waiting) (refresh_status (world good down) waiting)
    × Keeps (OnCharge waiting) (expire_payment (world good down) waiting)
lifecycle-SameCharge_example = lifecycle-SameCharge (world good down) waiting paid_event

apply_webhook-announces_example :
    callbacks (apply_webhook_to (world good down) waiting paid_event).effects
    ≡ expected_callbacks waiting.status
        (apply_webhook_to (world good down) waiting paid_event).outcome
apply_webhook-announces_example = apply_webhook-announces (world good down) waiting paid_event

abbrev now_paid : Payment
now_paid = record waiting { status = success; paid_at = some 500 }

apply_webhook-IsConfirmed_example :
    (result : PaymentInquiryResult) × Answers
      (world good down)
      (merge_webhook waiting paid_event)
      result
    × IsConfirmed paid_event result success
unfolding apply_webhook_to webhook_with webhook_answered compare_webhook conclusive apply_confirmed
    settle merge_webhook merge_inquiry router_get
apply_webhook-IsConfirmed_example =
    apply_webhook-IsConfirmed (world good down) waiting now_paid paid_event refl (λ e. cc)

apply_webhook-IsHeld_example :
    IsHeld
      (merge_inquiry (merge_webhook waiting paid_event) short_result)
      paid_event
      short_result
      (apply_webhook_to (world short good) waiting paid_event)
    × ((merge_inquiry (merge_webhook waiting paid_event) short_result).status ≡ waiting.status)
unfolding merge_webhook merge_inquiry router_get
apply_webhook-IsHeld_example =
    apply_webhook-IsHeld (world short good) waiting paid_event short short_result refl refl refl
      refl refl refl refl

waiting-IsTimed : IsTimed waiting
waiting-IsTimed = ground arith

lifecycle-IsTimed_example :
    Keeps TimedEffect (apply_webhook_to (world good down) waiting paid_event)
    × Keeps TimedEffect (refresh_status (world good down) waiting)
    × Keeps TimedEffect (cancel_payment (world good down) "pay-7" 3 "changed my mind")
    × Keeps TimedEffect (expire_payment (world good down) waiting)
lifecycle-IsTimed_example =
    lifecycle-IsTimed (world good down) waiting paid_event "pay-7" 3 "changed my mind"
      waiting-IsTimed

-- A webhook, a cancellation that comes too late, and an expiry that finds nothing to do.
abbrev life : List (Env × LifecycleEvent)
life =
    (world good down, webhook_came paid_event)
    ∷ (world good down, cancel_asked 3 "changed my mind")
    ∷ (world good down, expiry_due)
    ∷ []

history_tells_once_example :
    final_events (history life waiting) + 0 ≤ one_if (is_final (end_of life waiting).status)
history_tells_once_example = history_tells_once life waiting
