-- ===== src/Payment/Lifecycle/History.antt =====
-- The life of a payment's row: what webhooks, refreshes, cancellations and expiries do to it, one
-- after another, each reading the row as the one before has left it.
pub mod Told
pub mod Once
use gtd_api.Prelude.{
  ℕ, zero, suc, ◌+◌, ◌≤◌, String, ◌≡◌, refl, Bool, true, false, ◌&&◌, Option, none, some, List, [],
  ◌∷◌, ◌++◌, arith, ltb, if◌then◌else◌, Bool-cases, inl, inr,
}
use gtd_api.Errors.{GoError, Result, ok, err}
use gtd_api.Run.{Run, return_ok, fail, emit, emit_if, write}
use gtd_api.Payment.Model.{
  Payment, PaymentStatus, pending, expired, cancelled, is_final, same_status, PaymentInquiryResult,
  PaymentWebhookEvent,
}
use gtd_api.Payment.Store.{
  Env, Effect, PaymentProviderClient, inserted, updated, create_logged, create_called,
  cancel_called, notified_created, notified_changed, callback_enqueued, recon_opened,
  recon_resolved, update_columns, update_payment, router_get,
}
use gtd_api.Payment.Lifecycle.{
  refresh_status, apply_webhook_to, expire_payment, refresh_settled, refresh_merged,
  refresh_answered, refresh_with, settle, merge_inquiry, merge_webhook, cancel_found, ask_cancel,
  owned, apply_confirmed, hold_webhook, conclusive, compare_webhook, webhook_answered, webhook_with,
}

pub data LifecycleEvent : Type 0 where
  webhook_came : PaymentWebhookEvent → LifecycleEvent
  refresh_due : LifecycleEvent
  cancel_asked : (client_id : ℕ) → (reason : String) → LifecycleEvent
  expiry_due : LifecycleEvent

-- The rows that GetExpiredPendingPayments selects.
unfoldable pub is_expirable : (now : ℕ) → Payment → Bool
is_expirable now row = same_status row.status pending && ltb row.expired_at now

unfoldable pub run_event : Env → LifecycleEvent → Payment → List Effect
unfolding is_expirable
run_event env (webhook_came event) row = (apply_webhook_to env row event).effects
run_event env refresh_due row = (refresh_status env row).effects
run_event env (cancel_asked client_id reason) row =
    (cancel_found env reason (owned client_id (ok row))).effects
run_event env expiry_due row =
    if is_expirable env.now row then (expire_payment env row).effects else []

-- The row behind the updates of an operation.
unfoldable pub row_after : (now : ℕ) → Payment → List Effect → Payment
row_after now row [] = row
row_after now row (updated q ∷ es) = row_after now (update_columns now row q) es
row_after now row (_ ∷ es) = row_after now row es

-- The row behind a history, and all its effects.
unfoldable pub end_of : List (Env × LifecycleEvent) → Payment → Payment
end_of [] row = row
end_of ((env, event) ∷ rest) row = end_of rest (row_after env.now row (run_event env event row))

unfoldable pub history : List (Env × LifecycleEvent) → Payment → List Effect
history [] row = []
history ((env, event) ∷ rest) row =
    run_event env event row ++ history rest (row_after env.now row (run_event env event row))

abbrev pub one_if : Bool → ℕ
one_if b = if b then 1 else 0

-- How many events of a final status are queued for the merchant.
abbrev pub final_events : List Effect → ℕ
final_events [] = 0
final_events (callback_enqueued p event ∷ es) = one_if (is_final p.status) + final_events es
final_events (inserted p ∷ es) = final_events es
final_events (updated p ∷ es) = final_events es
final_events (create_logged provider good code ∷ es) = final_events es
final_events (create_called provider request ∷ es) = final_events es
final_events (cancel_called provider p reason ∷ es) = final_events es
final_events (notified_created p ∷ es) = final_events es
final_events (notified_changed p ∷ es) = final_events es
final_events (recon_opened r ∷ es) = final_events es
final_events (recon_resolved p s r ∷ es) = final_events es
