-- ===== src/Payment/Lifecycle/History/Once.antt =====
-- How often the merchant is told of the end of a payment.
use gtd_api.Prelude.{
  ℕ, ◌+◌, ◌≤◌, String, ◌≡◌, refl, true, false, List, [], ◌∷◌, arith, ◌==◌, Bool-cases, inl, inr,
}
use gtd_api.Errors.{ok}
use gtd_api.Payment.Model.{Payment, PaymentStatus, pending, is_final, same_status}
use gtd_api.Payment.Store.{
  Env, Effect, inserted, updated, create_logged, create_called, cancel_called, notified_created,
  notified_changed, callback_enqueued, recon_opened, recon_resolved, update_columns,
}
use gtd_api.Payment.Lifecycle.{refresh_status, apply_webhook_to, cancel_found, owned}
use gtd_api.Payment.Lifecycle.History.{
  LifecycleEvent, webhook_came, refresh_due, cancel_asked, expiry_due, is_expirable, run_event,
  row_after, end_of, history, one_if, final_events,
}
use gtd_api.Payment.Lifecycle.History.Told.{
  final_events-append, status_after, apply_webhook-Tells, refresh-Tells, cancel_found-Tells,
  expire-Tells,
}

-- What an operation on a row does.
abbrev Fits : PaymentStatus → List Effect → Type 0
Fits s es = final_events es ≤ one_if (is_final (status_after s es))

run_event-Fits :
    (env : Env) (event : LifecycleEvent) (row : Payment) → Fits row.status (run_event env event row)
unfolding run_event
run_event-Fits env (webhook_came event) row = (apply_webhook-Tells row.status env row event).once
run_event-Fits env refresh_due row = (refresh-Tells row.status env row).once
run_event-Fits env (cancel_asked client_id reason) row =
    (cancel_found-Tells row.status env reason (owned client_id (ok row))).once
run_event-Fits env expiry_due row = elim (Bool-cases (is_expirable env.now row)) [
  | inl due ↦ rw due (expire-Tells row.status env row).once
  | inr early ↦ rw early (omega arith)
]

final-ne-pending : (s : PaymentStatus) → is_final s ≡ true → same_status s pending ≡ false
final-ne-pending s h = ground arith

cancel-still :
    (env : Env) (reason : String) (client_id : ℕ) (row : Payment)
    → same_status row.status pending ≡ false
    → (cancel_found env reason (owned client_id (ok row))).effects ≡ []
unfolding cancel_found owned
cancel-still env reason client_id row h = elim (Bool-cases (row.client_id == client_id)) [
  | inl own ↦ rw (own, h) refl
  | inr foreign ↦ rw foreign refl
]

-- No operation touches a row with a final status.
run_event-still :
    (env : Env) (event : LifecycleEvent) (row : Payment)
    → is_final row.status ≡ true
    → run_event env event row ≡ []
unfolding run_event apply_webhook_to refresh_status is_expirable
run_event-still env (webhook_came event) row h = rw (run_event, h) refl
run_event-still env refresh_due row h = rw (run_event, h) refl
run_event-still env (cancel_asked client_id reason) row h =
    cancel-still env reason client_id row (final-ne-pending row.status h)
run_event-still env expiry_due row h = rw (run_event, final-ne-pending row.status h) refl

row_after-status :
    (now : ℕ) (row : Payment) (es : List Effect)
    → (row_after now row es).status ≡ status_after row.status es
unfolding row_after update_columns
row_after-status now row [] = refl
row_after-status now row (updated q ∷ es) = row_after-status now (update_columns now row q) es
row_after-status now row (inserted p ∷ es) = row_after-status now row es
row_after-status now row (callback_enqueued p event ∷ es) = row_after-status now row es
row_after-status now row (create_logged provider good code ∷ es) = row_after-status now row es
row_after-status now row (create_called provider request ∷ es) = row_after-status now row es
row_after-status now row (cancel_called provider p reason ∷ es) = row_after-status now row es
row_after-status now row (notified_created p ∷ es) = row_after-status now row es
row_after-status now row (notified_changed p ∷ es) = row_after-status now row es
row_after-status now row (recon_opened r ∷ es) = row_after-status now row es
row_after-status now row (recon_resolved p s r ∷ es) = row_after-status now row es

-- One event more is told only of a row that was not final and is final now.
step-bound :
    (env : Env) (event : LifecycleEvent) (row : Payment)
    → final_events (run_event env event row) + one_if (is_final row.status)
      ≤ one_if (is_final (row_after env.now row (run_event env event row)).status)
step-bound env event row = elim (Bool-cases (is_final row.status)) [
  | inl settled ↦ rw (run_event-still env event row settled) (unfold row_after in omega arith)
  | inr waiting ↦
      rw (waiting, row_after-status env.now row (run_event env event row))
        (omega (arith, run_event-Fits env event row))
]

-- Over every history of webhooks, refreshes, cancellations and expiries of a payment, one after
-- another, each with its own answers of the providers and of the database: the merchant is told at
-- most one final status. The events of a final status that are queued, and one more if the payment
-- was final before, are at most one if the payment is final in the end, and none otherwise.
pub history_tells_once :
    (events : List (Env × LifecycleEvent)) (row : Payment)
    → final_events (history events row) + one_if (is_final row.status)
      ≤ one_if (is_final (end_of events row).status)
unfolding history end_of
history_tells_once [] row = omega arith
history_tells_once ((env, event) ∷ rest) row =
    let now_row = row_after env.now row (run_event env event row) in
    omega (
      arith,
      step-bound env event row,
      history_tells_once rest now_row,
      final_events-append (run_event env event row) (history rest now_row),
    )
