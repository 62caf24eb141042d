-- ===== src/Payment/Lifecycle/Held.antt =====
-- What stops a webhook, and what a write does to a row that has moved on meanwhile.
use gtd_api.Prelude.{◌≡◌, refl, Bool, true, false, ◌&&◌, Option, none, some, [], ◌∷◌, arith}
use gtd_api.Errors.{Result, ok, err}
use gtd_api.Run.{Run}
use gtd_api.Payment.Model.{
  Payment, expired, is_final, is_set, same_status, PaymentInquiryResult, PaymentWebhookEvent,
  ReconReason, status_mismatch, amount_mismatch, status_amount_mismatch, PaymentReconciliation,
}
use gtd_api.Payment.Store.{
  Env, Effect, PaymentProviderClient, updated, recon_opened, router_get, update_columns,
  apply_effects, update_row,
}
use gtd_api.Payment.Lifecycle.{
  apply_webhook_to, merge_inquiry, amounts_agree, open_reconciliation, merge_webhook, hold_webhook,
  conclusive, compare_webhook, webhook_answered, webhook_with, expire_payment,
}

webhook-routed :
    (env : Env) (p : Payment) (event : PaymentWebhookEvent) (client : PaymentProviderClient)
    → is_final p.status ≡ false
    → router_get env.clients (merge_webhook p event).provider ≡ ok client
    → apply_webhook_to env p event
      ≡ webhook_answered env
          (merge_webhook p event)
          event
          (client.inquiry_payment (merge_webhook p event))
unfolding apply_webhook_to webhook_with
webhook-routed env p event client live routed = rw (live, routed) refl

-- An inquiry that failed or that answered with nothing.
abbrev pub IsSilent : Result (Option PaymentInquiryResult) → Type 0
IsSilent (err e) = Unit
IsSilent (ok none) = Unit
IsSilent (ok (some result)) = ⊥

-- A run that writes `q` and does nothing else.
abbrev OnlyWrites : Payment → Run Effect Payment → Type 0
OnlyWrites q r = (r.effects ≡ updated q ∷ []) × (r.outcome ≡ ok q)

webhook_answered-silent :
    (env : Env) (p : Payment) (event : PaymentWebhookEvent)
    (r : Result (Option PaymentInquiryResult))
    → IsSilent r
    → env.update p ≡ none
    → OnlyWrites p (webhook_answered env p event r)
unfolding webhook_answered
webhook_answered-silent env p event (err e) s w = rw w (refl, refl)
webhook_answered-silent env p event (ok none) s w = rw w (refl, refl)
webhook_answered-silent env p event (ok (some result)) s w = absurd s

-- For a payment that is not final, whose provider has an adapter, an inquiry that fails or answers
-- with nothing stops the webhook: where the database takes the write, the payment with the
-- webhook's reference and payload is written, with its old status, and nothing else happens.
apply_webhook-unverified :
    (env : Env) (p : Payment) (event : PaymentWebhookEvent) (client : PaymentProviderClient)
    → is_final p.status ≡ false
    → router_get env.clients (merge_webhook p event).provider ≡ ok client
    → IsSilent (client.inquiry_payment (merge_webhook p event))
    → env.update (merge_webhook p event) ≡ none
    → OnlyWrites (merge_webhook p event) (apply_webhook_to env p event)
      × ((merge_webhook p event).status ≡ p.status)
unfolding merge_webhook
apply_webhook-unverified env p event client live routed silent written = (
  rw (webhook-routed env p event client live routed) (
      webhook_answered-silent env (merge_webhook p event) event
        (client.inquiry_payment (merge_webhook p event)) silent written),
  ground arith,
)

-- What the reconciliation says of the disagreement: which of the two comparisons failed.
abbrev pub ReasonFits : PaymentWebhookEvent → PaymentInquiryResult → ReconReason → Type 0
ReasonFits event result status_mismatch =
    (same_status event.status result.status ≡ false)
    × (amounts_agree event.paid_amount result.paid_amount ≡ true)
ReasonFits event result amount_mismatch =
    (same_status event.status result.status ≡ true)
    × (amounts_agree event.paid_amount result.paid_amount ≡ false)
ReasonFits event result status_amount_mismatch =
    (same_status event.status result.status ≡ false)
    × (amounts_agree event.paid_amount result.paid_amount ≡ false)

-- A run that opens a reconciliation of `q` for a fitting reason, writes `q` and does nothing else.
abbrev pub IsHeld :
    Payment → PaymentWebhookEvent → PaymentInquiryResult → Run Effect Payment → Type 0
IsHeld q event result r =
    (rec : PaymentReconciliation) × (r.effects ≡ recon_opened rec ∷ updated q ∷ [])
    × (r.outcome ≡ ok q)
    × ReasonFits event result rec.reason
    × (rec.payment_id ≡ q.payment_id)
    × (rec.expected_amount ≡ some q.total_amount)

conclusive-IsHeld :
    (env : Env) (p : Payment) (event : PaymentWebhookEvent) (result : PaymentInquiryResult)
    (status_match amount_match : Bool)
    → same_status event.status result.status ≡ status_match
    → amounts_agree event.paid_amount result.paid_amount ≡ amount_match
    → (status_match && amount_match) ≡ false
    → env.has_reconciliation ≡ true
    → env.update p ≡ none
    → IsHeld p event result (conclusive env p event result status_match amount_match)
unfolding conclusive hold_webhook open_reconciliation
conclusive-IsHeld env p event result true true s a d r w = cc
conclusive-IsHeld env p event result true false s a d r w =
    rw (r, w) (open_reconciliation p event result true false, refl, refl, (s, a), refl, refl)
conclusive-IsHeld env p event result false true s a d r w =
    rw (r, w) (open_reconciliation p event result false true, refl, refl, (s, a), refl, refl)
conclusive-IsHeld env p event result false false s a d r w =
    rw (r, w) (open_reconciliation p event result false false, refl, refl, (s, a), refl, refl)

-- For a payment that is not final, whose provider's adapter answers the inquiry with a status, a
-- webhook that contradicts the answer, in the status or in the amount, is held: where
-- reconciliation is set up and the database takes the write, a reconciliation is opened whose
-- reason says which of the two differs, and which expects the payment's total, the payment is
-- written, and nothing else happens. The payment that is written has the old status.
pub apply_webhook-IsHeld :
    (env : Env) (p : Payment) (event : PaymentWebhookEvent) (client : PaymentProviderClient)
    (result : PaymentInquiryResult)
    → is_final p.status ≡ false
    → router_get env.clients (merge_webhook p event).provider ≡ ok client
    → client.inquiry_payment (merge_webhook p event) ≡ ok (some result)
    → is_set result.status ≡ true
    → (same_status event.status result.status && amounts_agree event.paid_amount result.paid_amount)
      ≡ false
    → env.has_reconciliation ≡ true
    → env.update (merge_inquiry (merge_webhook p event) result) ≡ none
    → IsHeld
        (merge_inquiry (merge_webhook p event) result)
        event
        result
        (apply_webhook_to env p event)
      × ((merge_inquiry (merge_webhook p event) result).status ≡ p.status)
unfolding webhook_answered compare_webhook
apply_webhook-IsHeld env p event client result live routed answered set differ recon written = (
  rw (webhook-routed env p event client live routed, answered, set)
      (conclusive-IsHeld env (merge_inquiry (merge_webhook p event) result) event result _ _ refl
        refl differ recon written),
  unfold merge_webhook merge_inquiry in ground arith,
)

-- A row that has the payment's id, after the effects of an expiry that was decided on an earlier
-- reading of the row: it is Expired, with that reading's time of payment, whatever it had become.
expire_payment-overwrites :
    (env : Env) (p row : Payment)
    → row.id ≡ p.id
    → env.update (record p { status = expired }) ≡ none
    → (late : Payment) × (apply_effects env.now (expire_payment env p).effects (row ∷ [])
        ≡ late ∷ [])
      × (late.status ≡ expired)
      × (late.paid_at ≡ p.paid_at)
      × (late.provider_data ≡ p.provider_data)
unfolding expire_payment apply_effects update_columns
expire_payment-overwrites env p row same written = (
  update_columns env.now row (record p { status = expired }),
  unfold update_row in ground arith,
  refl,
  refl,
  refl,
)
