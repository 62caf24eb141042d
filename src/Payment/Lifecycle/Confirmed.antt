-- ===== src/Payment/Lifecycle/Confirmed.antt =====
-- Where the status of a webhook comes from, and what the merchant is told.
use gtd_api.Prelude.{
  ℕ, String, ◌≡◌, ◌≢◌, refl, ◌⊎◌, inl, inr, Bool, true, false, Option, none, some, List, [], ◌∷◌,
  arith, ap, sym, ◌∙◌, subst, if◌then◌else◌, Bool-cases, eq_refl, eq_iff,
}
use gtd_api.Errors.{Result, ok, err}
use gtd_api.Run.{Run}
use gtd_api.Payment.Model.{
  Payment, PaymentStatus, other_status, is_final, is_set, same_status, PaymentInquiryResult,
  PaymentWebhookEvent, payment_event_name,
}
use gtd_api.Payment.Store.{
  Env, Effect, PaymentProviderClient, inserted, updated, create_logged, create_called,
  cancel_called, notified_created, notified_changed, callback_enqueued, recon_opened,
  recon_resolved, router_get,
}
use gtd_api.Payment.Lifecycle.{
  apply_webhook_to, settle, merge_inquiry, amounts_agree, merge_webhook, apply_confirmed,
  hold_webhook, conclusive, compare_webhook, webhook_answered, webhook_with,
}

pub same_status_iff : (s t : PaymentStatus) → same_status s t ≡ true → s ≡ t
same_status_iff (other_status a) (other_status b) h = ap other_status ((eq_iff a b).0 h)
same_status_iff s t h = ground arith

pub same_status_refl : (s : PaymentStatus) → same_status s s ≡ true
same_status_refl (other_status a) = eq_refl a
same_status_refl s = ground arith

status-settle : (now : ℕ) (p : Payment) (s : PaymentStatus) → (settle now p s).status ≡ s
unfolding settle
status-settle now p s = ground arith

status-merge_inquiry :
    (p : Payment) (r : PaymentInquiryResult) → (merge_inquiry p r).status ≡ p.status
unfolding merge_inquiry
status-merge_inquiry p r = ground arith

status-merge_webhook :
    (p : Payment) (r : PaymentWebhookEvent) → (merge_webhook p r).status ≡ p.status
unfolding merge_webhook
status-merge_webhook p r = ground arith

provider-merge_webhook :
    (p : Payment) (r : PaymentWebhookEvent) → (merge_webhook p r).provider ≡ p.provider
unfolding merge_webhook
provider-merge_webhook p r = ground arith

-- The events that an operation queues for the merchant.
abbrev pub callbacks : List Effect → List String
callbacks [] = []
callbacks (callback_enqueued p event ∷ es) = event ∷ callbacks es
callbacks (inserted p ∷ es) = callbacks es
callbacks (updated p ∷ es) = callbacks es
callbacks (create_logged provider good code ∷ es) = callbacks es
callbacks (create_called provider request ∷ es) = callbacks es
callbacks (cancel_called provider p reason ∷ es) = callbacks es
callbacks (notified_created p ∷ es) = callbacks es
callbacks (notified_changed p ∷ es) = callbacks es
callbacks (recon_opened r ∷ es) = callbacks es
callbacks (recon_resolved p s r ∷ es) = callbacks es

-- What the merchant is to hear of an operation on a payment that had the status `old`: one event, named
-- for the new status, if the operation succeeded with another status, and nothing otherwise.
abbrev pub expected_callbacks : (old : PaymentStatus) → Result Payment → List String
expected_callbacks old (err e) = []
expected_callbacks old (ok q) =
    if same_status old q.status then [] else payment_event_name q.status ∷ []

abbrev pub IsAnnounced : PaymentStatus → Run Effect Payment → Type 0
IsAnnounced old r = callbacks r.effects ≡ expected_callbacks old r.outcome

apply_confirmed-IsAnnounced :
    (env : Env) (p : Payment) (s : PaymentStatus) → IsAnnounced p.status (apply_confirmed env p s)
unfolding apply_confirmed
apply_confirmed-IsAnnounced env p s = ground arith

conclusive-IsAnnounced :
    (env : Env) (p : Payment) (event : PaymentWebhookEvent) (result : PaymentInquiryResult)
    (status_match amount_match : Bool)
    → IsAnnounced p.status (conclusive env p event result status_match amount_match)
unfolding conclusive hold_webhook
conclusive-IsAnnounced env p event result true true =
    apply_confirmed-IsAnnounced env p result.status
conclusive-IsAnnounced env p event result true false = ground (arith, same_status_refl p.status)
conclusive-IsAnnounced env p event result false am = ground (arith, same_status_refl p.status)

compare_webhook-IsAnnounced :
    (env : Env) (p : Payment) (event : PaymentWebhookEvent) (result : PaymentInquiryResult)
    → IsAnnounced p.status (compare_webhook env p event result)
unfolding compare_webhook
compare_webhook-IsAnnounced env p event result =
    let status_match = same_status event.status result.status in
    let amount_match = amounts_agree event.paid_amount result.paid_amount in
    ground (
      arith,
      conclusive-IsAnnounced env p event result status_match amount_match,
      apply_confirmed-IsAnnounced env p event.status,
    )

webhook_answered-IsAnnounced :
    (env : Env) (p : Payment) (event : PaymentWebhookEvent)
    (r : Result (Option PaymentInquiryResult))
    → IsAnnounced p.status (webhook_answered env p event r)
unfolding webhook_answered
webhook_answered-IsAnnounced env p event (err _) = ground (arith, same_status_refl p.status)
webhook_answered-IsAnnounced env p event (ok none) = ground (arith, same_status_refl p.status)
webhook_answered-IsAnnounced env p event (ok (some result)) =
    let q = merge_inquiry p result in
    subst (λ old. IsAnnounced old (compare_webhook env q event result))
      (status-merge_inquiry p result) (compare_webhook-IsAnnounced env q event result)

webhook_with-IsAnnounced :
    (env : Env) (p : Payment) (event : PaymentWebhookEvent) (c : Result PaymentProviderClient)
    → IsAnnounced p.status (webhook_with env p event c)
unfolding webhook_with
webhook_with-IsAnnounced env p event (err _) = ground (arith, same_status_refl p.status)
webhook_with-IsAnnounced env p event (ok c) =
    webhook_answered-IsAnnounced env p event (c.inquiry_payment p)

-- A webhook for a payment queues exactly one event for the merchant, named for the new status, if it
-- succeeds with another status than the payment had. It queues none if it leaves the status, or fails.
pub apply_webhook-announces :
    (env : Env) (p : Payment) (event : PaymentWebhookEvent)
    → callbacks (apply_webhook_to env p event).effects
      ≡ expected_callbacks p.status (apply_webhook_to env p event).outcome
unfolding apply_webhook_to
apply_webhook-announces env p event =
    let q = merge_webhook p event in
    let client = router_get env.clients q.provider in
    ground (
      arith,
      same_status_refl p.status,
      status-merge_webhook p event,
      webhook_with-IsAnnounced env q event client,
    )

-- The two ways in which the provider's answer lets a webhook settle a payment: it names the
-- webhook's status and does not contradict its amount, or it names no status at all.
pub data IsConfirmed (event : PaymentWebhookEvent) (result : PaymentInquiryResult)
    (s : PaymentStatus) : Type 0 where
  agreed :
      s ≡ result.status
      → event.status ≡ result.status
      → amounts_agree event.paid_amount result.paid_amount ≡ true
      → IsConfirmed event result s
  inconclusive : is_set result.status ≡ false → s ≡ event.status → IsConfirmed event result s

apply_confirmed_status :
    (env : Env) (p q : Payment) (s : PaymentStatus)
    → (apply_confirmed env p s).outcome ≡ ok q
    → s ≡ q.status
unfolding apply_confirmed
apply_confirmed_status env p q s h = ground (arith, status-settle env.now p s)

hold_webhook_status :
    (env : Env) (p q : Payment) (event : PaymentWebhookEvent) (result : PaymentInquiryResult)
    (status_match amount_match : Bool)
    → (hold_webhook env p event result status_match amount_match).outcome ≡ ok q
    → q ≡ p
unfolding hold_webhook
hold_webhook_status env p q event result sm am h = ground arith

conclusive_confirms :
    (env : Env) (p q : Payment) (event : PaymentWebhookEvent) (result : PaymentInquiryResult)
    (status_match amount_match : Bool)
    → same_status event.status result.status ≡ status_match
    → amounts_agree event.paid_amount result.paid_amount ≡ amount_match
    → (conclusive env p event result status_match amount_match).outcome ≡ ok q
    → (q.status ≡ p.status) ⊎ IsConfirmed event result q.status
unfolding conclusive
conclusive_confirms env p q event result true true sm am h = inr (
    agreed (sym (apply_confirmed_status env p q result.status h))
      (same_status_iff event.status result.status sm) am)
conclusive_confirms env p q event result true false sm am h =
    inl (ap (λ (x : Payment). x.status) (hold_webhook_status env p q event result true false h))
conclusive_confirms env p q event result false a sm am h =
    inl (ap (λ (x : Payment). x.status) (hold_webhook_status env p q event result false a h))

compare_webhook_confirms :
    (env : Env) (p q : Payment) (event : PaymentWebhookEvent) (result : PaymentInquiryResult)
    → (compare_webhook env p event result).outcome ≡ ok q
    → (q.status ≡ p.status) ⊎ IsConfirmed event result q.status
unfolding compare_webhook
compare_webhook_confirms env p q event result h = elim (Bool-cases (is_set result.status)) [
  | inl set ↦ conclusive_confirms env p q event result _ _ refl refl (rw set at h)
  | inr unset ↦
      inr (inconclusive unset (sym (apply_confirmed_status env p q event.status (rw unset at h))))
]

-- The provider's adapter that a payment goes to, and the answer that it gives there.
abbrev pub Answers : Env → Payment → PaymentInquiryResult → Type 0
Answers env p result =
    (client : PaymentProviderClient) × (router_get env.clients p.provider ≡ ok client)
    × (client.inquiry_payment p ≡ ok (some result))

webhook_answered_confirms :
    (env : Env) (p q : Payment) (event : PaymentWebhookEvent)
    (r : Result (Option PaymentInquiryResult))
    → (webhook_answered env p event r).outcome ≡ ok q
    → (q.status ≡ p.status)
      ⊎ ((result : PaymentInquiryResult) × (r ≡ ok (some result))
          × IsConfirmed event result q.status)
unfolding webhook_answered
webhook_answered_confirms env p q event (err _) h = inl (ground arith)
webhook_answered_confirms env p q event (ok none) h = inl (ground arith)
webhook_answered_confirms env p q event (ok (some result)) h =
    elim (compare_webhook_confirms env (merge_inquiry p result) q event result h) [
      | inl same ↦ inl (same ∙ status-merge_inquiry p result)
      | inr confirmed ↦ inr (result, refl, confirmed)
    ]

webhook_with_confirms :
    (env : Env) (p q : Payment) (event : PaymentWebhookEvent) (c : Result PaymentProviderClient)
    → router_get env.clients p.provider ≡ c
    → (webhook_with env p event c).outcome ≡ ok q
    → (q.status ≡ p.status)
      ⊎ ((result : PaymentInquiryResult) × Answers env p result × IsConfirmed event result q.status)
unfolding webhook_with
webhook_with_confirms env p q event (err _) e h = inl (ground arith)
webhook_with_confirms env p q event (ok c) e h =
    elim (webhook_answered_confirms env p q event (c.inquiry_payment p) h) [
      | inl same ↦ inl same
      | inr (result, answered, confirmed) ↦ inr (result, (c, e, answered), confirmed)
    ]

-- A webhook that succeeds with another status than the payment had was checked: an adapter is
-- registered for the payment's provider, it answered the inquiry for the payment with the webhook's
-- data merged in, and either its status is the webhook's and the new one and the two amounts agree
-- (where both are reported), or it named no status and the new one is the webhook's.
pub apply_webhook-IsConfirmed :
    (env : Env) (p q : Payment) (event : PaymentWebhookEvent)
    → (apply_webhook_to env p event).outcome ≡ ok q
    → q.status ≢ p.status
    → (result : PaymentInquiryResult) × Answers env (merge_webhook p event) result
      × IsConfirmed event result q.status
unfolding apply_webhook_to
apply_webhook-IsConfirmed env p q event h changed = elim (Bool-cases (is_final p.status)) [
  | inl final ↦ absurd (changed (ground arith))
  | inr live ↦
      let m = merge_webhook p event in
      elim (webhook_with_confirms env m q event (router_get env.clients m.provider) refl
        (rw live at h)) [
          | inl same ↦ absurd (changed (same ∙ status-merge_webhook p event))
          | inr found ↦ found
        ]
]
