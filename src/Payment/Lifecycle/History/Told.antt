-- ===== src/Payment/Lifecycle/History/Told.antt =====
-- What each operation on a payment tells of a final status.
use gtd_api.Prelude.{
  ◌+◌, ◌≤◌, String, ◌≡◌, Bool, true, false, Option, none, some, List, [], ◌∷◌, ◌++◌, arith,
  if◌then◌else◌,
}
use gtd_api.Errors.{GoError, Result, ok, err}
use gtd_api.Run.{Run, return_ok, fail, emit, emit_if, write}
use gtd_api.Payment.Model.{
  Payment, PaymentStatus, is_final, PaymentInquiryResult, PaymentWebhookEvent,
  PaymentReconciliation,
}
use gtd_api.Payment.Store.{
  Env, Effect, PaymentProviderClient, inserted, updated, create_logged, create_called,
  cancel_called, notified_created, notified_changed, callback_enqueued, recon_opened,
  recon_resolved, update_payment,
}
use gtd_api.Payment.Lifecycle.{
  refresh_status, apply_webhook_to, expire_payment, refresh_settled, refresh_merged,
  refresh_answered, refresh_with, cancel_found, ask_cancel, apply_confirmed, hold_webhook,
  conclusive, compare_webhook, webhook_answered, webhook_with,
}
use gtd_api.Payment.Lifecycle.History.{one_if, final_events}

pub final_events-append :
    (xs ys : List Effect) → final_events (xs ++ ys) ≡ final_events xs + final_events ys
final_events-append [] ys = omega arith
final_events-append (callback_enqueued p event ∷ xs) ys = omega (arith, final_events-append xs ys)
final_events-append (inserted p ∷ xs) ys = final_events-append xs ys
final_events-append (updated p ∷ xs) ys = final_events-append xs ys
final_events-append (create_logged provider good code ∷ xs) ys = final_events-append xs ys
final_events-append (create_called provider request ∷ xs) ys = final_events-append xs ys
final_events-append (cancel_called provider p reason ∷ xs) ys = final_events-append xs ys
final_events-append (notified_created p ∷ xs) ys = final_events-append xs ys
final_events-append (notified_changed p ∷ xs) ys = final_events-append xs ys
final_events-append (recon_opened r ∷ xs) ys = final_events-append xs ys
final_events-append (recon_resolved p s r ∷ xs) ys = final_events-append xs ys

-- An operation on a row with the status `s` queues an event of a final status only where it leaves
-- the row with one, and then one event.
abbrev pub status_after : PaymentStatus → List Effect → PaymentStatus
status_after s [] = s
status_after s (updated q ∷ es) = status_after q.status es
status_after s (inserted p ∷ es) = status_after s es
status_after s (callback_enqueued p event ∷ es) = status_after s es
status_after s (create_logged provider good code ∷ es) = status_after s es
status_after s (create_called provider request ∷ es) = status_after s es
status_after s (cancel_called provider p reason ∷ es) = status_after s es
status_after s (notified_created p ∷ es) = status_after s es
status_after s (notified_changed p ∷ es) = status_after s es
status_after s (recon_opened r ∷ es) = status_after s es
status_after s (recon_resolved p t r ∷ es) = status_after s es

pub record Tells (s : PaymentStatus) {A : Type 0} (r : Run Effect A) : Type 0 where
  pub once : final_events r.effects ≤ one_if (is_final (status_after s r.effects))

module _ {A : Type 0} (s : PaymentStatus) where
  Tells-return : (a : A) → Tells s (return_ok {E = Effect} a)
  Tells-return a = record { once = omega arith }

  Tells-fail : (e : GoError) → Tells s (fail {E = Effect} {A = A} e)
  Tells-fail e = record { once = omega arith }

  Tells-told :
      (q : Payment) (event : String) (a : A)
      → Tells q.status (emit (callback_enqueued q event) (return_ok a))
  Tells-told q event a = record { once = omega arith }

  Tells-notified :
      (b : Bool) (q : Payment) (r : Run Effect A)
      → Tells s r
      → Tells s (emit_if b (notified_changed q) r)
  Tells-notified true q r h = record { once = h.once }
  Tells-notified false q r h = h

  Tells-resolved :
      (b : Bool) (id status resolver : String) (r : Run Effect A)
      → Tells s r
      → Tells s (emit_if b (recon_resolved id status resolver) r)
  Tells-resolved true id status resolver r h = record { once = h.once }
  Tells-resolved false id status resolver r h = h

  Tells-update :
      (env : Env) (q : Payment) (on_error : GoError → Run Effect A) (next : Run Effect A)
      → ((e : GoError) → Tells s (on_error e))
      → Tells q.status next
      → Tells s (update_payment env q on_error next)
  Tells-update env q on_error next h k = go (env.update q)
    where
      go : (o : Option GoError) → Tells s (write o (updated q) on_error next)
      go none = record { once = k.once }
      go (some e) = h e

  Tells-if : (b : Bool) (x y : Run Effect A) → Tells s x → Tells s y → Tells s (if b then x else y)
  Tells-if true x y h k = h
  Tells-if false x y h k = k

ruleset tells_rules =
    (Tells-return, Tells-fail, Tells-told, Tells-notified, Tells-resolved, Tells-update, Tells-if)

apply_confirmed-Tells :
    (s : PaymentStatus) (env : Env) (q : Payment) (status : PaymentStatus)
    → Tells s (apply_confirmed env q status)
unfolding apply_confirmed
apply_confirmed-Tells s env q status = search tells_rules depth 9

Tells-opened :
    {A : Type 0} (s : PaymentStatus) (b : Bool) (r : PaymentReconciliation) (x : Run Effect A)
    → Tells s x
    → Tells s (emit_if b (recon_opened r) x)
Tells-opened s true r x h = record { once = h.once }
Tells-opened s false r x h = h

hold_webhook-Tells :
    (s : PaymentStatus) (env : Env) (q : Payment) (event : PaymentWebhookEvent)
    (result : PaymentInquiryResult) (status_match amount_match : Bool)
    → Tells s (hold_webhook env q event result status_match amount_match)
unfolding hold_webhook
hold_webhook-Tells s env q event result sm am = search (tells_rules, Tells-opened) depth 9

conclusive-Tells :
    (s : PaymentStatus) (env : Env) (q : Payment) (event : PaymentWebhookEvent)
    (result : PaymentInquiryResult) (status_match amount_match : Bool)
    → Tells s (conclusive env q event result status_match amount_match)
unfolding conclusive
conclusive-Tells s env q event result true true = apply_confirmed-Tells s env q result.status
conclusive-Tells s env q event result true false = search hold_webhook-Tells
conclusive-Tells s env q event result false am = search hold_webhook-Tells

compare_webhook-Tells :
    (s : PaymentStatus) (env : Env) (q : Payment) (event : PaymentWebhookEvent)
    (result : PaymentInquiryResult)
    → Tells s (compare_webhook env q event result)
unfolding compare_webhook
compare_webhook-Tells s env q event result =
    search (tells_rules, conclusive-Tells, apply_confirmed-Tells)

webhook_answered-Tells :
    (s : PaymentStatus) (env : Env) (q : Payment) (event : PaymentWebhookEvent)
    (r : Result (Option PaymentInquiryResult))
    → Tells s (webhook_answered env q event r)
unfolding webhook_answered
webhook_answered-Tells s env q event (err _) = search tells_rules
webhook_answered-Tells s env q event (ok none) = search tells_rules
webhook_answered-Tells s env q event (ok (some r)) = search compare_webhook-Tells

webhook_with-Tells :
    (s : PaymentStatus) (env : Env) (q : Payment) (event : PaymentWebhookEvent)
    (c : Result PaymentProviderClient)
    → Tells s (webhook_with env q event c)
unfolding webhook_with
webhook_with-Tells s env q event (err _) = search tells_rules
webhook_with-Tells s env q event (ok c) = webhook_answered-Tells s env q event (c.inquiry_payment q)

pub apply_webhook-Tells :
    (s : PaymentStatus) (env : Env) (p : Payment) (event : PaymentWebhookEvent)
    → Tells s (apply_webhook_to env p event)
unfolding apply_webhook_to
apply_webhook-Tells s env p event = search (tells_rules, webhook_with-Tells)

refresh_settled-Tells :
    (s : PaymentStatus) (env : Env) (q : Payment) → Tells s (refresh_settled env q)
unfolding refresh_settled
refresh_settled-Tells s env q = search tells_rules depth 9

refresh_merged-Tells :
    (s : PaymentStatus) (env : Env) (q : Payment) (status : PaymentStatus)
    → Tells s (refresh_merged env q status)
unfolding refresh_merged
refresh_merged-Tells s env q status = search (tells_rules, refresh_settled-Tells)

refresh_answered-Tells :
    (s : PaymentStatus) (env : Env) (p : Payment) (r : Result (Option PaymentInquiryResult))
    → Tells s (refresh_answered env p r)
unfolding refresh_answered
refresh_answered-Tells s env p (err _) = search tells_rules
refresh_answered-Tells s env p (ok none) = search tells_rules
refresh_answered-Tells s env p (ok (some r)) = search refresh_merged-Tells

refresh_with-Tells :
    (s : PaymentStatus) (env : Env) (p : Payment) (c : Result PaymentProviderClient)
    → Tells s (refresh_with env p c)
unfolding refresh_with
refresh_with-Tells s env p (err _) = search tells_rules
refresh_with-Tells s env p (ok c) = refresh_answered-Tells s env p (c.inquiry_payment p)

pub refresh-Tells : (s : PaymentStatus) (env : Env) (p : Payment) → Tells s (refresh_status env p)
unfolding refresh_status
refresh-Tells s env p = search (tells_rules, refresh_with-Tells)

ask_cancel-Tells :
    (s : PaymentStatus) (p : Payment) (reason : String) (c : Result PaymentProviderClient)
    (next : Run Effect Payment)
    → Tells s next
    → Tells s (ask_cancel p reason c next)
unfolding ask_cancel
ask_cancel-Tells s p reason (err e) next h = h
ask_cancel-Tells s p reason (ok provider) next h = record { once = h.once }

pub cancel_found-Tells :
    (s : PaymentStatus) (env : Env) (reason : String) (r : Result Payment)
    → Tells s (cancel_found env reason r)
unfolding cancel_found
cancel_found-Tells s env reason (err e) = search tells_rules
cancel_found-Tells s env reason (ok p) = search (tells_rules, ask_cancel-Tells) depth 9

pub expire-Tells : (s : PaymentStatus) (env : Env) (p : Payment) → Tells s (expire_payment env p)
unfolding expire_payment
expire-Tells s env p = search tells_rules depth 9
