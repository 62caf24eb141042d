-- ===== src/Transaction/Callback/Answered.antt =====
-- What a callback of Digiflazz comes to.
use gtd_api.Prelude.{
  ℕ, String, ◌≡◌, refl, Bool, true, false, ◌&&◌, Bool-cases, inl, inr, Option, none, some, List, [],
  ◌∷◌, ◌++◌, if◌then◌else◌,
}
use gtd_api.Errors.{GoError, Result, ok, err}
use gtd_api.Run.{emit, emit_if}
use gtd_api.Transaction.Model.{Transaction, is_final, CallbackPayload}
use gtd_api.Transaction.Codes.{is_success, is_pending, is_fatal, is_retryable}
use gtd_api.Transaction.Store.{
  Env, Effect, saved, callback_started, callback_processed, callback_kept, notified_status,
}
use gtd_api.Transaction.Retry.{retry_with_next_sku}
use gtd_api.Transaction.Announced.{announced}
use gtd_api.Transaction.Announced.Created.{as_running, next_sku-IsAnnounced}
use gtd_api.Transaction.Callback.{
  Processed, mark_processed, mark_unless, after_update, after_retry, close_callback,
  callback_succeeded, callback_failed, retry_callback, process_open, process_found,
  process_callback, process_digiflazz_callback, find_callback_transaction, id_or_zero,
}
use gtd_api.Transaction.Told.{IsAudit, Tells, Succeeded, Answers, IsAnnounced-Tells, append-Tells}

abbrev TellsAll : (must : Bool) → Processed → Type 0
TellsAll must r = Tells must Succeeded r.effects

Tells-if :
    (b : Bool) (r s : Processed)
    → TellsAll false r
    → TellsAll false s
    → TellsAll false (if b then r else s)
Tells-if true r s h k = h
Tells-if false r s h k = k

closed-Tells :
    (must : Bool) (o : Option GoError) (notify : Bool) (id : ℕ) (t : Transaction) (event : String)
    → announced t ≡ (t, event) ∷ []
    → ((e : GoError) → o ≡ some e → must ≡ false)
    → TellsAll must (
        emit (saved t o) (
          after_update o (
            emit_if notify
              (notified_status t)
              (emit (callback_started t event) (mark_processed id)))))
closed-Tells must none true id t event said free = inr (t, event, none, refl, said, refl, refl)
closed-Tells must none false id t event said free = inr (t, event, none, refl, said, refl, refl)
closed-Tells must (some e) notify id t event said free = inl (free e refl, refl)

close-Tells :
    (must : Bool) (env : Env) (id : ℕ) (t : Transaction) (event : String)
    → announced t ≡ (t, event) ∷ []
    → ((e : GoError) → env.update t ≡ some e → must ≡ false)
    → TellsAll must (close_callback env id t event)
unfolding close_callback
close-Tells must env id t event said free =
    closed-Tells must (env.update t) env.has_notifier id t event said free

mark-Tells :
    (id : ℕ) (es : List Effect) (e : Option GoError)
    → Tells false Succeeded es
    → Tells false Succeeded (es ++ mark_unless id e)
mark-Tells id es none h = append-Tells Succeeded es (callback_processed id ∷ []) refl refl h
mark-Tells id es (some e) h = append-Tells Succeeded es [] refl refl h

after_retry-Tells :
    (id : ℕ) (running : Bool) (e : Option GoError) (es : List Effect)
    → Tells false Succeeded es
    → TellsAll false (after_retry id running e es)
after_retry-Tells id true e es h = h
after_retry-Tells id false e es h = mark-Tells id es e h

retry-Tells :
    (fuel : ℕ) (env : Env) (id : ℕ) (t : Transaction)
    → TellsAll false (retry_callback fuel env id t)
unfolding retry_callback
retry-Tells fuel env id t =
    let r = retry_with_next_sku fuel env t in
    Tells-if env.has_sku_retrier _ _
      (after_retry-Tells id r.running r.error r.effects
        (IsAnnounced-Tells (as_running r) (next_sku-IsAnnounced fuel env t)))
      (inl (refl, refl))

failed-Tells :
    (env : Env) (id : ℕ) (t : Transaction) (p : CallbackPayload)
    → TellsAll false (close_callback env id (callback_failed env.now t p) "transaction.failed")
unfolding callback_failed
failed-Tells env id t p =
    close-Tells false env id (callback_failed env.now t p) "transaction.failed" refl (λ e h. refl)

abbrev is_stored : Option GoError → Bool
is_stored none = true
is_stored (some e) = false

-- A success that could be stored.
abbrev pub is_stored_success : Env → CallbackPayload → Transaction → Bool
is_stored_success env p t =
    is_success p.rc && is_stored (env.update (callback_succeeded env.now t p))

open-Tells :
    (fuel : ℕ) (env : Env) (id : ℕ) (p : CallbackPayload) (t : Transaction)
    → TellsAll (is_stored_success env p t) (process_open fuel env id p t)
unfolding process_open callback_succeeded
open-Tells fuel env id p t = elim (Bool-cases (is_success p.rc)) [
  | inl success ↦ rw success (
      close-Tells (is_stored (env.update (callback_succeeded env.now t p))) env id
        (callback_succeeded env.now t p) "transaction.success" refl (λ e h. rw h refl))
  | inr other ↦ rw other (
      Tells-if (is_fatal p.rc) _ _ (failed-Tells env id t p) (
        Tells-if (is_retryable p.rc) _ _ (retry-Tells fuel env id t)
          (Tells-if (is_pending p.rc) _ _ (inl (refl, refl)) (failed-Tells env id t p))))
]

found-Answers :
    (fuel : ℕ) (env : Env) (id : ℕ) (p : CallbackPayload) (o : Result Transaction)
    → Answers
        (λ t. IsAudit)
        (is_stored_success env p)
        Succeeded
        o
        (emit (callback_kept p) (process_found fuel env id p o)).effects
found-Answers fuel env id p (err e) = (tt, tt)
found-Answers fuel env id p (ok t) = elim (Bool-cases (is_final t.status)) [
  | inl settled ↦ rw settled (tt, (tt, tt))
  | inr unsettled ↦ rw unsettled (open-Tells fuel env id p t)
]

-- A callback of Digiflazz changes nothing where no transaction is found for its reference or the
-- one that is found has succeeded or failed before: nothing is written but the callback's own row,
-- no provider is asked and the merchant is told nothing. Otherwise the merchant is told at most
-- once, also where the callback tries further SKUs: with the event of the transaction's status,
-- which is final, and only behind a successful last write of this very transaction; and it is told
-- where the code is 00 and the write succeeds.
pub process_digiflazz_callback-Answers :
    (fuel : ℕ) (env : Env) (p : CallbackPayload)
    → Answers
        (λ t. IsAudit)
        (is_stored_success env p)
        Succeeded
        (find_callback_transaction env p.ref_id)
        (process_digiflazz_callback fuel env p).effects
unfolding process_digiflazz_callback process_callback
process_digiflazz_callback-Answers fuel env p =
    found-Answers fuel env (id_or_zero (env.keep_callback p)) p
      (find_callback_transaction env p.ref_id)
