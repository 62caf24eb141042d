-- ===== src/Transaction/Callback.antt =====
-- ProcessDigiflazzCallback and processCallbackImmediate of internal/service/callback_service.go.
pub mod Answered
use gtd_api.Prelude.{
  ℕ, String, Bool, true, false, Option, none, some, List, [], ◌∷◌, ◌++◌, str_eq, if◌then◌else◌,
}
use gtd_api.Prelude.Int.{pos, ltb_ℤ}
use gtd_api.Errors.{GoError, Result, ok, err}
use gtd_api.Run.{Run, emit, return_ok}
use gtd_api.Transaction.Model.{Transaction, success, failed, is_final, CallbackPayload}
use gtd_api.Transaction.Codes.{is_success, is_pending, is_fatal, is_retryable}
use gtd_api.Transaction.Store.{
  Env, Effect, saved, callback_started, callback_kept, callback_processed, notify_status,
}
use gtd_api.Transaction.Settle.{unless_empty, some_if_positive}
use gtd_api.Transaction.RefId.{extract_base_ref_id}
use gtd_api.Transaction.Retry.{RetriedSku, retry_with_next_sku}

abbrev pub first_found : Result Transaction → Result Transaction → Result Transaction
first_found (ok t) o = ok t
first_found (err e) o = o

-- By the reference, by its base, or by the transaction's id; a lookup that finds nothing is an error.
unfoldable pub find_callback_transaction : Env → (ref_id : String) → Result Transaction
unfolding extract_base_ref_id
find_callback_transaction env ref_id =
    let base = extract_base_ref_id ref_id in
    first_found (env.by_digi_ref_id ref_id) (
      if str_eq base ref_id
      then env.by_transaction_id ref_id
      else first_found (env.by_digi_ref_id base) (env.by_transaction_id base))

-- Nothing is returned; the outcome says whether the processing has ended.
abbrev pub Processed : Type 0
Processed = Run Effect Bool

abbrev pub mark_processed : (id : ℕ) → Processed
mark_processed id = emit (callback_processed id) (return_ok true)

abbrev pub after_update : Option GoError → Processed → Processed
after_update none next = next
after_update (some e) next = return_ok true

unfoldable pub close_callback : Env → (id : ℕ) → Transaction → (event : String) → Processed
close_callback env id t event = emit (saved t (env.update t)) (
    after_update (env.update t)
      (notify_status env t (emit (callback_started t event) (mark_processed id))))

unfoldable pub callback_succeeded : (now : ℕ) → Transaction → CallbackPayload → Transaction
callback_succeeded now t p = record t {
  status = success;
  serial_number = unless_empty p.sn t.serial_number;
  buy_price = some_if_positive p.price t.buy_price;
  processed_at = some now;
  callback_sent = false;
}

unfoldable pub callback_failed : (now : ℕ) → Transaction → CallbackPayload → Transaction
callback_failed now t p = record t {
  status = failed;
  failed_reason = some p.message;
  failed_code = some p.rc;
  processed_at = some now;
}

abbrev pub mark_unless : (id : ℕ) → Option GoError → List Effect
mark_unless id none = callback_processed id ∷ []
mark_unless id (some e) = []

-- An error leaves the callback for the worker.
abbrev pub after_retry : (id : ℕ) → (running : Bool) → Option GoError → List Effect → Processed
after_retry id true e es = record { effects = es; outcome = ok false }
after_retry id false e es = record { effects = es ++ mark_unless id e; outcome = ok true }

unfoldable pub retry_callback : (fuel : ℕ) → Env → (id : ℕ) → Transaction → Processed
unfolding retry_with_next_sku
retry_callback fuel env id t =
    if env.has_sku_retrier
    then (let r = retry_with_next_sku fuel env t in after_retry id r.running r.error r.effects)
    else return_ok true

unfoldable pub process_open :
    (fuel : ℕ) → Env → (id : ℕ) → CallbackPayload → Transaction → Processed
unfolding close_callback callback_succeeded callback_failed retry_callback is_success is_fatal
    is_retryable is_pending
process_open fuel env id p t =
    if is_success p.rc
    then close_callback env id (callback_succeeded env.now t p) "transaction.success"
    else if is_fatal p.rc
    then close_callback env id (callback_failed env.now t p) "transaction.failed"
    else if is_retryable p.rc
    then retry_callback fuel env id t
    else if is_pending p.rc
    then mark_processed id
    else close_callback env id (callback_failed env.now t p) "transaction.failed"

abbrev pub process_found :
    (fuel : ℕ) → Env → (id : ℕ) → CallbackPayload → Result Transaction → Processed
process_found fuel env id p (err e) = return_ok true
process_found fuel env id p (ok t) =
    if is_final t.status then mark_processed id else process_open fuel env id p t

-- processCallbackImmediate
unfoldable pub process_callback : (fuel : ℕ) → Env → (id : ℕ) → CallbackPayload → Processed
unfolding process_open find_callback_transaction
process_callback fuel env id p =
    process_found fuel env id p (find_callback_transaction env p.ref_id)

abbrev pub id_or_zero : Option ℕ → ℕ
id_or_zero none = 0
id_or_zero (some id) = id

-- A callback that could not be stored is processed under the id 0.
unfoldable pub process_digiflazz_callback : (fuel : ℕ) → Env → CallbackPayload → Processed
unfolding process_callback
process_digiflazz_callback fuel env p =
    emit (callback_kept p) (process_callback fuel env (id_or_zero (env.keep_callback p)) p)
