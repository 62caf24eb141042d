-- ===== src/Payout/Submit.antt =====
-- submitWithFallback of internal/service/payout_service.go: ask the candidates to pay, one after
-- the other, as long as each refuses for sure and for a reason that another provider need not have.
pub mod Once
pub mod Ends
pub mod Accepted
use gtd_api.Prelude.{
  ℕ, String, ◌≡◌, Bool, true, false, Option, none, some, List, [], ◌∷◌, if◌then◌else◌,
}
use gtd_api.Prelude.Int.{ℤ, pos, ltb_ℤ}
use gtd_api.Errors.{GoError, Result, ok, err}
use gtd_api.Run.{Run, return_ok, fail, emit}
use gtd_api.Payout.Model.{
  Payout, processing, failed, message, failure, PayoutExecInput, PayoutExecOutput,
}
use gtd_api.Payout.Store.{
  Env, Effect, PayoutProviderClient, pay_called, update_payout, merge_payout_provider_data,
}
use gtd_api.Payout.Failure.{
  string_ptr, deref_string, map_payout_submit_error, is_uncertain_payout_error, payout_failed_code,
  is_retryable, message_of,
}
use gtd_api.Payout.Routing.{candidates}
use gtd_api.Payout.Callback.{try_send_final_callback}

unfoldable pub exec_input : Payout → PayoutExecInput
exec_input p = record {
  partner_ref = p.payout_id;
  method_type = p.method_type;
  channel_code = p.channel_code;
  account_number = p.account_number;
  account_name = deref_string p.account_name;
  amount = p.send_amount;
  transfer_type = p.transfer_type;
  purpose = deref_string p.purpose_code;
  remark = deref_string p.remark;
  callback_url = deref_string p.callback_url;
}

unfoldable pub accepted_by : Env → Payout → PayoutProviderClient → PayoutExecOutput → Payout
accepted_by env p adapter out = record p {
  provider = adapter.code;
  source_bank_code = string_ptr (adapter.source_account p.method_type).0;
  source_account_number = string_ptr (adapter.source_account p.method_type).1;
  provider_ref = string_ptr out.provider_ref;
  fee = if ltb_ℤ (pos 0) out.fee then out.fee else p.fee;
  provider_data =
      merge_payout_provider_data env p.provider_data "submit" (message out.raw_response);
  status = out.status;
  failed_reason = none;
  failed_code = none;
  failed_at = none;
}

-- provider_data with the error of the attempt
unfoldable pub with_submit_error : Env → Payout → GoError → Payout
with_submit_error env p e = record p {
  provider_data = merge_payout_provider_data env p.provider_data "submit_error" (failure e);
}

unfoldable pub kept_uncertain : Env → Payout → PayoutProviderClient → GoError → Payout
kept_uncertain env p adapter e = record (with_submit_error env p e) {
  provider = adapter.code;
  status = processing;
}

unfoldable pub rejected_by : Env → Payout → PayoutProviderClient → GoError → Payout
rejected_by env p adapter e = record (with_submit_error env p e) {
  provider = adapter.code;
  status = failed;
  failed_reason = string_ptr (message_of (map_payout_submit_error e));
  failed_code = string_ptr (payout_failed_code e);
  failed_at = some env.now;
  callback_sent = false;
}

-- The payout is failed: its error is what the submission returns, behind the webhook.
unfoldable pub reject : Env → Payout → PayoutProviderClient → GoError → Run Effect Payout
reject env p adapter e =
    let q = rejected_by env p adapter e in
    update_payout env q fail
      (record (try_send_final_callback env q) { outcome = err (map_payout_submit_error e) })

-- What follows the answer of a provider; `again` asks the candidates that are left.
unfoldable pub after_pay :
    Env
    → (Payout → Run Effect Payout)
    → Payout
    → PayoutProviderClient
    → Result PayoutExecOutput
    → Run Effect Payout
after_pay env again p adapter (ok out) =
    let q = accepted_by env p adapter out in update_payout env q fail (return_ok q)
after_pay env again p adapter (err e) =
    if is_uncertain_payout_error e
    then (let q = kept_uncertain env p adapter e in update_payout env q fail (return_ok q))
    else if is_retryable (map_payout_submit_error e)
    then again (with_submit_error env p e)
    else reject env p adapter e

unfoldable pub submit_each : Env → List PayoutProviderClient → Payout → Run Effect Payout
submit_each env [] p =
    let q = record p { status = processing } in update_payout env q fail (return_ok q)
submit_each env (adapter ∷ rest) p =
    let answer = adapter.pay (exec_input p) in
    emit (pay_called adapter.code (exec_input p) answer)
      (after_pay env (λ q. submit_each env rest q) p adapter answer)

unfoldable pub submit_to : Env → Result (List PayoutProviderClient) → Payout → Run Effect Payout
submit_to env (err e) p = fail e
submit_to env (ok adapters) p = submit_each env adapters p

unfoldable pub submit_with_fallback : Env → Payout → Run Effect Payout
submit_with_fallback env p = submit_to env (candidates env p.method_type p.channel_code) p
