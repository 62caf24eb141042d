-- ===== src/Payout/Status.antt =====
-- refreshStatus, applyStatus, GetPayout and the steps of ProcessPendingPayouts and
-- RetryPendingCallbacks of internal/service/payout_service.go.
pub mod Timed
pub mod Confirmed
use gtd_api.Prelude.{
  ℕ, ◌+◌, ◌*◌, String, ◌≡◌, Bool, true, false, ◌&&◌, ◌||◌, not, Option, none, some, List, ltb, leb,
  ◌==◌, str_eq, if◌then◌else◌,
}
use gtd_api.Prelude.Text.{trim_space}
use gtd_api.Errors.{GoError, no_cause, payout_error, is_no_rows, Result, map_ok, ok, err}
use gtd_api.Run.{Run, return_ok, fail, emit, write}
use gtd_api.Payout.Model.{
  Payout, PayoutStatus, processing, success, failed, other_status, is_final, is_processing, message,
  failure, PayoutStatusInput, PayoutStatusOutput,
}
use gtd_api.Payout.Store.{
  Env, Effect, PayoutProviderClient, payout_router_get, updated, update_payout,
  merge_payout_provider_data,
}
use gtd_api.Payout.Failure.{string_ptr, deref_string, non_empty_or_default, payout_failed_code}
use gtd_api.Payout.Callback.{try_send_final_callback}

-- applyStatus, by the new status: a status that the payout has already changes nothing.
unfoldable pub apply_status :
    (now : ℕ) → Payout → PayoutStatus → (failed_reason failed_code : String) → Payout
apply_status now p success reason code = elim p.status [
  | success ↦ p
  | _ ↦ record p {
    status = success;
    completed_at = some now;
    failed_at = none;
    failed_reason = none;
    failed_code = none;
  }
]
apply_status now p failed reason code = elim p.status [
  | failed ↦ p
  | _ ↦ record p {
    status = failed;
    failed_reason = string_ptr (non_empty_or_default reason "Payout failed");
    failed_code = string_ptr (non_empty_or_default code "");
    failed_at = some now;
    completed_at = none;
  }
]
apply_status now p _ reason code = record p { status = processing }

unfoldable pub status_input : Payout → PayoutStatusInput
status_input p = record {
  partner_ref = p.payout_id;
  provider_ref = deref_string p.provider_ref;
  method_type = p.method_type;
  transfer_type = p.transfer_type;
}

-- The payout as the caller's pointer shows it, with refreshStatus's error. (Its other result is
-- dropped by every caller.)
abbrev pub Refreshed : Type 0
Refreshed = Run Effect (Payout × Option GoError)

abbrev pub payout_or : Payout → Result Payout → Payout
payout_or p (ok q) = q
payout_or p (err e) = p

-- The callback never fails the caller.
abbrev pub and_no_error : Payout → Run Effect Payout → Refreshed
and_no_error p r = record { effects = r.effects; outcome = ok (payout_or p r.outcome, none) }

unfoldable pub with_status_error : Env → Payout → GoError → Payout
with_status_error env p e = record p {
  provider_data = merge_payout_provider_data env p.provider_data "status_error" (failure e);
}

unfoldable pub timed_out : Env → Payout → GoError → Payout
timed_out env p e = record (with_status_error env p e) {
  status = failed;
  failed_reason = string_ptr "Payout timeout - unable to confirm final status with provider";
  failed_code = string_ptr (payout_failed_code e);
  failed_at = some env.now;
}

unfoldable pub merge_status : Env → Payout → PayoutStatusOutput → Payout
merge_status env p out = record p {
  provider_data =
      merge_payout_provider_data env p.provider_data "status" (message out.raw_response);
  provider_ref = if str_eq out.provider_ref "" then p.provider_ref else string_ptr out.provider_ref;
}

-- `max_age` is 0 where no age makes a payout fail.
abbrev pub is_expired : (now max_age : ℕ) → Payout → Bool
is_expired now max_age p = ltb 0 max_age && ltb (p.created_at + max_age) now

unfoldable pub save_and_announce : Env → Payout → Refreshed
save_and_announce env q =
    update_payout env q (λ e. return_ok (q, some e))
      (if is_final q.status
        then and_no_error q (try_send_final_callback env q)
        else return_ok (q, none))

unfoldable pub refresh_answered :
    Env → (max_age : ℕ) → Payout → Result PayoutStatusOutput → Refreshed
refresh_answered env max_age p (err e) =
    if is_expired env.now max_age p
    then (let q = timed_out env p e in
        update_payout env q (λ x. return_ok (q, some x))
          (and_no_error q (try_send_final_callback env q)))
    else (let q = with_status_error env p e in
        update_payout env q (λ _. return_ok (q, none)) (return_ok (q, none)))
refresh_answered env max_age p (ok out) =
    save_and_announce env
      (apply_status env.now (merge_status env p out) out.status out.failed_reason out.failed_code)

unfoldable pub refresh_with : Env → (max_age : ℕ) → Payout → Result PayoutProviderClient → Refreshed
refresh_with env max_age p (err e) = return_ok (p, none)
refresh_with env max_age p (ok adapter) =
    refresh_answered env max_age p (adapter.status (status_input p))

unfoldable pub refresh_payout : Env → (max_age : ℕ) → Payout → Refreshed
refresh_payout env max_age p =
    if not env.available || is_final p.status
    then return_ok (p, none)
    else refresh_with env max_age p (payout_router_get env.clients p.provider)

abbrev payout_not_found : GoError
payout_not_found = payout_error 404 "PAYOUT_NOT_FOUND" "Payout not found" false no_cause

-- 15 * time.Second
abbrev pub stale_read : ℕ
stale_read = 15 * 1000000000

-- The refresh's error is only logged.
abbrev drop_error : Refreshed → Run Effect Payout
drop_error r = record { effects = r.effects; outcome = map_ok (λ answer. answer.0) r.outcome }

unfoldable pub get_found : Env → (client_id : ℕ) → Result Payout → Run Effect Payout
get_found env client_id (err e) = fail (if is_no_rows e then payout_not_found else e)
get_found env client_id (ok p) =
    if not (p.client_id == client_id)
    then fail payout_not_found
    else if env.available && is_processing p.status && leb (p.updated_at + stale_read) env.now
    then drop_error (refresh_payout env 0 p)
    else return_ok p

unfoldable pub get_payout : Env → (payout_id : String) → (client_id : ℕ) → Run Effect Payout
get_payout env payout_id client_id =
    get_found env client_id (env.by_payout_id (trim_space payout_id))
