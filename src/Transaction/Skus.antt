-- ===== src/Transaction/Skus.antt =====
-- tryAllSKUs and tryAllSKUsWithOffset of internal/service/transaction_service.go, which are one
-- loop but for what they log: a transaction is tried with one SKU of Digiflazz after another, each
-- call under a reference of its own unless the one before it ended in a network error.
pub mod Refs
pub mod Ends
use gtd_api.Prelude.{
  ℕ, zero, suc, ◌+◌, String, Bool, true, false, Option, none, some, List, [], ◌∷◌, ◌++◌, ltb, leb,
  ◌==◌, str_eq, if◌then◌else◌,
}
use gtd_api.Errors.{error_text, Result, map_ok, ok, err}
use gtd_api.Run.{Run, return_ok}
use gtd_api.Transaction.Model.{Transaction, Sku, DigiResponse, DigiCall, TransactionLog}
use gtd_api.Transaction.Codes.{
  is_success, is_pending, is_fatal, needs_new_ref_id, is_retryable_wait,
}
use gtd_api.Transaction.Store.{Env, Effect, saved, called, logged}
use gtd_api.Transaction.Settle.{
  Handled, handle_success, handle_pending, handle_fatal, handle_all_skus_failed,
}
use Prim.Native.String.{◌++◌ as ◌<>◌}

abbrev pub max_network_retries : ℕ
max_network_retries = 2

-- The reference of the calls with a suffix.
unfoldable pub suffixed_ref : Env → (transaction_id : String) → (suffix : ℕ) → String
suffixed_ref env id suffix = if ltb 0 suffix then id <> "-" <> env.decimal suffix else id

-- The variables of the loop, with the number of calls so far.
pub record Loop : Type 0 where
  pub skus : List Sku
  pub trx : Transaction
  pub suffix : ℕ
  pub retries : ℕ
  pub calls : ℕ

-- The transaction as it is stored before a call.
unfoldable pub prepared : Env → Loop → Sku → Transaction
unfolding suffixed_ref
prepared env l sku = record l.trx {
  digi_ref_id = some (suffixed_ref env l.trx.transaction_id l.suffix);
  sku_id = some sku.id;
}

abbrev pub target : Env → Transaction → Sku → String × String
target env t sku =
    if t.is_sandbox
    then env.test_mapping sku.digi_sku_code t.type
    else (sku.digi_sku_code, t.customer_no)

unfoldable pub call_with : Env → Loop → Sku → DigiCall
unfolding suffixed_ref
call_with env l sku =
    let goal = target env l.trx sku in
    let ref = suffixed_ref env l.trx.transaction_id l.suffix in
    record {
      sku_code = goal.0;
      customer_no = goal.1;
      ref_id = ref;
      testing = l.trx.is_sandbox;
      answer = env.topup l.calls goal.0 goal.1 ref l.trx.is_sandbox;
    }

abbrev text_ptr : String → Option String
text_ptr s = if str_eq s "" then none else some s

-- logAttempt
unfoldable pub log_attempt : (trx_id sku_id : ℕ) → DigiCall → TransactionLog
log_attempt trx_id sku_id c = record {
  transaction_id = trx_id;
  sku_id = if ltb 0 sku_id then some sku_id else none;
  digi_ref_id = c.ref_id;
  rc = elim c.answer [ ok r ↦ text_ptr r.rc | err e ↦ none ];
  status = elim c.answer [ ok r ↦ text_ptr r.status | err e ↦ none ];
  message = elim c.answer [ ok r ↦ text_ptr r.message | err e ↦ some (error_text e) ];
  provider_id = none;
  provider_sku_id = none;
}

-- What follows a call: the loop returns, or goes on with the same SKU and the same reference, the
-- same SKU and a fresh reference, or the next SKU.
pub data Next : Type 0 where
  stop : Handled → Next
  same_ref : Next
  fresh_ref : Next
  next_sku : Next

unfoldable pub after_response : Env → Loop → Transaction → Sku → DigiResponse → Next
unfolding handle_success handle_pending handle_fatal handle_all_skus_failed is_success is_pending
    is_fatal needs_new_ref_id is_retryable_wait
after_response env l t sku r =
    if is_success r.rc
    then stop (handle_success env t sku r)
    else if is_pending r.rc
    then stop (handle_pending env t sku r)
    else if is_fatal r.rc
    then stop (handle_fatal env t r)
    else if needs_new_ref_id r.rc
    then fresh_ref
    else if is_retryable_wait r.rc
    then (if env.cancelled l.calls then stop (handle_all_skus_failed env t) else fresh_ref)
    else next_sku

unfoldable pub after_call : Env → Loop → Transaction → Sku → Result DigiResponse → Next
unfolding after_response handle_all_skus_failed
after_call env l t sku (err e) =
    if leb (l.retries + 1) max_network_retries
    then (if env.cancelled l.calls then stop (handle_all_skus_failed env t) else same_ref)
    else next_sku
after_call env l t sku (ok r) = after_response env l t sku r

abbrev pub moved : Loop → Transaction → List Sku → (suffix retries : ℕ) → Loop
moved l t skus suffix retries = record {
  skus = skus;
  trx = t;
  suffix = suffix;
  retries = retries;
  calls = suc l.calls;
}

-- A loop that is cut off returns no transaction yet.
abbrev pub Running : Type 0
Running = Run Effect (Option Transaction)

abbrev pub still_running : Running
still_running = return_ok none

abbrev pub finished : Handled → Running
finished r = record { effects = r.effects; outcome = map_ok some r.outcome }

abbrev pub with_effects : List Effect → Running → Running
with_effects es r = record { effects = es ++ r.effects; outcome = r.outcome }

-- The effects of one call, in their order.
unfoldable pub call_effects : Env → Loop → Sku → List Effect
unfolding prepared call_with log_attempt
call_effects env l sku =
    let t = prepared env l sku in
    let c = call_with env l sku in
    saved t (env.update t) ∷ called c ∷ logged (log_attempt t.id sku.id c) ∷ []

-- The rest of the loop, `again`, from what follows a call on.
unfoldable pub continue : (Loop → Running) → Loop → Transaction → Sku → List Sku → Next → Running
continue again l t sku rest (stop r) = finished r
continue again l t sku rest same_ref = again (moved l t (sku ∷ rest) l.suffix (suc l.retries))
continue again l t sku rest fresh_ref = again (moved l t (sku ∷ rest) (suc l.suffix) 0)
continue again l t sku rest next_sku = again (moved l t rest (suc l.suffix) 0)

unfoldable pub try_round : (Loop → Running) → Env → Loop → List Sku → Running
unfolding call_effects after_call prepared call_with handle_all_skus_failed continue
try_round again env l [] = finished (handle_all_skus_failed env l.trx)
try_round again env l (sku ∷ rest) =
    let t = prepared env l sku in
    with_effects (call_effects env l sku)
      (continue again l t sku rest (after_call env l t sku (call_with env l sku).answer))

-- One call takes one unit of fuel; a loop whose fuel is used up is cut off there.
unfoldable pub try_all_skus : (fuel : ℕ) → Env → Loop → Running
unfolding try_round
try_all_skus zero env l = still_running
try_all_skus (suc fuel) env l = try_round (try_all_skus fuel env) env l l.skus

abbrev pub start : Transaction → List Sku → (suffix : ℕ) → Loop
start t skus suffix = record { skus = skus; trx = t; suffix = suffix; retries = 0; calls = 0 }
