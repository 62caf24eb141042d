-- ===== src/Transaction/Route.antt =====
-- A transaction at the router of the providers: executeWithProviderRouter, logProviderAttempt(s),
-- latestAttemptOption, exhaustedProviderResponse, getTriedProviderSKUs and RetryWithNextProvider of
-- internal/service/transaction_service.go.
pub mod Ending
pub mod Fresh
use gtd_api.Prelude.{
  ℕ, String, Bool, true, false, not, ◌||◌, Option, none, some, List, [], ◌∷◌, ◌++◌, any, ltb, ◌==◌,
  str_eq, if◌then◌else◌,
}
use gtd_api.Prelude.Int.{pos}
use gtd_api.Errors.{GoError, error_text, plain_error, Result, ok, err}
use gtd_api.Run.{Run, emit, fail, return_ok}
use gtd_api.Ppob.Model.{
  ProviderTransactionType, ProviderRequest, ProviderResponse, ProviderOption, ProviderAttempt,
  ExecuteResult, Executed,
}
use gtd_api.Ppob.Model as Ppob
use gtd_api.Ppob.Router.{execute}
use gtd_api.Ppob.Attempt.{Providers}
use gtd_api.Transaction.Model.{
  Transaction, TransactionType, prepaid, inquiry, payment, other_type, TransactionStatus,
  processing, TransactionLog,
}
use gtd_api.Transaction.Codes.{Phase, inquiry_phase, initial_payment}
use gtd_api.Transaction.FailureCodes.{get_canonical_failure}
use gtd_api.Transaction.Failure.Final.{build_final_failure}
use gtd_api.Transaction.Store.{Env, Effect, routed, logged}
use gtd_api.Transaction.Settle.{
  Handled, unless_empty, apply_attempt_provider, apply_provider_trace, handle_provider_success,
  handle_provider_pending, handle_provider_failed_for_phase, handle_provider_failed,
  handle_all_skus_failed,
}

abbrev text_ptr : String → Option String
text_ptr s = if str_eq s "" then none else some s

-- logProviderAttempt, and one round of logProviderAttempts.
unfoldable pub log_provider_attempt :
    (trx_id : ℕ) → ProviderOption → (ref_id : String) → Result ProviderResponse → TransactionLog
log_provider_attempt trx_id opt ref_id answer = record {
  transaction_id = trx_id;
  sku_id = none;
  digi_ref_id = ref_id;
  rc = elim answer [ ok r ↦ text_ptr r.rc | err e ↦ none ];
  status = elim answer [ ok r ↦ text_ptr r.status | err e ↦ none ];
  message = elim answer [ ok r ↦ text_ptr r.message | err e ↦ some (error_text e) ];
  provider_id = some opt.provider_id;
  provider_sku_id = some opt.provider_sku_id;
}

unfoldable pub log_provider_attempts : (trx_id : ℕ) → List ProviderAttempt → List Effect
unfolding log_provider_attempt
log_provider_attempts trx_id [] = []
log_provider_attempts trx_id (a ∷ rest) =
    logged (log_provider_attempt trx_id a.provider a.request.ref_id a.answer)
    ∷ log_provider_attempts trx_id rest

abbrev pub attempts_of : Option ExecuteResult → List ProviderAttempt
attempts_of none = []
attempts_of (some x) = x.attempts

abbrev later_option : Option ProviderOption → ProviderAttempt → Option ProviderOption
later_option none a = some a.provider
later_option (some opt) a = some opt

abbrev last_option : List ProviderAttempt → Option ProviderOption
last_option [] = none
last_option (a ∷ rest) = later_option (last_option rest) a

-- latestAttemptOption
abbrev pub latest_attempt_option : Option ExecuteResult → Option ProviderOption
latest_attempt_option none = none
latest_attempt_option (some x) = elim x.provider_used [
  | none ↦ last_option x.attempts
  | some opt ↦ some opt
]

abbrev phase_of : ProviderTransactionType → Phase
phase_of Ppob.inquiry = inquiry_phase
phase_of _ = initial_payment

unfoldable pub route_request :
    Transaction
    → ProviderTransactionType
    → (force_provider : Option String) → (excluded : List ℕ) → ProviderRequest
route_request t type force_provider excluded = record {
  ref_id = t.transaction_id;
  sku_code = "";
  customer_no = t.customer_no;
  amount = pos 0;
  type = type;
  is_sandbox = t.is_sandbox;
  extra = [];
  excluded_provider_sku_ids = excluded;
  force_provider = force_provider;
  inquiry_ref_id = "";
}

-- The error of an execution.
unfoldable pub route_failed : Env → Transaction → Phase → Option ExecuteResult → Handled
route_failed env t phase result =
    let r = build_final_failure env.texts (attempts_of result) phase in
    let traced = apply_provider_trace (apply_attempt_provider t (latest_attempt_option result)) r in
    handle_provider_failed_for_phase env
      (record traced { provider_ref_id = unless_empty r.provider_ref_id traced.provider_ref_id }) r
      phase

-- The response of an execution.
unfoldable pub route_answered : Env → Transaction → Phase → ProviderResponse → Handled
route_answered env t phase r =
    let traced =
      apply_provider_trace
        (record t { provider_ref_id = unless_empty r.provider_ref_id t.provider_ref_id }) r in
    if r.success
    then handle_provider_success env traced r
    else if r.pending
    then handle_provider_pending env traced r
    else handle_provider_failed_for_phase env traced r phase

abbrev pub answered_or_given_up : Env → Transaction → Phase → Option ProviderResponse → Handled
answered_or_given_up env t phase none = handle_all_skus_failed env t
answered_or_given_up env t phase (some r) = route_answered env t phase r

-- A result stands beside every execution without an error.
unfoldable pub route_executed :
    Env → Transaction → Phase → Option GoError → Option ExecuteResult → Handled
route_executed env t phase (some e) result = route_failed env t phase result
route_executed env t phase none none = handle_all_skus_failed env t
route_executed env t phase none (some x) =
    answered_or_given_up env (apply_attempt_provider t x.provider_used) phase x.response

abbrev pub prefixed : List Effect → Handled → Handled
prefixed es r = record { effects = es ++ r.effects; outcome = r.outcome }

-- executeWithProviderRouter, with the providers of the transaction's product.
unfoldable pub execute_with_provider_router :
    Env
    → Providers
    → Transaction
    → ProviderTransactionType
    → (force_provider : Option String) → (excluded : List ℕ) → Handled
execute_with_provider_router env ps t type force_provider excluded =
    let request = route_request t type force_provider excluded in
    let executed = execute ps request in
    prefixed (routed request executed ∷ log_provider_attempts t.id (attempts_of executed.result))
      (route_executed env t (phase_of type) executed.error executed.result)

unfoldable pub exhausted_provider_response : (failed_rc failed_message : String) → ProviderResponse
exhausted_provider_response failed_rc failed_message =
    let f = get_canonical_failure "NO_PROVIDER_AVAILABLE" in
    let named = not (str_eq failed_rc "") in
    record {
      success = false;
      pending = false;
      ref_id = "";
      provider_ref_id = "";
      http_status = pos 0;
      phase = "";
      status = "Failed";
      rc = failed_rc;
      message = if str_eq failed_message "" then f.message else failed_message;
      provider_status = "";
      serial_number = "";
      customer_name = "";
      amount = pos 0;
      admin = pos 0;
      description = "";
      raw_response = "";
      needs_retry = false;
      public_code = if named then "" else f.code;
      public_message = if named then "" else f.message;
      public_http_code = if named then 0 else f.http_status;
    }

abbrev pub tried_by : Option ℕ → List ℕ → List ℕ
tried_by none rest = rest
tried_by (some id) rest = if ltb 0 id then id ∷ rest else rest

-- The ids that getTriedProviderSKUs collects.
unfoldable pub tried_provider_skus : List TransactionLog → List ℕ
tried_provider_skus [] = []
tried_provider_skus (l ∷ rest) = tried_by l.provider_sku_id (tried_provider_skus rest)

abbrev pub is_excluded : List ℕ → ProviderOption → Bool
is_excluded ids opt = any (λ id. id == opt.provider_sku_id) ids

abbrev pub has_remaining : List ℕ → List ProviderOption → Bool
has_remaining ids options = any (λ opt. not (is_excluded ids opt)) options

-- What RetryWithNextProvider returns: the transaction, whether the failure has been handled, and an
-- error, all of which may stand side by side; the transaction is none where it is Go's nil.
pub record Retried : Type 0 where
  pub effects : List Effect
  pub trx : Option Transaction
  pub handled : Bool
  pub error : Option GoError

abbrev pub unhandled : Transaction → Option GoError → Retried
unhandled t e = record { effects = []; trx = some t; handled = false; error = e }

abbrev pub handled_by : Handled → Retried
handled_by r = record {
  effects = r.effects;
  trx = elim r.outcome [ ok t ↦ some t | err e ↦ none ];
  handled = true;
  error = elim r.outcome [ ok t ↦ none | err e ↦ some e ];
}

abbrev pub is_prepaid : TransactionType → Bool
is_prepaid prepaid = true
is_prepaid _ = false

abbrev pub reopened : Transaction → Transaction
reopened t = record t {
  status = processing;
  failed_code = none;
  failed_reason = none;
  processed_at = none;
}

unfoldable pub retry_options :
    Env
    → Providers
    → Transaction
    → (failed_rc failed_message : String) → (excluded : List ℕ) → Result (List ProviderOption)
    → Retried
retry_options env ps t failed_rc failed_message excluded (err e) = unhandled t (some e)
retry_options env ps t failed_rc failed_message excluded (ok options) =
    if has_remaining excluded options
    then handled_by (execute_with_provider_router env ps (reopened t) Ppob.prepaid none excluded)
    else handled_by
        (handle_provider_failed env t (exhausted_provider_response failed_rc failed_message))

unfoldable pub retry_logged :
    Env
    → Providers
    → Transaction
    → (failed_rc failed_message : String) → Result (List TransactionLog)
    → Retried
retry_logged env ps t failed_rc failed_message (err e) = unhandled t (some e)
retry_logged env ps t failed_rc failed_message (ok logs) =
    retry_options env ps t failed_rc failed_message (tried_provider_skus logs) ps.by_price

abbrev pub retry_routed :
    Env → Transaction → (failed_rc failed_message : String) → Option (ℕ → Providers) → Retried
retry_routed env t failed_rc failed_message none = unhandled t none
retry_routed env t failed_rc failed_message (some router) =
    retry_logged env (router t.product_id) t failed_rc failed_message (env.logs_of t.id)

unfoldable pub retry_with_next_provider :
    Env → Transaction → (failed_rc failed_message : String) → Retried
retry_with_next_provider env t failed_rc failed_message =
    if not (is_prepaid t.type) || t.is_sandbox
    then unhandled t none
    else retry_routed env t failed_rc failed_message env.router
