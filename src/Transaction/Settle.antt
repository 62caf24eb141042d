-- ===== src/Transaction/Settle.antt =====
-- The endings of a transaction: handleSuccess, handlePending, handleFatal, handleAllSKUsFailed,
-- handleProviderSuccess, handleProviderPending, handleProviderFailedForPhase, applyProviderTrace,
-- applyAttemptProvider and providerCodeForTransaction of internal/service/transaction_service.go,
-- and ApplyCanonicalFailureToTransaction of internal/service/provider_public_contract.go.
use gtd_api.Prelude.{ℕ, String, Option, none, some, str_eq, if◌then◌else◌}
use gtd_api.Prelude.Int.{ℤ, pos, ltb_ℤ}
use gtd_api.Prelude.Text.{trim_space}
use gtd_api.Run.{Run, emit, return_ok}
use gtd_api.Ppob.Model.{ProviderResponse, ProviderOption}
use gtd_api.Transaction.Model.{
  Transaction, TransactionType, processing, success, failed, inquiry, Sku, DigiResponse,
}
use gtd_api.Transaction.Codes.{Phase, inquiry_phase, initial_payment}
use gtd_api.Transaction.Failure.{canonical_failure}
use gtd_api.Transaction.FailureCodes.{JsonTexts, get_canonical_failure}
use gtd_api.Transaction.Store.{Env, Effect, persist, notify_status, callback_started}

abbrev pub Handled : Type 0
Handled = Run Effect Transaction

abbrev pub unless_empty : String → Option String → Option String
unless_empty text other = if str_eq text "" then other else some text

-- What every handler of a final status ends with: the write, the notification and the merchant's
-- callback.
unfoldable pub settle : Env → Transaction → (event : String) → Handled
settle env t event =
    persist env t (notify_status env t (emit (callback_started t event) (return_ok t)))

-- What every handler of a transaction that goes on ends with.
unfoldable pub keep_going : Env → Transaction → Handled
keep_going env t = persist env t (notify_status env t (return_ok t))

unfoldable pub succeeded_at : (now : ℕ) → Transaction → Sku → DigiResponse → Transaction
succeeded_at now t sku r = record t {
  sku_id = some sku.id;
  status = success;
  serial_number = unless_empty r.sn t.serial_number;
  amount = some r.price;
  buy_price = some r.price;
  processed_at = some now;
  digi_ref_id = unless_empty r.ref_id t.digi_ref_id;
}

unfoldable pub handle_success : Env → Transaction → Sku → DigiResponse → Handled
handle_success env t sku r = settle env (succeeded_at env.now t sku r) "transaction.success"

unfoldable pub kept_pending : Transaction → Sku → DigiResponse → Transaction
kept_pending t sku r = record t {
  sku_id = some sku.id;
  status = processing;
  amount = some r.price;
  digi_ref_id = unless_empty r.ref_id t.digi_ref_id;
}

unfoldable pub handle_pending : Env → Transaction → Sku → DigiResponse → Handled
handle_pending env t sku r = keep_going env (kept_pending t sku r)

unfoldable pub refused_at : (now : ℕ) → Transaction → DigiResponse → Transaction
refused_at now t r = record t {
  status = failed;
  failed_reason = unless_empty r.message t.failed_reason;
  failed_code = unless_empty r.rc t.failed_code;
  processed_at = some now;
}

unfoldable pub handle_fatal : Env → Transaction → DigiResponse → Handled
handle_fatal env t r = settle env (refused_at env.now t r) "transaction.failed"

unfoldable pub given_up_at : (now : ℕ) → Transaction → Transaction
unfolding get_canonical_failure
given_up_at now t =
    let f = get_canonical_failure "NO_PROVIDER_AVAILABLE" in
    record t {
      status = failed;
      failed_reason = some f.message;
      failed_code = some f.code;
      processed_at = some now;
      next_retry_at = none;
    }

unfoldable pub handle_all_skus_failed : Env → Transaction → Handled
handle_all_skus_failed env t = settle env (given_up_at env.now t) "transaction.failed"

abbrev pub some_if_positive : ℤ → Option ℤ → Option ℤ
some_if_positive n other = if ltb_ℤ (pos 0) n then some n else other

abbrev pub text_unless_empty : String → String → String
text_unless_empty text other = if str_eq text "" then other else text

abbrev first_or : Option ℤ → ℤ → Option ℤ
first_or none n = some n
first_or (some m) n = some m

unfoldable pub apply_provider_trace : Transaction → ProviderResponse → Transaction
apply_provider_trace t r = record t {
  provider_initial_response = text_unless_empty t.provider_initial_response r.raw_response;
  provider_response = text_unless_empty r.raw_response t.provider_response;
  provider_initial_http_status =
      if ltb_ℤ (pos 0) r.http_status
      then first_or t.provider_initial_http_status r.http_status
      else t.provider_initial_http_status;
  provider_http_status = some_if_positive r.http_status t.provider_http_status;
}

unfoldable pub described : JsonTexts → Transaction → ProviderResponse → Transaction
described texts t r = record t {
  description = text_unless_empty (texts.sanitize r.description) t.description;
}

unfoldable pub provider_succeeded_at : Env → Transaction → ProviderResponse → Transaction
provider_succeeded_at env t r = record (described env.texts t r) {
  status = success;
  failed_code = none;
  failed_reason = none;
  serial_number = unless_empty r.serial_number t.serial_number;
  amount = some_if_positive r.amount t.amount;
  buy_price = some_if_positive r.amount t.buy_price;
  customer_name = unless_empty r.customer_name t.customer_name;
  processed_at = some env.now;
}

unfoldable pub handle_provider_success : Env → Transaction → ProviderResponse → Handled
handle_provider_success env t r = settle env (provider_succeeded_at env t r) "transaction.success"

unfoldable pub provider_kept_pending : Env → Transaction → ProviderResponse → Transaction
provider_kept_pending env t r = record (described env.texts t r) {
  status = processing;
  failed_code = none;
  failed_reason = none;
  amount = some_if_positive r.amount t.amount;
  customer_name = unless_empty r.customer_name t.customer_name;
}

unfoldable pub handle_provider_pending : Env → Transaction → ProviderResponse → Handled
handle_provider_pending env t r = keep_going env (provider_kept_pending env t r)

unfoldable pub provider_code_for_transaction : Transaction → String
provider_code_for_transaction t = elim t.provider_code [ none ↦ "" | some code ↦ trim_space code ]

-- ProviderFailurePhaseForTransactionType
abbrev pub phase_for_type : TransactionType → Phase
phase_for_type inquiry = inquiry_phase
phase_for_type _ = initial_payment

unfoldable pub apply_canonical_failure :
    Env → Transaction → (provider : String) → Phase → ProviderResponse → Transaction
apply_canonical_failure env t provider phase r =
    let f = canonical_failure env.texts provider phase r in
    record (described env.texts t r) { failed_code = some f.code; failed_reason = some f.message }

unfoldable pub provider_failed_at : Env → Transaction → ProviderResponse → Phase → Transaction
provider_failed_at env t r phase =
    record (apply_canonical_failure env t (provider_code_for_transaction t) phase r) {
      status = failed;
      next_retry_at = none;
      processed_at = some env.now;
    }

-- handleProviderFailedForPhase, of a response that is not nil.
unfoldable pub handle_provider_failed_for_phase :
    Env → Transaction → ProviderResponse → Phase → Handled
handle_provider_failed_for_phase env t r phase =
    settle env (provider_failed_at env t r phase) "transaction.failed"

unfoldable pub handle_provider_failed : Env → Transaction → ProviderResponse → Handled
unfolding handle_provider_failed_for_phase
handle_provider_failed env t r = handle_provider_failed_for_phase env t r (phase_for_type t.type)

unfoldable pub apply_attempt_provider : Transaction → Option ProviderOption → Transaction
apply_attempt_provider t none = t
apply_attempt_provider t (some opt) = record t {
  provider_id = some opt.provider_id;
  provider_sku_id = some opt.provider_sku_id;
  provider_code = some opt.provider_code;
  admin = opt.admin;
  amount = elim t.amount [ none ↦ some_if_positive opt.price none | some n ↦ some n ];
}
