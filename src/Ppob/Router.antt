-- ===== src/Ppob/Router.antt =====
-- ProviderRouter.Execute of internal/service/provider_router.go: the options are tried in the order
-- of the query, until one answers with a success or a pending transaction, or the backup provider
-- has failed too.
pub mod Attempts
pub mod Once
pub mod Order
pub mod Excluded
use gtd_api.Prelude.{
  ℕ, suc, String, ◌≡◌, Bool, true, false, not, ◌&&◌, ◌||◌, Option, none, some, List, [], ◌∷◌, ◌==◌,
  any, str_eq, if◌then◌else◌,
}
use gtd_api.Prelude.Int.{ℤ}
use gtd_api.Errors.{GoError, plain_error, error_text, Result, ok, err}
use gtd_api.Ppob.Model.{
  ProviderTransactionType, prepaid, inquiry, payment, other_type, ExtraValue, number,
  ProviderRequest, ProviderResponse, ProviderOption, PpobProviderClient, ProviderAttempt,
  ExecuteResult, Executed, HealthRecord,
}
use Prim.Native.String.{◌++◌ as ◌<>◌}
use gtd_api.Ppob.Attempt.{
  Providers, set_extra, for_option, numbered_ref, prepare, ask_client, Ending, Trail, attempted,
  ended, after_answer, usable, try_option, attempt_with, execute_each, answered, backup_failed,
  exhausted,
}

-- The response and the option that the result keeps of the attempts that failed.
abbrev later_or : Option ProviderResponse → Result ProviderResponse → Option ProviderResponse
later_or (some r) answer = some r
later_or none (ok r) = some r
later_or none (err e) = none

abbrev last_response : List ProviderAttempt → Option ProviderResponse
last_response [] = none
last_response (a ∷ rest) = later_or (last_response rest) a.answer

abbrev last_option : List ProviderAttempt → Option ProviderOption
last_option [] = none
last_option (a ∷ []) = some a.provider
last_option (a ∷ b ∷ rest) = last_option (b ∷ rest)

abbrev result_of :
    (success : Bool)
    → ProviderOption
    → ProviderResponse
    → List ProviderAttempt
    → Option String
    → ExecuteResult
result_of success opt response attempts error = record {
  success = success;
  response = some response;
  provider_used = some opt;
  attempts = attempts;
  error = error;
}

unfoldable pub health_record : ProviderAttempt → HealthRecord
health_record a = elim a.answer [
  | ok response ↦ record {
    provider_id = a.provider.provider_id;
    success = response.success || response.pending;
    failure_reason = if response.success || response.pending then "" else response.message;
  }
  | err e ↦ record {
    provider_id = a.provider.provider_id;
    success = false;
    failure_reason = error_text e;
  }
]

abbrev health_records : List ProviderAttempt → List HealthRecord
health_records [] = []
health_records (a ∷ rest) = health_record a ∷ health_records rest

abbrev executed : ExecuteResult → Executed
executed r = record { recorded = health_records r.attempts; result = some r; error = none }

abbrev refused : List ProviderAttempt → String → Executed
refused attempts text = record {
  recorded = health_records attempts;
  result = none;
  error = some (plain_error text);
}

unfoldable pub conclude : List ProviderAttempt → Ending → Executed
conclude attempts (answered opt response) =
    executed (result_of response.success opt response attempts none)
conclude attempts (backup_failed opt response) =
    executed
      (result_of false opt response attempts (some ("all providers failed: " <> response.message)))
conclude attempts exhausted = record {
  recorded = health_records attempts;
  result = some (record {
    success = false;
    response = last_response attempts;
    provider_used = last_option attempts;
    attempts = attempts;
    error = none;
  });
  error = some (plain_error "all providers exhausted");
}

unfoldable pub not_excluded : List ℕ → List ProviderOption → List ProviderOption
not_excluded ids [] = []
not_excluded ids (opt ∷ rest) =
    if any (λ id. id == opt.provider_sku_id) ids
    then not_excluded ids rest
    else opt ∷ not_excluded ids rest

abbrev no_result : ExecuteResult
no_result = record {
  success = false;
  response = none;
  provider_used = none;
  attempts = [];
  error = none;
}

unfoldable pub execute_remaining : Providers → ProviderRequest → List ProviderOption → Executed
execute_remaining ps r [] = record {
  recorded = [];
  result = some no_result;
  error = some (plain_error ("no remaining providers available for product " <> ps.product));
}
execute_remaining ps r (opt ∷ rest) =
    let trail = execute_each ps r.ref_id 0 r (opt ∷ rest) in conclude trail.attempts trail.ending

unfoldable pub execute_options :
    Providers → ProviderRequest → Result (List ProviderOption) → Executed
execute_options ps r (err e) = refused [] ("failed to get providers: " <> error_text e)
execute_options ps r (ok []) = refused [] ("no providers available for product " <> ps.product)
execute_options ps r (ok (opt ∷ rest)) =
    execute_remaining ps r (not_excluded r.excluded_provider_sku_ids (opt ∷ rest))

-- The first option of a provider.
unfoldable pub option_of : String → List ProviderOption → Option ProviderOption
option_of code [] = none
option_of code (opt ∷ rest) =
    if str_eq opt.provider_code code then some opt else option_of code rest

abbrev type_text : ProviderTransactionType → String
type_text prepaid = "prepaid"
type_text inquiry = "inquiry"
type_text payment = "payment"
type_text (other_type t) = t

unfoldable pub forced_answer : ProviderOption → ProviderRequest → Result ProviderResponse → Executed
forced_answer opt r (err e) =
    refused (record { provider = opt; request = r; answer = err e } ∷ [])
      (type_text r.type <> " failed with provider " <> opt.provider_code <> ": " <> error_text e)
forced_answer opt r (ok response) = executed (
    result_of response.success opt response
      (record { provider = opt; request = r; answer = ok response } ∷ []) none)

unfoldable pub execute_forced_option :
    Providers
    → (code : String) → ProviderRequest
    → PpobProviderClient
    → Option ProviderOption
    → Executed
execute_forced_option ps code r c none =
    refused [] ("provider " <> code <> " not available for product " <> ps.product)
execute_forced_option ps code r c (some opt) =
    forced_answer opt (for_option r opt) (ask_client c (for_option r opt))

abbrev pub forced_options :
    Providers
    → (code : String) → ProviderRequest
    → PpobProviderClient
    → Result (List ProviderOption)
    → Executed
forced_options ps code r c (err e) = refused [] ("failed to get providers: " <> error_text e)
forced_options ps code r c (ok options) = execute_forced_option ps code r c (option_of code options)

-- executeWithProvider
unfoldable pub execute_with_provider :
    Providers → (code : String) → ProviderRequest → Option PpobProviderClient → Executed
execute_with_provider ps code r none = refused [] ("forced provider " <> code <> " not registered")
execute_with_provider ps code r (some c) = forced_options ps code r c ps.all_options

unfoldable pub execute_by_type : Providers → ProviderRequest → ProviderTransactionType → Executed
execute_by_type ps r prepaid = execute_options ps r ps.by_price
execute_by_type ps r inquiry = execute_options ps r ps.by_effective_admin
execute_by_type ps r payment = execute_options ps r ps.by_effective_admin
execute_by_type ps r (other_type t) = refused [] ("invalid transaction type: " <> t)

unfoldable pub execute : Providers → ProviderRequest → Executed
execute ps r = elim r.force_provider [
  | some code ↦ execute_with_provider ps code r (ps.clients code)
  | none ↦ execute_by_type ps r r.type
]
