-- ===== src/Ppob/Tests.antt =====
-- Sample data for the product side, and its theorems at them.
use gtd_api.Prelude.{
  ℕ, String, ◌≡◌, refl, Bool, true, false, none, some, Option, List, [], ◌∷◌, str_eq, if◌then◌else◌,
}
use gtd_api.Prelude.Int.{ℤ, pos}
use gtd_api.Errors.{Result, ok}
use gtd_api.Ppob.Model.{
  prepaid, ProviderRequest, ProviderResponse, ProviderOption, PpobProviderClient, ProviderAttempt,
  ExecuteResult,
}
use gtd_api.Ppob.Router.{
  execute, execute_by_type, execute_options, execute_remaining, not_excluded, conclude,
}
use gtd_api.Ppob.Attempt.{
  Providers, execute_each, usable, prepare, numbered_ref, ask_client, after_answer,
}
use gtd_api.Ppob.Router.Once.{GivesRun, execute-GivesRun}
use gtd_api.Ppob.Router.Order.{IsFirstOf, usable_options, execute_each-IsFirstOf}

abbrev pub request : ProviderRequest
request = record {
  ref_id = "GTD-1";
  sku_code = "";
  customer_no = "0812";
  amount = pos 0;
  type = prepaid;
  is_sandbox = false;
  extra = [];
  excluded_provider_sku_ids = 99 ∷ [];
  force_provider = none;
  inquiry_ref_id = "";
}

abbrev pub response : (success pending : Bool) → ProviderResponse
response success pending = record {
  success = success;
  pending = pending;
  ref_id = "";
  provider_ref_id = "";
  http_status = pos 200;
  phase = "";
  status = "";
  rc = "00";
  message = "stock empty";
  provider_status = "";
  serial_number = "";
  customer_name = "";
  amount = pos 0;
  admin = pos 0;
  description = "";
  raw_response = "";
  needs_retry = false;
  public_code = "";
  public_message = "";
  public_http_code = 0;
}

abbrev pub client : Result ProviderResponse → PpobProviderClient
client answer = record {
  topup = λ r. answer;
  inquiry = λ r. answer;
  payment = λ r. answer;
  is_healthy = true;
}

abbrev pub option : (id : ℕ) → (code : String) → (price : ℤ) → ProviderOption
option id code price = record {
  provider_id = id;
  provider_code = code;
  provider_sku_id = id;
  provider_sku_code = code;
  price = price;
  admin = pos 0;
  commission = pos 0;
  is_backup = false;
}

abbrev options : List ProviderOption
options =
    option 1 "kiosbank" (pos 10100)
    ∷ option 2 "missing" (pos 10150)
    ∷ option 3 "alterra" (pos 10200)
    ∷ []

abbrev pub shops : Providers
shops = record {
  clients = λ code.
      if str_eq code "kiosbank"
      then some (client (ok (response false false)))
      else if str_eq code "alterra"
      then some (client (ok (response true false)))
      else none;
  by_price = ok options;
  by_effective_admin = ok options;
  all_options = ok options;
  decimal = λ n. "1";
  product = "5";
}

abbrev refs : List ProviderAttempt → List String
refs [] = []
refs (a ∷ rest) = a.request.ref_id ∷ refs rest

abbrev shown : Option ExecuteResult → Option (Bool × List String)
shown none = none
shown (some x) = some (x.success, refs x.attempts)

-- The cheapest provider has no stock, the second one has no client, and the third one takes the order.
executed_run : shown (execute shops request).result ≡ some (true, "GTD-1" ∷ "GTD-1-1" ∷ [])
unfolding execute execute_by_type execute_options execute_remaining not_excluded execute_each usable
    prepare numbered_ref ask_client after_answer conclude
executed_run = refl

execute-GivesRun_example : GivesRun shops "GTD-1" (execute shops request)
execute-GivesRun_example = execute-GivesRun shops request

execute_each-IsFirstOf_example :
    IsFirstOf (usable_options shops options) (execute_each shops "GTD-1" 0 request options)
execute_each-IsFirstOf_example = execute_each-IsFirstOf shops "GTD-1" 0 request options
