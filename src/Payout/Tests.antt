-- ===== src/Payout/Tests.antt =====
-- Sample data for the payout side, runs of its operations, and its theorems at them.
use gtd_api.Prelude.{
  ℕ, String, ◌≡◌, refl, true, false, none, some, [], ◌∷◌, arith, str_eq, ◌⊎◌, if◌then◌else◌,
}
use gtd_api.Prelude.Int.{sub64, pos}
use gtd_api.Prelude.Text.{to_upper, equal_fold, contains, to_lower, trim_space}
use gtd_api.Errors.{GoError, no_rows, snap_error, plain_error, Result, ok, err}
use gtd_api.Run.Keeps.{Keeps}
use gtd_api.Client.{Client}
use gtd_api.Payment.Model.{merchant, Raw}
use gtd_api.Payout.Model.{
  Payout, bank, interbank, processing, success, PayoutExecOutput, PayoutRoute,
}
use gtd_api.Payout.Store.{Env, PayoutProviderClient, payout_router_get}
use gtd_api.Payout.Failure.{
  is_numeric_string, is_uncertain_payout_error, map_payout_submit_error, submit_error_with,
  submit_error_of, string_ptr, deref_string,
}
use gtd_api.Payout.Callback.{
  deliver, deliver_to, try_send_processing_callback, try_send_final_callback, callback_target,
}
use gtd_api.Payout.Callback.Delivered.{IsDelivery, final_callback-IsDelivery}
use gtd_api.Payout.Routing.{candidates, candidates_of, candidate_list, candidate}
use gtd_api.Payout.Routing.Served.{CandidatesFit, candidates-fit}
use gtd_api.Payout.Submit.{submit_with_fallback, submit_to, submit_each, after_pay}
use gtd_api.Payout.Submit.Once.{PaysOnce, answers, submit_with_fallback-PaysOnce}
use gtd_api.Payout.Submit.Ends.{IsEnd, submit_with_fallback-IsEnd}
use gtd_api.Payout.Submit.Accepted.{Writes, submit_with_fallback-Writes}
use gtd_api.Payout.Status.{refresh_payout}
use gtd_api.Payout.Status.Timed.{TimedEffect, refresh_payout-IsTimed}
use gtd_api.Payout.Status.Confirmed.{LeavesStatus, IsConfirmed, refresh_payout-IsConfirmed}
use gtd_api.Payout.Transfer.{OnTransfer, payout-SameTransfer}
use gtd_api.Payout.Request.{
  validate_method, validate_create_request, trimmed, resolve_min_amount, byte_length,
  validate_payout_account, fee_payer_of, resolve_fee, CreatePayoutRequest,
}
use gtd_api.Payout.Create.{
  create_for_method, create_checked, create_unless_existing, build_payout, create_inquired,
  insert_payout_loop, lookup_of, submit_inserted, create_payout,
}
use gtd_api.Payout.Create.Order.{InsertsFirst}
use gtd_api.Payout.Create.Funded.{create_payout-InsertsFirst}
use gtd_api.Payout.Inquiry.{
  run_inquiry, inquire_with, after_inquiry, build_inquiry, inquire_each, insert_inquiry_loop,
}

abbrev waiting : Payout
waiting = record {
  id = 4;
  payout_id = "po-4";
  reference_id = "ref-4";
  client_id = 3;
  is_sandbox = false;
  method_type = bank;
  channel_code = "014";
  transfer_type = some interbank;
  provider = "pakailink";
  bank_code = "014";
  bank_name = some "BCA";
  account_number = "1234567890";
  account_name = some "Ani";
  source_bank_code = none;
  source_account_number = none;
  amount = pos 50000;
  fee = pos 2500;
  send_amount = pos 50000;
  total_amount = pos 52500;
  fee_paid_by = merchant;
  status = processing;
  failed_reason = none;
  failed_code = none;
  purpose_code = none;
  remark = none;
  description = none;
  customer_name = none;
  customer_email = none;
  customer_phone = none;
  inquiry_row_id = some 9;
  provider_ref = none;
  provider_data = [];
  callback_url = some "https://shop.example/hook";
  callback_sent = false;
  callback_sent_at = none;
  callback_attempts = 0;
  created_at = 100;
  completed_at = none;
  failed_at = none;
  updated_at = 100;
}

abbrev paid : Payout
paid = record waiting { status = success; completed_at = some 300 }

abbrev no_raw : Raw
no_raw = record { text = "null"; is_json = true }

abbrev accepted : PayoutExecOutput
accepted = record {
  provider_ref = "prov-4";
  status = success;
  fee = pos 3000;
  raw_response = no_raw;
}

-- An adapter by its code and what it answers to a payment.
abbrev adapter : String → Result PayoutExecOutput → PayoutProviderClient
adapter code answer = record {
  code = code;
  available = true;
  supports = λ mt channel. true;
  source_account = λ mt. ("008", "777");
  inquiry = λ input. ok (record {
    account_name = "Ani";
    bank_name = "";
    provider_ref = "";
    transfer_type = some interbank;
    fee = pos 0;
    raw_response = no_raw;
  });
  pay = λ input. answer;
  status = λ input. ok (record {
    status = success;
    provider_ref = "";
    failed_reason = "";
    failed_code = "";
    raw_response = no_raw;
  });
}

abbrev route : (id : ℕ) → String → PayoutRoute
route id code = record {
  id = id;
  method_type = bank;
  provider = code;
  priority = pos id;
  is_active = true;
  is_maintenance = false;
  maintenance_message = none;
}

abbrev merchant_client : Client
merchant_client = record {
  id = 3;
  client_id = "c3";
  name = "Shop";
  api_key = "";
  sandbox_key = "";
  callback_url = "https://shop.example/default";
  callback_secret = "s3cret";
  ip_whitelist = [];
  scopes = [];
  is_active = true;
}

-- An environment in which every write succeeds and the merchant answers 200.
abbrev world : PayoutProviderClient → PayoutProviderClient → Env
world first second = record {
  now = 500;
  available = true;
  clients = λ code.
      if str_eq code "pakailink"
      then some first
      else if str_eq code "dana_direct"
      then some second
      else none;
  routes = λ mt. ok (route 1 "pakailink" ∷ route 2 "dana_direct" ∷ []);
  bank_by_code = λ code. ok (record { code = code; name = "BCA"; support_disbursement = true });
  method_min_amount = λ mt code. none;
  default_bank_fee = pos 2500;
  ids = λ i. "po-4";
  inquiry_ids = λ i. "inq-4";
  partner_ref = "PLI-1";
  insert = λ i p. ok (record { row_id = 4; row_created_at = 500; row_updated_at = 500 });
  insert_inquiry = λ i p. ok (record { row_id = 9; row_created_at = 500; row_updated_at = 500 });
  update = λ p. none;
  by_payout_id = λ s. ok waiting;
  by_reference_id = λ client s. err no_rows;
  has_callbacks = true;
  has_clients = true;
  client_by_id = λ id. ok merchant_client;
  post = λ url event secret p. ok 200;
  mark_sent = λ id. none;
  error_is_json = λ e. true;
  decimal = λ n. "";
}

-- A bank that refuses for sure, for a reason of its own.
abbrev refusal : GoError
refusal = snap_error 403 "4290000" "Too many requests" "429"

abbrev refusing : PayoutProviderClient
refusing = adapter "pakailink" (err refusal)

abbrev paying : PayoutProviderClient
paying = adapter "dana_direct" (ok accepted)

abbrev silent : PayoutProviderClient
silent = adapter "pakailink" (err (plain_error "timeout"))

-- A sure refusal goes on to the next provider, and a timeout does not.
refused_run :
    answers (submit_with_fallback (world refusing paying) waiting).effects
    ≡ err refusal ∷ ok accepted ∷ []
unfolding submit_with_fallback submit_to submit_each after_pay candidates candidates_of
    candidate_list candidate payout_router_get is_uncertain_payout_error map_payout_submit_error
    submit_error_with submit_error_of contains to_lower
refused_run = refl

silent_run :
    answers (submit_with_fallback (world silent paying) waiting).effects
    ≡ err (plain_error "timeout") ∷ []
unfolding submit_with_fallback submit_to submit_each after_pay candidates candidates_of
    candidate_list candidate payout_router_get is_uncertain_payout_error
silent_run = refl

submit_with_fallback-PaysOnce_example :
    PaysOnce (answers (submit_with_fallback (world refusing paying) waiting).effects)
submit_with_fallback-PaysOnce_example =
    submit_with_fallback-PaysOnce (world refusing paying) waiting

submit_with_fallback-IsEnd_example :
    IsEnd
      (world refusing paying)
      (answers (submit_with_fallback (world refusing paying) waiting).effects)
      (submit_with_fallback (world refusing paying) waiting)
unfolding candidates candidates_of candidate_list candidate payout_router_get
submit_with_fallback-IsEnd_example =
    submit_with_fallback-IsEnd (world refusing paying) waiting (refusing ∷ paying ∷ []) refl

submit_with_fallback-Writes_example :
    Writes waiting none (submit_with_fallback (world refusing paying) waiting).effects
submit_with_fallback-Writes_example = submit_with_fallback-Writes (world refusing paying) waiting

payout-SameTransfer_example :
    Keeps (OnTransfer waiting) (submit_with_fallback (world refusing paying) waiting)
    × Keeps (OnTransfer waiting) (refresh_payout (world refusing paying) 1000 waiting)
    × Keeps (OnTransfer waiting) (try_send_final_callback (world refusing paying) waiting)
payout-SameTransfer_example = payout-SameTransfer (world refusing paying) 1000 waiting

refresh_payout-IsTimed_example :
    Keeps TimedEffect (refresh_payout (world paying refusing) 1000 paid)
    × ((true ≡ false)
        ⊎ (((refresh_payout (world paying refusing) 1000 paid).effects ≡ [])
            × ((refresh_payout (world paying refusing) 1000 paid).outcome ≡ ok (paid, none))))
refresh_payout-IsTimed_example =
    refresh_payout-IsTimed (world paying refusing) 1000 paid
      (record { completed = ground arith; stopped = ground arith })

refresh_payout-IsConfirmed_example :
    LeavesStatus
      (IsConfirmed (world paying refusing) 1000 waiting)
      (refresh_payout (world paying refusing) 1000 waiting).outcome
refresh_payout-IsConfirmed_example = refresh_payout-IsConfirmed (world paying refusing) 1000 waiting

candidates-fit_example :
    CandidatesFit
      (world refusing paying)
      bank
      "014"
      (route 1 "pakailink" ∷ route 2 "dana_direct" ∷ [])
      (candidates (world refusing paying) bank "014")
candidates-fit_example =
    candidates-fit (world refusing paying) bank "014"
      (route 1 "pakailink" ∷ route 2 "dana_direct" ∷ []) refl

final_callback-IsDelivery_example :
    IsDelivery
      (world refusing paying)
      paid
      "https://shop.example/hook"
      (ok 200)
      (try_send_final_callback (world refusing paying) paid)
unfolding callback_target deref_string trim_space
final_callback-IsDelivery_example =
    final_callback-IsDelivery (world refusing paying) paid "https://shop.example/hook" "s3cret" refl
      refl refl refl

abbrev request : CreatePayoutRequest
request = record {
  reference_id = "ref-4";
  payout_method = record { type = "bank"; code = "014" };
  account_no = "1234567890";
  amount = pos 50000;
  fee_paid_by = "customer";
  callback = some "https://shop.example/hook";
  customer_request = none;
  description = "";
  purpose = "99";
}

create_payout-InsertsFirst_example :
    InsertsFirst
      (world refusing paying)
      (create_payout (world refusing paying) (some request) (some merchant_client) false).effects
create_payout-InsertsFirst_example =
    create_payout-InsertsFirst (world refusing paying) request merchant_client false
      (record { below = omega arith; above = omega arith })
      (record { below = omega arith; above = omega arith })

created_run :
    answers
      (create_payout (world refusing paying) (some request) (some merchant_client) false).effects
    ≡ err refusal ∷ ok accepted ∷ []
unfolding create_payout create_for_method validate_method to_upper trim_space create_checked
    validate_create_request trimmed resolve_min_amount byte_length equal_fold
    validate_payout_account is_numeric_string create_unless_existing run_inquiry inquire_with
    candidates candidates_of callback_target deliver deliver_to try_send_processing_callback
    build_payout create_inquired insert_payout_loop lookup_of submit_inserted deref_string
    is_uncertain_payout_error map_payout_submit_error string_ptr submit_error_of submit_error_with
    after_inquiry build_inquiry inquire_each insert_inquiry_loop fee_payer_of resolve_fee candidate
    candidate_list payout_router_get after_pay submit_each submit_to submit_with_fallback sub64
    contains to_lower
created_run = refl
