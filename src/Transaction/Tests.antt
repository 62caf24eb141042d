-- ===== src/Transaction/Tests.antt =====
-- Sample data for the transactions, and their theorems at them.
use gtd_api.Prelude.{
  inl, inr, arith, ℕ, String, ◌≡◌, refl, sym, ap, Bool, true, false, none, some, List, [], ◌∷◌,
  ◌==◌, ◌*◌, suc, length, All, if◌then◌else◌,
}
use gtd_api.Prelude.Int.{pos}
use gtd_api.Errors.{Result, ok, err, plain_error}
use gtd_api.Payment.Tests.{shop}
use gtd_api.Ppob.Model.{ProviderAttempt}
use gtd_api.Ppob.Tests as Sample
use gtd_api.Transaction.Model.{
  Transaction, prepaid, processing, CreateTransactionRequest, Product, Sku, DigiResponse,
  TransactionLog, InquiryData, CallbackPayload, ProviderPayload, field, object, text, number,
}
use gtd_api.Transaction.Codes.{is_success, initial_payment, needs_new_ref_id, is_retryable_wait}
use gtd_api.Transaction.Failure.{canonical_failure}
use gtd_api.Transaction.FailureCodes.{JsonTexts, precedence}
use gtd_api.Transaction.Failure.Final.{
  build_final_failure, finish_failure, choose, consider, better,
}
use gtd_api.Transaction.Failure.Least.{IsLeast, failure_codes, build_final_failure-IsLeast}
use gtd_api.Transaction.Store.{Env}
use gtd_api.Transaction.Skus.{try_all_skus, start, suffixed_ref}
use gtd_api.Transaction.Skus.Refs.{IsPaced, try_all_skus-IsPaced}
use gtd_api.Transaction.Skus.Ends.{HasReturned, calls_made, try_all_skus_ends, try_all_skus_runs_on}
use gtd_api.Transaction.RefId.{Reads, scan_int, suffixed_ref-Reads}
use gtd_api.Transaction.Route.{retry_with_next_provider}
use gtd_api.Transaction.Route.Fresh.{SkipsTried, retry_with_next_provider-SkipsTried}
use gtd_api.Transaction.Retry.{retry_transaction, retry_with_next_sku}
use gtd_api.Transaction.Create.{process_prepaid}
use gtd_api.Transaction.CachedInquiry.{blank_inquiry, keep_inquiry}
use gtd_api.Transaction.Inquiry.{
  process_inquiry, inquire_digiflazz, digi_inquiry_answered, digi_inquiry_call,
}
use gtd_api.Transaction.Inquiry.Payable.{verdict, kept_inquiry-verdict}
use gtd_api.Transaction.Payment.{process_payment, check_payment}
use gtd_api.Transaction.Payment.Quoted.{IsQuoted, process_payment-IsQuoted}
use gtd_api.Transaction.Told.{IsAudit, Succeeded, Answers}
use gtd_api.Transaction.Callback.{find_callback_transaction, process_digiflazz_callback}
use gtd_api.Transaction.Callback.Answered.{is_stored_success, process_digiflazz_callback-Answers}
use gtd_api.Transaction.ProviderFields.{
  extract_kiosbank_buy_price, object_of, look_up, first_text, parse_callback_amount,
}
use gtd_api.Transaction.Announced.{IsAnnounced}
use gtd_api.Transaction.Announced.Created.{as_running, transactions-IsAnnounced}

abbrev transaction : Transaction
transaction = record {
  id = 7;
  transaction_id = "GRB-20250203-000001";
  reference_id = "order-1";
  client_id = 3;
  product_id = 5;
  sku_id = none;
  sku_code = "PULSA10";
  is_sandbox = false;
  customer_no = "0812";
  customer_name = none;
  type = prepaid;
  status = processing;
  serial_number = none;
  amount = none;
  admin = pos 0;
  period = none;
  description = "";
  failed_reason = none;
  failed_code = none;
  retry_count = 0;
  max_retry = 0;
  next_retry_at = none;
  expired_at = none;
  inquiry_id = none;
  digi_ref_id = none;
  callback_sent = false;
  callback_at = none;
  created_at = 100;
  processed_at = none;
  buy_price = none;
  sell_price = some (pos 10500);
  provider_id = none;
  provider_sku_id = none;
  provider_code = none;
  provider_ref_id = none;
  provider_initial_response = "";
  provider_response = "";
  provider_initial_http_status = none;
  provider_http_status = none;
}

abbrev request : CreateTransactionRequest
request = record {
  reference_id = "order-1";
  sku_code = "PULSA10";
  customer_no = "0812";
  type = "prepaid";
  transaction_id = "GRB-20250203-000009";
  provider = "";
  extra = [];
}

abbrev digi : (rc : String) → DigiResponse
digi rc = record {
  ref_id = "";
  message = "";
  status = "";
  rc = rc;
  sn = "SN1";
  price = pos 10100;
  customer_name = "";
  admin = pos 0;
  desc = "";
}

abbrev sku : (id : ℕ) → Sku
sku id = record { id = id; digi_sku_code = "P10" }

abbrev skus : List Sku
skus = sku 1 ∷ sku 2 ∷ []

abbrev product : Product
product = record { id = 5; sku_code = "PULSA10"; min_price = some (pos 10500) }

abbrev texts : JsonTexts
texts = record {
  sanitize = λ s. s;
  raw_error = λ s. ("", "");
  transport_error = λ message phase. message;
}

-- An entry of the log for a provider SKU.
abbrev entry : (provider_sku_id : ℕ) → TransactionLog
entry id = record {
  transaction_id = 7;
  sku_id = none;
  digi_ref_id = "";
  rc = none;
  status = none;
  message = none;
  provider_id = none;
  provider_sku_id = some id;
}

abbrev quote : InquiryData
quote = record {
  transaction_id = "GRB-20250203-000009";
  reference_id = "order-1";
  client_id = 3;
  product_id = 5;
  customer_no = "0812";
  sku_code = "PULSA10";
  amount = pos 10000;
  admin = pos 500;
  customer_name = "";
  description = "";
  expired_at = 200;
  cached_at = 90;
  provider_code = "alterra";
  provider_sku_code = "alterra";
  provider_id = 3;
  provider_sku_id = 3;
  provider_ref_no = "";
  provider_response = "";
  provider_http_status = pos 0;
  provider_transaction_id = "";
  provider_extra = [];
  status = "Success";
  failed_code = "";
  failed_reason = "";
}

-- Digiflazz answers each call by its number.
abbrev answering : ((call : ℕ) → Result DigiResponse) → Env
answering topup = record {
  now = 150;
  end_of_day = 1000;
  has_notifier = true;
  router = some (λ product_id. Sample.shops);
  best_price = λ product_id. none;
  has_digiflazz = λ testing. true;
  topup = λ call sku_code customer_no ref_id testing. topup call;
  digi_inquiry = λ sku_code customer_no ref_id testing. topup 0;
  digi_payment = λ sku_code customer_no ref_id testing. topup 0;
  cancelled = λ call. false;
  test_mapping = λ code type. (code, "0812");
  opaque_text = λ json. json;
  decimal = λ n. if n == 13 then "13" else "1";
  texts = texts;
  reference_no = λ description. "";
  update = λ t. none;
  insert = λ t. ok (record { row_id = 7; row_created_at = 150; row_updated_at = 150 });
  exists_reference = λ client_id reference_id. ok false;
  new_transaction_id = ok "GRB-20250203-000001";
  by_sku_code =
      λ code. ok (some (record { id = 5; sku_code = code; min_price = some (pos 10500) }));
  available_skus = λ product_id. ok skus;
  logs_of = λ id. ok (entry 1 ∷ []);
  by_transaction_id = λ id. err (plain_error "none");
  by_digi_ref_id = λ id. err (plain_error "none");
  by_provider_ref_id = λ id. err (plain_error "none");
  has_cache = true;
  has_sku_retrier = true;
  has_provider_retrier = true;
  keep_callback = λ p. some 4;
  provider_id_of = λ code. none;
  response_code = λ response. "";
  cached_by_key = λ client_id customer_no code reference_id. none;
  cached_by_id = λ id. ok (some quote);
}

-- A network error first, and then a success.
abbrev once_down : Env
once_down = answering (λ call. if call == 0 then err (plain_error "timeout") else ok (digi "00"))

abbrev always_49 : Env
always_49 = answering (λ call. ok (digi "49"))

try_all_skus-IsPaced_example :
    IsPaced once_down "GRB-20250203-000001" 13 0
      (try_all_skus 5 once_down (start transaction skus 13)).effects
try_all_skus-IsPaced_example = try_all_skus-IsPaced 5 once_down transaction skus 13

abbrev rc_of : Result DigiResponse → String
rc_of (ok r) = r.rc
rc_of (err e) = ""

answers_move_on :
    (down : Bool) (r : DigiResponse)
    → (if down then err (plain_error "timeout") else ok (digi "00")) ≡ ok r
    → (needs_new_ref_id r.rc ≡ false) × (is_retryable_wait r.rc ≡ false)
unfolding needs_new_ref_id is_retryable_wait
answers_move_on true r e = cc
answers_move_on false r e = rw (sym (ap rc_of e)) (refl, refl)

try_all_skus_ends_example :
    HasReturned (try_all_skus (suc (3 * length skus)) once_down (start transaction skus 0))
try_all_skus_ends_example =
    try_all_skus_ends once_down transaction skus 0
      (λ call sku_code customer_no ref_id testing r e. answers_move_on (call == 0) r e)

try_all_skus_runs_on_example :
    ((try_all_skus 3 always_49 (start transaction skus 0)).outcome ≡ ok none)
    × (calls_made (try_all_skus 3 always_49 (start transaction skus 0)).effects ≡ 3)
try_all_skus_runs_on_example =
    try_all_skus_runs_on 3 always_49 transaction (sku 1) (sku 2 ∷ []) 0
      (λ call sku_code customer_no ref_id testing below. (digi "49", refl, refl))

-- A failed order at each of two providers.
abbrev attempts : List ProviderAttempt
attempts =
    record {
      provider = Sample.option 1 "kiosbank" (pos 10100);
      request = Sample.request;
      answer = ok (record (Sample.response false false) { rc = "41" });
    }
    ∷ record {
      provider = Sample.option 3 "alterra" (pos 10200);
      request = Sample.request;
      answer = ok (record (Sample.response false false) { rc = "20" });
    }
    ∷ []

-- The customer's fault goes before the product's.
attempts_run : (build_final_failure texts attempts initial_payment).public_code ≡ "INVALID_CUSTOMER"
unfolding build_final_failure finish_failure choose consider better precedence canonical_failure
attempts_run = refl

build_final_failure-IsLeast_example :
    IsLeast "NO_PROVIDER_AVAILABLE"
      (build_final_failure texts attempts initial_payment).public_code
      (failure_codes texts initial_payment attempts)
build_final_failure-IsLeast_example = build_final_failure-IsLeast texts attempts initial_payment

thirteen_read : scan_int "13" ≡ 13
unfolding scan_int
thirteen_read = refl

suffixed_ref-Reads_example :
    Reads (suffixed_ref once_down "GRB-20250203-000001" 13) "GRB-20250203-000001" 13
suffixed_ref-Reads_example =
    suffixed_ref-Reads once_down "GRB-20250203-000001" 13 refl refl thirteen_read

retry_with_next_provider-SkipsTried_example :
    All
      (SkipsTried (once_down.logs_of 7))
      (retry_with_next_provider once_down transaction "41" "closed").effects
retry_with_next_provider-SkipsTried_example =
    retry_with_next_provider-SkipsTried once_down transaction "41" "closed"

process_payment-IsQuoted_example :
    IsQuoted once_down request shop (process_payment once_down request shop false).effects
process_payment-IsQuoted_example = process_payment-IsQuoted once_down request shop false

-- No router, so that Digiflazz answers the inquiry.
abbrev by_digiflazz : Env
by_digiflazz = record (answering (λ call. ok (digi "00"))) { router = none }

-- What the inquiry keeps.
abbrev quoted : InquiryData
quoted = record (blank_inquiry request shop product "GRB-20250203-000001" 1000) {
  amount = pos 10100;
  cached_at = 150;
}

kept_inquiry-verdict_example : check_payment by_digiflazz request shop quoted ≡ verdict true
unfolding process_inquiry inquire_digiflazz digi_inquiry_answered digi_inquiry_call keep_inquiry
    is_success
kept_inquiry-verdict_example =
    kept_inquiry-verdict by_digiflazz by_digiflazz request request shop false true quoted
      (inr (inl refl)) refl refl refl (omega arith)

transactions-IsAnnounced_example :
    IsAnnounced (process_prepaid 7 once_down request shop false)
    × IsAnnounced (process_payment once_down request shop false)
    × IsAnnounced (retry_transaction 7 once_down transaction)
    × IsAnnounced (as_running (retry_with_next_sku 7 once_down transaction))
transactions-IsAnnounced_example =
    transactions-IsAnnounced 7 once_down request shop false transaction

-- A callback of Digiflazz for a call of the transaction, whose reference carries a suffix.
abbrev digi_callback : CallbackPayload
digi_callback = record {
  ref_id = "GRB-20250203-000001-1";
  message = "";
  status = "Sukses";
  rc = "00";
  sn = "SN1";
  price = pos 10100;
}

-- The transaction is found by its id.
abbrev with_row : Env
with_row = record once_down { by_transaction_id = λ id. ok transaction }

process_digiflazz_callback-Answers_example :
    Answers
      (λ t. IsAudit)
      (is_stored_success with_row digi_callback)
      Succeeded
      (find_callback_transaction with_row "GRB-20250203-000001-1")
      (process_digiflazz_callback 7 with_row digi_callback).effects
process_digiflazz_callback-Answers_example =
    process_digiflazz_callback-Answers 7 with_row digi_callback

-- A payload that both providers would take for a success.
abbrev payload : ProviderPayload
payload = record {
  raw = "{}";
  fields =
      ("referenceID", field (text "GRB-20250203-000001"))
      ∷ ("order_id", field (text "GRB-20250203-000001"))
      ∷ ("rc", field (text "00"))
      ∷ ("response_code", field (text "00"))
      ∷ ("price", field (number true (pos 10100)))
      ∷ ("data", object (("TK", text "1234") ∷ ("tagihan", text "00010100") ∷ []))
      ∷ [];
}

buy_price_run : extract_kiosbank_buy_price (object_of payload "data") ≡ pos 10100
unfolding extract_kiosbank_buy_price look_up first_text parse_callback_amount
buy_price_run = refl
