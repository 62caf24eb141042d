-- ===== src/Transaction/CachedInquiry.antt =====
-- What is kept of an inquiry: cachedInquiryToTransaction, safeMarshalRaw, and the entries that
-- executeInquiryWithProviders and executeInquiryWithDigiflazz of
-- internal/service/transaction_service.go make.
use gtd_api.Prelude.{
  ℕ, ◌+◌, ◌*◌, String, Bool, false, ◌||◌, Option, none, some, List, [], ◌∷◌, ltb, ◌==◌, str_eq,
  if◌then◌else◌,
}
use gtd_api.Prelude.Int.{pos}
use gtd_api.Prelude.Text.{trim_space}
use gtd_api.Run.{emit, return_ok}
use gtd_api.Client.{Client}
use gtd_api.Ppob.Model.{ExtraValue, ProviderResponse, ProviderOption, ProviderAttempt}
use gtd_api.Transaction.Model.{
  Transaction, inquiry, TransactionStatus, processing, success, pending, failed, other_status,
  is_final, CreateTransactionRequest, Product, InquiryData,
}
use gtd_api.Transaction.Codes.{inquiry_phase}
use gtd_api.Transaction.Failure.{canonical_failure}
use gtd_api.Transaction.Failure.Final.{build_final_failure}
use gtd_api.Transaction.Store.{Env, cached}
use gtd_api.Transaction.Settle.{Handled}

abbrev status_of : String → TransactionStatus
status_of text =
    if str_eq text "" || str_eq text "Success"
    then success
    else if str_eq text "Failed"
    then failed
    else if str_eq text "Processing"
    then processing
    else if str_eq text "Pending"
    then pending
    else other_status text

abbrev text_ptr : String → Option String
text_ptr text = if str_eq text "" then none else some text

abbrev id_ptr : ℕ → Option ℕ
id_ptr id = if ltb 0 id then some id else none

-- A `cached_at` of 0 is Go's zero time.
unfoldable pub cached_inquiry_to_transaction :
    Env → InquiryData → (client_id product_id : ℕ) → Transaction
unfolding trim_space
cached_inquiry_to_transaction env d client_id product_id =
    let status = status_of d.status in
    let created_at = if d.cached_at == 0 then env.now else d.cached_at in
    record {
      id = 0;
      transaction_id = d.transaction_id;
      reference_id = d.reference_id;
      client_id = client_id;
      product_id = product_id;
      sku_id = none;
      sku_code = d.sku_code;
      is_sandbox = false;
      customer_no = d.customer_no;
      customer_name = text_ptr (trim_space d.customer_name);
      type = inquiry;
      status = status;
      serial_number = none;
      amount = some d.amount;
      admin = d.admin;
      period = none;
      description = env.texts.sanitize d.description;
      failed_reason = text_ptr (trim_space d.failed_reason);
      failed_code = text_ptr d.failed_code;
      retry_count = 0;
      max_retry = 0;
      next_retry_at = none;
      expired_at = some d.expired_at;
      inquiry_id = none;
      digi_ref_id = none;
      callback_sent = false;
      callback_at = none;
      created_at = created_at;
      processed_at = if is_final status then some created_at else none;
      buy_price = none;
      sell_price = none;
      provider_id = id_ptr d.provider_id;
      provider_sku_id = id_ptr d.provider_sku_id;
      provider_code = text_ptr (trim_space d.provider_code);
      provider_ref_id = text_ptr d.provider_transaction_id;
      provider_initial_response = "";
      provider_response = d.provider_response;
      provider_initial_http_status = none;
      provider_http_status = none;
    }

abbrev safe_marshal_raw : String → String
safe_marshal_raw raw = if str_eq raw "null" then "" else raw

-- What all cached inquiries of one request share.
abbrev pub blank_inquiry :
    CreateTransactionRequest → Client → Product → (id : String) → (expired_at : ℕ) → InquiryData
blank_inquiry req client product id expired_at = record {
  transaction_id = id;
  reference_id = req.reference_id;
  client_id = client.id;
  product_id = product.id;
  customer_no = req.customer_no;
  sku_code = req.sku_code;
  amount = pos 0;
  admin = pos 0;
  customer_name = "";
  description = "";
  expired_at = expired_at;
  cached_at = 0;
  provider_code = "";
  provider_sku_code = "";
  provider_id = 0;
  provider_sku_id = 0;
  provider_ref_no = "";
  provider_response = "";
  provider_http_status = pos 0;
  provider_transaction_id = "";
  provider_extra = [];
  status = "";
  failed_code = "";
  failed_reason = "";
}

-- The cache sets the time of the entry, also where it then fails.
abbrev pub cached_now : Env → InquiryData → InquiryData
cached_now env d = record d { cached_at = env.now }

unfoldable pub keep_inquiry : Env → (both : Bool) → InquiryData → Handled
unfolding cached_inquiry_to_transaction
keep_inquiry env both d =
    let kept = cached_now env d in
    emit (cached both kept)
      (return_ok (cached_inquiry_to_transaction env kept kept.client_id kept.product_id))

abbrev pub with_option : InquiryData → ProviderOption → InquiryData
with_option d opt = record d {
  provider_code = opt.provider_code;
  provider_sku_code = opt.provider_sku_code;
  provider_id = opt.provider_id;
  provider_sku_id = opt.provider_sku_id;
}

unfoldable pub answered_inquiry :
    Env
    → InquiryData
    → ProviderOption
    → (extra : List (String × ExtraValue)) → ProviderResponse
    → InquiryData
answered_inquiry env d opt extra r = record (with_option d opt) {
  amount = r.amount;
  admin = r.admin;
  customer_name = r.customer_name;
  description = env.texts.sanitize r.description;
  provider_response = safe_marshal_raw r.raw_response;
  provider_http_status = r.http_status;
  provider_transaction_id = r.provider_ref_id;
  provider_extra = extra;
}

-- 10 * time.Minute
abbrev kiosbank_expiry : ℕ
kiosbank_expiry = 600 * 1000000000

unfoldable pub successful_inquiry :
    Env
    → InquiryData
    → ProviderOption
    → (extra : List (String × ExtraValue)) → ProviderResponse
    → InquiryData
unfolding answered_inquiry
successful_inquiry env d opt extra r = record (answered_inquiry env d opt extra r) {
  expired_at =
      if str_eq opt.provider_code "kiosbank" then env.now + kiosbank_expiry else d.expired_at;
  provider_ref_no = if str_eq r.description "" then "" else env.reference_no r.description;
  status = "Success";
}

unfoldable pub failed_inquiry :
    Env
    → InquiryData
    → ProviderOption
    → (extra : List (String × ExtraValue)) → ProviderResponse
    → InquiryData
unfolding answered_inquiry
failed_inquiry env d opt extra r =
    let f = canonical_failure env.texts opt.provider_code inquiry_phase r in
    record (answered_inquiry env d opt extra r) {
      status = "Failed";
      failed_reason = f.message;
      failed_code = f.code;
    }

abbrev pub last_option : List ProviderAttempt → Option ProviderOption
last_option [] = none
last_option (a ∷ []) = some a.provider
last_option (a ∷ b ∷ rest) = last_option (b ∷ rest)

abbrev pub named_by : InquiryData → Option ProviderOption → InquiryData
named_by d none = d
named_by d (some opt) = with_option d opt

-- All providers that were asked have failed with an error.
unfoldable pub unanswered_inquiry : Env → InquiryData → List ProviderAttempt → InquiryData
unanswered_inquiry env d attempts =
    let r = build_final_failure env.texts attempts inquiry_phase in
    let f = canonical_failure env.texts "" inquiry_phase r in
    record (named_by d (last_option attempts)) {
      status = "Failed";
      failed_reason = f.message;
      failed_code = f.code;
      provider_response = safe_marshal_raw r.raw_response;
      provider_http_status = r.http_status;
      provider_transaction_id = r.provider_ref_id;
      description = env.texts.sanitize r.description;
    }
