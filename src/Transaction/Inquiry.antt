-- ===== src/Transaction/Inquiry.antt =====
-- processInquiry, executeInquiryWithProviders and executeInquiryWithDigiflazz of
-- internal/service/transaction_service.go.
pub mod Payable
use gtd_api.Prelude.{
  ℕ, ◌+◌, ◌*◌, ◌++◌, String, Bool, true, false, not, ◌&&◌, ◌||◌, Option, none, some, List, [], ◌∷◌,
  ltb, ◌==◌, str_eq, if◌then◌else◌,
}
use gtd_api.Prelude.Int.{pos}
use gtd_api.Prelude.Text.{trim_space}
use gtd_api.Errors.{plain_error, error_text, Result, ok, err}
use gtd_api.Run.{emit, fail, return_ok}
use gtd_api.Client.{Client}
use gtd_api.Ppob.Model as Ppob
use gtd_api.Ppob.Model.{
  ExtraValue, ProviderRequest, ProviderResponse, ProviderOption, PpobProviderClient,
  ProviderAttempt,
}
use gtd_api.Ppob.Attempt.{Providers}
use gtd_api.Transaction.Model.{
  Transaction, inquiry, TransactionStatus, processing, success, pending, failed, other_status,
  is_final, CreateTransactionRequest, Product, DigiResponse, DigiCall, InquiryData,
}
use gtd_api.Transaction.Codes.{inquiry_phase, is_success}
use gtd_api.Transaction.Failure.{canonical_failure}
use gtd_api.Transaction.Failure.Final.{build_final_failure}
use gtd_api.Transaction.Store.{Env, inquired, digi_inquired, cached}
use gtd_api.Transaction.Settle.{Handled}
use Prim.Native.String.{◌++◌ as ◌<>◌}
use gtd_api.Transaction.KiosbankRequest.{normalize_kiosbank_request_data}
use gtd_api.Transaction.CachedInquiry.{
  cached_inquiry_to_transaction, blank_inquiry, keep_inquiry, successful_inquiry, failed_inquiry,
  unanswered_inquiry,
}

unfoldable pub inquiry_request :
    Env → CreateTransactionRequest → (id : String) → ProviderOption → ProviderRequest
inquiry_request env req id opt = record {
  ref_id = id;
  sku_code = opt.provider_sku_code;
  customer_no = req.customer_no;
  amount = pos 0;
  type = Ppob.inquiry;
  is_sandbox = false;
  extra =
      if str_eq opt.provider_code "kiosbank"
      then normalize_kiosbank_request_data env req.extra
      else req.extra;
  excluded_provider_sku_ids = [];
  force_provider = none;
  inquiry_ref_id = "";
}

-- A client that is registered, and healthy unless the request names a provider.
abbrev pub usable_for :
    CreateTransactionRequest → Option PpobProviderClient → Option PpobProviderClient
usable_for req none = none
usable_for req (some c) = if not c.is_healthy && str_eq req.provider "" then none else some c

abbrev pub ask_option :
    (PpobProviderClient → Handled) → Handled → Option PpobProviderClient → Handled
ask_option ask skip none = skip
ask_option ask skip (some c) = ask c

-- What follows an answer; `again` is the rest of the loop.
unfoldable pub after_inquiry_answer :
    Env
    → InquiryData
    → ProviderOption
    → ProviderRequest
    → Handled
    → Result ProviderResponse
    → Handled
unfolding keep_inquiry successful_inquiry failed_inquiry
after_inquiry_answer env d opt request again (err e) = again
after_inquiry_answer env d opt request again (ok r) =
    if r.success
    then keep_inquiry env true (successful_inquiry env d opt request.extra r)
    else keep_inquiry env false (failed_inquiry env d opt request.extra r)

-- The loop over the providers; `attempts` are those so far.
unfoldable pub inquire_providers :
    Env
    → Providers
    → CreateTransactionRequest
    → InquiryData
    → (attempts : List ProviderAttempt) → List ProviderOption
    → Handled
unfolding keep_inquiry unanswered_inquiry inquiry_request after_inquiry_answer
inquire_providers env ps req d attempts [] =
    keep_inquiry env false (unanswered_inquiry env d attempts)
inquire_providers env ps req d attempts (opt ∷ rest) =
    let request = inquiry_request env req d.transaction_id opt in
    let skip = inquire_providers env ps req d attempts rest in
    ask_option
      (λ c.
        let answer = c.inquiry request in
        let tried : ProviderAttempt = record {
          provider = opt;
          request = request;
          answer = answer;
        } in
        emit (inquired opt.provider_code request answer) (
          after_inquiry_answer env d opt request
            (inquire_providers env ps req d (attempts ++ (tried ∷ [])) rest) answer))
      skip (usable_for req (ps.clients opt.provider_code))

abbrev pub first_of : (provider : String) → List ProviderOption → Option ProviderOption
first_of provider [] = none
first_of provider (opt ∷ rest) =
    if str_eq opt.provider_code provider then some opt else first_of provider rest

-- A provider that the request names, where it is one of the product's.
abbrev pub preferred : (provider : String) → List ProviderOption → List ProviderOption
preferred provider options =
    if str_eq provider ""
    then options
    else elim (first_of provider options) [ none ↦ options | some opt ↦ opt ∷ [] ]

unfoldable pub digi_inquiry_call :
    Env → CreateTransactionRequest → (id : String) → (is_sandbox : Bool) → DigiCall
digi_inquiry_call env req id is_sandbox =
    let goal =
      if is_sandbox
      then env.test_mapping req.sku_code inquiry
      else (req.sku_code, req.customer_no) in
    record {
      sku_code = goal.0;
      customer_no = goal.1;
      ref_id = id;
      testing = is_sandbox;
      answer = env.digi_inquiry goal.0 goal.1 id is_sandbox;
    }

unfoldable pub digi_inquiry_answered : Env → InquiryData → Result DigiResponse → Handled
unfolding keep_inquiry is_success error_text
digi_inquiry_answered env d (err e) = fail (plain_error ("inquiry failed: " <> error_text e))
digi_inquiry_answered env d (ok r) =
    if is_success r.rc
    then keep_inquiry env true (record d {
      amount = r.price;
      admin = r.admin;
      customer_name = r.customer_name;
      description = r.desc;
    })
    else fail (plain_error ("inquiry failed: " <> r.message))

-- executeInquiryWithDigiflazz
unfoldable pub inquire_digiflazz :
    Env → CreateTransactionRequest → InquiryData → (is_sandbox : Bool) → Handled
unfolding digi_inquiry_call digi_inquiry_answered
inquire_digiflazz env req d is_sandbox =
    if env.has_digiflazz is_sandbox
    then (let c = digi_inquiry_call env req d.transaction_id is_sandbox in
        emit (digi_inquired c) (digi_inquiry_answered env d c.answer))
    else fail (plain_error "no provider available for inquiry (Digiflazz client not configured)")

abbrev pub inquire_options :
    Env
    → Providers
    → CreateTransactionRequest
    → InquiryData
    → Result (List ProviderOption)
    → Handled
inquire_options env ps req d (ok (opt ∷ rest)) =
    inquire_providers env ps req d [] (preferred req.provider (opt ∷ rest))
inquire_options env ps req d _ = inquire_digiflazz env req d false

abbrev pub inquire_routed :
    Env
    → CreateTransactionRequest
    → InquiryData
    → (is_sandbox : Bool) → Option (ℕ → Providers)
    → Handled
inquire_routed env req d is_sandbox none = inquire_digiflazz env req d is_sandbox
inquire_routed env req d is_sandbox (some router) =
    if is_sandbox
    then inquire_digiflazz env req d true
    else (let ps = router d.product_id in
        inquire_options env ps req d
          (if str_eq req.provider "" then ps.by_effective_admin else ps.all_options))

abbrev pub fresh_inquiry :
    Env
    → CreateTransactionRequest
    → Client
    → Product
    → (is_sandbox : Bool) → Result String
    → Handled
fresh_inquiry env req client product is_sandbox (err e) = fail e
fresh_inquiry env req client product is_sandbox (ok id) =
    inquire_routed env req (blank_inquiry req client product id env.end_of_day) is_sandbox
      env.router

abbrev pub inquire_unless_cached :
    Env
    → CreateTransactionRequest
    → Client
    → Product
    → (is_sandbox : Bool) → Option InquiryData
    → Handled
inquire_unless_cached env req client product is_sandbox (some d) =
    return_ok (cached_inquiry_to_transaction env d client.id product.id)
inquire_unless_cached env req client product is_sandbox none =
    fresh_inquiry env req client product is_sandbox env.new_transaction_id

abbrev pub inquire_product :
    Env
    → CreateTransactionRequest
    → Client
    → (is_sandbox : Bool) → Result (Option Product)
    → Handled
inquire_product env req client is_sandbox (ok (some product)) =
    inquire_unless_cached env req client product is_sandbox
      (env.cached_by_key client.id req.customer_no req.sku_code req.reference_id)
inquire_product env req client is_sandbox _ = fail (plain_error "INVALID_SKU")

unfoldable pub process_inquiry :
    Env → CreateTransactionRequest → Client → (is_sandbox : Bool) → Handled
unfolding inquire_providers inquire_digiflazz cached_inquiry_to_transaction
process_inquiry env req client is_sandbox =
    inquire_product env req client is_sandbox (env.by_sku_code req.sku_code)
