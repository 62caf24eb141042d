-- ===== src/Payout/Create.antt =====
-- Create, Inquiry and createPayoutWithGeneratedID of internal/service/payout_service.go.
pub mod Order
pub mod Funded
pub mod Retry
use gtd_api.Prelude.{
  ℕ, zero, suc, String, ◌≡◌, Bool, true, false, not, Option, none, some, List, [], ◌∷◌, ◌++◌,
  if◌then◌else◌,
}
use gtd_api.Prelude.Int.{ℤ, pos, ltb_ℤ, add64, sub64}
use gtd_api.Prelude.Text.{trim_space}
use gtd_api.Errors.{
  GoError, no_cause, payout_error, is_no_rows, is_unique_violation, is_reference_unique_violation,
  Result, ok, err,
}
use gtd_api.Run.{Run, return_ok, fail, emit}
use gtd_api.Client.{Client}
use gtd_api.Payment.Model.{FeePaidBy, merchant, customer}
use gtd_api.Payment.Store.{Inserted}
use gtd_api.Payment.Request.{CustomerRequest}
use gtd_api.Payout.Model.{Payout, PayoutInquiry, processing}
use gtd_api.Payout.Store.{Env, Effect, inserted}
use gtd_api.Payout.Failure.{string_ptr, deref_string}
use gtd_api.Payout.Request.{
  Method, PayoutMethodRef, CreatePayoutRequest, payout_invalid, validate_method, trimmed,
  validate_create_request, validate_payout_account, resolve_min_amount, resolve_fee, fee_payer_of,
  bank_code_for,
}
use gtd_api.Payout.Inquiry.{Lookup, run_inquiry}
use gtd_api.Payout.Callback.{try_send_processing_callback}
use gtd_api.Payout.Submit.{submit_with_fallback}

abbrev pub behind : {A B : Type 0} → List Effect → Result A → (A → Run Effect B) → Run Effect B
behind es (ok a) f = record { effects = es ++ (f a).effects; outcome = (f a).outcome }
behind es (err e) f = record { effects = es; outcome = err e }

-- The run of one operation behind another.
abbrev pub and_then : {A B : Type 0} → Run Effect A → (A → Run Effect B) → Run Effect B
and_then r f = behind r.effects r.outcome f

-- (send_amount, total_amount), by who bears the fee
unfoldable pub split_amount : (amount fee : ℤ) → FeePaidBy → ℤ × ℤ
split_amount amount fee customer = (sub64 amount fee, amount)
split_amount amount fee merchant = (amount, add64 amount fee)

abbrev pub is_below : FeePaidBy → (send_amount min_amount : ℤ) → Bool
is_below customer send_amount min_amount = ltb_ℤ send_amount min_amount
is_below merchant send_amount min_amount = false

abbrev customer_part : (CustomerRequest → String) → Option CustomerRequest → Option String
customer_part part none = none
customer_part part (some c) = string_ptr (part c)

-- The validation lets no request without an address pass.
abbrev callback_of : Option String → Option String
callback_of none = none
callback_of (some url) = string_ptr url

-- What one creation works with, behind its validation.
pub record Intake : Type 0 where
  pub request : CreatePayoutRequest
  pub method : Method
  pub min_amount : ℤ
  pub client_id : ℕ
  pub is_sandbox : Bool

unfoldable pub build_payout : Intake → PayoutInquiry → FeePaidBy → (fee : ℤ) → Payout
unfolding split_amount
build_payout i q payer fee = record {
  id = 0;
  payout_id = "";
  reference_id = i.request.reference_id;
  client_id = i.client_id;
  is_sandbox = i.is_sandbox;
  method_type = i.method.type;
  channel_code = i.method.channel;
  transfer_type = q.transfer_type;
  provider = q.provider;
  bank_code = bank_code_for i.method.type i.method.channel;
  bank_name = q.bank_name;
  account_number = i.request.account_no;
  account_name = q.account_name;
  source_bank_code = none;
  source_account_number = none;
  amount = i.request.amount;
  fee = fee;
  send_amount = (split_amount i.request.amount fee payer).0;
  total_amount = (split_amount i.request.amount fee payer).1;
  fee_paid_by = payer;
  status = processing;
  failed_reason = none;
  failed_code = none;
  purpose_code = string_ptr i.request.purpose;
  remark = none;
  description = string_ptr i.request.description;
  customer_name = customer_part (λ c. c.name) i.request.customer_request;
  customer_email = customer_part (λ c. c.email) i.request.customer_request;
  customer_phone = customer_part (λ c. c.phone) i.request.customer_request;
  inquiry_row_id = some q.id;
  provider_ref = none;
  provider_data = [];
  callback_url = callback_of i.request.callback;
  callback_sent = false;
  callback_sent_at = none;
  callback_attempts = 0;
  created_at = 0;
  completed_at = none;
  failed_at = none;
  updated_at = 0;
}

abbrev pub with_payout_id : Env → (i : ℕ) → Payout → Payout
with_payout_id env i p = record p { payout_id = env.ids i }

abbrev pub after_payout_insert :
    (GoError → Result Payout) → Payout → Result Inserted → Result Payout
after_payout_insert again p (ok row) =
    ok (record p {
      id = row.row_id;
      created_at = row.row_created_at;
      updated_at = row.row_updated_at;
    })
after_payout_insert again p (err e) =
    if is_unique_violation e
    then again e
    else if is_reference_unique_violation e
    then err (payout_error 400 "DUPLICATE_REFERENCE_ID" "Reference ID already exists" false e)
    else err e

-- The rounds that are left, from the i-th on; `last` is the error of the round before.
unfoldable pub insert_payout_loop : (rounds i : ℕ) → Env → Payout → (last : GoError) → Result Payout
insert_payout_loop zero i env p last = err last
insert_payout_loop (suc rounds) i env p last =
    after_payout_insert (λ e. insert_payout_loop rounds (suc i) env p e) (with_payout_id env i p)
      (env.insert i (with_payout_id env i p))

-- The row is there: tell the merchant, whose answer is dropped, then pay.
unfoldable pub submit_inserted : Env → Result Payout → Run Effect Payout
submit_inserted env (err e) = fail e
submit_inserted env (ok p) =
    emit (inserted p)
      (behind (try_send_processing_callback env p).effects (ok p) (submit_with_fallback env))

unfoldable pub create_inquired : Env → Intake → PayoutInquiry → Run Effect Payout
create_inquired env i q =
    let payer = fee_payer_of i.request.fee_paid_by in
    let p = build_payout i q payer (resolve_fee env i.method.type q) in
    if is_below payer p.send_amount i.min_amount
    then fail (payout_invalid "AMOUNT_TOO_LOW" "Amount net of fee is below the minimum")
    else submit_inserted env (insert_payout_loop 5 0 env p no_cause)

unfoldable pub lookup_of : Intake → Lookup
lookup_of i = record {
  method = i.method;
  account_no = i.request.account_no;
  amount = i.request.amount;
  client_id = i.client_id;
  is_sandbox = i.is_sandbox;
}

unfoldable pub create_unless_existing : Env → Intake → Result Payout → Run Effect Payout
create_unless_existing env i (ok existing) =
    fail (payout_invalid "DUPLICATE_REFERENCE_ID" "Reference ID already exists")
create_unless_existing env i (err e) =
    if is_no_rows e
    then and_then (run_inquiry env (lookup_of i)) (create_inquired env i)
    else fail e

unfoldable pub create_checked : Env → Intake → Option GoError → Run Effect Payout
create_checked env i (some e) = fail e
create_checked env i none =
    create_unless_existing env i (env.by_reference_id i.client_id i.request.reference_id)

abbrev pub intake_of : Env → CreatePayoutRequest → Client → (is_sandbox : Bool) → Method → Intake
intake_of env r client is_sandbox m = record {
  request = trimmed r;
  method = m;
  min_amount = resolve_min_amount env m.type m.channel;
  client_id = client.id;
  is_sandbox = is_sandbox;
}

unfoldable pub create_for_method :
    Env → CreatePayoutRequest → Client → (is_sandbox : Bool) → Result Method → Run Effect Payout
create_for_method env r client is_sandbox (err e) = fail e
create_for_method env r client is_sandbox (ok m) =
    let i = intake_of env r client is_sandbox m in
    create_checked env i (validate_create_request i.request i.min_amount)

abbrev pub payout_unavailable : GoError
payout_unavailable =
    payout_error 503 "PAYOUT_UNAVAILABLE" "Payout provider is not configured" false no_cause

abbrev pub unauthorized : GoError
unauthorized = payout_error 401 "INVALID_TOKEN" "Unauthorized" false no_cause

unfoldable pub create_payout :
    Env → Option CreatePayoutRequest → Option Client → (is_sandbox : Bool) → Run Effect Payout
create_payout env request none is_sandbox =
    fail (if env.available then unauthorized else payout_unavailable)
create_payout env none (some client) is_sandbox = fail (
    if env.available
    then payout_invalid "MISSING_FIELD" "Invalid request body"
    else payout_unavailable)
create_payout env (some r) (some client) is_sandbox =
    if env.available
    then create_for_method env r client is_sandbox (validate_method env r.payout_method)
    else fail payout_unavailable

abbrev inquire_account :
    Env
    → Client
    → (is_sandbox : Bool) → (account_no : String) → Option GoError
    → Method
    → Run Effect PayoutInquiry
inquire_account env client is_sandbox account_no (some e) m = fail e
inquire_account env client is_sandbox account_no none m = run_inquiry env (record {
  method = m;
  account_no = account_no;
  amount = pos 0;
  client_id = client.id;
  is_sandbox = is_sandbox;
})

abbrev inquire_method :
    Env
    → Client
    → (is_sandbox : Bool) → (account_no : String) → Result Method
    → Run Effect PayoutInquiry
inquire_method env client is_sandbox account_no (err e) = fail e
inquire_method env client is_sandbox account_no (ok m) =
    inquire_account env client is_sandbox account_no (validate_payout_account account_no) m

-- Inquiry, of a request and a client that are there; its response shows the inquiry.
unfoldable pub inquire :
    Env
    → Client
    → (is_sandbox : Bool) → PayoutMethodRef
    → (account_no : String) → Run Effect PayoutInquiry
inquire env client is_sandbox m account_no =
    if env.available
    then inquire_method env client is_sandbox (trim_space account_no) (validate_method env m)
    else fail payout_unavailable
