-- ===== src/Payment/Tests.antt =====
-- Sample data for the payment side, and its theorems at them.
mod Lifecycle
mod Creation
mod Webhooks
use gtd_api.Prelude.{
  ℕ, ◌*◌, ◌/◌, ltb, String, true, false, none, some, [], ◌∷◌, Bool, ◌++◌, str_eq, if◌then◌else◌,
  Option, List,
}
use gtd_api.Prelude.Int.{ℤ, pos, negsuc, pos_part, neg_part}
use gtd_api.Errors.{no_rows, ok, err, no_cause, payment_error, Result, pq_error}
use gtd_api.Client.{Client}
use gtd_api.Payment.Model.{
  Payment, va, pending, success, other_status, merchant, flat, percent, PaymentWebhookEvent,
  PaymentInquiryResult, PaymentMethod, MethodProviderBinding, PaymentCreateResponse, Raw,
}
use gtd_api.Payment.Store.{Env, PaymentProviderClient, Inserted}
use gtd_api.Payment.Fee.{Float64}
use gtd_api.Payment.Create.{Catalog}
use gtd_api.Payment.Request.{CreatePaymentRequest, ValidRequest}

abbrev pub waiting : Payment
waiting = record {
  id = 7;
  payment_id = "pay-7";
  reference_id = "ref-7";
  partner_ref = "ptr-7";
  client_id = 3;
  payment_method_id = 1;
  is_sandbox = false;
  payment_type = va;
  payment_code = "014";
  provider = "pakailink";
  amount = pos 50000;
  fee = pos 4000;
  total_amount = pos 50000;
  fee_paid_by = merchant;
  customer_name = some "Ani";
  customer_email = none;
  customer_phone = none;
  status = pending;
  payment_detail = [];
  payment_instruction = none;
  sender_bank = none;
  sender_name = none;
  sender_account = none;
  provider_ref = none;
  provider_data = [];
  callback_type = none;
  callback_url = some "https://shop.example/cb";
  return_url = none;
  description = none;
  metadata = none;
  callback_sent = false;
  callback_sent_at = none;
  callback_attempts = 0;
  expired_at = 900;
  created_at = 100;
  paid_at = none;
  cancelled_at = none;
  updated_at = 100;
}

abbrev pub paid : Payment
paid = record waiting { status = success; paid_at = some 300 }

abbrev pub no_raw : Raw
no_raw = record { text = ""; is_json = false }

abbrev pub paid_event : PaymentWebhookEvent
paid_event = record {
  status = success;
  provider_ref = "";
  paid_amount = pos 50000;
  raw_payload = no_raw;
}

abbrev pub paid_result : PaymentInquiryResult
paid_result = record {
  status = success;
  provider_ref = "";
  paid_amount = pos 50000;
  raw_response = no_raw;
}

abbrev pub short_result : PaymentInquiryResult
short_result = record paid_result { paid_amount = pos 40000 }

abbrev pub response : PaymentCreateResponse
response = record {
  provider_ref = "prov-1";
  normalized = record {
    bank_code = "014";
    bank_name = "BCA";
    va_number = "8801";
    account_name = "Ani";
    biller_code = "";
    checkout_url = "";
    mobile_web_url = "";
    deeplink = "";
    qr_code_url = "";
    qr_string = "";
    qr_image_url = "";
    retail_name = "";
    payment_code = "";
  };
  raw_response = no_raw;
}

-- An adapter by what it answers to a creation and to an inquiry.
abbrev pub adapter :
    Result PaymentCreateResponse → Result (Option PaymentInquiryResult) → PaymentProviderClient
adapter created inquired = record {
  available = true;
  create_payment = λ request. created;
  inquiry_payment = λ p. inquired;
  cancel_payment = λ p reason. none;
}

-- An environment in which every write succeeds, with one adapter for `pakailink` and one for
-- `bnc_direct`.
abbrev pub world : PaymentProviderClient → PaymentProviderClient → Env
world first second = record {
  now = 500;
  clients = λ code.
      if str_eq code "pakailink"
      then some first
      else if str_eq code "bnc_direct"
      then some second
      else none;
  refs = λ i. ("pay-new", "ptr-new");
  insert = λ i p. ok (record { row_id = 8; row_created_at = 500; row_updated_at = 500 });
  update = λ p. none;
  by_payment_id = λ s. if str_eq s "pay-7" then ok waiting else err no_rows;
  by_partner_ref = λ s. if str_eq s "ptr-7" then ok waiting else err no_rows;
  by_provider_ref = λ provider s. err no_rows;
  by_reference_id = λ client s. err no_rows;
  has_notifier = true;
  has_reconciliation = true;
}

abbrev pub down : PaymentProviderClient
down = adapter (err (payment_error 503 "PROVIDER_UNAVAILABLE" "down" no_cause)) (ok none)

abbrev pub good : PaymentProviderClient
good = adapter (ok response) (ok (some paid_result))

abbrev pub binding_a : MethodProviderBinding
binding_a = record {
  id = 1;
  payment_method_id = 1;
  provider = "pakailink";
  priority = pos 1;
  is_active = true;
  is_maintenance = false;
  maintenance_message = none;
  provider_bank_code = none;
  provider_channel = none;
}

abbrev pub binding_b : MethodProviderBinding
binding_b = record binding_a { id = 2; provider = "bnc_direct"; priority = pos 2 }

abbrev pub group : List MethodProviderBinding
group = binding_a ∷ binding_b ∷ []

-- Fixed point with three decimals stands for the floating point.
abbrev pub thousandths : Float64
thousandths = record {
  Real = ℕ;
  of_int = λ z. 1000 * pos_part z;
  to_int = λ x. pos (x / 1000);
  product = λ x y. x * y / 1000;
  quotient = λ x y. 1000 * x / y;
  less = λ x y. ltb x y;
}

abbrev pub method : PaymentMethod ℕ
method = record {
  id = 1;
  type = va;
  code = "014";
  name = "BCA VA";
  provider = "pakailink";
  fee_type = percent;
  fee_flat = pos 0;
  fee_percent = 700;
  fee_min = pos 0;
  fee_max = pos 0;
  min_amount = pos 10000;
  max_amount = pos 0;
  expired_duration = pos 3600;
  logo_url = none;
  display_order = pos 1;
  payment_instruction = none;
  is_active = true;
  is_maintenance = false;
  maintenance_message = none;
}

abbrev pub catalog : Env → Catalog ℕ
catalog env = record {
  env = env;
  method_by_code = λ type code. ok method;
  providers_by_code = λ type code. ok group;
  by_reference_again = λ client s. err no_rows;
  order = λ entries. entries;
  decimal = λ z. "n";
}

abbrev pub shop : Client
shop = record {
  id = 3;
  client_id = "shop";
  name = "Shop";
  api_key = "live";
  sandbox_key = "test";
  callback_url = "";
  callback_secret = "s";
  ip_whitelist = [];
  scopes = "payment" ∷ [];
  is_active = true;
}

abbrev pub valid : ValidRequest
valid = record {
  reference_id = "ref-8";
  type = "VA";
  code = "014";
  customer = record { name = "Ani"; email = ""; phone = "" };
  callback_url = "https://shop.example/cb";
  return_url = "";
  amount = pos 50001;
  scan_data = "";
  description = "";
  fee_paid_by = merchant;
}

abbrev pub request : CreatePaymentRequest
request = record {
  reference_id = " ref-8 ";
  payment_method = some (record { type = "va"; code = "014" });
  customer = some (record { name = "Ani"; email = ""; phone = "" });
  url = some (record { callback = "https://shop.example/cb"; return = "" });
  amount = pos 50001;
  fee_paid_by = "Customer";
  scan_data = "";
  description = "";
  payment_type = "";
  payment_code = "";
  customer_name = "";
  customer_email = "";
  customer_phone = "";
}
