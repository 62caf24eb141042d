-- ===== src/Payment/Request.antt =====
-- CreatePaymentRequest and its validation in CreatePayment of internal/service/payment_service.go,
-- up to the lookup of the reference.
use gtd_api.Prelude.{
  String, Bool, true, false, ◌&&◌, ◌||◌, Option, none, some, str_eq, if◌then◌else◌,
}
use gtd_api.Prelude.Int.{ℤ, pos, leb_ℤ}
use gtd_api.Prelude.Text.{trim_space, to_lower, to_upper, equal_fold}
use gtd_api.Errors.{GoError, payment_error, no_cause, Result, ok, err}
use gtd_api.Payment.Model.{FeePaidBy, merchant, customer}

pub record PaymentMethodRequest : Type 0 where
  pub type : String
  pub code : String

pub record CustomerRequest : Type 0 where
  pub name : String
  pub email : String
  pub phone : String

pub record UrlRequest : Type 0 where
  pub callback : String
  pub return : String

pub record CreatePaymentRequest : Type 0 where
  pub reference_id : String
  pub payment_method : Option PaymentMethodRequest
  pub customer : Option CustomerRequest
  pub url : Option UrlRequest
  pub amount : ℤ
  pub fee_paid_by : String
  pub scan_data : String
  pub description : String
  pub payment_type : String
  pub payment_code : String
  pub customer_name : String
  pub customer_email : String
  pub customer_phone : String

-- The nested method is used only if its type is set.
abbrev method_or : Option PaymentMethodRequest → PaymentMethodRequest → PaymentMethodRequest
method_or none legacy = legacy
method_or (some m) legacy = if str_eq m.type "" then legacy else m

unfoldable pub resolve_payment_type_code : CreatePaymentRequest → PaymentMethodRequest
resolve_payment_type_code r =
    method_or r.payment_method (record { type = r.payment_type; code = r.payment_code })

abbrev customer_or : Option CustomerRequest → CustomerRequest → CustomerRequest
customer_or none legacy = legacy
customer_or (some c) legacy = c

unfoldable pub resolve_customer : CreatePaymentRequest → CustomerRequest
resolve_customer r =
    customer_or r.customer
      (record { name = r.customer_name; email = r.customer_email; phone = r.customer_phone })

abbrev url_or : Option UrlRequest → UrlRequest → UrlRequest
url_or none empty = empty
url_or (some u) empty = u

unfoldable pub resolve_url : CreatePaymentRequest → UrlRequest
resolve_url r = url_or r.url (record { callback = ""; return = "" })

abbrev pub validation_error : String → GoError
validation_error message = payment_error 400 "VALIDATION_ERROR" message no_cause

-- strings.TrimSpace(s) == ""
unfoldable pub is_blank : String → Bool
unfolding trim_space
is_blank s = str_eq (trim_space s) ""

-- What stops a request, if anything does: the first failing check in the order of the code.
infixr 5 ◌otherwise◌
abbrev pub ◌otherwise◌ : Option GoError → Option GoError → Option GoError
none otherwise rest = rest
(some e) otherwise rest = some e

abbrev pub reject_if : Bool → GoError → Option GoError
reject_if true e = some e
reject_if false e = none

unfoldable pub validate_required_fields :
    CreatePaymentRequest → (type code : String) → Option GoError
unfolding is_blank resolve_customer resolve_url equal_fold
validate_required_fields r type code =
    reject_if
      (str_eq type "EWALLET" && equal_fold code "OVO" && is_blank (resolve_customer r).phone)
      (validation_error "customer.phone is required for EWALLET/OVO")
    otherwise reject_if
        (str_eq type "EWALLET" && equal_fold code "ASTRAPAY" && is_blank (resolve_url r).return)
        (validation_error "url.return is required for EWALLET/ASTRAPAY")
    otherwise reject_if (str_eq type "QRIS" && equal_fold code "CPM" && is_blank r.scan_data)
        (validation_error "scanData is required for QRIS/CPM")

abbrev fee_payer : String → Result FeePaidBy
fee_payer s =
    if str_eq s ""
    then ok merchant
    else if str_eq s "merchant"
    then ok merchant
    else if str_eq s "customer"
    then ok customer
    else err (validation_error "feePaidBy must be 'merchant' or 'customer'")

unfoldable pub normalize_fee_paid_by : String → Result FeePaidBy
unfolding to_lower trim_space
normalize_fee_paid_by raw = fee_payer (to_lower (trim_space raw))

-- The request with the fields that CreatePayment resolves before it looks anything up.
pub record ValidRequest : Type 0 where
  pub reference_id : String
  pub type : String
  pub code : String
  pub customer : CustomerRequest
  pub callback_url : String
  pub return_url : String
  pub amount : ℤ
  pub scan_data : String
  pub description : String
  pub fee_paid_by : FeePaidBy

unfoldable pub resolve : CreatePaymentRequest → FeePaidBy → ValidRequest
unfolding resolve_payment_type_code resolve_customer resolve_url trim_space to_upper
resolve r payer = record {
  reference_id = trim_space r.reference_id;
  type = to_upper (trim_space (resolve_payment_type_code r).type);
  code = trim_space (resolve_payment_type_code r).code;
  customer = resolve_customer r;
  callback_url = (resolve_url r).callback;
  return_url = (resolve_url r).return;
  amount = r.amount;
  scan_data = r.scan_data;
  description = r.description;
  fee_paid_by = payer;
}

-- The checks between the decoding of the request and the check of feePaidBy.
unfoldable pub check_fields : CreatePaymentRequest → ValidRequest → Option GoError
check_fields r v =
    reject_if (str_eq v.reference_id "") (validation_error "referenceId is required")
    otherwise reject_if (str_eq v.type "" || str_eq v.code "")
        (validation_error "paymentMethod.type and paymentMethod.code are required")
    otherwise reject_if (is_blank v.callback_url) (validation_error "url.callback is required")
    otherwise validate_required_fields r v.type v.code
    otherwise reject_if (leb_ℤ r.amount (pos 0))
        (payment_error 400 "INVALID_AMOUNT" "amount must be positive" no_cause)
    otherwise reject_if (is_blank v.customer.name) (validation_error "customer.name is required")

abbrev pub check_with :
    CreatePaymentRequest → Option GoError → Result FeePaidBy → Result ValidRequest
check_with r (some e) payer = err e
check_with r none (err e) = err e
check_with r none (ok payer) = ok (resolve r payer)

-- The fields that are checked do not depend on who pays the fee.
unfoldable pub validate : CreatePaymentRequest → Result ValidRequest
validate r =
    check_with r (check_fields r (resolve r merchant)) (normalize_fee_paid_by r.fee_paid_by)
