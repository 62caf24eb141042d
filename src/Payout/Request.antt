-- ===== src/Payout/Request.antt =====
-- The requests of internal/service/payout_service.go and their validation: validateMethod,
-- validateCreateRequest, validatePayoutAccount, resolveMinAmount and resolveFee.
use gtd_api.Prelude.{
  ℕ, ◌+◌, String, Bool, true, false, ◌&&◌, ◌||◌, not, Option, none, some, ltb, str_eq,
  if◌then◌else◌,
}
use gtd_api.Prelude.Int.{ℤ, pos, ltb_ℤ, leb_ℤ}
use gtd_api.Prelude.Text.{trim_space, to_upper, equal_fold}
use gtd_api.Errors.{GoError, no_cause, payout_error, is_no_rows, Result, ok, err}
use gtd_api.Payment.Model.{FeePaidBy, merchant, customer}
use gtd_api.Payment.Request.{CustomerRequest, ◌otherwise◌, reject_if}
use gtd_api.Payout.Model.{MethodType, bank, ewallet, TransferType, interbank, PayoutInquiry}
use gtd_api.Payout.Store.{Env, BankCode}
use gtd_api.Payout.Failure.{is_numeric_string}
use Prim.Native.Char.{code as code_point}

-- models.PayoutMethodRef as it is sent
pub record PayoutMethodRef : Type 0 where
  pub type : String
  pub code : String

pub record CreatePayoutRequest : Type 0 where
  pub reference_id : String
  pub payout_method : PayoutMethodRef
  pub account_no : String
  pub amount : ℤ
  pub fee_paid_by : String
  pub callback : Option String
  pub customer_request : Option CustomerRequest
  pub description : String
  pub purpose : String

abbrev pub payout_invalid : (code text : String) → GoError
payout_invalid code text = payout_error 400 code text false no_cause

-- A validated method: its type, its channel and, for BANK, the bank.
pub record Method : Type 0 where
  pub type : MethodType
  pub channel : String
  pub bank_row : Option BankCode

abbrev with_bank : String → Result BankCode → Result Method
with_bank channel (err e) =
    err (if is_no_rows e then payout_invalid "INVALID_BANK_CODE" "Invalid bank code" else e)
with_bank channel (ok b) =
    if not b.support_disbursement
    then err (payout_invalid "INVALID_BANK_CODE" "Bank is not available for payout")
    else ok (record { type = bank; channel = channel; bank_row = some b })

unfoldable pub validate_method : Env → PayoutMethodRef → Result Method
validate_method env m =
    let type = to_upper (trim_space m.type) in
    let channel = to_upper (trim_space m.code) in
    if str_eq channel ""
    then err (payout_invalid "MISSING_FIELD" "payoutMethod.code is required")
    else if str_eq type "BANK"
    then with_bank channel (env.bank_by_code channel)
    else if str_eq type "EWALLET"
    then ok (record { type = ewallet; channel = channel; bank_row = none })
    else err (payout_invalid "INVALID_METHOD_TYPE" "payoutMethod.type must be BANK or EWALLET")

-- The bytes of a character in UTF-8, and of a text: Go's len.
abbrev utf8_width : ℕ → ℕ
utf8_width n = if ltb n 0x80 then 1 else if ltb n 0x800 then 2 else if ltb n 0x10000 then 3 else 4

unfoldable pub byte_length : String → ℕ
byte_length String.[] = 0
byte_length (String.◌∷◌ c s) = utf8_width (code_point c) + byte_length s

unfoldable pub validate_payout_account : String → Option GoError
validate_payout_account account =
    let account_no = trim_space account in
    reject_if (str_eq account_no "") (payout_invalid "MISSING_FIELD" "accountNo is required")
    otherwise reject_if
        (not (is_numeric_string account_no)
          || ltb (byte_length account_no) 5
          || ltb 34 (byte_length account_no))
        (payout_invalid "INVALID_ACCOUNT_NUMBER" "Invalid account number")

-- the keys of payoutPurposeDescriptions
abbrev is_purpose : String → Bool
is_purpose p = str_eq p "01" || str_eq p "02" || str_eq p "03" || str_eq p "99"

abbrev is_payer : String → Bool
is_payer p = str_eq p "" || equal_fold p "merchant" || equal_fold p "customer"

abbrev is_blank_option : Option String → Bool
is_blank_option none = true
is_blank_option (some v) = str_eq (trim_space v) ""

-- The request as the validation leaves it: four of its texts are trimmed.
unfoldable pub trimmed : CreatePayoutRequest → CreatePayoutRequest
trimmed r = record r {
  reference_id = trim_space r.reference_id;
  account_no = trim_space r.account_no;
  description = trim_space r.description;
  purpose = trim_space r.purpose;
}

-- validateCreateRequest, of a request whose texts are trimmed
unfoldable pub validate_create_request : CreatePayoutRequest → (min_amount : ℤ) → Option GoError
validate_create_request r min_amount =
    reject_if (str_eq r.reference_id "") (payout_invalid "MISSING_FIELD" "referenceId is required")
    otherwise reject_if (is_blank_option r.callback)
        (payout_invalid "MISSING_FIELD" "url.callback is required")
    otherwise reject_if (ltb_ℤ r.amount min_amount)
        (payout_invalid "AMOUNT_TOO_LOW" "Amount is below minimum payout amount")
    otherwise reject_if (ltb 200 (byte_length r.description))
        (payout_invalid "INVALID_DESCRIPTION" "Description must be 200 characters or fewer")
    otherwise reject_if (not (is_payer r.fee_paid_by))
        (payout_invalid "INVALID_FEE_PAID_BY" "feePaidBy must be merchant or customer")
    otherwise reject_if (not (str_eq r.purpose "") && not (is_purpose r.purpose))
        (payout_invalid "INVALID_PURPOSE" "Invalid purpose code")
    otherwise validate_payout_account r.account_no

abbrev pub payout_min_amount : ℤ
payout_min_amount = pos 10000

abbrev catalog_code : MethodType → String → String
catalog_code bank channel = "DEFAULT"
catalog_code ewallet channel = channel

abbrev positive_or_default : Option ℤ → ℤ
positive_or_default none = payout_min_amount
positive_or_default (some n) = if leb_ℤ n (pos 0) then payout_min_amount else n

unfoldable pub resolve_min_amount : Env → MethodType → String → ℤ
resolve_min_amount env mt channel =
    positive_or_default (env.method_min_amount mt (catalog_code mt channel))

abbrev interbank_fee : ℤ → MethodType → Option TransferType → ℤ
interbank_fee fee bank (some interbank) = fee
interbank_fee fee _ _ = pos 0

unfoldable pub resolve_fee : Env → MethodType → PayoutInquiry → ℤ
resolve_fee env mt inquiry = interbank_fee env.default_bank_fee mt inquiry.transfer_type

unfoldable pub fee_payer_of : String → FeePaidBy
fee_payer_of text = if equal_fold (trim_space text) "customer" then customer else merchant

-- bankCodeFor
abbrev pub bank_code_for : MethodType → String → String
bank_code_for bank channel = channel
bank_code_for ewallet channel = ""
