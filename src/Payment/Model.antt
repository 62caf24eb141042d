-- ===== src/Payment/Model.antt =====
-- internal/models/payment.go, internal/models/method_provider.go, internal/models/reconciliation.go
-- and the provider-facing types of internal/service/payment_provider.go. A nullable column is an
-- `Option`, a time is a count of nanoseconds, and a JSON object is the list of its keys with their
-- values.
use gtd_api.Prelude.{ℕ, String, Bool, true, false, Option, List, not, str_eq}
use gtd_api.Prelude.Int.{ℤ}
use gtd_api.Prelude.Text.{to_lower}
use Prim.Native.String.{◌++◌ as ◌<>◌}

-- `other_type` holds any text that is none of the four named ones.
pub data PaymentType : Type 0 where
  va ewallet qris retail : PaymentType
  other_type : String → PaymentType

abbrev pub type_text : PaymentType → String
type_text va = "VA"
type_text ewallet = "EWALLET"
type_text qris = "QRIS"
type_text retail = "RETAIL"
type_text (other_type t) = t

-- `other_status` holds any text that is none of the five named ones; `other_status ""` is unset.
pub data PaymentStatus : Type 0 where
  pending success expired cancelled failed : PaymentStatus
  other_status : String → PaymentStatus

abbrev pub status_text : PaymentStatus → String
status_text pending = "Pending"
status_text success = "Success"
status_text expired = "Expired"
status_text cancelled = "Cancelled"
status_text failed = "Failed"
status_text (other_status t) = t

abbrev pub is_final : PaymentStatus → Bool
is_final success = true
is_final expired = true
is_final cancelled = true
is_final failed = true
is_final _ = false

-- status != ""
abbrev pub is_set : PaymentStatus → Bool
is_set (other_status t) = not (str_eq t "")
is_set _ = true

-- `==` on two statuses
abbrev pub same_status : PaymentStatus → PaymentStatus → Bool
same_status pending pending = true
same_status success success = true
same_status expired expired = true
same_status cancelled cancelled = true
same_status failed failed = true
same_status (other_status s) (other_status t) = str_eq s t
same_status _ _ = false

-- "payment." + strings.ToLower(string(status))
unfoldable pub payment_event_name : PaymentStatus → String
unfolding to_lower
payment_event_name status = "payment." <> to_lower (status_text status)

pub data FeePaidBy : Type 0 where
  merchant customer : FeePaidBy

-- A raw JSON message: its text, and whether it is a JSON text.
pub record Raw : Type 0 where
  pub text : String
  pub is_json : Bool

pub record Payment : Type 0 where
  pub id : ℕ
  pub payment_id : String
  pub reference_id : String
  pub partner_ref : String
  pub client_id : ℕ
  pub payment_method_id : ℕ
  pub is_sandbox : Bool
  pub payment_type : PaymentType
  pub payment_code : String
  pub provider : String
  pub amount : ℤ
  pub fee : ℤ
  pub total_amount : ℤ
  pub fee_paid_by : FeePaidBy
  pub customer_name : Option String
  pub customer_email : Option String
  pub customer_phone : Option String
  pub status : PaymentStatus
  pub payment_detail : List (String × String)
  pub payment_instruction : Option String
  pub sender_bank : Option String
  pub sender_name : Option String
  pub sender_account : Option String
  pub provider_ref : Option String
  pub provider_data : List (String × Raw)
  pub callback_type : Option String
  pub callback_url : Option String
  pub return_url : Option String
  pub description : Option String
  pub metadata : Option String
  pub callback_sent : Bool
  pub callback_sent_at : Option ℕ
  pub callback_attempts : ℕ
  pub expired_at : ℕ
  pub created_at : ℕ
  pub paid_at : Option ℕ
  pub cancelled_at : Option ℕ
  pub updated_at : ℕ

pub data FeeType : Type 0 where
  flat percent : FeeType
  other_fee : FeeType

-- `Real` is the type of the floating-point percentage.
pub record PaymentMethod (Real : Type 0) : Type 0 where
  pub id : ℕ
  pub type : PaymentType
  pub code : String
  pub name : String
  pub provider : String
  pub fee_type : FeeType
  pub fee_flat : ℤ
  pub fee_percent : Real
  pub fee_min : ℤ
  pub fee_max : ℤ
  pub min_amount : ℤ
  pub max_amount : ℤ
  pub expired_duration : ℤ
  pub logo_url : Option String
  pub display_order : ℤ
  pub payment_instruction : Option String
  pub is_active : Bool
  pub is_maintenance : Bool
  pub maintenance_message : Option String

pub record MethodProviderBinding : Type 0 where
  pub id : ℕ
  pub payment_method_id : ℕ
  pub provider : String
  pub priority : ℤ
  pub is_active : Bool
  pub is_maintenance : Bool
  pub maintenance_message : Option String
  pub provider_bank_code : Option String
  pub provider_channel : Option String

pub record PaymentCreateRequest : Type 0 where
  pub type : PaymentType
  pub code : String
  pub bank_code : String
  pub partner_ref : String
  pub amount : ℤ
  pub fee : ℤ
  pub total_amount : ℤ
  pub expired_at : ℕ
  pub description : String
  pub client_name : String
  pub customer_name : String
  pub customer_email : String
  pub customer_phone : String
  pub return_url : String
  pub scan_data : String

pub record PaymentDetailNormalized : Type 0 where
  pub bank_code : String
  pub bank_name : String
  pub va_number : String
  pub account_name : String
  pub biller_code : String
  pub checkout_url : String
  pub mobile_web_url : String
  pub deeplink : String
  pub qr_code_url : String
  pub qr_string : String
  pub qr_image_url : String
  pub retail_name : String
  pub payment_code : String

pub record PaymentCreateResponse : Type 0 where
  pub provider_ref : String
  pub normalized : PaymentDetailNormalized
  pub raw_response : Raw

pub record PaymentInquiryResult : Type 0 where
  pub status : PaymentStatus
  pub provider_ref : String
  pub paid_amount : ℤ
  pub raw_response : Raw

pub record PaymentWebhookEvent : Type 0 where
  pub status : PaymentStatus
  pub provider_ref : String
  pub paid_amount : ℤ
  pub raw_payload : Raw

pub data ReconReason : Type 0 where
  status_mismatch amount_mismatch status_amount_mismatch : ReconReason

pub record PaymentReconciliation : Type 0 where
  pub payment_id : String
  pub provider : String
  pub reason : ReconReason
  pub webhook_status : Option String
  pub inquiry_status : Option String
  pub webhook_amount : Option ℤ
  pub inquiry_amount : Option ℤ
  pub expected_amount : Option ℤ
  pub webhook_payload : Option Raw
  pub inquiry_payload : Option Raw
