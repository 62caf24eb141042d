-- ===== src/Payout/Model.antt =====
-- internal/models/payout.go and the provider-facing types of internal/service/payout_provider.go. As in
-- the payment model, a nullable column is an `Option` and a time is a count of nanoseconds.
use gtd_api.Prelude.{ℕ, String, Bool, true, false, Option, List, str_eq}
use gtd_api.Prelude.Int.{ℤ}
use gtd_api.Prelude.Text.{to_lower}
use gtd_api.Errors.{GoError}
use gtd_api.Payment.Model.{FeePaidBy, Raw}
use Prim.Native.String.{◌++◌ as ◌<>◌}

-- Of a payout whose method was validated.
pub data MethodType : Type 0 where
  bank ewallet : MethodType

abbrev pub method_text : MethodType → String
method_text bank = "BANK"
method_text ewallet = "EWALLET"

pub data TransferType : Type 0 where
  intrabank interbank : TransferType
  other_transfer : String → TransferType

-- `other_status` holds any text that an adapter may give beside the three named ones.
pub data PayoutStatus : Type 0 where
  processing success failed : PayoutStatus
  other_status : String → PayoutStatus

abbrev pub status_text : PayoutStatus → String
status_text processing = "Processing"
status_text success = "Success"
status_text failed = "Failed"
status_text (other_status t) = t

-- Success or Failed: the two final states
abbrev pub is_final : PayoutStatus → Bool
is_final success = true
is_final failed = true
is_final _ = false

abbrev pub is_processing : PayoutStatus → Bool
is_processing processing = true
is_processing _ = false

abbrev pub same_status : PayoutStatus → PayoutStatus → Bool
same_status processing processing = true
same_status success success = true
same_status failed failed = true
same_status (other_status s) (other_status t) = str_eq s t
same_status _ _ = false

-- "payout." + strings.ToLower(string(status))
unfoldable pub payout_event_name : PayoutStatus → String
unfolding to_lower
payout_event_name status = "payout." <> to_lower (status_text status)

pub record PayoutRoute : Type 0 where
  pub id : ℕ
  pub method_type : MethodType
  pub provider : String
  pub priority : ℤ
  pub is_active : Bool
  pub is_maintenance : Bool
  pub maintenance_message : Option String

-- What stands under a key of provider_data: a provider's message, or what payoutErrorPayload makes
-- of an error.
pub data Payload : Type 0 where
  message : Raw → Payload
  failure : GoError → Payload

pub record PayoutInquiry : Type 0 where
  pub id : ℕ
  pub inquiry_id : String
  pub client_id : ℕ
  pub is_sandbox : Bool
  pub method_type : MethodType
  pub channel_code : String
  pub bank_code : String
  pub bank_name : Option String
  pub account_number : String
  pub account_name : Option String
  pub transfer_type : Option TransferType
  pub provider : String
  pub provider_ref : Option String
  pub provider_data : List (String × Payload)
  pub expired_at : ℕ
  pub created_at : ℕ

pub record Payout : Type 0 where
  pub id : ℕ
  pub payout_id : String
  pub reference_id : String
  pub client_id : ℕ
  pub is_sandbox : Bool
  pub method_type : MethodType
  pub channel_code : String
  pub transfer_type : Option TransferType
  pub provider : String
  pub bank_code : String
  pub bank_name : Option String
  pub account_number : String
  pub account_name : Option String
  pub source_bank_code : Option String
  pub source_account_number : Option String
  pub amount : ℤ
  pub fee : ℤ
  pub send_amount : ℤ
  pub total_amount : ℤ
  pub fee_paid_by : FeePaidBy
  pub status : PayoutStatus
  pub failed_reason : Option String
  pub failed_code : Option String
  pub purpose_code : Option String
  pub remark : Option String
  pub description : Option String
  pub customer_name : Option String
  pub customer_email : Option String
  pub customer_phone : Option String
  pub inquiry_row_id : Option ℕ
  pub provider_ref : Option String
  pub provider_data : List (String × Payload)
  pub callback_url : Option String
  pub callback_sent : Bool
  pub callback_sent_at : Option ℕ
  pub callback_attempts : ℕ
  pub created_at : ℕ
  pub completed_at : Option ℕ
  pub failed_at : Option ℕ
  pub updated_at : ℕ

pub record PayoutInquiryInput : Type 0 where
  pub partner_ref : String
  pub method_type : MethodType
  pub channel_code : String
  pub account_number : String
  pub amount : ℤ

-- An empty transfer type is `none`.
pub record PayoutInquiryOutput : Type 0 where
  pub account_name : String
  pub bank_name : String
  pub provider_ref : String
  pub transfer_type : Option TransferType
  pub fee : ℤ
  pub raw_response : Raw

pub record PayoutExecInput : Type 0 where
  pub partner_ref : String
  pub method_type : MethodType
  pub channel_code : String
  pub account_number : String
  pub account_name : String
  pub amount : ℤ
  pub transfer_type : Option TransferType
  pub purpose : String
  pub remark : String
  pub callback_url : String

pub record PayoutExecOutput : Type 0 where
  pub provider_ref : String
  pub status : PayoutStatus
  pub fee : ℤ
  pub raw_response : Raw

pub record PayoutStatusInput : Type 0 where
  pub partner_ref : String
  pub provider_ref : String
  pub method_type : MethodType
  pub transfer_type : Option TransferType

pub record PayoutStatusOutput : Type 0 where
  pub status : PayoutStatus
  pub provider_ref : String
  pub failed_reason : String
  pub failed_code : String
  pub raw_response : Raw
