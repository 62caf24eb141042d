-- ===== src/Transaction/Model.antt =====
-- The rows and messages of a transaction: internal/models/transaction.go, the attempts of
-- internal/models/callback.go, the request of internal/service/transaction_service.go, the answers
-- of pkg/digiflazz/response.go and the cached inquiry of internal/cache/inquiry_cache.go. A JSON
-- text that is absent is "".
use gtd_api.Prelude.{ℕ, String, Bool, true, false, Option, List}
use gtd_api.Prelude.Int.{ℤ}
use gtd_api.Errors.{Result}
use gtd_api.Ppob.Model.{ExtraValue}

-- `other_type` holds any text that is none of the three named ones.
pub data TransactionType : Type 0 where
  prepaid inquiry payment : TransactionType
  other_type : String → TransactionType

pub data TransactionStatus : Type 0 where
  processing success pending failed : TransactionStatus
  other_status : String → TransactionStatus

-- The test that callbacks make before they touch a transaction.
abbrev pub is_final : TransactionStatus → Bool
is_final success = true
is_final failed = true
is_final _ = false

-- Without the SKU codes that only joins fill.
pub record Transaction : Type 0 where
  pub id : ℕ
  pub transaction_id : String
  pub reference_id : String
  pub client_id : ℕ
  pub product_id : ℕ
  pub sku_id : Option ℕ
  pub sku_code : String
  pub is_sandbox : Bool
  pub customer_no : String
  pub customer_name : Option String
  pub type : TransactionType
  pub status : TransactionStatus
  pub serial_number : Option String
  pub amount : Option ℤ
  pub admin : ℤ
  pub period : Option String
  pub description : String
  pub failed_reason : Option String
  pub failed_code : Option String
  pub retry_count : ℕ
  pub max_retry : ℕ
  pub next_retry_at : Option ℕ
  pub expired_at : Option ℕ
  pub inquiry_id : Option ℕ
  pub digi_ref_id : Option String
  pub callback_sent : Bool
  pub callback_at : Option ℕ
  pub created_at : ℕ
  pub processed_at : Option ℕ
  pub buy_price : Option ℤ
  pub sell_price : Option ℤ
  pub provider_id : Option ℕ
  pub provider_sku_id : Option ℕ
  pub provider_code : Option String
  pub provider_ref_id : Option String
  pub provider_initial_response : String
  pub provider_response : String
  pub provider_initial_http_status : Option ℤ
  pub provider_http_status : Option ℤ

-- CreateTransactionRequest; `data` is a reserved word.
pub record CreateTransactionRequest : Type 0 where
  pub reference_id : String
  pub sku_code : String
  pub customer_no : String
  pub type : String
  pub transaction_id : String
  pub provider : String
  pub extra : List (String × ExtraValue)

-- The columns of a product and of a Digiflazz SKU that the service reads.
pub record Product : Type 0 where
  pub id : ℕ
  pub sku_code : String
  pub min_price : Option ℤ

pub record Sku : Type 0 where
  pub id : ℕ
  pub digi_sku_code : String

-- TransactionResponse of pkg/digiflazz, without the echoes of the request.
pub record DigiResponse : Type 0 where
  pub ref_id : String
  pub message : String
  pub status : String
  pub rc : String
  pub sn : String
  pub price : ℤ
  pub customer_name : String
  pub admin : ℤ
  pub desc : String

-- One entry of transaction_logs, without the JSON texts and the times.
pub record TransactionLog : Type 0 where
  pub transaction_id : ℕ
  pub sku_id : Option ℕ
  pub digi_ref_id : String
  pub rc : Option String
  pub status : Option String
  pub message : Option String
  pub provider_id : Option ℕ
  pub provider_sku_id : Option ℕ

-- `status` is "" for an inquiry that Digiflazz answered.
pub record InquiryData : Type 0 where
  pub transaction_id : String
  pub reference_id : String
  pub client_id : ℕ
  pub product_id : ℕ
  pub customer_no : String
  pub sku_code : String
  pub amount : ℤ
  pub admin : ℤ
  pub customer_name : String
  pub description : String
  pub expired_at : ℕ
  pub cached_at : ℕ
  pub provider_code : String
  pub provider_sku_code : String
  pub provider_id : ℕ
  pub provider_sku_id : ℕ
  pub provider_ref_no : String
  pub provider_response : String
  pub provider_http_status : ℤ
  pub provider_transaction_id : String
  pub provider_extra : List (String × ExtraValue)
  pub status : String
  pub failed_code : String
  pub failed_reason : String

-- A call of Digiflazz for one transaction: what it was asked for, and what it answered.
pub record DigiCall : Type 0 where
  pub sku_code : String
  pub customer_no : String
  pub ref_id : String
  pub testing : Bool
  pub answer : Result DigiResponse

-- CallbackPayload of pkg/digiflazz, as far as the service reads it.
pub record CallbackPayload : Type 0 where
  pub ref_id : String
  pub message : String
  pub status : String
  pub rc : String
  pub sn : String
  pub price : ℤ

-- A value of a provider's JSON object: a text, a float64 with whether it is above 0 and its integer
-- part, or an object's own fields, of which the service reads only such values.
pub data JsonField : Type 0 where
  text : String → JsonField
  number : (is_positive : Bool) → (whole : ℤ) → JsonField
  other_value : JsonField

pub data JsonValue : Type 0 where
  field : JsonField → JsonValue
  object : List (String × JsonField) → JsonValue

-- `raw` is the payload's JSON text.
pub record ProviderPayload : Type 0 where
  pub raw : String
  pub fields : List (String × JsonValue)

-- PPOBProviderCallback, as far as it is stored.
pub record ProviderCallback : Type 0 where
  pub provider_id : ℕ
  pub provider_ref_id : String
  pub transaction_id : ℕ
  pub payload : String
  pub status : Option String
  pub message : Option String
