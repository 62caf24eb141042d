-- ===== src/Ppob/Model.antt =====
-- The types of internal/service/provider_router.go, without the durations, and ProviderOption of
-- internal/models/ppob_provider.go.
use gtd_api.Prelude.{ℕ, String, Bool, Option, List}
use gtd_api.Prelude.Int.{ℤ}
use gtd_api.Errors.{GoError, Result}

-- `other_type` holds any text that is none of the three named ones.
pub data ProviderTransactionType : Type 0 where
  prepaid inquiry payment : ProviderTransactionType
  other_type : String → ProviderTransactionType

-- A value of the free fields of a request: a Go int, a string, or another value, by its JSON text.
pub data ExtraValue : Type 0 where
  number : ℤ → ExtraValue
  text : String → ExtraValue
  opaque : String → ExtraValue

-- An empty forced provider is `none`.
pub record ProviderRequest : Type 0 where
  pub ref_id : String
  pub sku_code : String
  pub customer_no : String
  pub amount : ℤ
  pub type : ProviderTransactionType
  pub is_sandbox : Bool
  pub extra : List (String × ExtraValue)
  pub excluded_provider_sku_ids : List ℕ
  pub force_provider : Option String
  pub inquiry_ref_id : String

-- A JSON text that is absent is "".
pub record ProviderResponse : Type 0 where
  pub success : Bool
  pub pending : Bool
  pub ref_id : String
  pub provider_ref_id : String
  pub http_status : ℤ
  pub phase : String
  pub status : String
  pub rc : String
  pub message : String
  pub provider_status : String
  pub serial_number : String
  pub customer_name : String
  pub amount : ℤ
  pub admin : ℤ
  pub description : String
  pub raw_response : String
  pub needs_retry : Bool
  pub public_code : String
  pub public_message : String
  pub public_http_code : ℕ

pub record ProviderOption : Type 0 where
  pub provider_id : ℕ
  pub provider_code : String
  pub provider_sku_id : ℕ
  pub provider_sku_code : String
  pub price : ℤ
  pub admin : ℤ
  pub commission : ℤ
  pub is_backup : Bool

-- PPOBProviderClient, as the function of its inputs that it is during one execution. A call gives a
-- response or an error, never neither.
pub record PpobProviderClient : Type 0 where
  pub topup : ProviderRequest → Result ProviderResponse
  pub inquiry : ProviderRequest → Result ProviderResponse
  pub payment : ProviderRequest → Result ProviderResponse
  pub is_healthy : Bool

-- One provider that was asked, with the request as it then was and the answer; providersTried is
-- the list of the attempts' options.
pub record ProviderAttempt : Type 0 where
  pub provider : ProviderOption
  pub request : ProviderRequest
  pub answer : Result ProviderResponse

pub record ExecuteResult : Type 0 where
  pub success : Bool
  pub response : Option ProviderResponse
  pub provider_used : Option ProviderOption
  pub attempts : List ProviderAttempt
  pub error : Option String

-- What RecordProviderRequest is told of one attempt, beside its duration; its error is dropped.
pub record HealthRecord : Type 0 where
  pub provider_id : ℕ
  pub success : Bool
  pub failure_reason : String

-- The two results of Execute, of which a result may stand beside an error, and the health records
-- that it leaves.
pub record Executed : Type 0 where
  pub recorded : List HealthRecord
  pub result : Option ExecuteResult
  pub error : Option GoError
