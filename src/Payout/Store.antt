-- ===== src/Payout/Store.antt =====
-- What the payout service talks to: the payouts table (internal/repository/payout_repo.go), the
-- adapters and their router (internal/service/payout_provider_router.go), the merchant's webhook,
-- and the effects of one operation.
use gtd_api.Prelude.{
  ℕ, String, Bool, false, Option, none, some, List, [], ◌∷◌, str_eq, if◌then◌else◌, not, any,
}
use gtd_api.Prelude.Int.{ℤ}
use gtd_api.Prelude.Text.{trim_space}
use gtd_api.Errors.{GoError, no_cause, payout_error, Result, ok, err}
use gtd_api.Run.{Run, write}
use gtd_api.Client.{Client}
use gtd_api.Payment.Store.{Inserted}
use gtd_api.Payout.Model.{
  MethodType, Payout, PayoutInquiry, PayoutRoute, Payload, message, failure, PayoutInquiryInput,
  PayoutInquiryOutput, PayoutExecInput, PayoutExecOutput, PayoutStatusInput, PayoutStatusOutput,
}

-- PayoutProviderClient, as the function of its inputs that it is during one operation.
pub record PayoutProviderClient : Type 0 where
  pub code : String
  pub available : Bool
  pub supports : MethodType → String → Bool
  pub source_account : MethodType → String × String
  pub inquiry : PayoutInquiryInput → Result PayoutInquiryOutput
  pub pay : PayoutExecInput → Result PayoutExecOutput
  pub status : PayoutStatusInput → Result PayoutStatusOutput

abbrev registered : Option PayoutProviderClient → Result PayoutProviderClient
registered (some c) = ok c
registered none = err (
    payout_error 503 "PROVIDER_UNAVAILABLE" "Payout provider is temporarily unavailable" false
      no_cause)

unfoldable pub payout_router_get :
    (String → Option PayoutProviderClient) → String → Result PayoutProviderClient
payout_router_get clients code = registered (clients code)

-- A row of banks and of payout_methods, as far as the service reads them.
pub record BankCode : Type 0 where
  pub code : String
  pub name : String
  pub support_disbursement : Bool

-- `available` says that a provider is registered; `post` is what the merchant's endpoint answers to
-- an event for a payout, signed with a secret; `insert`, `insert_inquiry`, `update`, `mark_sent`
-- answer for the database; `error_is_json` says whether the raw response inside an error is a JSON
-- text.
pub record Env : Type 0 where
  pub now : ℕ
  pub available : Bool
  pub clients : String → Option PayoutProviderClient
  pub routes : MethodType → Result (List PayoutRoute)
  pub bank_by_code : String → Result BankCode
  pub method_min_amount : MethodType → String → Option ℤ
  pub default_bank_fee : ℤ
  pub ids : ℕ → String
  pub inquiry_ids : ℕ → String
  pub partner_ref : String
  pub insert : ℕ → Payout → Result Inserted
  pub insert_inquiry : ℕ → PayoutInquiry → Result Inserted
  pub update : Payout → Option GoError
  pub by_payout_id : String → Result Payout
  pub by_reference_id : ℕ → String → Result Payout
  pub has_callbacks : Bool
  pub has_clients : Bool
  pub client_by_id : ℕ → Result Client
  pub post : (url event secret : String) → Payout → Result ℕ
  pub mark_sent : ℕ → Option GoError
  pub error_is_json : GoError → Bool
  pub decimal : ℕ → String

pub data Effect : Type 0 where
  inquiry_called : (provider : String) → Effect
  inquiry_inserted : PayoutInquiry → Effect
  inserted : Payout → Effect
  updated : Payout → Effect
  -- a provider was asked to pay, with its answer
  pay_called : (provider : String) → PayoutExecInput → Result PayoutExecOutput → Effect
  -- an event was posted to the merchant, for a payout as it then was
  posted : (url event : String) → Payout → Effect
  marked_sent : (id : ℕ) → Effect
  attempt_counted : (id : ℕ) → Effect

abbrev pub update_payout :
    {A : Type 0} → Env → Payout → (GoError → Run Effect A) → Run Effect A → Run Effect A
update_payout env p on_error next = write (env.update p) (updated p) on_error next

-- UPDATE payouts SET … WHERE id = $1: the other columns keep the row's values.
unfoldable pub update_payout_columns : (now : ℕ) (row p : Payout) → Payout
update_payout_columns now row p = record row {
  status = p.status;
  failed_reason = p.failed_reason;
  failed_code = p.failed_code;
  fee = p.fee;
  send_amount = p.send_amount;
  total_amount = p.total_amount;
  provider = p.provider;
  transfer_type = p.transfer_type;
  source_bank_code = p.source_bank_code;
  source_account_number = p.source_account_number;
  purpose_code = p.purpose_code;
  remark = p.remark;
  provider_ref = p.provider_ref;
  provider_data = p.provider_data;
  callback_sent = p.callback_sent;
  callback_sent_at = p.callback_sent_at;
  callback_attempts = p.callback_attempts;
  completed_at = p.completed_at;
  failed_at = p.failed_at;
  updated_at = now;
}

insert_key : String → Payload → List (String × Payload) → List (String × Payload)
insert_key k v [] = (k, v) ∷ []
insert_key k v ((j, w) ∷ rest) = if str_eq j k then (k, v) ∷ rest else (j, w) ∷ insert_key k v rest

abbrev is_marshalled : Env → Payload → Bool
is_marshalled env (message r) = r.is_json
is_marshalled env (failure e) = env.error_is_json e

-- mergePayoutProviderData, of a payload that is not the interface's nil; json.Marshal refuses a map
-- with a message that is no JSON text. A nil message is the text `null`.
unfoldable pub merge_payout_provider_data :
    Env → List (String × Payload) → String → Payload → List (String × Payload)
unfolding insert_key trim_space
merge_payout_provider_data env current key payload =
    let merged = if str_eq (trim_space key) "" then current else insert_key key payload current in
    if any (λ entry. not (is_marshalled env entry.1)) merged then current else merged
