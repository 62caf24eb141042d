-- ===== src/Payment/Store.antt =====
-- What the payment service talks to: the rows of the payments table
-- (internal/repository/payment_repo.go), the provider adapters and their router
-- (internal/service/payment_provider_router.go), and the answers and effects of one operation.
use gtd_api.Prelude.{
  ℕ, String, Bool, Option, none, some, List, [], ◌∷◌, ◌==◌, str_eq, if◌then◌else◌, not, ◌||◌, any,
}
use gtd_api.Prelude.Text.{trim_space}
use gtd_api.Errors.{GoError, no_cause, payment_error, Result, ok, err}
use gtd_api.Run.{Run, write}
use gtd_api.Payment.Model.{
  Payment, Raw, PaymentCreateRequest, PaymentCreateResponse, PaymentInquiryResult,
  PaymentReconciliation,
}

-- UPDATE payments SET … WHERE id = $1: the columns that the statement names take the new values and
-- the others keep the row's.
unfoldable pub update_columns : (now : ℕ) (row p : Payment) → Payment
update_columns now row p = record row {
  status = p.status;
  payment_detail = p.payment_detail;
  payment_instruction = p.payment_instruction;
  sender_bank = p.sender_bank;
  sender_name = p.sender_name;
  sender_account = p.sender_account;
  provider_ref = p.provider_ref;
  provider_data = p.provider_data;
  callback_type = p.callback_type;
  description = p.description;
  metadata = p.metadata;
  callback_sent = p.callback_sent;
  callback_sent_at = p.callback_sent_at;
  callback_attempts = p.callback_attempts;
  paid_at = p.paid_at;
  cancelled_at = p.cancelled_at;
  expired_at = p.expired_at;
  updated_at = now;
}

unfoldable pub update_row : (now : ℕ) → Payment → List Payment → List Payment
unfolding update_columns
update_row now p [] = []
update_row now p (row ∷ rows) =
    (if row.id == p.id then update_columns now row p else row) ∷ update_row now p rows

-- The columns that INSERT leaves to the database are given by its RETURNING clause; `paid_at` and
-- `cancelled_at` are not among the columns and start as NULL.
pub record Inserted : Type 0 where
  pub row_id : ℕ
  pub row_created_at : ℕ
  pub row_updated_at : ℕ

unfoldable pub scan_inserted : Payment → Inserted → Payment
scan_inserted p r = record p {
  id = r.row_id;
  created_at = r.row_created_at;
  updated_at = r.row_updated_at;
}

unfoldable pub insert_row : Payment → List Payment → List Payment
insert_row p rows = record p { paid_at = none; cancelled_at = none } ∷ rows

-- PaymentProviderClient, as the function of its inputs that it is during one operation.
pub record PaymentProviderClient : Type 0 where
  pub available : Bool
  pub create_payment : PaymentCreateRequest → Result PaymentCreateResponse
  pub inquiry_payment : Payment → Result (Option PaymentInquiryResult)
  pub cancel_payment : Payment → String → Option GoError

-- The router's map from provider codes to adapters.
abbrev pub Clients : Type 0
Clients = String → Option PaymentProviderClient

abbrev pub registered : Option PaymentProviderClient → Result PaymentProviderClient
registered (some c) = ok c
registered none = err (
    payment_error 503 "PROVIDER_UNAVAILABLE" "Payment provider is temporarily unavailable" no_cause)

unfoldable pub router_get : Clients → String → Result PaymentProviderClient
router_get clients code = registered (clients code)

pub data Effect : Type 0 where
  -- a row was inserted, a row was written, a row of payment_logs was offered
  inserted : Payment → Effect
  updated : Payment → Effect
  create_logged : (provider : String) → (success : Bool) → (code : Option String) → Effect
  -- a provider was asked to create the payment
  create_called : (provider : String) → PaymentCreateRequest → Effect
  -- a provider was asked to cancel the payment
  cancel_called : (provider : String) → Payment → (reason : String) → Effect
  notified_created : Payment → Effect
  notified_changed : Payment → Effect
  callback_enqueued : Payment → (event : String) → Effect
  recon_opened : PaymentReconciliation → Effect
  recon_resolved : (payment_id status resolver : String) → Effect

-- What the operations ask of the outside. `refs` is the source of fresh ids for each attempt to
-- insert, and `insert` and `update` answer for the database.
pub record Env : Type 0 where
  pub now : ℕ
  pub clients : Clients
  pub refs : ℕ → String × String
  pub insert : ℕ → Payment → Result Inserted
  pub update : Payment → Option GoError
  pub by_payment_id : String → Result Payment
  pub by_partner_ref : String → Result Payment
  pub by_provider_ref : String → String → Result Payment
  pub by_reference_id : ℕ → String → Result Payment
  pub has_notifier : Bool
  pub has_reconciliation : Bool

-- s.paymentRepo.UpdatePayment(ctx, p), with what to do after an error and after a success.
abbrev pub update_payment :
    {A : Type 0} → Env → Payment → (GoError → Run Effect A) → Run Effect A → Run Effect A
update_payment env p on_error next = write (env.update p) (updated p) on_error next

-- The effect of one operation on the table.
unfoldable pub apply_effects : (now : ℕ) → List Effect → List Payment → List Payment
unfolding update_row insert_row
apply_effects now [] rows = rows
apply_effects now (inserted p ∷ es) rows = apply_effects now es (insert_row p rows)
apply_effects now (updated p ∷ es) rows = apply_effects now es (update_row now p rows)
apply_effects now (_ ∷ es) rows = apply_effects now es rows

insert_key : String → Raw → List (String × Raw) → List (String × Raw)
insert_key k v [] = (k, v) ∷ []
insert_key k v ((j, w) ∷ rest) = if str_eq j k then (k, v) ∷ rest else (j, w) ∷ insert_key k v rest

abbrev pub is_empty_raw : Raw → Bool
is_empty_raw r = str_eq r.text ""

-- mergeProviderData: json.Marshal refuses a map with a value that is no JSON text.
unfoldable pub merge_provider_data : List (String × Raw) → String → Raw → List (String × Raw)
unfolding insert_key trim_space
merge_provider_data current key payload =
    let skip = str_eq (trim_space key) "" || is_empty_raw payload in
    let merged = if skip then current else insert_key key payload current in
    if any (λ entry. not entry.1.is_json) merged then current else merged
