-- ===== src/Payout/Inquiry.antt =====
-- Inquiry, runInquiry and createInquiryWithGeneratedID of internal/service/payout_service.go: the
-- recipient is looked up with the candidates, one after the other, and the answer is stored.
use gtd_api.Prelude.{
  ℕ, zero, suc, ◌+◌, ◌*◌, String, Bool, false, Option, none, some, List, [], ◌∷◌, str_eq,
  if◌then◌else◌,
}
use gtd_api.Prelude.Int.{ℤ}
use gtd_api.Errors.{GoError, no_cause, payout_error, is_unique_violation, Result, ok, err}
use gtd_api.Run.{Run, return_ok, fail, emit}
use gtd_api.Payment.Store.{Inserted}
use gtd_api.Payout.Model.{PayoutInquiry, PayoutInquiryInput, PayoutInquiryOutput, message}
use gtd_api.Payout.Store.{
  Env, Effect, BankCode, PayoutProviderClient, inquiry_called, inquiry_inserted,
  merge_payout_provider_data,
}
use gtd_api.Payout.Failure.{string_ptr, is_retryable}
use gtd_api.Payout.Routing.{candidates}
use gtd_api.Payout.Request.{Method, bank_code_for}

-- What one lookup is about.
pub record Lookup : Type 0 where
  pub method : Method
  pub account_no : String
  pub amount : ℤ
  pub client_id : ℕ
  pub is_sandbox : Bool

abbrev bank_name_of : String → Option BankCode → String
bank_name_of name none = name
bank_name_of name (some b) = if str_eq name "" then b.name else name

-- 30 * time.Minute
abbrev payout_inquiry_expiry : ℕ
payout_inquiry_expiry = 30 * 60 * 1000000000

unfoldable pub build_inquiry :
    Env → Lookup → PayoutProviderClient → PayoutInquiryOutput → PayoutInquiry
build_inquiry env l adapter out = record {
  id = 0;
  inquiry_id = "";
  client_id = l.client_id;
  is_sandbox = l.is_sandbox;
  method_type = l.method.type;
  channel_code = l.method.channel;
  bank_code = bank_code_for l.method.type l.method.channel;
  bank_name = string_ptr (bank_name_of out.bank_name l.method.bank_row);
  account_number = l.account_no;
  account_name = string_ptr out.account_name;
  transfer_type = out.transfer_type;
  provider = adapter.code;
  provider_ref = string_ptr out.provider_ref;
  provider_data = merge_payout_provider_data env [] "inquiry" (message out.raw_response);
  expired_at = env.now + payout_inquiry_expiry;
  created_at = 0;
}

abbrev with_inquiry_id : Env → (i : ℕ) → PayoutInquiry → PayoutInquiry
with_inquiry_id env i q = record q { inquiry_id = env.inquiry_ids i }

abbrev after_inquiry_insert :
    (GoError → Result PayoutInquiry) → PayoutInquiry → Result Inserted → Result PayoutInquiry
after_inquiry_insert again q (ok row) =
    ok (record q { id = row.row_id; created_at = row.row_created_at })
after_inquiry_insert again q (err e) = if is_unique_violation e then again e else err e

-- The rounds that are left, from the i-th on; `last` is the error of the round before.
unfoldable pub insert_inquiry_loop :
    (rounds i : ℕ) → Env → PayoutInquiry → (last : GoError) → Result PayoutInquiry
insert_inquiry_loop zero i env q last = err last
insert_inquiry_loop (suc rounds) i env q last =
    after_inquiry_insert (λ e. insert_inquiry_loop rounds (suc i) env q e) (with_inquiry_id env i q)
      (env.insert_inquiry i (with_inquiry_id env i q))

abbrev pub stored : Result PayoutInquiry → Run Effect PayoutInquiry
stored (ok q) = emit (inquiry_inserted q) (return_ok q)
stored (err e) = fail e

unfoldable pub inquiry_input : Env → Lookup → PayoutInquiryInput
inquiry_input env l = record {
  partner_ref = env.partner_ref;
  method_type = l.method.type;
  channel_code = l.method.channel;
  account_number = l.account_no;
  amount = l.amount;
}

unfoldable pub after_inquiry :
    Env
    → (GoError → Run Effect PayoutInquiry)
    → Lookup
    → PayoutProviderClient
    → Result PayoutInquiryOutput
    → Run Effect PayoutInquiry
after_inquiry env again l adapter (ok out) =
    stored (insert_inquiry_loop 5 0 env (build_inquiry env l adapter out) no_cause)
after_inquiry env again l adapter (err e) = if is_retryable e then again e else fail e

-- The candidates that are left; `last` is the error of the one before.
unfoldable pub inquire_each :
    Env → Lookup → (last : GoError) → List PayoutProviderClient → Run Effect PayoutInquiry
inquire_each env l last [] = fail last
inquire_each env l last (adapter ∷ rest) = emit (inquiry_called adapter.code) (
    after_inquiry env (λ e. inquire_each env l e rest) l adapter
      (adapter.inquiry (inquiry_input env l)))

unfoldable pub inquire_with :
    Env → Lookup → Result (List PayoutProviderClient) → Run Effect PayoutInquiry
inquire_with env l (err e) = fail e
inquire_with env l (ok adapters) =
    inquire_each env l
      (payout_error 503 "PAYOUT_METHOD_UNAVAILABLE" "No payout provider could validate the account"
        false no_cause)
      adapters

unfoldable pub run_inquiry : Env → Lookup → Run Effect PayoutInquiry
run_inquiry env l = inquire_with env l (candidates env l.method.type l.method.channel)
