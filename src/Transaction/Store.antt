-- ===== src/Transaction/Store.antt =====
-- What the transaction service talks to: the tables transactions and transaction_logs
-- (internal/repository/transaction_repo.go, callback_repo.go), the product tables, the inquiry cache
-- (internal/cache/inquiry_cache.go), the Digiflazz client, and the router of the other providers. Every
-- answer is a field of the environment; the effects of an operation are recorded in their order.
use gtd_api.Prelude.{ℕ, String, Bool, Option, none, some, List, ◌||◌}
use gtd_api.Prelude.Int.{ℤ}
use gtd_api.Prelude.Text.{contains}
use gtd_api.Errors.{GoError, error_text, Result}
use gtd_api.Run.{Run, emit, emit_if, fail}
use gtd_api.Ppob.Model.{ProviderRequest, ProviderResponse, Executed}
use gtd_api.Ppob.Attempt.{Providers}
use gtd_api.Payment.Store.{Inserted}
use gtd_api.Transaction.Model.{
  Transaction, TransactionType, Product, Sku, DigiResponse, DigiCall, TransactionLog, InquiryData,
  CallbackPayload, ProviderCallback,
}
use gtd_api.Transaction.FailureCodes.{JsonTexts}

-- `router` holds the providers of each product, and is none where no router is set. `topup` takes
-- the number of calls that were made before; `cancelled` says whether the request's context ends
-- during the wait behind that call; `opaque_text` is what stringValue makes of a value that is
-- neither a string nor an int, `reference_no` the reference that an inquiry's JSON description
-- carries, `response_code` the response_code of a JSON text, and `test_mapping` the sandbox's. A
-- callback is kept under an id, or not at all. The lookups of the cache and of a product answer
-- with nothing for a missing entry.
pub record Env : Type 0 where
  pub now : ℕ
  pub end_of_day : ℕ
  pub has_notifier : Bool
  pub router : Option (ℕ → Providers)
  pub best_price : ℕ → Option ℤ
  pub has_digiflazz : Bool → Bool
  pub topup :
      (call : ℕ) → (sku customer_no ref_id : String) → (testing : Bool) → Result DigiResponse
  pub digi_inquiry : (sku customer_no ref_id : String) → (testing : Bool) → Result DigiResponse
  pub digi_payment : (sku customer_no ref_id : String) → (testing : Bool) → Result DigiResponse
  pub cancelled : (call : ℕ) → Bool
  pub test_mapping : String → TransactionType → String × String
  pub opaque_text : (json : String) → String
  pub decimal : ℕ → String
  pub texts : JsonTexts
  pub reference_no : (description : String) → String
  pub update : Transaction → Option GoError
  pub insert : Transaction → Result Inserted
  pub exists_reference : (client_id : ℕ) → (reference_id : String) → Result Bool
  pub new_transaction_id : Result String
  pub by_sku_code : String → Result (Option Product)
  pub available_skus : (product_id : ℕ) → Result (List Sku)
  pub logs_of : (transaction_id : ℕ) → Result (List TransactionLog)
  pub by_transaction_id : String → Result Transaction
  pub by_digi_ref_id : String → Result Transaction
  pub by_provider_ref_id : String → Result Transaction
  pub has_cache : Bool
  pub has_sku_retrier : Bool
  pub has_provider_retrier : Bool
  pub keep_callback : CallbackPayload → Option ℕ
  pub provider_id_of : (code : String) → Option ℕ
  pub response_code : (response : String) → String
  pub cached_by_key :
      (client_id : ℕ) → (customer_no sku_code reference_id : String) → Option InquiryData
  pub cached_by_id : String → Result (Option InquiryData)

pub data Effect : Type 0 where
  created : Transaction → Effect
  -- an UPDATE, with the error of one that failed
  saved : Transaction → Option GoError → Effect
  called : DigiCall → Effect
  logged : TransactionLog → Effect
  -- an execution by the router, with all that it came to
  routed : ProviderRequest → Executed → Effect
  inquired : (provider : String) → ProviderRequest → Result ProviderResponse → Effect
  paid : (provider : String) → ProviderRequest → Result ProviderResponse → Effect
  digi_inquired : DigiCall → Effect
  digi_paid : DigiCall → Effect
  notified_created : Transaction → Effect
  notified_status : Transaction → Effect
  -- `go SendCallback(trx, event)`
  callback_started : Transaction → (event : String) → Effect
  -- an entry of the cache, under both of its keys or only under the transaction's
  cached : (both : Bool) → InquiryData → Effect
  uncached : InquiryData → Effect
  callback_kept : CallbackPayload → Effect
  callback_processed : (id : ℕ) → Effect
  provider_callback_kept : ProviderCallback → Effect
  -- the row that was kept last
  provider_callback_processed : Effect

-- isDuplicateKeyError, of an error that is not nil
unfoldable pub is_duplicate_key_error : GoError → Bool
unfolding contains error_text
is_duplicate_key_error e =
    contains (error_text e) "duplicate key"
    || contains (error_text e) "unique constraint"
    || contains (error_text e) "23505"

-- An update whose error is only logged.
abbrev pub save : {A : Type 0} → Env → Transaction → Run Effect A → Run Effect A
save env t next = emit (saved t (env.update t)) next

abbrev pub after_save : {A : Type 0} → Option GoError → Run Effect A → Run Effect A
after_save none next = next
after_save (some e) next = fail e

-- persistTransactionUpdate, with the return of its error behind it.
abbrev pub persist : {A : Type 0} → Env → Transaction → Run Effect A → Run Effect A
persist env t next = emit (saved t (env.update t)) (after_save (env.update t) next)

abbrev pub notify_status : {A : Type 0} → Env → Transaction → Run Effect A → Run Effect A
notify_status env t next = emit_if env.has_notifier (notified_status t) next

-- UPDATE transactions SET … WHERE transaction_id = $1: the other columns keep the row's values.
unfoldable pub update_transaction_columns : (row t : Transaction) → Transaction
update_transaction_columns row t = record row {
  sku_id = t.sku_id;
  status = t.status;
  serial_number = t.serial_number;
  amount = t.amount;
  admin = t.admin;
  period = t.period;
  description = t.description;
  failed_reason = t.failed_reason;
  failed_code = t.failed_code;
  retry_count = t.retry_count;
  next_retry_at = t.next_retry_at;
  expired_at = t.expired_at;
  inquiry_id = t.inquiry_id;
  digi_ref_id = t.digi_ref_id;
  callback_sent = t.callback_sent;
  callback_at = t.callback_at;
  processed_at = t.processed_at;
  buy_price = t.buy_price;
  sell_price = t.sell_price;
  provider_id = t.provider_id;
  provider_sku_id = t.provider_sku_id;
  provider_ref_id = t.provider_ref_id;
  provider_initial_response = t.provider_initial_response;
  provider_response = t.provider_response;
  provider_initial_http_status = t.provider_initial_http_status;
  provider_http_status = t.provider_http_status;
}
