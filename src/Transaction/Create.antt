-- ===== src/Transaction/Create.antt =====
-- CreateTransaction and processPrepaid of internal/service/transaction_service.go.
use gtd_api.Prelude.{
  ℕ, String, Bool, false, Option, none, some, List, [], ◌∷◌, str_eq, if◌then◌else◌,
}
use gtd_api.Prelude.Int.{ℤ, pos, ltb_ℤ}
use gtd_api.Errors.{GoError, plain_error, Result, ok, err}
use gtd_api.Run.{emit, emit_if, fail}
use gtd_api.Client.{Client}
use gtd_api.Payment.Store.{Inserted}
use gtd_api.Ppob.Model as Ppob
use gtd_api.Ppob.Model.{ProviderOption}
use gtd_api.Ppob.Attempt.{Providers}
use gtd_api.Transaction.Model.{
  Transaction, TransactionType, prepaid, processing, CreateTransactionRequest, Product,
}
use gtd_api.Transaction.Store.{Env, created, notified_created, is_duplicate_key_error}
use gtd_api.Transaction.Settle.{handle_all_skus_failed}
use gtd_api.Transaction.Skus.{Running, finished, try_all_skus, start}
use gtd_api.Transaction.Route.{execute_with_provider_router}
use gtd_api.Transaction.Retry.{with_skus}

abbrev pub new_transaction :
    (id : String)
    → CreateTransactionRequest
    → Client
    → (product_id : ℕ) → (sku_code customer_no : String) → TransactionType
    → (is_sandbox : Bool) → (sell_price : Option ℤ) → Transaction
new_transaction id req client product_id sku_code customer_no type is_sandbox sell_price = record {
  id = 0;
  transaction_id = id;
  reference_id = req.reference_id;
  client_id = client.id;
  product_id = product_id;
  sku_id = none;
  sku_code = sku_code;
  is_sandbox = is_sandbox;
  customer_no = customer_no;
  customer_name = none;
  type = type;
  status = processing;
  serial_number = none;
  amount = none;
  admin = pos 0;
  period = none;
  description = "";
  failed_reason = none;
  failed_code = none;
  retry_count = 0;
  max_retry = 0;
  next_retry_at = none;
  expired_at = none;
  inquiry_id = none;
  digi_ref_id = none;
  callback_sent = false;
  callback_at = none;
  created_at = 0;
  processed_at = none;
  buy_price = none;
  sell_price = sell_price;
  provider_id = none;
  provider_sku_id = none;
  provider_code = none;
  provider_ref_id = none;
  provider_initial_response = "";
  provider_response = "";
  provider_initial_http_status = none;
  provider_http_status = none;
}

-- The row as Create leaves it.
abbrev pub inserted_as : Transaction → Inserted → Transaction
inserted_as t row = record t { id = row.row_id; created_at = row.row_created_at }

-- trxRepo.Create, with the notification behind it.
abbrev pub after_insert :
    Env → Transaction → (GoError → Running) → (Transaction → Running) → Result Inserted → Running
after_insert env t on_error next (err e) = on_error e
after_insert env t on_error next (ok row) =
    let made = inserted_as t row in
    emit (created made) (emit_if env.has_notifier (notified_created made) (next made))

abbrev positive_or_none : Option ℤ → Option ℤ
positive_or_none none = none
positive_or_none (some n) = if ltb_ℤ (pos 0) n then some n else none

-- What the client is charged: the best price of the router outside the sandbox, or else the
-- product's own.
unfoldable pub sell_price_of : Env → Product → (is_sandbox : Bool) → Option ℤ
sell_price_of env product is_sandbox =
    elim (elim env.router as (λ _. Option ℤ) [
      | none ↦ none
      | some _ ↦ if is_sandbox then none else env.best_price product.id
    ]) [ some n ↦ some n | none ↦ positive_or_none product.min_price ]

-- The options decide only whether the router is used.
abbrev pub options_for : Providers → (provider : String) → Result (List ProviderOption)
options_for ps provider = if str_eq provider "" then ps.by_price else ps.all_options

abbrev pub forced : String → Option String
forced provider = if str_eq provider "" then none else some provider

unfoldable pub legacy_prepaid : (fuel : ℕ) → Env → Transaction → Running
unfolding handle_all_skus_failed try_all_skus
legacy_prepaid fuel env t =
    with_skus env t (env.available_skus t.product_id)
      (λ skus. try_all_skus fuel env (start t skus 0))

abbrev pub route_options :
    (fuel : ℕ)
    → Env
    → Providers
    → (provider : String) → Transaction
    → Result (List ProviderOption)
    → Running
route_options fuel env ps provider t (ok (opt ∷ rest)) =
    finished (execute_with_provider_router env ps t Ppob.prepaid (forced provider) [])
route_options fuel env ps provider t _ = legacy_prepaid fuel env t

-- The providers of the product, where the router is used.
abbrev pub router_for : Env → (is_sandbox : Bool) → (product_id : ℕ) → Option Providers
router_for env is_sandbox product_id =
    if is_sandbox
    then none
    else elim env.router [ none ↦ none | some router ↦ some (router product_id) ]

abbrev pub route_prepaid :
    (fuel : ℕ) → Env → (provider : String) → Transaction → Option Providers → Running
route_prepaid fuel env provider t none = legacy_prepaid fuel env t
route_prepaid fuel env provider t (some ps) =
    route_options fuel env ps provider t (options_for ps provider)

unfoldable pub submit_prepaid : (fuel : ℕ) → Env → (provider : String) → Transaction → Running
unfolding legacy_prepaid execute_with_provider_router
submit_prepaid fuel env provider t =
    route_prepaid fuel env provider t (router_for env t.is_sandbox t.product_id)

abbrev pub duplicate_or : GoError → GoError
duplicate_or e = if is_duplicate_key_error e then plain_error "DUPLICATE_REFERENCE_ID" else e

unfoldable pub create_prepaid :
    (fuel : ℕ)
    → Env
    → CreateTransactionRequest
    → Client
    → (is_sandbox : Bool) → Product
    → Result String
    → Running
unfolding sell_price_of submit_prepaid is_duplicate_key_error
create_prepaid fuel env req client is_sandbox product (err e) = fail e
create_prepaid fuel env req client is_sandbox product (ok id) =
    let t =
      new_transaction id req client product.id product.sku_code req.customer_no prepaid is_sandbox
        (sell_price_of env product is_sandbox) in
    after_insert env t (λ e. fail (duplicate_or e)) (submit_prepaid fuel env req.provider)
      (env.insert t)

abbrev pub prepaid_product :
    (fuel : ℕ)
    → Env
    → CreateTransactionRequest
    → Client
    → (is_sandbox : Bool) → Result (Option Product)
    → Running
prepaid_product fuel env req client is_sandbox (ok (some product)) =
    create_prepaid fuel env req client is_sandbox product env.new_transaction_id
prepaid_product fuel env req client is_sandbox _ = fail (plain_error "INVALID_SKU")

-- A lookup that fails counts as a new reference.
abbrev pub is_known : Result Bool → Bool
is_known (ok b) = b
is_known (err e) = false

unfoldable pub process_prepaid :
    (fuel : ℕ) → Env → CreateTransactionRequest → Client → (is_sandbox : Bool) → Running
unfolding create_prepaid
process_prepaid fuel env req client is_sandbox =
    if is_known (env.exists_reference client.id req.reference_id)
    then fail (plain_error "DUPLICATE_REFERENCE_ID")
    else prepaid_product fuel env req client is_sandbox (env.by_sku_code req.sku_code)
