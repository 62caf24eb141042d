-- ===== src/Transaction/Retry.antt =====
-- RetryTransaction and RetryWithNextSKU of internal/service/transaction_service.go.
use gtd_api.Prelude.{
  ℕ, ◌+◌, String, Bool, true, false, not, ◌&&◌, ◌||◌, Option, none, some, List, [], ◌∷◌, any,
  length, ltb, ◌==◌, str_eq, if◌then◌else◌,
}
use gtd_api.Errors.{GoError, plain_error, Result, ok, err}
use gtd_api.Run.{fail}
use gtd_api.Ppob.Model as Ppob
use gtd_api.Ppob.Attempt.{Providers}
use gtd_api.Transaction.Model.{
  Transaction, TransactionStatus, processing, failed, Sku, TransactionLog,
}
use gtd_api.Transaction.Store.{Env, Effect}
use gtd_api.Transaction.Settle.{Handled, handle_all_skus_failed}
use gtd_api.Transaction.Skus.{Running, finished, try_all_skus, start}
use gtd_api.Transaction.RefId.{extract_ref_id_suffix}
use gtd_api.Transaction.Route.{execute_with_provider_router, is_prepaid}
use Prim.Native.String.{◌++◌ as ◌<>◌}

abbrev is_set : Option String → Bool
is_set none = false
is_set (some text) = not (str_eq text "")

abbrev is_processing : TransactionStatus → Bool
is_processing processing = true
is_processing _ = false

-- Where the transaction waits for an answer.
abbrev provider_name : Transaction → String
provider_name t = elim (is_set t.provider_code) [
  | true ↦ elim t.provider_code [ none ↦ "" | some code ↦ code ]
  | false ↦ if is_set t.digi_ref_id then "digiflazz" else "provider"
]

-- The service goes on with the SKUs of a query, or gives up where there are none.
abbrev pub with_skus : Env → Transaction → Result (List Sku) → (List Sku → Running) → Running
with_skus env t (err e) next = finished (handle_all_skus_failed env t)
with_skus env t (ok []) next = finished (handle_all_skus_failed env t)
with_skus env t (ok (sku ∷ rest)) next = next (sku ∷ rest)

abbrev pub retry_legacy : (fuel : ℕ) → Env → Transaction → Running
retry_legacy fuel env t =
    with_skus env t (env.available_skus t.product_id)
      (λ skus. try_all_skus fuel env (start t skus (extract_ref_id_suffix t.digi_ref_id + 1)))

abbrev pub retry_by : (fuel : ℕ) → Env → Transaction → Option (ℕ → Providers) → Running
retry_by fuel env t none = retry_legacy fuel env t
retry_by fuel env t (some router) =
    if not t.is_sandbox && is_prepaid t.type
    then finished (execute_with_provider_router env (router t.product_id) t Ppob.prepaid none [])
    else retry_legacy fuel env t

-- The transaction that stands beside the first error is the unchanged one.
unfoldable pub retry_transaction : (fuel : ℕ) → Env → Transaction → Running
unfolding handle_all_skus_failed extract_ref_id_suffix try_all_skus execute_with_provider_router
retry_transaction fuel env t =
    if is_processing t.status && (is_set t.digi_ref_id || is_set t.provider_ref_id)
    then fail (
        plain_error
          ("transaction is processing at " <> provider_name t <> ", please wait for callback"))
    else retry_by fuel env t env.router

abbrev tried_by : Option ℕ → List ℕ → List ℕ
tried_by none rest = rest
tried_by (some id) rest = if ltb 0 id then id ∷ rest else rest

-- The ids of the SKUs that the log names.
unfoldable pub tried_skus : List TransactionLog → List ℕ
tried_skus [] = []
tried_skus (l ∷ rest) = tried_by l.sku_id (tried_skus rest)

unfoldable pub untried : List ℕ → List Sku → List Sku
untried ids [] = []
untried ids (sku ∷ rest) =
    if any (λ id. id == sku.id) ids then untried ids rest else sku ∷ untried ids rest

abbrev pub first_suffix : ℕ → ℕ
first_suffix logs = if logs == 0 then 1 else logs

-- What RetryWithNextSKU returns: the transaction, which is none where it is Go's nil, whether it
-- counts as failed, and an error. `running` says that its loop has not returned yet.
pub record RetriedSku : Type 0 where
  pub effects : List Effect
  pub running : Bool
  pub trx : Option Transaction
  pub should_mark_failed : Bool
  pub error : Option GoError

abbrev is_failed : TransactionStatus → Bool
is_failed failed = true
is_failed _ = false

abbrev pub trx_of : Result Transaction → Option Transaction
trx_of (ok t) = some t
trx_of (err e) = none

-- `result, _ := s.handleAllSKUsFailed(trx)`
abbrev pub given_up : Handled → RetriedSku
given_up r = record {
  effects = r.effects;
  running = false;
  trx = trx_of r.outcome;
  should_mark_failed = true;
  error = none;
}

abbrev pub retried_as : List Effect → Result (Option Transaction) → RetriedSku
retried_as es (ok none) = record {
  effects = es;
  running = true;
  trx = none;
  should_mark_failed = false;
  error = none;
}
retried_as es (ok (some t)) = record {
  effects = es;
  running = false;
  trx = some t;
  should_mark_failed = is_failed t.status;
  error = none;
}
retried_as es (err e) = record {
  effects = es;
  running = false;
  trx = none;
  should_mark_failed = false;
  error = some e;
}

abbrev pub try_untried : (fuel : ℕ) → Env → Transaction → (logs : ℕ) → List Sku → RetriedSku
try_untried fuel env t logs [] = given_up (handle_all_skus_failed env t)
try_untried fuel env t logs (sku ∷ rest) =
    let r = try_all_skus fuel env (start t (sku ∷ rest) (first_suffix logs)) in
    retried_as r.effects r.outcome

unfoldable pub retry_untried :
    (fuel : ℕ) → Env → Transaction → List Sku → Result (List TransactionLog) → RetriedSku
unfolding tried_skus untried try_all_skus handle_all_skus_failed
retry_untried fuel env t skus (err e) = record {
  effects = [];
  running = false;
  trx = some t;
  should_mark_failed = false;
  error = some e;
}
retry_untried fuel env t skus (ok logs) =
    try_untried fuel env t (length logs) (untried (tried_skus logs) skus)

abbrev pub retry_available : (fuel : ℕ) → Env → Transaction → Result (List Sku) → RetriedSku
retry_available fuel env t (ok (sku ∷ rest)) =
    retry_untried fuel env t (sku ∷ rest) (env.logs_of t.id)
retry_available fuel env t _ = given_up (handle_all_skus_failed env t)

unfoldable pub retry_with_next_sku : (fuel : ℕ) → Env → Transaction → RetriedSku
unfolding retry_untried handle_all_skus_failed
retry_with_next_sku fuel env t = retry_available fuel env t (env.available_skus t.product_id)
