-- ===== src/Transaction/Announced/Created.antt =====
-- The merchant is told of a transaction exactly once, from its creation or its retry on.
use gtd_api.Prelude.{ℕ, String, refl, Bool, Option, none, some, List, [], ◌∷◌, length}
use gtd_api.Errors.{GoError, Result, map_ok, ok, err}
use gtd_api.Client.{Client}
use gtd_api.Ppob.Model as Ppob
use gtd_api.Ppob.Model.{ProviderOption, ProviderResponse, PpobProviderClient}
use gtd_api.Ppob.Attempt.{Providers}
use gtd_api.Transaction.Model.{
  Transaction, CreateTransactionRequest, Product, prepaid, Sku, TransactionLog,
}
use gtd_api.Transaction.Settle.{handle_all_skus_failed}
use gtd_api.Transaction.Store.{Env, Effect}
use gtd_api.Transaction.Skus.{Running, try_all_skus, start}
use gtd_api.Transaction.Retry.{
  RetriedSku, trx_of, given_up, retried_as, try_untried, retry_available, with_skus,
  retry_transaction, retry_by, retry_with_next_sku, retry_untried, untried, tried_skus,
  first_suffix,
}
use gtd_api.Transaction.Create.{
  process_prepaid, prepaid_product, create_prepaid, submit_prepaid, route_prepaid, route_options,
  router_for, new_transaction, sell_price_of, duplicate_or, is_known, legacy_prepaid,
}
use gtd_api.Transaction.Payment.{process_payment}
use gtd_api.Transaction.Announced.{Announces, IsAnnounced, fail-IsAnnounced, if-IsAnnounced}
use gtd_api.Transaction.Announced.Routed.{
  all_failed-IsAnnounced, try_all_skus-IsAnnounced, router-IsAnnounced,
}
use gtd_api.Transaction.Announced.Paid.{after_insert-IsAnnounced, found-IsAnnounced}

with_skus-IsAnnounced :
    (env : Env) (t : Transaction) (o : Result (List Sku)) (next : List Sku → Running)
    → ((skus : List Sku) → IsAnnounced (next skus))
    → IsAnnounced (with_skus env t o next)
with_skus-IsAnnounced env t (err e) next h = all_failed-IsAnnounced env t
with_skus-IsAnnounced env t (ok []) next h = all_failed-IsAnnounced env t
with_skus-IsAnnounced env t (ok (sku ∷ rest)) next h = h (sku ∷ rest)

legacy-IsAnnounced :
    (fuel : ℕ) (env : Env) (t : Transaction) → IsAnnounced (legacy_prepaid fuel env t)
unfolding legacy_prepaid
legacy-IsAnnounced fuel env t =
    with_skus-IsAnnounced env t (env.available_skus t.product_id) _
      (λ skus. try_all_skus-IsAnnounced fuel env (start t skus 0))

options-IsAnnounced :
    (fuel : ℕ) (env : Env) (ps : Providers) (provider : String) (t : Transaction)
    (o : Result (List ProviderOption))
    → IsAnnounced (route_options fuel env ps provider t o)
options-IsAnnounced fuel env ps provider t (ok (opt ∷ rest)) =
    router-IsAnnounced env ps t Ppob.prepaid _ []
options-IsAnnounced fuel env ps provider t (ok []) = legacy-IsAnnounced fuel env t
options-IsAnnounced fuel env ps provider t (err e) = legacy-IsAnnounced fuel env t

routed-IsAnnounced :
    (fuel : ℕ) (env : Env) (provider : String) (t : Transaction) (o : Option Providers)
    → IsAnnounced (route_prepaid fuel env provider t o)
routed-IsAnnounced fuel env provider t none = legacy-IsAnnounced fuel env t
routed-IsAnnounced fuel env provider t (some ps) = options-IsAnnounced fuel env ps provider t _

create_prepaid-IsAnnounced :
    (fuel : ℕ) (env : Env) (req : CreateTransactionRequest) (client : Client) (is_sandbox : Bool)
    (product : Product) (o : Result String)
    → IsAnnounced (create_prepaid fuel env req client is_sandbox product o)
unfolding create_prepaid submit_prepaid
create_prepaid-IsAnnounced fuel env req client is_sandbox product (err e) = fail-IsAnnounced e
create_prepaid-IsAnnounced fuel env req client is_sandbox product (ok id) =
    let t =
      new_transaction id req client product.id product.sku_code req.customer_no prepaid is_sandbox
        (sell_price_of env product is_sandbox) in
    after_insert-IsAnnounced env t duplicate_or (submit_prepaid fuel env req.provider)
      (env.insert t)
      (λ u. routed-IsAnnounced fuel env req.provider u (router_for env u.is_sandbox u.product_id))

product-IsAnnounced :
    (fuel : ℕ) (env : Env) (req : CreateTransactionRequest) (client : Client) (is_sandbox : Bool)
    (o : Result (Option Product))
    → IsAnnounced (prepaid_product fuel env req client is_sandbox o)
product-IsAnnounced fuel env req client is_sandbox (ok (some product)) =
    create_prepaid-IsAnnounced fuel env req client is_sandbox product env.new_transaction_id
product-IsAnnounced fuel env req client is_sandbox (ok none) = fail-IsAnnounced _
product-IsAnnounced fuel env req client is_sandbox (err e) = fail-IsAnnounced _

prepaid-IsAnnounced :
    (fuel : ℕ) (env : Env) (req : CreateTransactionRequest) (client : Client) (is_sandbox : Bool)
    → IsAnnounced (process_prepaid fuel env req client is_sandbox)
unfolding process_prepaid
prepaid-IsAnnounced fuel env req client is_sandbox =
    if-IsAnnounced (is_known (env.exists_reference client.id req.reference_id)) _ _
      (fail-IsAnnounced _)
      (product-IsAnnounced fuel env req client is_sandbox (env.by_sku_code req.sku_code))

retry_by-IsAnnounced :
    (fuel : ℕ) (env : Env) (t : Transaction) (o : Option (ℕ → Providers))
    → IsAnnounced (retry_by fuel env t o)
retry_by-IsAnnounced fuel env t none =
    with_skus-IsAnnounced env t _ _ (λ skus. try_all_skus-IsAnnounced fuel env _)
retry_by-IsAnnounced fuel env t (some router) =
    if-IsAnnounced _ _ _ (router-IsAnnounced env (router t.product_id) t Ppob.prepaid none [])
      (with_skus-IsAnnounced env t _ _ (λ skus. try_all_skus-IsAnnounced fuel env _))

retry-IsAnnounced :
    (fuel : ℕ) (env : Env) (t : Transaction) → IsAnnounced (retry_transaction fuel env t)
unfolding retry_transaction
retry-IsAnnounced fuel env t =
    if-IsAnnounced _ _ _ (fail-IsAnnounced _) (retry_by-IsAnnounced fuel env t env.router)

abbrev sku_outcome : Option GoError → Option Transaction → Result (Option Transaction)
sku_outcome none t = ok t
sku_outcome (some e) t = err e

-- The transaction or the error that a retry gives.
abbrev pub as_running : RetriedSku → Running
as_running r = record { effects = r.effects; outcome = sku_outcome r.error r.trx }

given_up-Announces :
    (es : List Effect) (o : Result Transaction)
    → Announces es (map_ok some o)
    → Announces es (ok (trx_of o))
given_up-Announces es (ok t) h = h
given_up-Announces es (err e) h = h

given_up-IsAnnounced :
    (env : Env) (t : Transaction)
    → IsAnnounced (as_running (given_up (handle_all_skus_failed env t)))
given_up-IsAnnounced env t =
    let r = handle_all_skus_failed env t in
    record { holds = given_up-Announces r.effects r.outcome (all_failed-IsAnnounced env t).holds }

retried_as-IsAnnounced :
    (es : List Effect) (o : Result (Option Transaction))
    → Announces es o
    → IsAnnounced (as_running (retried_as es o))
retried_as-IsAnnounced es (ok none) h = record { holds = h }
retried_as-IsAnnounced es (ok (some t)) h = record { holds = h }
retried_as-IsAnnounced es (err e) h = record { holds = h }

try_untried-IsAnnounced :
    (fuel : ℕ) (env : Env) (t : Transaction) (logs : ℕ) (skus : List Sku)
    → IsAnnounced (as_running (try_untried fuel env t logs skus))
try_untried-IsAnnounced fuel env t logs [] = given_up-IsAnnounced env t
try_untried-IsAnnounced fuel env t logs (sku ∷ rest) =
    let r = try_all_skus fuel env (start t (sku ∷ rest) (first_suffix logs)) in
    retried_as-IsAnnounced r.effects r.outcome
      (try_all_skus-IsAnnounced fuel env (start t (sku ∷ rest) (first_suffix logs))).holds

untried-IsAnnounced :
    (fuel : ℕ) (env : Env) (t : Transaction) (skus : List Sku) (o : Result (List TransactionLog))
    → IsAnnounced (as_running (retry_untried fuel env t skus o))
unfolding retry_untried
untried-IsAnnounced fuel env t skus (err e) = record { holds = refl }
untried-IsAnnounced fuel env t skus (ok logs) =
    try_untried-IsAnnounced fuel env t (length logs) (untried (tried_skus logs) skus)

available-IsAnnounced :
    (fuel : ℕ) (env : Env) (t : Transaction) (o : Result (List Sku))
    → IsAnnounced (as_running (retry_available fuel env t o))
available-IsAnnounced fuel env t (err e) = given_up-IsAnnounced env t
available-IsAnnounced fuel env t (ok []) = given_up-IsAnnounced env t
available-IsAnnounced fuel env t (ok (sku ∷ rest)) =
    untried-IsAnnounced fuel env t (sku ∷ rest) (env.logs_of t.id)

pub next_sku-IsAnnounced :
    (fuel : ℕ) (env : Env) (t : Transaction)
    → IsAnnounced (as_running (retry_with_next_sku fuel env t))
unfolding retry_with_next_sku
next_sku-IsAnnounced fuel env t = available-IsAnnounced fuel env t (env.available_skus t.product_id)

-- The merchant is told of a transaction exactly once, by the operations that create one or try it
-- again: a prepaid transaction, the payment of an inquiry, RetryTransaction and RetryWithNextSKU.
-- Where such an operation returns a transaction, the last write is of this very transaction and has
-- succeeded, and one callback was started for it, with the event of its status, if this is Success
-- or Failed, and none otherwise. Where it returns an error, or has not returned yet, no callback
-- was started.
pub transactions-IsAnnounced :
    (fuel : ℕ) (env : Env) (req : CreateTransactionRequest) (client : Client) (is_sandbox : Bool)
    (t : Transaction)
    → IsAnnounced (process_prepaid fuel env req client is_sandbox)
      × IsAnnounced (process_payment env req client is_sandbox)
      × IsAnnounced (retry_transaction fuel env t)
      × IsAnnounced (as_running (retry_with_next_sku fuel env t))
unfolding process_payment
transactions-IsAnnounced fuel env req client is_sandbox t = (
  prepaid-IsAnnounced fuel env req client is_sandbox,
  found-IsAnnounced env req client is_sandbox (env.cached_by_id req.transaction_id),
  retry-IsAnnounced fuel env t,
  next_sku-IsAnnounced fuel env t,
)
