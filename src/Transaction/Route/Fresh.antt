-- ===== src/Transaction/Route/Fresh.antt =====
-- A retry goes only to providers that the transaction has not been at.
use gtd_api.Prelude.{
  All-weaken, All-append, ℕ, ◌<◌, String, ◌≡◌, ◌≢◌, refl, true, false, Bool-cases, inl, inr, Option,
  none, some, List, [], ◌∷◌, All, any, ◌==◌, ◌||◌, not, arith,
}
use gtd_api.Errors.{Result, ok, err}
use gtd_api.Ppob.Model.{ProviderRequest, ProviderOption, ProviderAttempt, ExecuteResult, Executed}
use gtd_api.Ppob.Model as Ppob
use gtd_api.Ppob.Router.{execute}
use gtd_api.Ppob.Attempt.{Providers}
use gtd_api.Ppob.Router.Excluded.{IsAllowed, ResultAvoids, execute-Avoids}
use gtd_api.Transaction.Model.{Transaction, TransactionLog}
use gtd_api.Transaction.Store.{Env, Effect, routed}
use gtd_api.Transaction.Bookkeeping.{IsBookkeeping}
use gtd_api.Transaction.Route.{
  tried_by, retry_with_next_provider, retry_logged, retry_options, tried_provider_skus,
  execute_with_provider_router, route_request, attempts_of, log_provider_attempts, has_remaining,
  reopened, exhausted_provider_response, is_prepaid, retry_routed,
}
use gtd_api.Transaction.Route.Ending.{
  route_executed-IsBookkeeping, handle_provider_failed-IsBookkeeping,
}
use gtd_api.Transaction.Codes.{initial_payment}

-- The log does not name the attempt's provider SKU.
abbrev pub IsNewTo : TransactionLog → ProviderAttempt → Type 0
IsNewTo l a = (k : ℕ) → l.provider_sku_id ≡ some k → 0 < k → k ≢ a.provider.provider_sku_id

-- An execution tries no provider SKU that an entry of the log names, and where the log cannot be
-- read there is none.
abbrev Skips : Result (List TransactionLog) → List ProviderAttempt → Type 0
Skips (ok logs) attempts = All (λ a. All (λ l. IsNewTo l a) logs) attempts
Skips (err e) attempts = ◌≡◌ true false

abbrev pub SkipsTried : Result (List TransactionLog) → Effect → Type 0
SkipsTried logs (routed r x) = Skips logs (attempts_of x.result)
SkipsTried logs _ = Unit

tried-head :
    (o : Option ℕ) (ids : List ℕ) (k id : ℕ)
    → o ≡ some k
    → 0 < k
    → any (λ i. i == id) (tried_by o ids) ≡ false
    → k ≢ id
tried-head none ids k id e lt h = cc
tried-head (some j) ids k id e lt h = ground arith

tried-tail :
    (o : Option ℕ) (ids : List ℕ) (id : ℕ)
    → any (λ i. i == id) (tried_by o ids) ≡ false
    → any (λ i. i == id) ids ≡ false
tried-tail none ids id h = h
tried-tail (some j) ids id h = ground arith

allowed-IsNewTo :
    (logs : List TransactionLog) (a : ProviderAttempt)
    → IsAllowed (tried_provider_skus logs) a.provider
    → All (λ l. IsNewTo l a) logs
unfolding tried_provider_skus
allowed-IsNewTo [] a h = tt
allowed-IsNewTo (l ∷ rest) a h = (
  λ k e lt.
      tried-head l.provider_sku_id (tried_provider_skus rest) k a.provider.provider_sku_id e lt h,
  allowed-IsNewTo rest a
      (tried-tail l.provider_sku_id (tried_provider_skus rest) a.provider.provider_sku_id h),
)

attempts-IsNewTo :
    (logs : List TransactionLog) (attempts : List ProviderAttempt)
    → All (λ a. IsAllowed (tried_provider_skus logs) a.provider) attempts
    → All (λ a. All (λ l. IsNewTo l a) logs) attempts
attempts-IsNewTo logs [] h = tt
attempts-IsNewTo logs (a ∷ rest) h = (allowed-IsNewTo logs a h.0, attempts-IsNewTo logs rest h.1)

result-IsNewTo :
    (logs : List TransactionLog) (o : Option ExecuteResult)
    → ResultAvoids (tried_provider_skus logs) o
    → All (λ a. All (λ l. IsNewTo l a) logs) (attempts_of o)
result-IsNewTo logs none h = tt
result-IsNewTo logs (some x) h = attempts-IsNewTo logs x.attempts h

logs-SkipsTried :
    (logs : Result (List TransactionLog)) (trx_id : ℕ) (attempts : List ProviderAttempt)
    → All (SkipsTried logs) (log_provider_attempts trx_id attempts)
unfolding log_provider_attempts
logs-SkipsTried logs trx_id [] = tt
logs-SkipsTried logs trx_id (a ∷ rest) = (tt, logs-SkipsTried logs trx_id rest)

bookkeeping-SkipsTried :
    (logs : Result (List TransactionLog)) (e : Effect) → IsBookkeeping e → SkipsTried logs e
bookkeeping-SkipsTried logs (routed r x) h = cc
bookkeeping-SkipsTried logs _ h = tt

execution-SkipsTried :
    (env : Env) (ps : Providers) (t : Transaction) (logs : List TransactionLog)
    → All
        (SkipsTried (ok logs))
        (execute_with_provider_router env ps t Ppob.prepaid none (tried_provider_skus logs)).effects
unfolding execute_with_provider_router route_request
execution-SkipsTried env ps t logs =
    let request = route_request t Ppob.prepaid none (tried_provider_skus logs) in
    let x = execute ps request in
    (
      result-IsNewTo logs x.result (execute-Avoids ps request refl),
      All-append (SkipsTried (ok logs)) (log_provider_attempts t.id (attempts_of x.result)) _
          (logs-SkipsTried (ok logs) t.id (attempts_of x.result))
          (All-weaken IsBookkeeping (SkipsTried (ok logs)) _ (bookkeeping-SkipsTried (ok logs))
            (route_executed-IsBookkeeping env t initial_payment x.error x.result).all),
    )

retry_options-SkipsTried :
    (env : Env) (ps : Providers) (t : Transaction) (rc message : String)
    (logs : List TransactionLog) (o : Result (List ProviderOption))
    → All
        (SkipsTried (ok logs))
        (retry_options env ps t rc message (tried_provider_skus logs) o).effects
unfolding retry_options
retry_options-SkipsTried env ps t rc message logs (err e) = tt
retry_options-SkipsTried env ps t rc message logs (ok options) =
    elim (Bool-cases (has_remaining (tried_provider_skus logs) options)) [
      | inl more ↦ rw more (execution-SkipsTried env ps (reopened t) logs)
      | inr none_left ↦ rw none_left (
          All-weaken IsBookkeeping (SkipsTried (ok logs)) _ (bookkeeping-SkipsTried (ok logs))
            (handle_provider_failed-IsBookkeeping env t
              (exhausted_provider_response rc message)).all)
    ]

retry_logged-SkipsTried :
    (env : Env) (ps : Providers) (t : Transaction) (rc message : String)
    (logs : Result (List TransactionLog))
    → All (SkipsTried logs) (retry_logged env ps t rc message logs).effects
unfolding retry_logged
retry_logged-SkipsTried env ps t rc message (err e) = tt
retry_logged-SkipsTried env ps t rc message (ok logs) =
    retry_options-SkipsTried env ps t rc message logs ps.by_price

retry_routed-SkipsTried :
    (env : Env) (t : Transaction) (rc message : String) (o : Option (ℕ → Providers))
    → All (SkipsTried (env.logs_of t.id)) (retry_routed env t rc message o).effects
retry_routed-SkipsTried env t rc message none = tt
retry_routed-SkipsTried env t rc message (some router) =
    retry_logged-SkipsTried env (router t.product_id) t rc message (env.logs_of t.id)

-- A retry after a failed prepaid transaction goes only to provider SKUs that no entry of the
-- transaction's log names, and asks none at all where the log cannot be read.
pub retry_with_next_provider-SkipsTried :
    (env : Env) (t : Transaction) (failed_rc failed_message : String)
    → All
        (SkipsTried (env.logs_of t.id))
        (retry_with_next_provider env t failed_rc failed_message).effects
unfolding retry_with_next_provider
retry_with_next_provider-SkipsTried env t rc message =
    elim (Bool-cases (not (is_prepaid t.type) || t.is_sandbox)) [
      | inl out ↦ rw out tt
      | inr in_scope ↦ rw in_scope (retry_routed-SkipsTried env t rc message env.router)
    ]
