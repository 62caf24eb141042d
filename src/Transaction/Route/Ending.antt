-- ===== src/Transaction/Route/Ending.antt =====
-- Behind an execution there is only bookkeeping.
use gtd_api.Prelude.{Option, none, some}
use gtd_api.Errors.{GoError}
use gtd_api.Run.Keeps.{Keeps, keeps_rules}
use gtd_api.Ppob.Model.{ProviderResponse, ExecuteResult}
use gtd_api.Transaction.Model.{Transaction}
use gtd_api.Transaction.Codes.{Phase}
use gtd_api.Transaction.Store.{Env}
use gtd_api.Transaction.Settle.{
  handle_provider_success, handle_provider_pending, handle_provider_failed_for_phase,
  handle_provider_failed, handle_all_skus_failed, apply_attempt_provider,
}
use gtd_api.Transaction.Bookkeeping.{IsBookkeeping, settle-IsBookkeeping, keep_going-IsBookkeeping}
use gtd_api.Transaction.Route.{route_executed, route_failed, route_answered, answered_or_given_up}

ruleset endings = (keeps_rules, settle-IsBookkeeping, keep_going-IsBookkeeping)

pub route_executed-IsBookkeeping :
    (env : Env) (t : Transaction) (phase : Phase) (e : Option GoError) (x : Option ExecuteResult)
    → Keeps IsBookkeeping (route_executed env t phase e x)
unfolding route_executed route_failed route_answered handle_provider_success handle_provider_pending
    handle_provider_failed_for_phase handle_all_skus_failed
route_executed-IsBookkeeping env t phase (some e) x = search endings
route_executed-IsBookkeeping env t phase none none = search endings
route_executed-IsBookkeeping env t phase none (some x) = answered x.response
  where
    answered :
        (r : Option ProviderResponse)
        → Keeps IsBookkeeping
            (answered_or_given_up env (apply_attempt_provider t x.provider_used) phase r)
    answered none = search endings
    answered (some r) = search endings

pub handle_provider_failed-IsBookkeeping :
    (env : Env) (t : Transaction) (r : ProviderResponse)
    → Keeps IsBookkeeping (handle_provider_failed env t r)
unfolding handle_provider_failed handle_provider_failed_for_phase
handle_provider_failed-IsBookkeeping env t r = search endings
