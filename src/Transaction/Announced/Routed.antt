-- ===== src/Transaction/Announced/Routed.antt =====
-- The merchant is told of what the providers answer: the loop over the SKUs of Digiflazz, the
-- executions of the router, and the retries.
use gtd_api.Prelude.{
  ℕ, zero, suc, String, refl, Bool, true, false, Option, none, some, List, [], ◌∷◌, All, leb, ◌+◌,
  if◌then◌else◌,
}
use gtd_api.Errors.{GoError, Result, ok, err}
use gtd_api.Ppob.Model.{ProviderTransactionType, ProviderResponse, ProviderAttempt, ExecuteResult}
use gtd_api.Ppob.Router.{execute}
use gtd_api.Ppob.Attempt.{Providers}
use gtd_api.Transaction.Model.{Transaction, Sku, DigiResponse}
use gtd_api.Transaction.Codes.{
  Phase, is_success, is_pending, is_fatal, needs_new_ref_id, is_retryable_wait,
}
use gtd_api.Transaction.Store.{Env}
use gtd_api.Transaction.Settle.{
  Handled, handle_success, handle_pending, handle_fatal, handle_all_skus_failed, succeeded_at,
  kept_pending, refused_at, given_up_at, handle_provider_success, handle_provider_pending,
  handle_provider_failed_for_phase, handle_provider_failed, provider_succeeded_at,
  provider_kept_pending, provider_failed_at, apply_attempt_provider,
}
use gtd_api.Transaction.Skus.{
  Loop, Next, stop, same_ref, fresh_ref, next_sku, Running, finished, try_all_skus, try_round,
  continue, after_call, after_response, call_effects, call_with, prepared, max_network_retries,
}
use gtd_api.Transaction.Route.{
  execute_with_provider_router, route_executed, route_failed, route_answered, answered_or_given_up,
  log_provider_attempts, attempts_of, route_request,
}
use gtd_api.Transaction.Announced.{
  IsAnnounced, IsSilent, prefix-IsAnnounced, settle-IsAnnounced, keep_going-IsAnnounced,
}

pub all_failed-IsAnnounced :
    (env : Env) (t : Transaction) → IsAnnounced (finished (handle_all_skus_failed env t))
unfolding handle_all_skus_failed given_up_at
all_failed-IsAnnounced env t = settle-IsAnnounced env _ "transaction.failed" refl

abbrev StopsAnnounced : Next → Type 0
StopsAnnounced (stop r) = IsAnnounced (finished r)
StopsAnnounced _ = Unit

StopsAnnounced-if :
    (b : Bool) (x y : Next)
    → StopsAnnounced x
    → StopsAnnounced y
    → StopsAnnounced (if b then x else y)
StopsAnnounced-if true x y h k = h
StopsAnnounced-if false x y h k = k

after_response-StopsAnnounced :
    (env : Env) (l : Loop) (t : Transaction) (sku : Sku) (r : DigiResponse)
    → StopsAnnounced (after_response env l t sku r)
unfolding after_response handle_success handle_pending handle_fatal succeeded_at kept_pending
    refused_at
after_response-StopsAnnounced env l t sku r =
    StopsAnnounced-if (is_success r.rc) _ _
      (settle-IsAnnounced env (succeeded_at env.now t sku r) "transaction.success" refl)
      (StopsAnnounced-if (is_pending r.rc) _ _
        (keep_going-IsAnnounced env (kept_pending t sku r) refl)
        (StopsAnnounced-if (is_fatal r.rc) _ _
          (settle-IsAnnounced env (refused_at env.now t r) "transaction.failed" refl)
          (StopsAnnounced-if (needs_new_ref_id r.rc) _ _ tt (
            StopsAnnounced-if (is_retryable_wait r.rc) _ _
              (StopsAnnounced-if (env.cancelled l.calls) _ _ (all_failed-IsAnnounced env t) tt)
              tt))))

after_call-StopsAnnounced :
    (env : Env) (l : Loop) (t : Transaction) (sku : Sku) (a : Result DigiResponse)
    → StopsAnnounced (after_call env l t sku a)
unfolding after_call
after_call-StopsAnnounced env l t sku (ok r) = after_response-StopsAnnounced env l t sku r
after_call-StopsAnnounced env l t sku (err e) =
    StopsAnnounced-if (leb (l.retries + 1) max_network_retries) _ _
      (StopsAnnounced-if (env.cancelled l.calls) (stop (handle_all_skus_failed env t)) same_ref
        (all_failed-IsAnnounced env t) tt)
      tt

continue-IsAnnounced :
    (again : Loop → Running) (l : Loop) (t : Transaction) (sku : Sku) (rest : List Sku) (x : Next)
    → StopsAnnounced x
    → ((m : Loop) → IsAnnounced (again m))
    → IsAnnounced (continue again l t sku rest x)
unfolding continue
continue-IsAnnounced again l t sku rest (stop r) h ih = h
continue-IsAnnounced again l t sku rest same_ref h ih = ih _
continue-IsAnnounced again l t sku rest fresh_ref h ih = ih _
continue-IsAnnounced again l t sku rest next_sku h ih = ih _

call-IsSilent : (env : Env) (l : Loop) (sku : Sku) → All IsSilent (call_effects env l sku)
unfolding call_effects
call-IsSilent env l sku = (tt, (tt, (tt, tt)))

round-IsAnnounced :
    (again : Loop → Running) (env : Env) (l : Loop) (skus : List Sku)
    → ((m : Loop) → IsAnnounced (again m))
    → IsAnnounced (try_round again env l skus)
unfolding try_round
round-IsAnnounced again env l [] ih = all_failed-IsAnnounced env l.trx
round-IsAnnounced again env l (sku ∷ rest) ih =
    prefix-IsAnnounced (call_effects env l sku) _ (call-IsSilent env l sku) (
      continue-IsAnnounced again l (prepared env l sku) sku rest _
        (after_call-StopsAnnounced env l (prepared env l sku) sku (call_with env l sku).answer) ih)

pub try_all_skus-IsAnnounced :
    (fuel : ℕ) (env : Env) (l : Loop) → IsAnnounced (try_all_skus fuel env l)
unfolding try_all_skus
try_all_skus-IsAnnounced zero env l = record { holds = refl }
try_all_skus-IsAnnounced (suc fuel) env l =
    round-IsAnnounced (try_all_skus fuel env) env l l.skus (try_all_skus-IsAnnounced fuel env)

failed_for_phase-IsAnnounced :
    (env : Env) (t : Transaction) (r : ProviderResponse) (phase : Phase)
    → IsAnnounced (finished (handle_provider_failed_for_phase env t r phase))
unfolding handle_provider_failed_for_phase provider_failed_at
failed_for_phase-IsAnnounced env t r phase =
    settle-IsAnnounced env (provider_failed_at env t r phase) "transaction.failed" refl

pub provider_failed-IsAnnounced :
    (env : Env) (t : Transaction) (r : ProviderResponse)
    → IsAnnounced (finished (handle_provider_failed env t r))
unfolding handle_provider_failed
provider_failed-IsAnnounced env t r = failed_for_phase-IsAnnounced env t r _

pub finished-if :
    (b : Bool) (r s : Handled)
    → IsAnnounced (finished r)
    → IsAnnounced (finished s)
    → IsAnnounced (finished (if b then r else s))
finished-if true r s h k = h
finished-if false r s h k = k

answered-IsAnnounced :
    (env : Env) (t : Transaction) (phase : Phase) (r : ProviderResponse)
    → IsAnnounced (finished (route_answered env t phase r))
unfolding route_answered handle_provider_success handle_provider_pending provider_succeeded_at
    provider_kept_pending
answered-IsAnnounced env t phase r =
    finished-if r.success _ _ (settle-IsAnnounced env _ "transaction.success" refl) (
      finished-if r.pending _ _ (keep_going-IsAnnounced env _ refl)
        (failed_for_phase-IsAnnounced env _ r phase))

given_up_or-IsAnnounced :
    (env : Env) (t : Transaction) (phase : Phase) (r : Option ProviderResponse)
    → IsAnnounced (finished (answered_or_given_up env t phase r))
given_up_or-IsAnnounced env t phase none = all_failed-IsAnnounced env t
given_up_or-IsAnnounced env t phase (some r) = answered-IsAnnounced env t phase r

executed-IsAnnounced :
    (env : Env) (t : Transaction) (phase : Phase) (e : Option GoError) (x : Option ExecuteResult)
    → IsAnnounced (finished (route_executed env t phase e x))
unfolding route_executed route_failed
executed-IsAnnounced env t phase (some e) x = failed_for_phase-IsAnnounced env _ _ phase
executed-IsAnnounced env t phase none none = all_failed-IsAnnounced env t
executed-IsAnnounced env t phase none (some x) =
    given_up_or-IsAnnounced env (apply_attempt_provider t x.provider_used) phase x.response

logs-IsSilent :
    (trx_id : ℕ) (attempts : List ProviderAttempt)
    → All IsSilent (log_provider_attempts trx_id attempts)
unfolding log_provider_attempts
logs-IsSilent trx_id [] = tt
logs-IsSilent trx_id (a ∷ rest) = (tt, logs-IsSilent trx_id rest)

pub router-IsAnnounced :
    (env : Env) (ps : Providers) (t : Transaction) (type : ProviderTransactionType)
    (force_provider : Option String) (excluded : List ℕ)
    → IsAnnounced (finished (execute_with_provider_router env ps t type force_provider excluded))
unfolding execute_with_provider_router
router-IsAnnounced env ps t type force_provider excluded =
    let x = execute ps (route_request t type force_provider excluded) in
    let es = log_provider_attempts t.id (attempts_of x.result) in
    prefix-IsAnnounced (_ ∷ es) (finished (route_executed env t _ x.error x.result))
      (tt, logs-IsSilent t.id (attempts_of x.result))
      (executed-IsAnnounced env t _ x.error x.result)
