-- ===== src/Payout/Routing.antt =====
-- PayoutSelector.Candidates of internal/service/payout_provider_selector.go: the adapters that may
-- serve a channel, in the order of the routes.

pub mod Served
use gtd_api.Prelude.{
  String, ◌≡◌, refl, Bool, true, false, ◌&&◌, ◌||◌, not, Option, none, some, List, [], ◌∷◌,
  if◌then◌else◌,
}
use gtd_api.Errors.{GoError, no_cause, payout_error, Result, ok, err}
use gtd_api.Payout.Model.{MethodType, method_text, PayoutRoute}
use gtd_api.Payout.Store.{Env, PayoutProviderClient, payout_router_get}
use Prim.Native.String.{◌++◌ as ◌<>◌}

abbrev pub able : MethodType → String → Result PayoutProviderClient → Option PayoutProviderClient
able mt channel (err _) = none
able mt channel (ok adapter) =
    if not adapter.available
    then none
    else if not (adapter.supports mt channel)
    then none
    else some adapter

-- The adapter of a route, unless the loop goes on past the route.
unfoldable pub candidate : Env → MethodType → String → PayoutRoute → Option PayoutProviderClient
candidate env mt channel r =
    if not r.is_active || r.is_maintenance
    then none
    else able mt channel (payout_router_get env.clients r.provider)

abbrev pub cons_some {ℓ} : {A : Type ℓ} → Option A → List A → List A
cons_some none xs = xs
cons_some (some x) xs = x ∷ xs

unfoldable pub candidate_list :
    Env → MethodType → String → List PayoutRoute → List PayoutProviderClient
candidate_list env mt channel [] = []
candidate_list env mt channel (r ∷ rs) =
    cons_some (candidate env mt channel r) (candidate_list env mt channel rs)

abbrev pub or_unavailable :
    MethodType → String → List PayoutProviderClient → Result (List PayoutProviderClient)
or_unavailable mt channel [] = err (
    payout_error 503 "PAYOUT_METHOD_UNAVAILABLE"
      ("No payout provider is available for " <> method_text mt <> "/" <> channel) false no_cause)
or_unavailable mt channel (a ∷ adapters) = ok (a ∷ adapters)

unfoldable pub candidates_of :
    Env → MethodType → String → Result (List PayoutRoute) → Result (List PayoutProviderClient)
candidates_of env mt channel (err e) = err e
candidates_of env mt channel (ok routes) =
    or_unavailable mt channel (candidate_list env mt channel routes)

unfoldable pub candidates : Env → MethodType → String → Result (List PayoutProviderClient)
candidates env mt channel = candidates_of env mt channel (env.routes mt)
