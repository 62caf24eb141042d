-- ===== src/Payout/Routing/Served.antt =====
-- Which adapters are the candidates, and when there is an error.
use gtd_api.Prelude.{
  String, ◌≡◌, ◌≢◌, refl, subst, ◌⊎◌, inl, inr, true, false, Option, none, some, List, [], ◌∷◌, All,
  arith,
}
use gtd_api.Errors.{Result, ok, err}
use gtd_api.Payout.Model.{MethodType, PayoutRoute}
use gtd_api.Payout.Store.{Env, PayoutProviderClient, payout_router_get}
use gtd_api.Payout.Routing.{
  candidates, candidates_of, candidate, candidate_list, cons_some, or_unavailable,
}

-- The adapter `a` serves the channel by the route `r`.
pub record IsServing (env : Env) (mt : MethodType) (channel : String) (a : PayoutProviderClient)
    (r : PayoutRoute) : Type 0 where
  pub active : r.is_active ≡ true
  pub in_service : r.is_maintenance ≡ false
  pub registered : env.clients r.provider ≡ some a
  pub available : a.available ≡ true
  pub supported : a.supports mt channel ≡ true

abbrev pub Some : (PayoutRoute → Type 0) → List PayoutRoute → Type 0
Some P [] = ◌≡◌ true false
Some P (r ∷ rs) = P r ⊎ Some P rs

-- With an answer, every candidate serves by some route; with an error, no adapter serves by any.
abbrev pub CandidatesFit :
    Env → MethodType → String → List PayoutRoute → Result (List PayoutProviderClient) → Type 0
CandidatesFit env mt channel routes (ok adapters) =
    (adapters ≢ []) × All (λ a. Some (IsServing env mt channel a) routes) adapters
CandidatesFit env mt channel routes (err e) =
    (a : PayoutProviderClient) → All (λ r. IsServing env mt channel a r → ◌≡◌ true false) routes

candidate-IsServing :
    (env : Env) (mt : MethodType) (channel : String) (r : PayoutRoute) (a : PayoutProviderClient)
    → candidate env mt channel r ≡ some a
    → IsServing env mt channel a r
unfolding candidate payout_router_get
candidate-IsServing env mt channel r a h = ground arith

candidate-none :
    (env : Env) (mt : MethodType) (channel : String) (r : PayoutRoute) (a : PayoutProviderClient)
    → candidate env mt channel r ≡ none
    → IsServing env mt channel a r
    → ◌≡◌ true false
unfolding candidate payout_router_get
candidate-none env mt channel r a h s = ground arith

All-imp :
    {A : Type 0} (P Q : A → Type 0) (xs : List A) → ((x : A) → P x → Q x) → All P xs → All Q xs
All-imp P Q [] f h = tt
All-imp P Q (x ∷ xs) f h = (f x h.0, All-imp P Q xs f h.1)

cons_some-All :
    {A : Type 0} (P : A → Type 0) (o : Option A) (xs : List A)
    → ((x : A) → o ≡ some x → P x)
    → All P xs
    → All P (cons_some o xs)
cons_some-All P none xs f h = h
cons_some-All P (some x) xs f h = (f x refl, h)

candidate_list-All :
    (env : Env) (mt : MethodType) (channel : String) (routes : List PayoutRoute)
    → All (λ a. Some (IsServing env mt channel a) routes) (candidate_list env mt channel routes)
unfolding candidate_list
candidate_list-All env mt channel [] = tt
candidate_list-All env mt channel (r ∷ rs) =
    cons_some-All (λ a. Some (IsServing env mt channel a) (r ∷ rs)) (candidate env mt channel r)
      (candidate_list env mt channel rs)
      (λ a found. inl (candidate-IsServing env mt channel r a found))
      (All-imp (λ a. Some (IsServing env mt channel a) rs)
        (λ a. Some (IsServing env mt channel a) (r ∷ rs)) (candidate_list env mt channel rs)
        (λ a h. inr h) (candidate_list-All env mt channel rs))

cons_some-empty :
    {A : Type 0} (o : Option A) (xs : List A) → cons_some o xs ≡ [] → (o ≡ none) × (xs ≡ [])
cons_some-empty none xs h = (refl, h)
cons_some-empty (some x) xs h = ground arith

candidate_list-none :
    (env : Env) (mt : MethodType) (channel : String) (routes : List PayoutRoute)
    (a : PayoutProviderClient)
    → candidate_list env mt channel routes ≡ []
    → All (λ r. IsServing env mt channel a r → ◌≡◌ true false) routes
unfolding candidate_list
candidate_list-none env mt channel [] a h = tt
candidate_list-none env mt channel (r ∷ rs) a h =
    let parts = cons_some-empty (candidate env mt channel r) (candidate_list env mt channel rs) h in
    (candidate-none env mt channel r a parts.0, candidate_list-none env mt channel rs a parts.1)

or_unavailable-Fits :
    (env : Env) (mt : MethodType) (channel : String) (routes : List PayoutRoute)
    (adapters : List PayoutProviderClient)
    → candidate_list env mt channel routes ≡ adapters
    → CandidatesFit env mt channel routes (or_unavailable mt channel adapters)
or_unavailable-Fits env mt channel routes [] h = λ a. candidate_list-none env mt channel routes a h
or_unavailable-Fits env mt channel routes (a ∷ adapters) h = (
  ground arith,
  subst (λ xs. All (λ y. Some (IsServing env mt channel y) routes) xs) h
      (candidate_list-All env mt channel routes),
)

-- Over the routes of a method type, the candidates for a channel are adapters of routes that are
-- active and not in maintenance, registered, available, and able to serve the channel, and there is
-- at least one; an error comes only where no adapter is so for any of the routes.
pub candidates-fit :
    (env : Env) (mt : MethodType) (channel : String) (routes : List PayoutRoute)
    → env.routes mt ≡ ok routes
    → CandidatesFit env mt channel routes (candidates env mt channel)
unfolding candidates candidates_of
candidates-fit env mt channel routes found =
    rw found (or_unavailable-Fits env mt channel routes (candidate_list env mt channel routes) refl)
