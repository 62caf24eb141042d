-- ===== src/Payment/Selector.antt =====
-- ProviderSelector of internal/service/payment_provider_selector.go over the bindings of a method
-- group, which the repository gives in the order of their priorities.
pub mod Order
use gtd_api.Prelude.{
  ℕ, String, ◌≡◌, refl, Bool, true, false, ◌&&◌, ◌||◌, not, Option, none, some, List, [], ◌∷◌, ◌++◌,
  ◌==◌, if◌then◌else◌,
}
use gtd_api.Errors.{GoError, payment_error, no_cause, Result, ok, err}
use gtd_api.Payment.Model.{MethodProviderBinding}
use gtd_api.Payment.Store.{Clients, PaymentProviderClient, registered, router_get}

abbrev pub serves : Result PaymentProviderClient → Bool
serves (ok adapter) = adapter.available
serves (err _) = false

unfoldable pub healthy : Clients → MethodProviderBinding → Bool
healthy clients b =
    if not b.is_active || b.is_maintenance then false else serves (router_get clients b.provider)

-- The first healthy binding of a list.
unfoldable pub first_healthy : Clients → List MethodProviderBinding → Option MethodProviderBinding
first_healthy clients [] = none
first_healthy clients (b ∷ bs) = if healthy clients b then some b else first_healthy clients bs

abbrev pub method_unavailable : GoError
method_unavailable =
    payment_error 503 "METHOD_UNAVAILABLE" "Payment method is temporarily unavailable" no_cause

abbrev pub or_unavailable : Option MethodProviderBinding → Result MethodProviderBinding
or_unavailable (some b) = ok b
or_unavailable none = err method_unavailable

unfoldable pub select : Clients → List MethodProviderBinding → Result MethodProviderBinding
select clients bindings = or_unavailable (first_healthy clients bindings)

-- The loop of Next: `seen` becomes true at the first binding with the id.
unfoldable pub scan_after :
    Clients → (id : ℕ) → (seen : Bool) → List MethodProviderBinding → Option MethodProviderBinding
scan_after clients id seen [] = none
scan_after clients id false (b ∷ bs) = scan_after clients id (b.id == id) bs
scan_after clients id true (b ∷ bs) =
    if healthy clients b then some b else scan_after clients id true bs

unfoldable pub next :
    Clients → List MethodProviderBinding → MethodProviderBinding → Option MethodProviderBinding
next clients bindings after = scan_after clients after.id false bindings
