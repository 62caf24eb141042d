-- ===== src/Transaction/ProviderCallback/Answered.antt =====
-- What a callback of Kiosbank or Alterra comes to.
use gtd_api.Prelude.{◌≡◌, Bool, true, false, Option, []}
use gtd_api.Errors.{GoError}
use gtd_api.Ppob.Model as Ppob
use gtd_api.Transaction.Model.{Transaction, ProviderPayload}
use gtd_api.Transaction.Codes.{ResponseClass, success_class, async, classify_rc, alterra_is_success}
use gtd_api.Transaction.Route.{Retried}
use gtd_api.Transaction.ProviderCallback.{Received, kiosbank_rc}
use gtd_api.Transaction.ProviderCallback.Alterra.{alterra_rc}
use gtd_api.Transaction.Told.{Tells, Succeeded}

-- A provider's callback tells the merchant also where the write has failed.
abbrev pub Attempted : Option GoError → Type 0
Attempted e = Unit

abbrev TellsAll : (must : Bool) → Received → Type 0
TellsAll must r = Tells must Attempted r.effects

-- A retry that leaves the failure to its caller has had no effect.
record IsRetry (r : Retried) : Type 0 where
  told : Tells false Succeeded r.effects
  untouched : r.handled ≡ false → r.effects ≡ []

abbrev is_success_class : ResponseClass → Bool
is_success_class success_class = true
is_success_class _ = false

abbrev pub is_kiosbank_success : ProviderPayload → Transaction → Bool
is_kiosbank_success p t = is_success_class (classify_rc (kiosbank_rc p) async)

abbrev pub is_alterra_success : ProviderPayload → Transaction → Bool
is_alterra_success p t = alterra_is_success (alterra_rc p)
