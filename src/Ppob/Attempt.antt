-- ===== src/Ppob/Attempt.antt =====
-- The loop of ProviderRouter.Execute in internal/service/provider_router.go over the options of a
-- product: they are tried in the order of the query, until one answers with a success or a pending
-- transaction, or the backup provider has failed too.
use gtd_api.Prelude.{
  ℕ, suc, String, not, Option, none, some, List, [], ◌∷◌, ◌==◌, str_eq, if◌then◌else◌,
}
use gtd_api.Errors.{plain_error, Result, ok, err}
use gtd_api.Ppob.Model.{
  prepaid, inquiry, payment, other_type, ExtraValue, number, ProviderRequest, ProviderResponse,
  ProviderOption, PpobProviderClient, ProviderAttempt,
}
use Prim.Native.String.{◌++◌ as ◌<>◌}

-- The registered clients, and the repository's answers for one product, whose id is `product` in
-- decimal.
pub record Providers : Type 0 where
  pub clients : String → Option PpobProviderClient
  pub by_price : Result (List ProviderOption)
  pub by_effective_admin : Result (List ProviderOption)
  pub all_options : Result (List ProviderOption)
  pub decimal : ℕ → String
  pub product : String

pub set_extra : String → ExtraValue → List (String × ExtraValue) → List (String × ExtraValue)
set_extra k v [] = (k, v) ∷ []
set_extra k v ((j, w) ∷ rest) = if str_eq j k then (k, v) ∷ rest else (j, w) ∷ set_extra k v rest

-- The SKU, the amount and the fees of the option.
unfoldable pub for_option : ProviderRequest → ProviderOption → ProviderRequest
unfolding set_extra
for_option r opt = record r {
  sku_code = opt.provider_sku_code;
  amount = opt.price;
  extra =
      set_extra "commission" (number opt.commission) (set_extra "admin" (number opt.admin) r.extra);
}

-- A fresh reference for each attempt behind the first one that was made.
unfoldable pub numbered_ref : Providers → (base : String) → (suffix : ℕ) → String
numbered_ref ps base suffix = if suffix == 0 then base else base <> "-" <> ps.decimal suffix

unfoldable pub prepare :
    Providers → (base : String) → (suffix : ℕ) → ProviderRequest → ProviderOption → ProviderRequest
unfolding for_option
prepare ps base suffix r opt = for_option (record r { ref_id = numbered_ref ps base suffix }) opt

-- The call by the request's type. (Execute refuses another type before it; with a forced provider
-- the source would read a response that is not there.)
unfoldable pub ask_client : PpobProviderClient → ProviderRequest → Result ProviderResponse
ask_client c r = elim r.type [
  | prepaid ↦ c.topup r
  | inquiry ↦ c.inquiry r
  | payment ↦ c.payment r
  | other_type t ↦ err (plain_error ("invalid transaction type: " <> t))
]

-- How the loop ends.
pub data Ending : Type 0 where
  answered : ProviderOption → ProviderResponse → Ending
  backup_failed : ProviderOption → ProviderResponse → Ending
  exhausted : Ending

pub record Trail : Type 0 where
  pub attempts : List ProviderAttempt
  pub ending : Ending

abbrev pub attempted : ProviderAttempt → Trail → Trail
attempted a t = record { attempts = a ∷ t.attempts; ending = t.ending }

abbrev pub ended : Ending → Trail
ended e = record { attempts = []; ending = e }

-- What follows an answer; `again` is the rest of the loop.
unfoldable pub after_answer : Trail → ProviderOption → Result ProviderResponse → Trail
after_answer again opt (err e) = again
after_answer again opt (ok response) =
    if response.success
    then ended (answered opt response)
    else if response.pending
    then ended (answered opt response)
    else if opt.is_backup
    then ended (backup_failed opt response)
    else again

-- A client that is registered and healthy.
unfoldable pub usable : Providers → ProviderOption → Option PpobProviderClient
usable ps opt = elim (ps.clients opt.provider_code) [
  | none ↦ none
  | some c ↦ if not c.is_healthy then none else some c
]

abbrev pub try_option : (PpobProviderClient → Trail) → Trail → Option PpobProviderClient → Trail
try_option attempt skip none = skip
try_option attempt skip (some c) = attempt c

abbrev pub attempt_with :
    ProviderOption → ProviderRequest → (Trail) → Result ProviderResponse → Trail
attempt_with opt request again answer =
    attempted (record { provider = opt; request = request; answer = answer })
      (after_answer again opt answer)

-- The loop over the options; `suffix` counts the attempts so far.
unfoldable pub execute_each :
    Providers → (base : String) → (suffix : ℕ) → ProviderRequest → List ProviderOption → Trail
execute_each ps base suffix r [] = ended exhausted
execute_each ps base suffix r (opt ∷ rest) =
    let request = prepare ps base suffix r opt in
    let again = execute_each ps base (suc suffix) request rest in
    let skip = execute_each ps base suffix r rest in
    try_option (λ c. attempt_with opt request again (ask_client c request)) skip (usable ps opt)
