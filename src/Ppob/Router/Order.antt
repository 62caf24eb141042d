-- ===== src/Ppob/Router/Order.antt =====
-- Which options are tried, and in what order.
use gtd_api.Prelude.{
  ℕ, suc, String, ◌≡◌, refl, ap, Bool, true, false, Option, none, some, List, [], ◌∷◌, ◌++◌, arith,
  if◌then◌else◌,
}
use gtd_api.Errors.{Result, ok, err}
use gtd_api.Ppob.Model.{
  ProviderRequest, ProviderResponse, ProviderOption, PpobProviderClient, ProviderAttempt,
}
use gtd_api.Ppob.Attempt.{
  Providers, Trail, answered, backup_failed, exhausted, attempted, ended, execute_each,
  after_answer, usable, try_option, attempt_with, prepare, ask_client,
}

abbrev pub providers : List ProviderAttempt → List ProviderOption
providers [] = []
providers (a ∷ rest) = a.provider ∷ providers rest

-- The options whose client is registered and healthy.
abbrev pub keep_usable :
    Option PpobProviderClient → ProviderOption → List ProviderOption → List ProviderOption
keep_usable none opt rest = rest
keep_usable (some c) opt rest = opt ∷ rest

abbrev pub usable_options : Providers → List ProviderOption → List ProviderOption
usable_options ps [] = []
usable_options ps (opt ∷ rest) = keep_usable (usable ps opt) opt (usable_options ps rest)

-- The attempts are the first of the options, and all of them if nothing ended the loop.
abbrev pub IsFirstOf : List ProviderOption → Trail → Type 0
IsFirstOf options t =
    (later : List ProviderOption) × (providers t.attempts ++ later ≡ options)
    × (t.ending ≡ exhausted → later ≡ [])

IsFirstOf-if :
    (a : ProviderAttempt) (options : List ProviderOption) (b : Bool) (t u : Trail)
    → IsFirstOf options (attempted a t)
    → IsFirstOf options (attempted a u)
    → IsFirstOf options (attempted a (if b then t else u))
IsFirstOf-if a options true t u h k = h
IsFirstOf-if a options false t u h k = k

IsFirstOf-cons :
    (a : ProviderAttempt) (options : List ProviderOption) (t : Trail)
    → IsFirstOf options t
    → IsFirstOf (a.provider ∷ options) (attempted a t)
IsFirstOf-cons a options t (later, same, all) = (later, ap (λ xs. a.provider ∷ xs) same, all)

attempt-IsFirstOf :
    (opt : ProviderOption) (request : ProviderRequest) (again : Trail)
    (answer : Result ProviderResponse) (options : List ProviderOption)
    → IsFirstOf options again
    → IsFirstOf (opt ∷ options) (attempt_with opt request again answer)
unfolding after_answer
attempt-IsFirstOf opt request again (err e) options h =
    IsFirstOf-cons (record { provider = opt; request = request; answer = err e }) options again h
attempt-IsFirstOf opt request again (ok r) options h =
    let a : ProviderAttempt = record { provider = opt; request = request; answer = ok r } in
    let taken : IsFirstOf (opt ∷ options) (attempted a (ended (answered opt r))) =
      (options, refl, λ e. ground arith) in
    let lost : IsFirstOf (opt ∷ options) (attempted a (ended (backup_failed opt r))) =
      (options, refl, λ e. ground arith) in
    IsFirstOf-if a (opt ∷ options) r.success _ _ taken (
      IsFirstOf-if a (opt ∷ options) r.pending _ _ taken
        (IsFirstOf-if a (opt ∷ options) opt.is_backup _ _ lost (IsFirstOf-cons a options again h)))

try_option-IsFirstOf :
    (f : PpobProviderClient → Trail) (t : Trail) (c : Option PpobProviderClient)
    (opt : ProviderOption) (options : List ProviderOption)
    → ((x : PpobProviderClient) → IsFirstOf (opt ∷ options) (f x))
    → IsFirstOf options t
    → IsFirstOf (keep_usable c opt options) (try_option f t c)
try_option-IsFirstOf f t none opt options h k = k
try_option-IsFirstOf f t (some c) opt options h k = h c

-- The loop tries the options whose provider is registered and healthy, in the order in which the
-- query gave them and without leaving one out: the attempts are the first of these options, and all
-- of them where no answer ended the loop.
pub execute_each-IsFirstOf :
    (ps : Providers) (base : String) (suffix : ℕ) (r : ProviderRequest)
    (options : List ProviderOption)
    → IsFirstOf (usable_options ps options) (execute_each ps base suffix r options)
unfolding execute_each
execute_each-IsFirstOf ps base suffix r [] = ([], refl, λ e. refl)
execute_each-IsFirstOf ps base suffix r (opt ∷ rest) =
    let request = prepare ps base suffix r opt in
    try_option-IsFirstOf _ _ (usable ps opt) opt (usable_options ps rest)
      (λ c.
        attempt-IsFirstOf opt request _ (ask_client c request) (usable_options ps rest)
          (execute_each-IsFirstOf ps base (suc suffix) request rest))
      (execute_each-IsFirstOf ps base suffix r rest)
