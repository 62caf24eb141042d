-- ===== src/Ppob/Router/Excluded.antt =====
-- The excluded options of a request are never tried.
use gtd_api.Prelude.{
  ℕ, String, ◌≡◌, sym, subst, false, Bool-cases, inl, inr, Option, none, some, List, [], ◌∷◌, ◌++◌,
  All, any, ◌==◌,
}
use gtd_api.Errors.{Result, ok, err}
use gtd_api.Ppob.Model.{
  ProviderTransactionType, prepaid, inquiry, payment, other_type, ProviderRequest, ProviderOption,
  PpobProviderClient, ProviderAttempt, ExecuteResult, Executed,
}
use gtd_api.Ppob.Router.{
  execute, execute_by_type, execute_with_provider, execute_options, execute_remaining, conclude,
  not_excluded,
}
use gtd_api.Ppob.Attempt.{
  Providers, Ending, answered, backup_failed, exhausted, execute_each, usable,
}
use gtd_api.Ppob.Router.Order.{providers, keep_usable, usable_options, execute_each-IsFirstOf}

abbrev pub IsAllowed : List ℕ → ProviderOption → Type 0
IsAllowed ids opt = any (λ id. id == opt.provider_sku_id) ids ≡ false

-- Every attempt of the execution is at an option that is not excluded.
abbrev pub ResultAvoids : List ℕ → Option ExecuteResult → Type 0
ResultAvoids ids none = Unit
ResultAvoids ids (some x) = All (λ a. IsAllowed ids a.provider) x.attempts

abbrev pub Avoids : List ℕ → Executed → Type 0
Avoids ids e = ResultAvoids ids e.result

not_excluded-IsAllowed :
    (ids : List ℕ) (options : List ProviderOption) → All (IsAllowed ids) (not_excluded ids options)
unfolding not_excluded
not_excluded-IsAllowed ids [] = tt
not_excluded-IsAllowed ids (opt ∷ rest) =
    elim (Bool-cases (any (λ id. id == opt.provider_sku_id) ids)) [
      | inl excluded ↦ rw excluded (not_excluded-IsAllowed ids rest)
      | inr allowed ↦ rw allowed (allowed, not_excluded-IsAllowed ids rest)
    ]

keep-IsAllowed :
    (ids : List ℕ) (c : Option PpobProviderClient) (opt : ProviderOption)
    (rest : List ProviderOption)
    → IsAllowed ids opt
    → All (IsAllowed ids) rest
    → All (IsAllowed ids) (keep_usable c opt rest)
keep-IsAllowed ids none opt rest h k = k
keep-IsAllowed ids (some c) opt rest h k = (h, k)

usable-IsAllowed :
    (ids : List ℕ) (ps : Providers) (options : List ProviderOption)
    → All (IsAllowed ids) options
    → All (IsAllowed ids) (usable_options ps options)
usable-IsAllowed ids ps [] h = tt
usable-IsAllowed ids ps (opt ∷ rest) h =
    keep-IsAllowed ids (usable ps opt) opt (usable_options ps rest) h.0
      (usable-IsAllowed ids ps rest h.1)

first-IsAllowed :
    (ids : List ℕ) (attempts : List ProviderAttempt) (later : List ProviderOption)
    → All (IsAllowed ids) (providers attempts ++ later)
    → All (λ a. IsAllowed ids a.provider) attempts
first-IsAllowed ids [] later h = tt
first-IsAllowed ids (a ∷ rest) later h = (h.0, first-IsAllowed ids rest later h.1)

conclude-Avoids :
    (ids : List ℕ) (attempts : List ProviderAttempt) (e : Ending)
    → All (λ a. IsAllowed ids a.provider) attempts
    → Avoids ids (conclude attempts e)
unfolding conclude
conclude-Avoids ids attempts (answered opt r) h = h
conclude-Avoids ids attempts (backup_failed opt r) h = h
conclude-Avoids ids attempts exhausted h = h

execute_remaining-Avoids :
    (ids : List ℕ) (ps : Providers) (r : ProviderRequest) (options : List ProviderOption)
    → All (IsAllowed ids) options
    → Avoids ids (execute_remaining ps r options)
unfolding execute_remaining
execute_remaining-Avoids ids ps r [] h = tt
execute_remaining-Avoids ids ps r (opt ∷ rest) h =
    let trail = execute_each ps r.ref_id 0 r (opt ∷ rest) in
    let (later, same, all) = execute_each-IsFirstOf ps r.ref_id 0 r (opt ∷ rest) in
    conclude-Avoids ids trail.attempts trail.ending (
      first-IsAllowed ids trail.attempts later
        (subst (All (IsAllowed ids)) (sym same) (usable-IsAllowed ids ps (opt ∷ rest) h)))

execute_options-Avoids :
    (ps : Providers) (r : ProviderRequest) (o : Result (List ProviderOption))
    → Avoids r.excluded_provider_sku_ids (execute_options ps r o)
unfolding execute_options
execute_options-Avoids ps r (err e) = tt
execute_options-Avoids ps r (ok []) = tt
execute_options-Avoids ps r (ok (opt ∷ rest)) =
    execute_remaining-Avoids r.excluded_provider_sku_ids ps r _
      (not_excluded-IsAllowed r.excluded_provider_sku_ids (opt ∷ rest))

execute_by_type-Avoids :
    (ps : Providers) (r : ProviderRequest) (t : ProviderTransactionType)
    → Avoids r.excluded_provider_sku_ids (execute_by_type ps r t)
unfolding execute_by_type
execute_by_type-Avoids ps r prepaid = execute_options-Avoids ps r ps.by_price
execute_by_type-Avoids ps r inquiry = execute_options-Avoids ps r ps.by_effective_admin
execute_by_type-Avoids ps r payment = execute_options-Avoids ps r ps.by_effective_admin
execute_by_type-Avoids ps r (other_type t) = tt

-- An execution that is not forced to one provider.
pub execute-Avoids :
    (ps : Providers) (r : ProviderRequest)
    → r.force_provider ≡ none
    → Avoids r.excluded_provider_sku_ids (execute ps r)
unfolding execute
execute-Avoids ps r free = free_choice r.force_provider free
  where
    free_choice :
        (o : Option String)
        → o ≡ none
        → Avoids r.excluded_provider_sku_ids (elim o [
          | some code ↦ execute_with_provider ps code r (ps.clients code)
          | none ↦ execute_by_type ps r r.type
        ])
    free_choice none e = execute_by_type-Avoids ps r r.type
    free_choice (some code) e = cc
