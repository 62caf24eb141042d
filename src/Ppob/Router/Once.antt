-- ===== src/Ppob/Router/Once.antt =====
-- The result of an execution: its attempts and whether it is a success.
use gtd_api.Prelude.{
  String, ◌≡◌, refl, ap, sym, inl, true, Option, none, some, List, [], ◌∷◌, All, arith,
}
use gtd_api.Errors.{Result, ok, err}
use gtd_api.Ppob.Model.{
  ProviderTransactionType, prepaid, inquiry, payment, other_type, ProviderRequest, ProviderResponse,
  ProviderOption, PpobProviderClient, ProviderAttempt, ExecuteResult, Executed,
}
use gtd_api.Ppob.Router.{
  execute, execute_by_type, execute_with_provider, execute_options, execute_remaining, conclude,
  forced_answer, execute_forced_option, option_of, not_excluded, forced_options,
}
use gtd_api.Ppob.Attempt.{
  Providers, Ending, answered, backup_failed, exhausted, execute_each, for_option, numbered_ref,
  ask_client,
}
use gtd_api.Ppob.Router.Attempts.{
  last_attempt, FailsOver, Numbered, IsFor, IsTrail, execute_each-IsTrail,
}

-- What a result says of the execution of a request with the reference `base`.
pub record IsRun (ps : Providers) (base : String) (x : ExecuteResult) : Type 0 where
  pub once : FailsOver x.attempts
  pub numbered : Numbered ps base 0 x.attempts
  pub fitting : All IsFor x.attempts
  pub taken :
      x.success ≡ true
      → (a : ProviderAttempt) × (r : ProviderResponse) × (last_attempt x.attempts ≡ some a)
        × (a.answer ≡ ok r)
        × (r.success ≡ true)
        × (x.response ≡ some r)
        × (x.provider_used ≡ some a.provider)

abbrev pub GivesRun : Providers → String → Executed → Type 0
GivesRun ps base e = elim (e.result) [ none ↦ Unit | some x ↦ IsRun ps base x ]

conclude-GivesRun :
    (ps : Providers) (base : String) (attempts : List ProviderAttempt) (e : Ending)
    → IsTrail ps base 0 (record { attempts = attempts; ending = e })
    → GivesRun ps base (conclude attempts e)
unfolding conclude
conclude-GivesRun ps base attempts (answered opt r) t = record {
  once = t.once;
  numbered = t.numbered;
  fitting = t.fitting;
  taken = λ s. (t.ends.0, r, t.ends.1, t.ends.3, s, refl, ap some (sym t.ends.2));
}
conclude-GivesRun ps base attempts (backup_failed opt r) t = record {
  once = t.once;
  numbered = t.numbered;
  fitting = t.fitting;
  taken = λ s. ground arith;
}
conclude-GivesRun ps base attempts exhausted t = record {
  once = t.once;
  numbered = t.numbered;
  fitting = t.fitting;
  taken = λ s. ground arith;
}

execute_remaining-GivesRun :
    (ps : Providers) (r : ProviderRequest) (options : List ProviderOption)
    → GivesRun ps r.ref_id (execute_remaining ps r options)
unfolding execute_remaining
execute_remaining-GivesRun ps r [] = record {
  once = tt;
  numbered = tt;
  fitting = tt;
  taken = λ s. ground arith;
}
execute_remaining-GivesRun ps r (opt ∷ rest) =
    let trail = execute_each ps r.ref_id 0 r (opt ∷ rest) in
    conclude-GivesRun ps r.ref_id trail.attempts trail.ending
      (execute_each-IsTrail ps r.ref_id 0 r (opt ∷ rest))

execute_options-GivesRun :
    (ps : Providers) (r : ProviderRequest) (o : Result (List ProviderOption))
    → GivesRun ps r.ref_id (execute_options ps r o)
unfolding execute_options
execute_options-GivesRun ps r (err e) = tt
execute_options-GivesRun ps r (ok []) = tt
execute_options-GivesRun ps r (ok (opt ∷ rest)) =
    execute_remaining-GivesRun ps r (not_excluded r.excluded_provider_sku_ids (opt ∷ rest))

execute_by_type-GivesRun :
    (ps : Providers) (r : ProviderRequest) (t : ProviderTransactionType)
    → GivesRun ps r.ref_id (execute_by_type ps r t)
unfolding execute_by_type
execute_by_type-GivesRun ps r prepaid = execute_options-GivesRun ps r ps.by_price
execute_by_type-GivesRun ps r inquiry = execute_options-GivesRun ps r ps.by_effective_admin
execute_by_type-GivesRun ps r payment = execute_options-GivesRun ps r ps.by_effective_admin
execute_by_type-GivesRun ps r (other_type t) = tt

forced_answer-GivesRun :
    (ps : Providers) (opt : ProviderOption) (r : ProviderRequest) (answer : Result ProviderResponse)
    → GivesRun ps r.ref_id (forced_answer opt (for_option r opt) answer)
unfolding forced_answer for_option numbered_ref
forced_answer-GivesRun ps opt r (err e) = tt
forced_answer-GivesRun ps opt r (ok x) = record {
  once = (inl refl, tt);
  numbered = (refl, tt);
  fitting = (record { sku = refl; price = refl }, tt);
  taken = λ s. (_, x, refl, refl, s, refl, refl);
}

execute_forced-GivesRun :
    (ps : Providers) (code : String) (r : ProviderRequest) (c : PpobProviderClient)
    (o : Option ProviderOption)
    → GivesRun ps r.ref_id (execute_forced_option ps code r c o)
unfolding execute_forced_option
execute_forced-GivesRun ps code r c none = tt
execute_forced-GivesRun ps code r c (some opt) =
    forced_answer-GivesRun ps opt r (ask_client c (for_option r opt))

forced_options-GivesRun :
    (ps : Providers) (code : String) (r : ProviderRequest) (c : PpobProviderClient)
    (o : Result (List ProviderOption))
    → GivesRun ps r.ref_id (forced_options ps code r c o)
forced_options-GivesRun ps code r c (err e) = tt
forced_options-GivesRun ps code r c (ok options) =
    execute_forced-GivesRun ps code r c (option_of code options)

execute_with-GivesRun :
    (ps : Providers) (code : String) (r : ProviderRequest) (c : Option PpobProviderClient)
    → GivesRun ps r.ref_id (execute_with_provider ps code r c)
unfolding execute_with_provider
execute_with-GivesRun ps code r none = tt
execute_with-GivesRun ps code r (some c) = forced_options-GivesRun ps code r c ps.all_options

execute_forced_or-GivesRun :
    (ps : Providers) (r : ProviderRequest) (o : Option String)
    → GivesRun ps r.ref_id (elim o [
      | some code ↦ execute_with_provider ps code r (ps.clients code)
      | none ↦ execute_by_type ps r r.type
    ])
execute_forced_or-GivesRun ps r none = execute_by_type-GivesRun ps r r.type
execute_forced_or-GivesRun ps r (some code) = execute_with-GivesRun ps code r (ps.clients code)

-- In every result of Execute, forced or not, each attempt but the last one failed: it gave an
-- error, or a response that is neither a success nor pending, of a provider that is not the backup.
-- The attempts carry the request's reference, and then that reference with the numbers 1, 2 and so
-- on; each is for its provider's own SKU and price. And where the result is a success, its response
-- is the successful one of the last attempt, of the provider that the result names.
pub execute-GivesRun : (ps : Providers) (r : ProviderRequest) → GivesRun ps r.ref_id (execute ps r)
unfolding execute
execute-GivesRun ps r = execute_forced_or-GivesRun ps r r.force_provider
