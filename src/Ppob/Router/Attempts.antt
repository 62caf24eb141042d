-- ===== src/Ppob/Router/Attempts.antt =====
-- The attempts of the loop over the options, and its ending.
use gtd_api.Prelude.{
  ℕ, suc, String, ◌≡◌, refl, ◌⊎◌, inl, inr, Bool, true, false, Option, none, some, List, [], ◌∷◌,
  All, arith, if◌then◌else◌,
}
use gtd_api.Errors.{Result, ok, err}
use gtd_api.Ppob.Model.{
  ProviderRequest, ProviderResponse, ProviderOption, PpobProviderClient, ProviderAttempt,
}
use gtd_api.Ppob.Attempt.{
  Providers, Trail, Ending, answered, backup_failed, exhausted, attempted, ended, execute_each,
  after_answer, usable, try_option, attempt_with, prepare, for_option, numbered_ref, ask_client,
}

abbrev pub last_attempt : List ProviderAttempt → Option ProviderAttempt
last_attempt [] = none
last_attempt (a ∷ []) = some a
last_attempt (a ∷ b ∷ rest) = last_attempt (b ∷ rest)

-- The attempt gave no response, or a failure of a provider that is not the backup.
abbrev pub Failed : ProviderOption → Result ProviderResponse → Type 0
Failed opt (err e) = Unit
Failed opt (ok r) = (r.success ≡ false) × (r.pending ≡ false) × (opt.is_backup ≡ false)

-- Every attempt but the last one failed.
abbrev pub FailsOver : List ProviderAttempt → Type 0
FailsOver [] = Unit
FailsOver (a ∷ later) = ((later ≡ []) ⊎ Failed a.provider a.answer) × FailsOver later

-- The attempts carry the references of the numbers from `suffix` on.
abbrev pub Numbered : Providers → String → ℕ → List ProviderAttempt → Type 0
Numbered ps base suffix [] = Unit
Numbered ps base suffix (a ∷ later) =
    (a.request.ref_id ≡ numbered_ref ps base suffix) × Numbered ps base (suc suffix) later

-- The request is for the provider's own SKU at its own price.
pub record IsFor (a : ProviderAttempt) : Type 0 where
  pub sku : a.request.sku_code ≡ a.provider.provider_sku_code
  pub price : a.request.amount ≡ a.provider.price

-- The last attempt is the one that the ending names.
abbrev pub IsLast : List ProviderAttempt → ProviderOption → ProviderResponse → Type 0
IsLast attempts opt r =
    (a : ProviderAttempt) × (last_attempt attempts ≡ some a)
    × (a.provider ≡ opt)
    × (a.answer ≡ ok r)

abbrev pub EndsWith : List ProviderAttempt → Ending → Type 0
EndsWith attempts (answered opt r) = IsLast attempts opt r
EndsWith attempts (backup_failed opt r) = IsLast attempts opt r
EndsWith attempts exhausted = Unit

pub record IsTrail (ps : Providers) (base : String) (suffix : ℕ) (t : Trail) : Type 0 where
  pub once : FailsOver t.attempts
  pub numbered : Numbered ps base suffix t.attempts
  pub fitting : All IsFor t.attempts
  pub ends : EndsWith t.attempts t.ending

last_attempt-cons :
    (a b : ProviderAttempt) (later : List ProviderAttempt)
    → last_attempt later ≡ some b
    → last_attempt (a ∷ later) ≡ some b
last_attempt-cons a b [] h = ground arith
last_attempt-cons a b (c ∷ later) h = h

EndsWith-cons :
    (a : ProviderAttempt) (later : List ProviderAttempt) (e : Ending)
    → EndsWith later e
    → EndsWith (a ∷ later) e
EndsWith-cons a later (answered opt r) (b, l, p, x) = (b, last_attempt-cons a b later l, p, x)
EndsWith-cons a later (backup_failed opt r) (b, l, p, x) = (b, last_attempt-cons a b later l, p, x)
EndsWith-cons a later exhausted h = tt

prepare-ref :
    (ps : Providers) (base : String) (suffix : ℕ) (r : ProviderRequest) (opt : ProviderOption)
    → ((prepare ps base suffix r opt).ref_id ≡ numbered_ref ps base suffix)
      × ((prepare ps base suffix r opt).sku_code ≡ opt.provider_sku_code)
      × ((prepare ps base suffix r opt).amount ≡ opt.price)
unfolding prepare for_option
prepare-ref ps base suffix r opt = (refl, refl, refl)

-- One attempt before a trail that goes on.
grow-IsTrail :
    (ps : Providers) (base : String) (suffix : ℕ) (a : ProviderAttempt) (t : Trail)
    → a.request.ref_id ≡ numbered_ref ps base suffix
    → IsFor a
    → Failed a.provider a.answer
    → IsTrail ps base (suc suffix) t
    → IsTrail ps base suffix (attempted a t)
grow-IsTrail ps base suffix a t ref fits lost h = record {
  once = (inr lost, h.once);
  numbered = (ref, h.numbered);
  fitting = (fits, h.fitting);
  ends = EndsWith-cons a t.attempts t.ending h.ends;
}

-- One attempt that ends the trail.
stop-IsTrail :
    (ps : Providers) (base : String) (suffix : ℕ) (a : ProviderAttempt) (e : Ending)
    → a.request.ref_id ≡ numbered_ref ps base suffix
    → IsFor a
    → EndsWith (a ∷ []) e
    → IsTrail ps base suffix (attempted a (ended e))
stop-IsTrail ps base suffix a e ref fits h = record {
  once = (inl refl, tt);
  numbered = (ref, tt);
  fitting = (fits, tt);
  ends = h;
}

attempted-if :
    (ps : Providers) (base : String) (suffix : ℕ) (a : ProviderAttempt) (b : Bool) (t u : Trail)
    → (b ≡ true → IsTrail ps base suffix (attempted a t))
    → (b ≡ false → IsTrail ps base suffix (attempted a u))
    → IsTrail ps base suffix (attempted a (if b then t else u))
attempted-if ps base suffix a true t u h k = h refl
attempted-if ps base suffix a false t u h k = k refl

attempt-IsTrail :
    (ps : Providers) (base : String) (suffix : ℕ) (opt : ProviderOption) (request : ProviderRequest)
    (again : Trail) (answer : Result ProviderResponse)
    → request.ref_id ≡ numbered_ref ps base suffix
    → request.sku_code ≡ opt.provider_sku_code
    → request.amount ≡ opt.price
    → IsTrail ps base (suc suffix) again
    → IsTrail ps base suffix (attempt_with opt request again answer)
unfolding after_answer
attempt-IsTrail ps base suffix opt request again (err e) ref sku price h =
    grow-IsTrail ps base suffix (record { provider = opt; request = request; answer = err e }) again
      ref (record { sku = sku; price = price }) tt h
attempt-IsTrail ps base suffix opt request again (ok r) ref sku price h =
    let a : ProviderAttempt = record { provider = opt; request = request; answer = ok r } in
    let fits : IsFor a = record { sku = sku; price = price } in
    let taken = stop-IsTrail ps base suffix a (answered opt r) ref fits (a, refl, refl, refl) in
    let lost = stop-IsTrail ps base suffix a (backup_failed opt r) ref fits (a, refl, refl, refl) in
    attempted-if ps base suffix a r.success _ _ (λ s. taken)
      (λ s.
        attempted-if ps base suffix a r.pending _ _ (λ w. taken)
          (λ w.
            attempted-if ps base suffix a opt.is_backup _ _ (λ b. lost)
              (λ b. grow-IsTrail ps base suffix a again ref fits (s, w, b) h)))

try_option-IsTrail :
    (ps : Providers) (base : String) (suffix : ℕ) (f : PpobProviderClient → Trail) (t : Trail)
    (c : Option PpobProviderClient)
    → ((x : PpobProviderClient) → IsTrail ps base suffix (f x))
    → IsTrail ps base suffix t
    → IsTrail ps base suffix (try_option f t c)
try_option-IsTrail ps base suffix f t none h k = k
try_option-IsTrail ps base suffix f t (some c) h k = h c

pub execute_each-IsTrail :
    (ps : Providers) (base : String) (suffix : ℕ) (r : ProviderRequest)
    (options : List ProviderOption)
    → IsTrail ps base suffix (execute_each ps base suffix r options)
unfolding execute_each
execute_each-IsTrail ps base suffix r [] = record {
  once = tt;
  numbered = tt;
  fitting = tt;
  ends = tt;
}
execute_each-IsTrail ps base suffix r (opt ∷ rest) =
    let request = prepare ps base suffix r opt in
    let same = prepare-ref ps base suffix r opt in
    try_option-IsTrail ps base suffix _ _ (usable ps opt)
      (λ c.
        attempt-IsTrail ps base suffix opt request _ (ask_client c request) same.0 same.1 same.2
          (execute_each-IsTrail ps base (suc suffix) request rest))
      (execute_each-IsTrail ps base suffix r rest)
