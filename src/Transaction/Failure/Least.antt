-- ===== src/Transaction/Failure/Least.antt =====
-- Which of several failures the merchant is told.
use gtd_api.Prelude.{
  ◌≤◌, ◌<◌, String, ◌≡◌, refl, ◌⊎◌, inl, inr, Bool, true, false, Option, none, some, List, [], ◌∷◌,
  All, ltb, if◌then◌else◌, arith,
}
use gtd_api.Ppob.Model.{ProviderResponse, ProviderAttempt}
use gtd_api.Transaction.Codes.{Phase}
use gtd_api.Transaction.Failure.{canonical_failure}
use gtd_api.Transaction.FailureCodes.{
  JsonTexts, CanonicalFailure, get_canonical_failure, precedence,
}
use gtd_api.Transaction.Failure.Final.{
  Choice, no_choice, better, consider, choose, finish_failure, build_final_failure, response_of,
}

abbrev code_of :
    JsonTexts → Phase → ProviderAttempt → Option ProviderResponse → List String → List String
code_of texts phase a none rest = rest
code_of texts phase a (some r) rest =
    (canonical_failure texts a.provider.provider_code phase r).code ∷ rest

-- The canonical failures of the attempts, without those that have neither a response nor an error text.
abbrev pub failure_codes : JsonTexts → Phase → List ProviderAttempt → List String
failure_codes texts phase [] = []
failure_codes texts phase (a ∷ rest) =
    code_of texts phase a (response_of texts phase a) (failure_codes texts phase rest)

-- A code that is one of a list, and behind none of them in the precedence; or the given one, of an
-- empty list.
abbrev IsIn : String → List String → Type 0
IsIn x [] = ◌≡◌ true false
IsIn x (y ∷ ys) = (x ≡ y) ⊎ IsIn x ys

abbrev Leads : String → List String → Type 0
Leads x ys = All (λ y. precedence x ≤ precedence y) ys

pub data IsLeast (other : String) (x : String) : List String → Type 0 where
  nothing : x ≡ other → IsLeast other x []
  least : {ys : List String} → IsIn x ys → Leads x ys → IsLeast other x ys

-- What the loop returns from a choice on: the choice itself, or a failure of a later attempt that
-- goes before it.
record Follows (best : CanonicalFailure) (x : String) (ys : List String) : Type 0 where
  found : (x ≡ best.code) ⊎ IsIn x ys
  lower : precedence x ≤ precedence best.code
  leads : Leads x ys

abbrev chosen_at : CanonicalFailure → ProviderResponse → Choice
chosen_at f r = record { best = f; chosen = some r }

replaced-Follows :
    (b f : CanonicalFailure) (x : String) (ys : List String)
    → precedence f.code < precedence b.code
    → Follows f x ys
    → Follows b x (f.code ∷ ys)
replaced-Follows b f x ys lt h = record {
  found = inr h.found;
  lower = omega arith;
  leads = (h.lower, h.leads);
}

or_later : (x b f : String) (ys : List String) → (x ≡ b) ⊎ IsIn x ys → (x ≡ b) ⊎ IsIn x (f ∷ ys)
or_later x b f ys (inl same) = inl same
or_later x b f ys (inr later) = inr (inr later)

kept-Follows :
    (b f : CanonicalFailure) (x : String) (ys : List String)
    → precedence b.code ≤ precedence f.code
    → Follows b x ys
    → Follows b x (f.code ∷ ys)
kept-Follows b f x ys le h = record {
  found = or_later x b.code f.code ys h.found;
  lower = h.lower;
  leads = (omega arith, h.leads);
}

picked-Follows :
    (texts : JsonTexts) (phase : Phase) (b f : CanonicalFailure) (r s : ProviderResponse)
    (rest : List ProviderAttempt) (t : Bool)
    → ltb (precedence f.code) (precedence b.code) ≡ t
    → ((g : CanonicalFailure) (u : ProviderResponse)
        → Follows g
            (choose texts phase (chosen_at g u) rest).best.code
            (failure_codes texts phase rest))
    → Follows b
        (choose texts phase (if t then chosen_at f s else chosen_at b r) rest).best.code
        (f.code ∷ failure_codes texts phase rest)
picked-Follows texts phase b f r s rest true before ih =
    replaced-Follows b f _ (failure_codes texts phase rest) (ground arith) (ih f s)
picked-Follows texts phase b f r s rest false behind ih =
    kept-Follows b f _ (failure_codes texts phase rest) (ground arith) (ih b r)

choose_next-Follows :
    (texts : JsonTexts) (phase : Phase) (b : CanonicalFailure) (r : ProviderResponse)
    (a : ProviderAttempt) (o : Option ProviderResponse) (rest : List ProviderAttempt)
    → ((f : CanonicalFailure) (s : ProviderResponse)
        → Follows f
            (choose texts phase (chosen_at f s) rest).best.code
            (failure_codes texts phase rest))
    → Follows b
        (choose texts phase (consider texts phase (chosen_at b r) a o) rest).best.code
        (code_of texts phase a o (failure_codes texts phase rest))
unfolding consider better
choose_next-Follows texts phase b r a none rest ih = ih b r
choose_next-Follows texts phase b r a (some s) rest ih =
    picked-Follows texts phase b (canonical_failure texts a.provider.provider_code phase s) r s rest
      _ refl ih

choose-Follows :
    (texts : JsonTexts) (phase : Phase) (b : CanonicalFailure) (r : ProviderResponse)
    (attempts : List ProviderAttempt)
    → Follows b
        (choose texts phase (chosen_at b r) attempts).best.code
        (failure_codes texts phase attempts)
unfolding choose
choose-Follows texts phase b r [] = record { found = inl refl; lower = omega arith; leads = tt }
choose-Follows texts phase b r (a ∷ rest) =
    choose_next-Follows texts phase b r a (response_of texts phase a) rest
      (λ f s. choose-Follows texts phase f s rest)

started-IsLeast :
    (f : CanonicalFailure) (x other : String) (ys : List String)
    → Follows f x ys
    → IsLeast other x (f.code ∷ ys)
started-IsLeast f x other ys h = least h.found (h.lower, h.leads)

choose_first-IsLeast :
    (texts : JsonTexts) (phase : Phase) (a : ProviderAttempt) (o : Option ProviderResponse)
    (rest : List ProviderAttempt)
    → IsLeast no_choice.best.code
        (choose texts phase no_choice rest).best.code
        (failure_codes texts phase rest)
    → IsLeast no_choice.best.code
        (choose texts phase (consider texts phase no_choice a o) rest).best.code
        (code_of texts phase a o (failure_codes texts phase rest))
unfolding consider better
choose_first-IsLeast texts phase a none rest ih = ih
choose_first-IsLeast texts phase a (some r) rest ih =
    let f = canonical_failure texts a.provider.provider_code phase r in
    started-IsLeast f _ no_choice.best.code (failure_codes texts phase rest)
      (choose-Follows texts phase f r rest)

choose-IsLeast :
    (texts : JsonTexts) (phase : Phase) (attempts : List ProviderAttempt)
    → IsLeast no_choice.best.code
        (choose texts phase no_choice attempts).best.code
        (failure_codes texts phase attempts)
unfolding choose
choose-IsLeast texts phase [] = nothing refl
choose-IsLeast texts phase (a ∷ rest) =
    choose_first-IsLeast texts phase a (response_of texts phase a) rest
      (choose-IsLeast texts phase rest)

-- The code of the response that stands for several failed attempts is the canonical failure of one
-- of them, and no attempt's failure goes before it in the precedence; attempts that have neither a
-- response nor an error's text do not count. Where none counts, it is NO_PROVIDER_AVAILABLE.
pub build_final_failure-IsLeast :
    (texts : JsonTexts) (attempts : List ProviderAttempt) (phase : Phase)
    → IsLeast "NO_PROVIDER_AVAILABLE"
        (build_final_failure texts attempts phase).public_code
        (failure_codes texts phase attempts)
unfolding build_final_failure finish_failure get_canonical_failure
build_final_failure-IsLeast texts [] phase = nothing refl
build_final_failure-IsLeast texts (a ∷ rest) phase = choose-IsLeast texts phase (a ∷ rest)
