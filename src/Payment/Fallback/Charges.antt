-- ===== src/Payment/Fallback/Charges.antt =====
-- The acceptances that the loop logs, and the answer that its decision follows.
use gtd_api.Prelude.{
  ℕ, zero, suc, ◌+◌, ◌≡◌, refl, ap, ◌⊎◌, inl, inr, true, false, Option, none, some, List, [], ◌∷◌,
  ◌++◌, arith, str_eq, Bool-cases,
}
use gtd_api.Errors.{GoError, Result, ok, err}
use gtd_api.Payment.Model.{MethodProviderBinding, PaymentCreateResponse}
use gtd_api.Payment.Store.{
  Effect, inserted, updated, create_logged, create_called, cancel_called, notified_created,
  notified_changed, callback_enqueued, recon_opened, recon_resolved,
}
use gtd_api.Payment.Selector.{next}
use gtd_api.Payment.Fallback.{
  Order, Attempts, Created, accepted, duplicate, refused, attempt, ask, advance, after_attempt,
  fallback, payment_provider_error_code, is_retryable_provider_error,
}

-- How many creations a provider accepted, by the log of the attempts.
abbrev pub acceptances : List Effect → ℕ
acceptances [] = 0
acceptances (create_logged provider true code ∷ es) = suc (acceptances es)
acceptances (create_logged provider false code ∷ es) = acceptances es
acceptances (inserted p ∷ es) = acceptances es
acceptances (updated p ∷ es) = acceptances es
acceptances (create_called provider request ∷ es) = acceptances es
acceptances (cancel_called provider p reason ∷ es) = acceptances es
acceptances (notified_created p ∷ es) = acceptances es
acceptances (notified_changed p ∷ es) = acceptances es
acceptances (callback_enqueued p e ∷ es) = acceptances es
acceptances (recon_opened r ∷ es) = acceptances es
acceptances (recon_resolved p s r ∷ es) = acceptances es

abbrev accepted_by_result : Result PaymentCreateResponse → ℕ
accepted_by_result (ok response) = 1
accepted_by_result (err e) = 0

abbrev pub accepted_by_end : Option Created → ℕ
accepted_by_end (some (accepted b response)) = 1
accepted_by_end _ = 0

acceptances-append :
    (xs ys : List Effect) → acceptances (xs ++ ys) ≡ acceptances xs + acceptances ys
acceptances-append [] ys = omega arith
acceptances-append (create_logged provider true code ∷ es) ys =
    omega (arith, acceptances-append es ys)
acceptances-append (create_logged provider false code ∷ es) ys = acceptances-append es ys
acceptances-append (inserted p ∷ es) ys = acceptances-append es ys
acceptances-append (updated p ∷ es) ys = acceptances-append es ys
acceptances-append (create_called provider request ∷ es) ys = acceptances-append es ys
acceptances-append (cancel_called provider p reason ∷ es) ys = acceptances-append es ys
acceptances-append (notified_created p ∷ es) ys = acceptances-append es ys
acceptances-append (notified_changed p ∷ es) ys = acceptances-append es ys
acceptances-append (callback_enqueued p e ∷ es) ys = acceptances-append es ys
acceptances-append (recon_opened r ∷ es) ys = acceptances-append es ys
acceptances-append (recon_resolved p s r ∷ es) ys = acceptances-append es ys

acceptances-attempt :
    (o : Order) (b : MethodProviderBinding)
    → acceptances (attempt o b).0 ≡ accepted_by_result (attempt o b).1
unfolding attempt ask
acceptances-attempt o b = ground arith

-- What a decision says of the answer of the binding that was asked last.
abbrev pub IsDecision : Order → MethodProviderBinding → Created → Type 0
IsDecision o b (accepted x response) = (x ≡ b) × ((attempt o b).1 ≡ ok response)
IsDecision o b (duplicate x e) =
    (x ≡ b)
    × ((attempt o b).1 ≡ err e)
    × (str_eq (payment_provider_error_code e) "PROVIDER_DUPLICATE" ≡ true)
IsDecision o b (refused x e) =
    (x ≡ b)
    × ((attempt o b).1 ≡ err e)
    × (str_eq (payment_provider_error_code e) "PROVIDER_DUPLICATE" ≡ false)
    × ((is_retryable_provider_error e ≡ false) ⊎ (next o.env.clients o.bindings b ≡ none))

-- The effects of asking the bindings one after another.
abbrev pub asked_effects : Order → List MethodProviderBinding → List Effect
asked_effects o [] = []
asked_effects o (b ∷ rest) = (attempt o b).0 ++ asked_effects o rest

-- The bindings that the loop asks from `b` on, and the decision that it comes to. Each but the last
-- fails with a retryable error that is no duplicate, and the one behind it is the next healthy
-- binding of the group; the decision is on the answer of the last. A loop whose fuel is used up
-- comes to no decision.
pub data IsTrail (o : Order)
    : (fuel : ℕ)
      → MethodProviderBinding
      → List MethodProviderBinding
      → Option Created
      → Type 0 where
  cut_off : {b : MethodProviderBinding} → IsTrail o 0 b [] none
  decided :
      {fuel : ℕ} {b : MethodProviderBinding} {d : Created}
      → IsDecision o b d
      → IsTrail o (suc fuel) b (b ∷ []) (some d)
  failed_over :
      {fuel : ℕ} {b n : MethodProviderBinding} {rest : List MethodProviderBinding}
      {end : Option Created} {e : GoError}
      → (attempt o b).1 ≡ err e
      → str_eq (payment_provider_error_code e) "PROVIDER_DUPLICATE" ≡ false
      → is_retryable_provider_error e ≡ true
      → next o.env.clients o.bindings b ≡ some n
      → IsTrail o fuel n rest end
      → IsTrail o (suc fuel) b (b ∷ rest) end

-- What a run of the loop is.
pub record Follows (o : Order) (fuel : ℕ) (b : MethodProviderBinding) (r : Attempts) : Type 0 where
  pub asked : List MethodProviderBinding
  pub effects : r.0 ≡ asked_effects o asked
  pub trail : IsTrail o fuel b asked r.1
  pub charged : acceptances r.0 ≡ accepted_by_end r.1

-- The same behind the attempt on `b`, whose answer is `a`.
record FollowsUp (o : Order) (fuel : ℕ) (b : MethodProviderBinding)
    (a : Result PaymentCreateResponse) (r : Attempts) : Type 0 where
  later : List MethodProviderBinding
  effects : r.0 ≡ asked_effects o later
  trail : IsTrail o (suc fuel) b (b ∷ later) r.1
  charged : accepted_by_result a + acceptances r.0 ≡ accepted_by_end r.1

stops-FollowsUp :
    (o : Order) (fuel : ℕ) (b : MethodProviderBinding) (a : Result PaymentCreateResponse)
    (d : Created)
    → IsDecision o b d
    → accepted_by_result a ≡ accepted_by_end (some d)
    → FollowsUp o fuel b a ([], some d)
stops-FollowsUp o fuel b a d h n = record {
  later = [];
  effects = refl;
  trail = decided h;
  charged = omega (arith, n);
}

advance-FollowsUp :
    (o : Order) (fuel : ℕ) (go : MethodProviderBinding → Attempts) (b : MethodProviderBinding)
    (following : Option MethodProviderBinding) (x : GoError)
    → ((n : MethodProviderBinding) → Follows o fuel n (go n))
    → next o.env.clients o.bindings b ≡ following
    → (attempt o b).1 ≡ err x
    → str_eq (payment_provider_error_code x) "PROVIDER_DUPLICATE" ≡ false
    → is_retryable_provider_error x ≡ true
    → FollowsUp o fuel b (err x) (advance go b x following)
advance-FollowsUp o fuel go b none x h last e other retry =
    stops-FollowsUp o fuel b (err x) (refused b x) (refl, e, other, inr last) refl
advance-FollowsUp o fuel go b (some n) x h step e other retry = record {
  later = (h n).asked;
  effects = (h n).effects;
  trail = failed_over e other retry step (h n).trail;
  charged = omega (arith, (h n).charged);
}

after_attempt-FollowsUp :
    (o : Order) (fuel : ℕ) (go : MethodProviderBinding → Attempts) (b : MethodProviderBinding)
    (following : Option MethodProviderBinding) (a : Result PaymentCreateResponse)
    → ((n : MethodProviderBinding) → Follows o fuel n (go n))
    → next o.env.clients o.bindings b ≡ following
    → (attempt o b).1 ≡ a
    → FollowsUp o fuel b a (after_attempt go b following a)
after_attempt-FollowsUp o fuel go b following (ok response) h n e =
    stops-FollowsUp o fuel b (ok response) (accepted b response) (refl, e) refl
after_attempt-FollowsUp o fuel go b following (err x) h n e =
    elim (Bool-cases (str_eq (payment_provider_error_code x) "PROVIDER_DUPLICATE")) [
      | inl dup ↦ rw dup (stops-FollowsUp o fuel b (err x) (duplicate b x) (refl, e, dup) refl)
      | inr other ↦ elim (Bool-cases (is_retryable_provider_error x)) [
        | inl retry ↦
            rw (other, retry) (advance-FollowsUp o fuel go b following x h n e other retry)
        | inr final ↦
            rw (other, final)
              (stops-FollowsUp o fuel b (err x) (refused b x) (refl, e, other, inl final) refl)
      ]
    ]

-- Whatever the adapters answer, the loop over the providers asks them one after another, beginning
-- with the binding that it is given, and does nothing else. Each but the last that it asks fails
-- with a retryable error that is no duplicate, and is followed by the next healthy binding of the
-- group. The loop ends with the last one's response; with a duplicate only on its
-- PROVIDER_DUPLICATE; and with a failure only on its error that is no duplicate and either is not
-- retryable or has no healthy binding behind it. Only where its fuel is used up it ends with
-- neither. It logs exactly one accepted creation if it ends with a response, and none otherwise.
pub fallback_charges_once :
    (fuel : ℕ) (o : Order) (b : MethodProviderBinding) → Follows o fuel b (fallback fuel o b)
unfolding fallback
fallback_charges_once zero o b = record {
  asked = [];
  effects = refl;
  trail = cut_off;
  charged = refl;
}
fallback_charges_once (suc fuel) o b =
    let up =
      after_attempt-FollowsUp o fuel (λ n. fallback fuel o n) b (next o.env.clients o.bindings b)
        (attempt o b).1 (λ n. fallback_charges_once fuel o n) refl refl in
    record {
      asked = b ∷ up.later;
      effects = ap (λ es. (attempt o b).0 ++ es) up.effects;
      trail = up.trail;
      charged = omega (
        arith,
        up.charged,
        acceptances-attempt o b,
        acceptances-append (attempt o b).0
            (after_attempt (λ n. fallback fuel o n) b (next o.env.clients o.bindings b)
              (attempt o b).1).0,
      );
    }
