-- ===== src/Payout/Submit/Accepted.antt =====
-- What a submission writes, by the last answer of a provider before it.
use gtd_api.Prelude.{
  String, ◌≡◌, refl, true, false, Bool-cases, inl, inr, ◌||◌, Option, none, some, List, [], ◌∷◌,
  All, arith, if◌then◌else◌,
}
use gtd_api.Prelude.Int.{pos, ltb_ℤ}
use gtd_api.Errors.{GoError, Result, ok, err}
use gtd_api.Run.{Run, fail}
use gtd_api.Payout.Model.{Payout, PayoutExecOutput, processing, failed}
use gtd_api.Payout.Store.{
  Env, Effect, PayoutProviderClient, pay_called, updated, inquiry_called, inquiry_inserted,
  inserted, posted, marked_sent, attempt_counted, update_payout,
}
use gtd_api.Payout.Failure.{is_uncertain_payout_error, is_retryable, map_payout_submit_error}
use gtd_api.Payout.Submit.{
  submit_with_fallback, submit_to, submit_each, after_pay, accepted_by, kept_uncertain, rejected_by,
  with_submit_error, reject, exec_input,
}
use gtd_api.Payout.Submit.Ends.{IsQuiet, try_send-IsQuiet}
use gtd_api.Payout.Routing.{candidates}

-- What no submission computes again.
pub record IsSameSum (p q : Payout) : Type 0 where
  pub sent : q.send_amount ≡ p.send_amount
  pub total : q.total_amount ≡ p.total_amount
  pub completed : q.completed_at ≡ p.completed_at

-- The row behind an acceptance.
pub record IsAccepted (code : String) (out : PayoutExecOutput) (p q : Payout) : Type 0 where
  pub provider : q.provider ≡ code
  pub status : q.status ≡ out.status
  pub failure : (q.failed_reason ≡ none) × (q.failed_code ≡ none) × (q.failed_at ≡ none)
  pub fee : q.fee ≡ (if ltb_ℤ (pos 0) out.fee then out.fee else p.fee)

-- The row behind an error.
pub record IsUnpaid (e : GoError) (p q : Payout) : Type 0 where
  pub status : q.status ≡ (
      if is_uncertain_payout_error e || is_retryable (map_payout_submit_error e)
      then processing
      else failed)
  pub fee : q.fee ≡ p.fee

abbrev pub Asked : Type 0
Asked = Option (String × Result PayoutExecOutput)

abbrev pub IsWritten : Payout → Asked → Payout → Type 0
IsWritten p none q = IsSameSum p q × (q.status ≡ processing) × (q.fee ≡ p.fee)
IsWritten p (some (code, ok out)) q = IsSameSum p q × IsAccepted code out p q
IsWritten p (some (code, err e)) q = IsSameSum p q × IsUnpaid e p q

-- Every row that the effects write fits the last answer before it; `asked` is the answer so far.
abbrev pub Writes : Payout → Asked → List Effect → Type 0
Writes p asked [] = Unit
Writes p asked (pay_called code input answer ∷ es) = Writes p (some (code, answer)) es
Writes p asked (updated q ∷ es) = IsWritten p asked q × Writes p asked es
Writes p asked (inquiry_called code ∷ es) = Writes p asked es
Writes p asked (inquiry_inserted q ∷ es) = Writes p asked es
Writes p asked (inserted q ∷ es) = ◌≡◌ true false
Writes p asked (posted url event q ∷ es) = Writes p asked es
Writes p asked (marked_sent id ∷ es) = Writes p asked es
Writes p asked (attempt_counted id ∷ es) = Writes p asked es

quiet-Writes : (p : Payout) (asked : Asked) (es : List Effect) → All IsQuiet es → Writes p asked es
quiet-Writes p asked [] h = tt
quiet-Writes p asked (pay_called code input answer ∷ es) h = ground arith
quiet-Writes p asked (updated q ∷ es) h = ground arith
quiet-Writes p asked (inquiry_called code ∷ es) h = quiet-Writes p asked es h.1
quiet-Writes p asked (inquiry_inserted q ∷ es) h = quiet-Writes p asked es h.1
quiet-Writes p asked (inserted q ∷ es) h = ground arith
quiet-Writes p asked (posted url event q ∷ es) h = quiet-Writes p asked es h.1
quiet-Writes p asked (marked_sent id ∷ es) h = quiet-Writes p asked es h.1
quiet-Writes p asked (attempt_counted id ∷ es) h = quiet-Writes p asked es h.1

-- A write that may fail, and what follows it.
write-Writes :
    (env : Env) (p q : Payout) (asked : Asked) (o : Option GoError) (next : Run Effect Payout)
    → env.update q ≡ o
    → IsWritten p asked q
    → Writes p asked next.effects
    → Writes p asked (update_payout env q fail next).effects
write-Writes env p q asked none next e w h = rw e (w, h)
write-Writes env p q asked (some x) next e w h = rw e tt

-- The row that the loop carries along, whose data of the provider alone changes.
record IsCarried (p x : Payout) : Type 0 where
  same : IsSameSum p x
  fee : x.fee ≡ p.fee

accepted_by-IsAccepted :
    (env : Env) (p x : Payout) (a : PayoutProviderClient) (out : PayoutExecOutput)
    → IsCarried p x
    → IsSameSum p (accepted_by env x a out) × IsAccepted a.code out p (accepted_by env x a out)
unfolding accepted_by
accepted_by-IsAccepted env p x a out h = (
  record { sent = h.same.sent; total = h.same.total; completed = h.same.completed },
  record { provider = refl; status = refl; failure = (refl, refl, refl); fee = rw h.fee refl },
)

rejected_by-IsWritten :
    (env : Env) (p x : Payout) (a : PayoutProviderClient) (e : GoError)
    → IsCarried p x
    → (is_uncertain_payout_error e || is_retryable (map_payout_submit_error e)) ≡ false
    → IsWritten p (some (a.code, err e)) (rejected_by env x a e)
unfolding rejected_by with_submit_error
rejected_by-IsWritten env p x a e h sure = (
  record { sent = h.same.sent; total = h.same.total; completed = h.same.completed },
  record { status = rw sure refl; fee = h.fee },
)

kept_uncertain-IsWritten :
    (env : Env) (p x : Payout) (a : PayoutProviderClient) (e : GoError)
    → IsCarried p x
    → is_uncertain_payout_error e ≡ true
    → IsWritten p (some (a.code, err e)) (kept_uncertain env x a e)
unfolding kept_uncertain with_submit_error
kept_uncertain-IsWritten env p x a e h unsure = (
  record { sent = h.same.sent; total = h.same.total; completed = h.same.completed },
  record { status = rw unsure refl; fee = h.fee },
)

with_submit_error-IsCarried :
    (env : Env) (p x : Payout) (e : GoError)
    → IsCarried p x
    → IsCarried p (with_submit_error env x e)
unfolding with_submit_error
with_submit_error-IsCarried env p x e h = record {
  same = record { sent = h.same.sent; total = h.same.total; completed = h.same.completed };
  fee = h.fee;
}

reject-Writes :
    (env : Env) (p x : Payout) (a : PayoutProviderClient) (e : GoError)
    → IsCarried p x
    → (is_uncertain_payout_error e || is_retryable (map_payout_submit_error e)) ≡ false
    → Writes p (some (a.code, err e)) (reject env x a e).effects
unfolding reject
reject-Writes env p x a e h sure =
    write-Writes env p (rejected_by env x a e) (some (a.code, err e)) _ _ refl
      (rejected_by-IsWritten env p x a e h sure)
      (quiet-Writes p (some (a.code, err e)) _ (try_send-IsQuiet env (rejected_by env x a e)).all)

-- The answer so far is one after which the loop goes on.
abbrev GoesOn : Asked → Type 0
GoesOn none = Unit
GoesOn (some (code, ok out)) = ◌≡◌ true false
GoesOn (some (code, err e)) = is_retryable (map_payout_submit_error e) ≡ true

after_pay-Writes :
    (env : Env) (again : Payout → Run Effect Payout) (p x : Payout) (a : PayoutProviderClient)
    (r : Result PayoutExecOutput)
    → IsCarried p x
    → ((y : Payout)
        → IsCarried p y
        → GoesOn (some (a.code, r))
        → Writes p (some (a.code, r)) (again y).effects)
    → Writes p (some (a.code, r)) (after_pay env again x a r).effects
unfolding after_pay
after_pay-Writes env again p x a (ok out) h k =
    write-Writes env p (accepted_by env x a out) (some (a.code, ok out)) _ _ refl
      (accepted_by-IsAccepted env p x a out h) tt
after_pay-Writes env again p x a (err e) h k = elim (Bool-cases (is_uncertain_payout_error e)) [
  | inl unsure ↦ rw unsure (
      write-Writes env p (kept_uncertain env x a e) (some (a.code, err e)) _ _ refl
        (kept_uncertain-IsWritten env p x a e h unsure) tt)
  | inr sure ↦ elim (Bool-cases (is_retryable (map_payout_submit_error e))) [
    | inl retry ↦
        rw (sure, retry)
          (k (with_submit_error env x e) (with_submit_error-IsCarried env p x e h) retry)
    | inr final ↦ rw (sure, final) (reject-Writes env p x a e h (rw (sure, final) refl))
  ]
]

exhausted-IsWritten :
    (p x : Payout) (asked : Asked)
    → IsCarried p x
    → GoesOn asked
    → IsWritten p asked (record x { status = processing })
exhausted-IsWritten p x none h g =
    (record { sent = h.same.sent; total = h.same.total; completed = h.same.completed }, refl, h.fee)
exhausted-IsWritten p x (some (code, ok out)) h g = cc
exhausted-IsWritten p x (some (code, err e)) h g = (
  record { sent = h.same.sent; total = h.same.total; completed = h.same.completed },
  record { status = ground (arith, g); fee = h.fee },
)

submit_each-Writes :
    (env : Env) (adapters : List PayoutProviderClient) (p x : Payout) (asked : Asked)
    → IsCarried p x
    → GoesOn asked
    → Writes p asked (submit_each env adapters x).effects
unfolding submit_each
submit_each-Writes env [] p x asked h g =
    write-Writes env p (record x { status = processing }) asked _ _ refl
      (exhausted-IsWritten p x asked h g) tt
submit_each-Writes env (a ∷ rest) p x asked h g =
    after_pay-Writes env (λ y. submit_each env rest y) p x a (a.pay (exec_input x)) h
      (λ y k goes. submit_each-Writes env rest p y _ k goes)

submit_to-Writes :
    (env : Env) (p : Payout) (r : Result (List PayoutProviderClient))
    → Writes p none (submit_to env r p).effects
unfolding submit_to
submit_to-Writes env p (err e) = tt
submit_to-Writes env p (ok adapters) =
    submit_each-Writes env adapters p p none
      (record { same = record { sent = refl; total = refl; completed = refl }; fee = refl }) tt

-- Whatever the candidates answer, and whichever writes the database takes: every row that a
-- submission writes has the send_amount, the total_amount and the completed_at of the payout that
-- was submitted, also where a provider accepts it at once with Success or reports another fee. The
-- row behind an acceptance names that provider, has its status and no failure, and has the
-- provider's fee where that is positive, else the payout's. A row behind an error has the payout's
-- fee; it is Processing where the last provider's error is uncertain or retryable, and else Failed.
-- A row that no answer stands before is Processing, with the payout's fee.
pub submit_with_fallback-Writes :
    (env : Env) (p : Payout) → Writes p none (submit_with_fallback env p).effects
unfolding submit_with_fallback
submit_with_fallback-Writes env p =
    submit_to-Writes env p (candidates env p.method_type p.channel_code)
