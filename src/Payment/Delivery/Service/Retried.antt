-- ===== src/Payment/Delivery/Service/Retried.antt =====
-- What a batch of RetryPendingCallbacks sends and writes.
use mathlib.Core.List.{Mem, mem-cons_self, mem-cons_of_mem}
use gtd_api.Prelude.{
  ℕ, ◌≤◌, String, ◌≡◌, refl, Bool, true, false, Option, none, some, List, [], ◌∷◌, All, All-append,
  All-weaken, count, count-append, length, arith, if◌then◌else◌,
}
use gtd_api.Client.{Client}
use gtd_api.Errors.{Result, ok, err}
use gtd_api.Payment.Model.{Payment}
use gtd_api.Payment.Delivery.{PaymentCallbackLog}
use gtd_api.Payment.Delivery.Service.{
  DeliveryEnv, DeliveryEffect, callback_address, retry_at, retry_for, retry_row, retry_rows,
}
use gtd_api.Payment.Delivery.Service.Attempt.{
  IsDeliveryOf, IsAttempt, is_posted, is_updated, nil-IsAttempt, attempt_effects-IsAttempt,
}

-- An effect of the retry of one of the rows, where the client and the payment are the row's.
abbrev pub IsRetryOf : DeliveryEnv → List PaymentCallbackLog → DeliveryEffect → Type 0
IsRetryOf env rows e =
    (row : PaymentCallbackLog) × (client : Client) × (payment : Payment) × Mem row rows
    × (env.client_by_id row.client_id ≡ ok client)
    × (env.payment_by_id row.payment_id ≡ ok payment)
    × IsDeliveryOf env row client payment e

-- A row that the worker can deliver: its client and its payment are found, with an address.
abbrev pub has_address : Result Client → Result Payment → Bool
has_address (ok client) (ok payment) = elim (callback_address payment.callback_url) [
  | none ↦ false
  | some url ↦ true
]
has_address _ _ = false

abbrev pub is_deliverable : DeliveryEnv → PaymentCallbackLog → Bool
is_deliverable env row =
    has_address (env.client_by_id row.client_id) (env.payment_by_id row.payment_id)

abbrev one_if : Bool → ℕ
one_if b = if b then 1 else 0

abbrev is_given : Option String → Bool
is_given o = elim o [ none ↦ false | some url ↦ true ]

retry_at-IsAttempt :
    (env : DeliveryEnv) (row : PaymentCallbackLog) (client : Client) (payment : Payment)
    (o : Option String)
    → callback_address payment.callback_url ≡ o
    → IsAttempt
        (IsDeliveryOf env row client payment)
        (one_if (is_given o))
        (retry_at env row client o)
retry_at-IsAttempt env row client payment none h = nil-IsAttempt
retry_at-IsAttempt env row client payment (some url) h =
    attempt_effects-IsAttempt env row client payment url h

retry_for-IsAttempt :
    (env : DeliveryEnv) (row : PaymentCallbackLog) (rest : List PaymentCallbackLog)
    (c : Result Client) (p : Result Payment)
    → env.client_by_id row.client_id ≡ c
    → env.payment_by_id row.payment_id ≡ p
    → IsAttempt (IsRetryOf env (row ∷ rest)) (one_if (has_address c p)) (retry_for env row c p)
retry_for-IsAttempt env row rest (ok client) (ok payment) ce pe =
    let d =
      retry_at-IsAttempt env row client payment (callback_address payment.callback_url) refl in
    record {
      kind =
          All-weaken (IsDeliveryOf env row client payment) (IsRetryOf env (row ∷ rest)) _
            (λ e h. (row, client, payment, mem-cons_self, ce, pe, h)) d.kind;
      asked_once = d.asked_once;
      written = d.written;
    }
retry_for-IsAttempt env row rest (ok client) (err e) ce pe = nil-IsAttempt
retry_for-IsAttempt env row rest (err e) (ok payment) ce pe = nil-IsAttempt
retry_for-IsAttempt env row rest (err e) (err f) ce pe = nil-IsAttempt

IsRetryOf-cons :
    (env : DeliveryEnv) (row : PaymentCallbackLog) (rest : List PaymentCallbackLog)
    (e : DeliveryEffect)
    → IsRetryOf env rest e
    → IsRetryOf env (row ∷ rest) e
IsRetryOf-cons env row rest e h = (h.0, h.1, h.2, mem-cons_of_mem row h.3, h.4, h.5, h.6)

-- A batch over the rows that were fetched.
pub record IsBatch (env : DeliveryEnv) (rows : List PaymentCallbackLog) (es : List DeliveryEffect)
    : Type 0 where
  pub addressed : All (IsRetryOf env rows) es
  pub asked_at_most : count is_posted es ≤ length rows
  pub each_written : count is_updated es ≡ count (is_deliverable env) rows

pub retry_rows-IsBatch :
    (env : DeliveryEnv) (rows : List PaymentCallbackLog) → IsBatch env rows (retry_rows env rows)
unfolding retry_rows retry_row
retry_rows-IsBatch env [] = record {
  addressed = tt;
  asked_at_most = omega arith;
  each_written = refl;
}
retry_rows-IsBatch env (row ∷ rest) =
    let head = retry_for-IsAttempt env row rest _ _ refl refl in
    let tail = retry_rows-IsBatch env rest in
    let asked = count-append is_posted (retry_row env row) (retry_rows env rest) in
    let wrote = count-append is_updated (retry_row env row) (retry_rows env rest) in
    record {
      addressed =
          All-append (IsRetryOf env (row ∷ rest)) (retry_row env row) (retry_rows env rest)
            head.kind
            (All-weaken (IsRetryOf env rest) (IsRetryOf env (row ∷ rest)) _
              (IsRetryOf-cons env row rest) tail.addressed);
      asked_at_most = omega (arith, asked, head.asked_once, tail.asked_at_most);
      each_written = omega (arith, wrote, head.written, tail.each_written);
    }
