-- ===== src/Payment/Create/Passed.antt =====
-- What the checks of a creation let pass, and what row an insertion gives.
use gtd_api.Prelude.{ℕ, ◌≡◌, refl, Bool, true, false, Option, none, some, arith, ◌+◌}
use gtd_api.Prelude.Int.{pos, leb_ℤ}
use gtd_api.Errors.{GoError, no_cause, Result, ok, err}
use gtd_api.Payment.Model.{Payment, FeePaidBy, merchant}
use gtd_api.Payment.Store.{Env, Inserted, scan_inserted}
use gtd_api.Payment.Request.{
  ValidRequest, CreatePaymentRequest, validate, check_fields, check_with, resolve,
  normalize_fee_paid_by, reject_if, ◌otherwise◌,
}
use gtd_api.Payment.Insert.{insert_loop, with_ids}
use gtd_api.Payment.Insert.Retry.{InsertFits, insert_loop-fits}

-- A check that passed.
pub passed :
    (b : Bool) (e : GoError) (rest : Option GoError)
    → (reject_if b e otherwise rest) ≡ none
    → (b ≡ false) × (rest ≡ none)
passed true e rest h = cc
passed false e rest h = (refl, h)

pub otherwise_none : (first rest : Option GoError) → (first otherwise rest) ≡ none → rest ≡ none
otherwise_none none rest h = h
otherwise_none (some e) rest h = cc

pub check_fields-positive :
    (r : CreatePaymentRequest) (v : ValidRequest)
    → check_fields r v ≡ none
    → leb_ℤ r.amount (pos 0) ≡ false
unfolding check_fields
check_fields-positive r v h = ground arith

pub check_with-ok :
    (r : CreatePaymentRequest) (o : Option GoError) (payer : Result FeePaidBy) (v : ValidRequest)
    → check_with r o payer ≡ ok v
    → (o ≡ none) × (v.amount ≡ r.amount)
unfolding resolve
check_with-ok r (some e) payer v h = cc
check_with-ok r none (err e) v h = cc
check_with-ok r none (ok payer) v h = (refl, ground arith)

pub validate-positive :
    (r : CreatePaymentRequest) (v : ValidRequest)
    → validate r ≡ ok v
    → leb_ℤ v.amount (pos 0) ≡ false
unfolding validate
validate-positive r v h =
    let c =
      check_with-ok r (check_fields r (resolve r merchant)) (normalize_fee_paid_by r.fee_paid_by) v
        h in
    rw c.1 (check_fields-positive r (resolve r merchant) c.0)

pub validate-amount :
    (r : CreatePaymentRequest) (v : ValidRequest) → validate r ≡ ok v → v.amount ≡ r.amount
unfolding validate
validate-amount r v h =
    (check_with-ok r (check_fields r (resolve r merchant)) (normalize_fee_paid_by r.fee_paid_by) v
      h).1

-- A row that was inserted is the payment with ids, as the database gave it.
pub inserted_row :
    (env : Env) (p q : Payment)
    → insert_loop 5 0 env p no_cause ≡ ok q
    → (i : ℕ) × (row : Inserted) × (q ≡ scan_inserted (with_ids env i p) row)
inserted_row env p q made = fits (insert_loop-fits 5 0 env p no_cause) made
  where
    fits :
        {r : Result Payment}
        → InsertFits 5 0 env p no_cause r
        → r ≡ ok q
        → (i : ℕ) × (row : Inserted) × (q ≡ scan_inserted (with_ids env i p) row)
    fits {r = ok x} (k, row, below, answered, same) e = (0 + k, row, cc)
    fits {r = err x} h e = cc
