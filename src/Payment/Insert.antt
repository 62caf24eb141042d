-- ===== src/Payment/Insert.antt =====
-- createWithGeneratedID of internal/service/payment_service.go: insert under fresh ids, and try
-- again with others where an id is taken.
pub mod Retry
use gtd_api.Prelude.{
  ℕ, zero, suc, ◌+◌, ◌-◌, String, ◌≡◌, refl, Bool, true, false, Option, none, some, List, [], ◌∷◌,
  ◌++◌, arith, if◌then◌else◌, Bool-cases,
}
use gtd_api.Errors.{
  GoError, payment_error, is_unique_violation, is_reference_unique_violation, Result, ok, err,
  is_reference-is_unique,
}
use gtd_api.Payment.Model.{Payment}
use gtd_api.Payment.Store.{Env, Effect, Inserted, inserted, scan_inserted}

unfoldable pub with_ids : Env → (i : ℕ) → Payment → Payment
with_ids env i p = record p { payment_id = (env.refs i).0; partner_ref = (env.refs i).1 }

abbrev pub duplicate_reference : GoError → GoError
duplicate_reference = payment_error 409 "DUPLICATE_REFERENCE" "referenceId already used"

-- What follows the answer to an insertion; `again` is the rest of the loop.
abbrev pub after_insert : (GoError → Result Payment) → Payment → Result Inserted → Result Payment
after_insert again p (ok row) = ok (scan_inserted p row)
after_insert again p (err e) =
    if is_unique_violation e
    then again e
    else if is_reference_unique_violation e
    then err (duplicate_reference e)
    else err e

-- The rounds that are left, from the i-th on; `last` is the error of the round before.
unfoldable pub insert_loop : (rounds i : ℕ) → Env → Payment → (last : GoError) → Result Payment
unfolding with_ids scan_inserted
insert_loop zero i env p last = err last
insert_loop (suc rounds) i env p last =
    after_insert (λ e. insert_loop rounds (suc i) env p e) (with_ids env i p)
      (env.insert i (with_ids env i p))
