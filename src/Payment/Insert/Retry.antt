-- ===== src/Payment/Insert/Retry.antt =====
-- What the insertion under fresh ids comes to.
use gtd_api.Prelude.{
  ℕ, zero, suc, ◌+◌, ◌<◌, ◌≡◌, refl, ◌⊎◌, inl, inr, arith, Bool-cases, sym, subst,
}
use gtd_api.Errors.{
  GoError, is_unique_violation, is_reference_unique_violation, is_reference-is_unique, Result, ok,
  err,
}
use gtd_api.Payment.Model.{Payment}
use gtd_api.Payment.Store.{Env, Inserted, scan_inserted}
use gtd_api.Payment.Insert.{with_ids, insert_loop, after_insert}

-- A round of the loop, from the i-th on: its number behind `i`, which is below `rounds`.
abbrev pub InsertFits : (rounds i : ℕ) → Env → Payment → (last : GoError) → Result Payment → Type 0
InsertFits rounds i env p last (ok q) =
    (k : ℕ) × (row : Inserted) × (k < rounds)
    × (env.insert (i + k) (with_ids env (i + k) p) ≡ ok row)
    × (q ≡ scan_inserted (with_ids env (i + k) p) row)
InsertFits rounds i env p last (err e) =
    (e ≡ last) ⊎ ((k : ℕ) × (k < rounds) × (env.insert (i + k) (with_ids env (i + k) p) ≡ err e))

shift :
    (rounds i : ℕ) (env : Env) (p : Payment) (x : GoError) (last : GoError) (r : Result Payment)
    → env.insert i (with_ids env i p) ≡ err x
    → InsertFits rounds (suc i) env p x r
    → InsertFits (suc rounds) i env p last r
shift rounds i env p x last (ok q) failed (k, row, below, answered, same) =
    let e : suc i + k ≡ i + suc k = omega arith in
    (
      suc k,
      row,
      omega arith,
      subst (λ n. env.insert n (with_ids env n p) ≡ ok row) e answered,
      subst (λ n. q ≡ scan_inserted (with_ids env n p) row) e same,
    )
shift rounds i env p x last (err e) failed (inl same) =
    let z : i ≡ i + 0 = omega arith in
    inr (
      0,
      omega arith,
      subst (λ y. env.insert (i + 0) (with_ids env (i + 0) p) ≡ err y) (sym same)
          (subst (λ n. env.insert n (with_ids env n p) ≡ err x) z failed),
    )
shift rounds i env p x last (err e) failed (inr (k, below, answered)) =
    let n : suc i + k ≡ i + suc k = omega arith in
    inr (suc k, omega arith, subst (λ m. env.insert m (with_ids env m p) ≡ err e) n answered)

first_round :
    (rounds i : ℕ) (env : Env) (p : Payment) (last : GoError) (answer : Result Inserted)
    (again : GoError → Result Payment)
    → env.insert i (with_ids env i p) ≡ answer
    → ((x : GoError) → InsertFits rounds (suc i) env p x (again x))
    → InsertFits (suc rounds) i env p last (after_insert again (with_ids env i p) answer)
first_round rounds i env p last (ok row) again answered h =
    let z : i ≡ i + 0 = omega arith in
    (
      0,
      row,
      omega arith,
      subst (λ n. env.insert n (with_ids env n p) ≡ ok row) z answered,
      subst (λ n. scan_inserted (with_ids env i p) row ≡ scan_inserted (with_ids env n p) row) z
          refl,
    )
first_round rounds i env p last (err x) again answered h =
    let z : i ≡ i + 0 = omega arith in
    elim (Bool-cases (is_unique_violation x)) [
      | inl unique ↦ rw unique (shift rounds i env p x last (again x) answered (h x))
      | inr other ↦ elim (Bool-cases (is_reference_unique_violation x)) [
        | inl reference ↦ cc (is_reference-is_unique x reference)
        | inr plain ↦
            rw (other, plain)
              (inr
                (0, omega arith, subst (λ n. env.insert n (with_ids env n p) ≡ err x) z answered))
      ]
    ]

-- Whatever the number of its rounds, the loop returns a row only as the database gave it, in one of
-- its rounds, to the payment with that round's fresh ids. An error that it returns is, word for
-- word, the one that the database gave in one of its rounds, or the one that it started with: it
-- never wraps an error as DUPLICATE_REFERENCE.
pub insert_loop-fits :
    (rounds i : ℕ) (env : Env) (p : Payment) (last : GoError)
    → InsertFits rounds i env p last (insert_loop rounds i env p last)
unfolding insert_loop
insert_loop-fits zero i env p last = inl refl
insert_loop-fits (suc rounds) i env p last =
    first_round rounds i env p last (env.insert i (with_ids env i p))
      (λ e. insert_loop rounds (suc i) env p e) refl (λ x. insert_loop-fits rounds (suc i) env p x)
