-- ===== src/Payout/Create/Retry.antt =====
-- What the insertion of a payout under fresh ids comes to.
use gtd_api.Prelude.{ℕ, zero, suc, ◌≡◌, refl, sym, subst, ◌⊎◌, inl, inr, Bool-cases}
use gtd_api.Errors.{
  GoError, is_unique_violation, is_reference_unique_violation, is_reference-is_unique, Result, ok,
  err,
}
use gtd_api.Payment.Store.{Inserted}
use gtd_api.Payout.Model.{Payout}
use gtd_api.Payout.Store.{Env}
use gtd_api.Payout.Create.{insert_payout_loop, after_payout_insert, with_payout_id}

-- A row was taken by the database under its fresh id; an error is the database's own, or the one
-- from before.
abbrev InsertFits : Env → Payout → (last : GoError) → Result Payout → Type 0
InsertFits env p last (ok q) =
    (k : ℕ) × (row : Inserted) × (env.insert k (with_payout_id env k p) ≡ ok row)
    × (q.payout_id ≡ env.ids k)
    × (q.id ≡ row.row_id)
InsertFits env p last (err e) =
    (e ≡ last) ⊎ ((k : ℕ) × (env.insert k (with_payout_id env k p) ≡ err e))

later-Fits :
    (env : Env) (i : ℕ) (p : Payout) (x last : GoError) (r : Result Payout)
    → env.insert i (with_payout_id env i p) ≡ err x
    → InsertFits env p x r
    → InsertFits env p last r
later-Fits env i p x last (ok q) failed h = h
later-Fits env i p x last (err e) failed (inl same) =
    inr (i, subst (λ y. env.insert i (with_payout_id env i p) ≡ err y) (sym same) failed)
later-Fits env i p x last (err e) failed (inr h) = inr h

round-Fits :
    (env : Env) (i : ℕ) (p : Payout) (last : GoError) (answer : Result Inserted)
    (again : GoError → Result Payout)
    → env.insert i (with_payout_id env i p) ≡ answer
    → ((x : GoError) → InsertFits env p x (again x))
    → InsertFits env p last (after_payout_insert again (with_payout_id env i p) answer)
round-Fits env i p last (ok row) again answered h = (i, row, answered, refl, refl)
round-Fits env i p last (err x) again answered h = elim (Bool-cases (is_unique_violation x)) [
  | inl unique ↦ rw unique (later-Fits env i p x last (again x) answered (h x))
  | inr other ↦ elim (Bool-cases (is_reference_unique_violation x)) [
    | inl reference ↦ cc (is_reference-is_unique x reference)
    | inr plain ↦ rw (other, plain) (inr (i, answered))
  ]
]

-- Whatever the number of its rounds, the loop returns a payout only with the fresh id of a round in
-- which the database took it, and with the id of that row. An error that it returns is the one that
-- the database gave in a round, unwrapped, or the one that it started with.
insert_payout_loop-fits :
    (rounds i : ℕ) (env : Env) (p : Payout) (last : GoError)
    → InsertFits env p last (insert_payout_loop rounds i env p last)
unfolding insert_payout_loop
insert_payout_loop-fits zero i env p last = inl refl
insert_payout_loop-fits (suc rounds) i env p last =
    round-Fits env i p last (env.insert i (with_payout_id env i p))
      (λ e. insert_payout_loop rounds (suc i) env p e) refl
      (λ x. insert_payout_loop-fits rounds (suc i) env p x)
