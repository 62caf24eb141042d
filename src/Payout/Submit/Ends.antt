-- ===== src/Payout/Submit/Ends.antt =====
-- How a submission ends: what it returns, the row that it writes, and the provider's answer behind it.
use gtd_api.Prelude.{
  String, ◌≡◌, refl, ◌⊎◌, inl, inr, true, false, Option, none, some, List, [], ◌∷◌, All, arith,
  Bool-cases,
}
use gtd_api.Errors.{GoError, Result, ok, err}
use gtd_api.Run.{Run, return_ok, fail, write}
use gtd_api.Run.Keeps.{Keeps, keeps_rules}
use gtd_api.Payout.Model.{Payout, PayoutExecOutput, processing, failed}
use gtd_api.Payout.Store.{
  Env, Effect, PayoutProviderClient, inquiry_called, inquiry_inserted, inserted, pay_called, posted,
  marked_sent, attempt_counted, updated,
}
use gtd_api.Payout.Failure.{map_payout_submit_error, is_uncertain_payout_error, is_retryable}
use gtd_api.Payout.Callback.{
  Delivery, delivered, no_target, undelivered, try_send_final_callback, deliver, deliver_to,
  settle_callback,
}
use gtd_api.Payout.Routing.{candidates}
use gtd_api.Payout.Submit.{
  submit_with_fallback, submit_to, submit_each, after_pay, reject, accepted_by, with_submit_error,
  kept_uncertain, rejected_by, exec_input,
}
use gtd_api.Payout.Submit.Once.{answers}

abbrev pub last {ℓ} : {A : Type ℓ} → List A → Option A
last [] = none
last (x ∷ []) = some x
last (x ∷ y ∷ xs) = last (y ∷ xs)

-- The rows that are written, in their order.
abbrev pub rows : List Effect → List Payout
rows [] = []
rows (updated p ∷ es) = p ∷ rows es
rows (_ ∷ es) = rows es

-- A payout is returned with the status that the last provider accepted it with, or as Processing;
-- an error is the database's, or stands for the last provider's certain rejection.
abbrev pub EndsAs : Env → List (Result PayoutExecOutput) → Result Payout → Type 0
EndsAs env given (ok q) =
    ((out : PayoutExecOutput) × (last given ≡ some (ok out)) × (q.status ≡ out.status))
    ⊎ (q.status ≡ processing)
EndsAs env given (err x) =
    ((q : Payout) × (env.update q ≡ some x))
    ⊎ ((e : GoError) × (last given ≡ some (err e))
        × (x ≡ map_payout_submit_error e)
        × (is_uncertain_payout_error e ≡ false)
        × (is_retryable (map_payout_submit_error e) ≡ false))

-- What is returned is the one row that is written; with an error, no row or one Failed row is.
abbrev pub WritesAs : List Payout → Result Payout → Type 0
WritesAs written (ok q) = written ≡ q ∷ []
WritesAs written (err x) =
    (written ≡ []) ⊎ ((q : Payout) × (written ≡ q ∷ []) × (q.status ≡ failed))

pub record IsEnd (env : Env) (given : List (Result PayoutExecOutput)) (r : Run Effect Payout)
    : Type 0 where
  pub ends : EndsAs env given r.outcome
  pub writes : WritesAs (rows r.effects) r.outcome

abbrev pub IsQuiet : Effect → Type 0
IsQuiet (pay_called code input answer) = ◌≡◌ true false
IsQuiet (updated p) = ◌≡◌ true false
IsQuiet (inserted p) = ◌≡◌ true false
IsQuiet _ = Unit

quiet : (es : List Effect) → All IsQuiet es → (answers es ≡ []) × (rows es ≡ [])
quiet [] h = (refl, refl)
quiet (pay_called c i a ∷ es) h = ground arith
quiet (updated c ∷ es) h = ground arith
quiet (inquiry_called c ∷ es) h = quiet es h.1
quiet (inquiry_inserted c ∷ es) h = quiet es h.1
quiet (inserted c ∷ es) h = quiet es h.1
quiet (posted u e p ∷ es) h = quiet es h.1
quiet (marked_sent c ∷ es) h = quiet es h.1
quiet (attempt_counted c ∷ es) h = quiet es h.1

settle_callback-IsQuiet :
    (env : Env) (p : Payout) (d : Delivery) → Keeps IsQuiet (settle_callback env p d)
unfolding settle_callback
settle_callback-IsQuiet env p delivered = ground arith
settle_callback-IsQuiet env p no_target = ground arith
settle_callback-IsQuiet env p (undelivered e) = search keeps_rules

deliver_to-IsQuiet :
    (env : Env) (p : Payout) (event : String) (r : Result (String × String))
    (next : Delivery → Run Effect Payout)
    → ((d : Delivery) → Keeps IsQuiet (next d))
    → Keeps IsQuiet (deliver_to env p event r next)
unfolding deliver_to
deliver_to-IsQuiet env p event (err e) next h = h (undelivered e)
deliver_to-IsQuiet env p event (ok target) next h = search keeps_rules

pub try_send-IsQuiet : (env : Env) (p : Payout) → Keeps IsQuiet (try_send_final_callback env p)
unfolding try_send_final_callback deliver
try_send-IsQuiet env p = search (keeps_rules, deliver_to-IsQuiet, settle_callback-IsQuiet)

last-cons :
    {A : Type 0} (a x : A) (later : List A) → last later ≡ some x → last (a ∷ later) ≡ some x
last-cons a x [] h = ground arith
last-cons a x (b ∷ later) h = h

save-IsEnd :
    (env : Env) (a : Result PayoutExecOutput) (q : Payout) (o : Option GoError)
    → env.update q ≡ o
    → EndsAs env (a ∷ []) (ok q)
    → (let r = write o (updated q) fail (return_ok q) in IsEnd env (a ∷ answers r.effects) r)
save-IsEnd env a q none e h = record { ends = h; writes = refl }
save-IsEnd env a q (some x) e h = record { ends = inl (q, e); writes = inl refl }

reject-IsEnd :
    (env : Env) (p : Payout) (a : PayoutProviderClient) (e : GoError) (o : Option GoError)
    → env.update (rejected_by env p a e) ≡ o
    → is_uncertain_payout_error e ≡ false
    → is_retryable (map_payout_submit_error e) ≡ false
    → (let r = reject env p a e in IsEnd env (err e ∷ answers r.effects) r)
unfolding reject rejected_by
reject-IsEnd env p a e (some x) h u r =
    rw h (record { ends = inl (rejected_by env p a e, h); writes = inl refl })
reject-IsEnd env p a e none h u r =
    let still = quiet _ (try_send-IsQuiet env (rejected_by env p a e)).all in
    rw h (record {
      ends = inr (e, rw still.0 refl, refl, u, r);
      writes = inr (rejected_by env p a e, rw still.1 refl, refl);
    })

EndsAs-cons :
    (env : Env) (a : Result PayoutExecOutput) (later : List (Result PayoutExecOutput))
    (o : Result Payout)
    → EndsAs env later o
    → EndsAs env (a ∷ later) o
EndsAs-cons env a later (ok q) (inl (out, l, s)) = inl (out, last-cons a (ok out) later l, s)
EndsAs-cons env a later (ok q) (inr s) = inr s
EndsAs-cons env a later (err x) (inl s) = inl s
EndsAs-cons env a later (err x) (inr (e, l, s, u, r)) =
    inr (e, last-cons a (err e) later l, s, u, r)

after_pay-IsEnd :
    (env : Env) (again : Payout → Run Effect Payout) (p : Payout) (a : PayoutProviderClient)
    (answer : Result PayoutExecOutput)
    → ((q : Payout) → IsEnd env (answers (again q).effects) (again q))
    → (let r = after_pay env again p a answer in IsEnd env (answer ∷ answers r.effects) r)
unfolding after_pay accepted_by kept_uncertain
after_pay-IsEnd env again p a (ok out) h =
    save-IsEnd env (ok out) (accepted_by env p a out) (env.update (accepted_by env p a out)) refl
      (inl (out, refl, refl))
after_pay-IsEnd env again p a (err e) h = elim (Bool-cases (is_uncertain_payout_error e)) [
  | inl u ↦ rw u (
      save-IsEnd env (err e) (kept_uncertain env p a e) (env.update (kept_uncertain env p a e)) refl
        (inr refl))
  | inr u ↦ elim (Bool-cases (is_retryable (map_payout_submit_error e))) [
    | inl r ↦
        let q = with_submit_error env p e in
        rw (u, r)
          (record {
            ends = EndsAs-cons env (err e) (answers (again q).effects) (again q).outcome (h q).ends;
            writes = (h q).writes;
          })
    | inr r ↦ rw (u, r) (reject-IsEnd env p a e (env.update (rejected_by env p a e)) refl u r)
  ]
]

idle-IsEnd :
    (env : Env) (q : Payout) (o : Option GoError)
    → env.update q ≡ o
    → q.status ≡ processing
    → (let r = write o (updated q) fail (return_ok q) in IsEnd env (answers r.effects) r)
idle-IsEnd env q none e h = record { ends = inr h; writes = refl }
idle-IsEnd env q (some x) e h = record { ends = inl (q, e); writes = inl refl }

submit_each-IsEnd :
    (env : Env) (adapters : List PayoutProviderClient) (p : Payout)
    → (let r = submit_each env adapters p in IsEnd env (answers r.effects) r)
unfolding submit_each
submit_each-IsEnd env [] p =
    let q = record p { status = processing } in idle-IsEnd env q (env.update q) refl refl
submit_each-IsEnd env (a ∷ rest) p =
    let tail =
      after_pay-IsEnd env (λ q. submit_each env rest q) p a (a.pay (exec_input p))
        (λ q. submit_each-IsEnd env rest q) in
    record { ends = tail.ends; writes = tail.writes }

-- How a submission ends, whatever the candidates answer, for a payout with candidates. If it
-- returns a payout, that is the one row that it wrote, with the status that the last provider asked
-- accepted it with, or as Processing. If it fails, either the database refused a write, or the last
-- provider asked rejected the payout for sure and with an error that is not retryable, which the
-- error stands for; and no row was written, or one that is Failed.
pub submit_with_fallback-IsEnd :
    (env : Env) (p : Payout) (adapters : List PayoutProviderClient)
    → candidates env p.method_type p.channel_code ≡ ok adapters
    → IsEnd env (answers (submit_with_fallback env p).effects) (submit_with_fallback env p)
unfolding submit_with_fallback submit_to
submit_with_fallback-IsEnd env p adapters found = rw found (submit_each-IsEnd env adapters p)
