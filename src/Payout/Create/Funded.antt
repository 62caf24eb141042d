-- ===== src/Payout/Create/Funded.antt =====
-- The amounts of a new payout, and what a creation does before and after its row is inserted.
use gtd_api.Prelude.{
  All-append, ℕ, zero, suc, ◌≡◌, refl, Bool, true, false, Option, none, some, List, All, arith,
  subst, inl, inr, Bool-cases, if◌then◌else◌,
}
use gtd_api.Prelude.Int.{ℤ, ltb_ℤ, ◌≤ℤ◌, ltb_ℤ-false, sub64, IsInt64, add64-sub64}
use gtd_api.Errors.{
  GoError, Result, ok, err, is_no_rows, no_cause, is_unique_violation,
  is_reference_unique_violation,
}
use gtd_api.Run.{Run, fail}
use gtd_api.Client.{Client}
use gtd_api.Payment.Model.{FeePaidBy, merchant, customer}
use gtd_api.Payment.Store.{Inserted}
use gtd_api.Payout.Model.{Payout, PayoutInquiry}
use gtd_api.Payout.Store.{Env, Effect}
use gtd_api.Payout.Request.{
  Method, CreatePayoutRequest, validate_method, validate_create_request, trimmed,
  resolve_min_amount, resolve_fee, fee_payer_of,
}
use gtd_api.Payout.Inquiry.{run_inquiry}
use gtd_api.Payout.Callback.{try_send_processing_callback}
use gtd_api.Payout.Submit.{submit_with_fallback}
use gtd_api.Payout.Transfer.{OnTransfer, submit-OnTransfer, processing_callback-OnTransfer}
use gtd_api.Payout.Create.Order.{
  IsFunded, InsertsFirst, IsInquiry, InsertsFirst-append, inquiries_only, run_inquiry-IsInquiry,
}
use gtd_api.Payout.Create.{
  create_payout, create_for_method, create_checked, create_unless_existing, create_inquired,
  submit_inserted, insert_payout_loop, after_payout_insert, with_payout_id, build_payout,
  split_amount, Intake, is_below, payout_unavailable, behind, lookup_of, intake_of,
}

reaches_minimum :
    (r : CreatePayoutRequest) (min : ℤ)
    → validate_create_request r min ≡ none
    → ltb_ℤ r.amount min ≡ false
unfolding validate_create_request
reaches_minimum r min h = ground arith

resolve_fee-IsInt64 :
    (env : Env) (i : Intake) (q : PayoutInquiry)
    → IsInt64 env.default_bank_fee
    → IsInt64 (resolve_fee env i.method.type q)
unfolding resolve_fee
resolve_fee-IsInt64 env i q h = ground arith

build_payout-IsFunded :
    (env : Env) (i : Intake) (q : PayoutInquiry) (payer : FeePaidBy) (fee : ℤ)
    → IsInt64 i.request.amount
    → IsInt64 fee
    → i.min_amount ≡ resolve_min_amount env i.method.type i.method.channel
    → ltb_ℤ i.request.amount i.min_amount ≡ false
    → is_below payer (build_payout i q payer fee).send_amount i.min_amount ≡ false
    → IsFunded env (build_payout i q payer fee)
unfolding build_payout split_amount
build_payout-IsFunded env i q merchant fee ia f64 m v b = record {
  waiting = refl;
  adds_up = refl;
  reaches = subst (λ x. x ≤ℤ i.request.amount) m (ltb_ℤ-false i.request.amount i.min_amount v);
}
build_payout-IsFunded env i q customer fee ia f64 m v b = record {
  waiting = refl;
  adds_up = add64-sub64 i.request.amount fee ia f64;
  reaches =
      subst (λ x. x ≤ℤ sub64 i.request.amount fee) m
        (ltb_ℤ-false (sub64 i.request.amount fee) i.min_amount b);
}

abbrev IfOk : (Payout → Type 0) → Result Payout → Type 0
IfOk P (ok q) = P q
IfOk P (err e) = Unit

IfOk-if :
    (P : Payout → Type 0) (b : Bool) (x y : Result Payout)
    → IfOk P x
    → IfOk P y
    → IfOk P (if b then x else y)
IfOk-if P true x y h k = h
IfOk-if P false x y h k = k

after_payout_insert-IsFunded :
    (env : Env) (again : GoError → Result Payout) (p : Payout) (r : Result Inserted)
    → IsFunded env p
    → ((e : GoError) → IfOk (IsFunded env) (again e))
    → IfOk (IsFunded env) (after_payout_insert again p r)
after_payout_insert-IsFunded env again p (ok row) f h = record {
  waiting = f.waiting;
  adds_up = f.adds_up;
  reaches = f.reaches;
}
after_payout_insert-IsFunded env again p (err x) f h =
    IfOk-if (IsFunded env) (is_unique_violation x) _ _ (h x)
      (IfOk-if (IsFunded env) (is_reference_unique_violation x) _ _ tt tt)

insert_payout_loop-IsFunded :
    (env : Env) (rounds n : ℕ) (p : Payout) (x : GoError)
    → IsFunded env p
    → IfOk (IsFunded env) (insert_payout_loop rounds n env p x)
unfolding insert_payout_loop
insert_payout_loop-IsFunded env zero n p x f = tt
insert_payout_loop-IsFunded env (suc rounds) n p x f =
    after_payout_insert-IsFunded env (λ e. insert_payout_loop rounds (suc n) env p e)
      (with_payout_id env n p) (env.insert n (with_payout_id env n p))
      (record { waiting = f.waiting; adds_up = f.adds_up; reaches = f.reaches })
      (λ y. insert_payout_loop-IsFunded env rounds (suc n) p y f)

behind-InsertsFirst :
    (env : Env) (es : List Effect) (o : Result PayoutInquiry)
    (f : PayoutInquiry → Run Effect Payout)
    → All IsInquiry es
    → ((q : PayoutInquiry) → InsertsFirst env (f q).effects)
    → InsertsFirst env (behind es o f).effects
behind-InsertsFirst env es (ok q) f h k = InsertsFirst-append env es (f q).effects h (k q)
behind-InsertsFirst env es (err e) f h k = inquiries_only env es h

submit_inserted-InsertsFirst :
    (env : Env) (r : Result Payout)
    → IfOk (IsFunded env) r
    → InsertsFirst env (submit_inserted env r).effects
unfolding submit_inserted
submit_inserted-InsertsFirst env (err e) h = tt
submit_inserted-InsertsFirst env (ok p) h = (
  h,
  All-append (OnTransfer p) (try_send_processing_callback env p).effects
      (submit_with_fallback env p).effects (processing_callback-OnTransfer env p).all
      (submit-OnTransfer env p).all,
)

create_inquired-InsertsFirst :
    (env : Env) (i : Intake) (q : PayoutInquiry)
    → IsInt64 i.request.amount
    → IsInt64 env.default_bank_fee
    → i.min_amount ≡ resolve_min_amount env i.method.type i.method.channel
    → validate_create_request i.request i.min_amount ≡ none
    → InsertsFirst env (create_inquired env i q).effects
unfolding create_inquired
create_inquired-InsertsFirst env i q ia fd m v =
    let payer = fee_payer_of i.request.fee_paid_by in
    let fee = resolve_fee env i.method.type q in
    let p = build_payout i q payer fee in
    elim (Bool-cases (is_below payer p.send_amount i.min_amount)) [
      | inl b ↦ rw b tt
      | inr b ↦ rw b (
          submit_inserted-InsertsFirst env (insert_payout_loop 5 0 env p no_cause) (
            insert_payout_loop-IsFunded env 5 0 p no_cause (
              build_payout-IsFunded env i q payer fee ia (resolve_fee-IsInt64 env i q fd) m
                (reaches_minimum i.request i.min_amount v) b)))
    ]

create_unless_existing-InsertsFirst :
    (env : Env) (i : Intake) (r : Result Payout)
    → IsInt64 i.request.amount
    → IsInt64 env.default_bank_fee
    → i.min_amount ≡ resolve_min_amount env i.method.type i.method.channel
    → validate_create_request i.request i.min_amount ≡ none
    → InsertsFirst env (create_unless_existing env i r).effects
unfolding create_unless_existing
create_unless_existing-InsertsFirst env i (ok existing) ia fd m v = tt
create_unless_existing-InsertsFirst env i (err e) ia fd m v = elim (Bool-cases (is_no_rows e)) [
  | inl n ↦ rw n (
      behind-InsertsFirst env (run_inquiry env (lookup_of i)).effects
        (run_inquiry env (lookup_of i)).outcome (create_inquired env i)
        (run_inquiry-IsInquiry env (lookup_of i)).all
        (λ q. create_inquired-InsertsFirst env i q ia fd m v))
  | inr n ↦ rw n tt
]

create_checked-InsertsFirst :
    (env : Env) (i : Intake) (o : Option GoError)
    → validate_create_request i.request i.min_amount ≡ o
    → IsInt64 i.request.amount
    → IsInt64 env.default_bank_fee
    → i.min_amount ≡ resolve_min_amount env i.method.type i.method.channel
    → InsertsFirst env (create_checked env i o).effects
unfolding create_checked
create_checked-InsertsFirst env i (some e) v ia fd m = tt
create_checked-InsertsFirst env i none v ia fd m =
    create_unless_existing-InsertsFirst env i
      (env.by_reference_id i.client_id i.request.reference_id) ia fd m v

InsertsFirst-if :
    (env : Env) (b : Bool) (r s : Run Effect Payout)
    → InsertsFirst env r.effects
    → InsertsFirst env s.effects
    → InsertsFirst env (if b then r else s).effects
InsertsFirst-if env true r s h k = h
InsertsFirst-if env false r s h k = k

create_for_method-InsertsFirst :
    (env : Env) (r : CreatePayoutRequest) (client : Client) (is_sandbox : Bool) (m : Result Method)
    → IsInt64 r.amount
    → IsInt64 env.default_bank_fee
    → InsertsFirst env (create_for_method env r client is_sandbox m).effects
unfolding create_for_method trimmed
create_for_method-InsertsFirst env r client is_sandbox (err e) ia fd = tt
create_for_method-InsertsFirst env r client is_sandbox (ok m) ia fd =
    let i = intake_of env r client is_sandbox m in
    create_checked-InsertsFirst env i (validate_create_request i.request i.min_amount) refl ia fd
      refl

-- Where the request's amount and the configured bank fee are int64 values: before it has inserted
-- the payout, a creation only asks providers for inquiries and inserts rows of inquiries; it asks no
-- provider to pay, writes no row of a payout and posts no event. The inserted
-- payout is Processing; its send_amount and its fee add up to its total_amount; and its send_amount
-- reaches the minimum of its channel. All that follows is about that payout: every row written and
-- event posted has its id, recipient and amounts, every provider is asked to pay its send_amount to
-- its account, and no second row is inserted.
pub create_payout-InsertsFirst :
    (env : Env) (r : CreatePayoutRequest) (client : Client) (is_sandbox : Bool)
    → IsInt64 r.amount
    → IsInt64 env.default_bank_fee
    → InsertsFirst env (create_payout env (some r) (some client) is_sandbox).effects
unfolding create_payout
create_payout-InsertsFirst env r client is_sandbox ia fd =
    InsertsFirst-if env env.available _ (fail payout_unavailable)
      (create_for_method-InsertsFirst env r client is_sandbox (validate_method env r.payout_method)
        ia fd)
      tt
