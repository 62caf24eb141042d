-- ===== src/Transaction/Payment/Quoted.antt =====
-- What a payment is made for.
use gtd_api.Prelude.{
  All-weaken, ℕ, suc, ◌≤◌, String, ◌≡◌, refl, ◌⊎◌, inl, inr, Bool, true, false, ◌||◌, Bool-cases,
  Option, none, some, List, [], ◌∷◌, All, str_eq, eq_iff, arith,
}
use gtd_api.Errors.{GoError, Result, ok, err}
use gtd_api.Run.{fail, emit, emit_if}
use gtd_api.Run.Keeps.{Keeps, keeps_rules}
use gtd_api.Client.{Client}
use gtd_api.Payment.Store.{Inserted}
use gtd_api.Ppob.Model.{PpobProviderClient, ProviderResponse}
use gtd_api.Ppob.Attempt.{Providers}
use gtd_api.Transaction.Model.{Transaction, CreateTransactionRequest, InquiryData, DigiResponse}
use gtd_api.Transaction.Store.{
  Env, Effect, created, notified_created, paid, digi_paid, called, routed,
}
use gtd_api.Transaction.Settle.{Handled, handle_all_skus_failed}
use gtd_api.Transaction.Bookkeeping.{
  IsBookkeeping, settle-IsBookkeeping, keep_going-IsBookkeeping, after_save-IsBookkeeping,
}
use gtd_api.Transaction.Skus.{Running}
use gtd_api.Transaction.Create.{after_insert, inserted_as}
use gtd_api.Transaction.Payment.{
  process_payment, found_inquiry, check_payment, checked_payment, create_payment_transaction,
  payment_row, product_matches,
}
use gtd_api.Transaction.PayInquiry.{
  submit_payment, pay_routed, pay_digiflazz, execute_payment_with_provider, payment_request,
  digi_payment_call, assigned, payment_answered, digi_payment_answered, settle_paid,
}

-- The inquiry may be paid by the request.
pub record IsPayable (env : Env) (req : CreateTransactionRequest) (client : Client)
    (d : InquiryData) : Type 0 where
  pub cached : env.cached_by_id req.transaction_id ≡ ok (some d)
  pub same_reference : d.reference_id ≡ req.reference_id
  pub same_customer : d.customer_no ≡ req.customer_no
  pub same_client : d.client_id ≡ client.id
  pub successful : (d.status ≡ "") ⊎ (d.status ≡ "Success")
  pub same_product : product_matches d.product_id (env.by_sku_code req.sku_code) ≡ true
  pub in_time : env.now ≤ d.expired_at

-- An effect of the payment of an inquiry: the row is the client's, for the inquiry's customer and
-- product, and a call of a provider is for what the inquiry quoted.
abbrev pub PaysFor : CreateTransactionRequest → Client → InquiryData → Effect → Type 0
PaysFor req client d (created t) =
    (t.client_id ≡ client.id) × (t.customer_no ≡ d.customer_no) × (t.product_id ≡ d.product_id)
PaysFor req client d (paid provider request answer) =
    (provider ≡ d.provider_code)
    × (request.customer_no ≡ d.customer_no)
    × (request.sku_code ≡ d.provider_sku_code)
    × (request.amount ≡ d.amount)
PaysFor req client d (digi_paid c) =
    (c.ref_id ≡ d.transaction_id)
    × (c.testing ≡ false → (c.customer_no ≡ d.customer_no) × (c.sku_code ≡ req.sku_code))
PaysFor req client d (called c) = ◌≡◌ true false
PaysFor req client d (routed r x) = ◌≡◌ true false
PaysFor req client d _ = Unit

-- The calls that may move money.
abbrev pub payments : List Effect → ℕ
payments [] = 0
payments (paid provider request answer ∷ rest) = suc (payments rest)
payments (digi_paid c ∷ rest) = suc (payments rest)
payments (called c ∷ rest) = suc (payments rest)
payments (routed r x ∷ rest) = suc (payments rest)
payments (_ ∷ rest) = payments rest

check_payment-none :
    (env : Env) (req : CreateTransactionRequest) (client : Client) (d : InquiryData)
    → env.cached_by_id req.transaction_id ≡ ok (some d)
    → check_payment env req client d ≡ none
    → IsPayable env req client d
unfolding check_payment
check_payment-none env req client d found e = record {
  cached = found;
  same_reference = ground (arith, eq_iff d.reference_id req.reference_id);
  same_customer = ground (arith, eq_iff d.customer_no req.customer_no);
  same_client = ground arith;
  successful = ground (arith, eq_iff d.status "", eq_iff d.status "Success");
  same_product = ground arith;
  in_time = ground arith;
}

bookkeeping-PaysFor :
    (req : CreateTransactionRequest) (client : Client) (d : InquiryData) (e : Effect)
    → IsBookkeeping e
    → PaysFor req client d e
bookkeeping-PaysFor req client d (created t) h = cc
bookkeeping-PaysFor req client d (paid provider request answer) h = cc
bookkeeping-PaysFor req client d (digi_paid c) h = cc
bookkeeping-PaysFor req client d (called c) h = cc
bookkeeping-PaysFor req client d (routed r x) h = cc
bookkeeping-PaysFor req client d _ h = tt

payments-bookkeeping : (es : List Effect) → All IsBookkeeping es → payments es ≡ 0
payments-bookkeeping [] h = refl
payments-bookkeeping (paid provider request answer ∷ es) h = cc
payments-bookkeeping (digi_paid c ∷ es) h = cc
payments-bookkeeping (called c ∷ es) h = cc
payments-bookkeeping (routed r x ∷ es) h = cc
payments-bookkeeping (_ ∷ es) h = payments-bookkeeping es h.1

-- The effects that follow the insertion of the row.
record IsSubmission (req : CreateTransactionRequest) (client : Client) (d : InquiryData)
    (es : List Effect) : Type 0 where
  fitting : All (PaysFor req client d) es
  once : payments es ≤ 1

module _ (req : CreateTransactionRequest) (client : Client) (d : InquiryData) where
  ending-IsSubmission : (r : Handled) → Keeps IsBookkeeping r → IsSubmission req client d r.effects
  ending-IsSubmission r h = record {
    fitting =
        All-weaken IsBookkeeping (PaysFor req client d) r.effects (bookkeeping-PaysFor req client d)
          h.all;
    once = omega (arith, payments-bookkeeping r.effects h.all);
  }

  settle_paid-IsBookkeeping :
      (env : Env) (t : Transaction) → Keeps IsBookkeeping (settle_paid env t d)
  unfolding settle_paid
  settle_paid-IsBookkeeping env t = search (keeps_rules, after_save-IsBookkeeping) depth 9

  ruleset paid_endings =
      (keeps_rules, settle_paid-IsBookkeeping, settle-IsBookkeeping, keep_going-IsBookkeeping)

  payment_answered-IsBookkeeping :
      (env : Env) (t : Transaction) (a : Result ProviderResponse)
      → Keeps IsBookkeeping (payment_answered env t d a)
  unfolding payment_answered
  payment_answered-IsBookkeeping env t (ok r) = search paid_endings
  payment_answered-IsBookkeeping env t (err e) = search paid_endings

  digi_payment_answered-IsBookkeeping :
      (env : Env) (t : Transaction) (a : Result DigiResponse)
      → Keeps IsBookkeeping (digi_payment_answered env t d a)
  unfolding digi_payment_answered handle_all_skus_failed
  digi_payment_answered-IsBookkeeping env t (ok r) = search paid_endings
  digi_payment_answered-IsBookkeeping env t (err e) = search paid_endings

  digi_call-fits :
      (env : Env) (t : Transaction) (sandbox : Bool)
      → t.is_sandbox ≡ sandbox
      → PaysFor req client d (digi_paid (digi_payment_call env t d req))
  unfolding digi_payment_call
  digi_call-fits env t true e = (refl, λ no_test. cc)
  digi_call-fits env t false e = (refl, λ no_test. rw e (refl, refl))

  digiflazz-IsSubmission :
      (env : Env) (t : Transaction) → IsSubmission req client d (pay_digiflazz env t d req).effects
  unfolding pay_digiflazz
  digiflazz-IsSubmission env t =
      let c = digi_payment_call env t d req in
      let after = digi_payment_answered-IsBookkeeping env t c.answer in
      let rest = ending-IsSubmission (digi_payment_answered env t d c.answer) after in
      record {
        fitting = (digi_call-fits env t t.is_sandbox refl, (tt, rest.fitting));
        once = omega (
          arith,
          payments-bookkeeping (digi_payment_answered env t d c.answer).effects after.all,
        );
      }

  provider-IsSubmission :
      (env : Env) (t : Transaction) (c : Option PpobProviderClient)
      → IsSubmission req client d (execute_payment_with_provider env t d req c).effects
  unfolding execute_payment_with_provider payment_request
  provider-IsSubmission env t none = record { fitting = tt; once = omega arith }
  provider-IsSubmission env t (some c) =
      let answer = c.payment (payment_request env t d req) in
      let after = payment_answered-IsBookkeeping env (assigned t d) answer in
      let rest = ending-IsSubmission (payment_answered env (assigned t d) d answer) after in
      record {
        fitting = ((refl, refl, refl, refl), (tt, rest.fitting));
        once = omega (
          arith,
          payments-bookkeeping (payment_answered env (assigned t d) d answer).effects after.all,
        );
      }

  routed-IsSubmission :
      (env : Env) (t : Transaction) (o : Option (ℕ → Providers))
      → IsSubmission req client d (pay_routed env t d req o).effects
  routed-IsSubmission env t none = digiflazz-IsSubmission env t
  routed-IsSubmission env t (some router) =
      elim (Bool-cases (str_eq d.provider_code "" || t.is_sandbox)) [
        | inl legacy ↦ rw legacy (digiflazz-IsSubmission env t)
        | inr provider ↦ rw provider (provider-IsSubmission env t _)
      ]

  notified-IsSubmission :
      (b : Bool) (t : Transaction) (r : Running)
      → IsSubmission req client d r.effects
      → IsSubmission req client d (emit_if b (notified_created t) r).effects
  notified-IsSubmission true t r h = record { fitting = (tt, h.fitting); once = h.once }
  notified-IsSubmission false t r h = h

  created-IsSubmission :
      (t : Transaction) (r : Running)
      → PaysFor req client d (created t)
      → IsSubmission req client d r.effects
      → IsSubmission req client d (emit (created t) r).effects
  created-IsSubmission t r p h = record { fitting = (p, h.fitting); once = h.once }

  inserted-IsSubmission :
      (env : Env) (id : String) (is_sandbox : Bool) (o : Result Inserted)
      → IsSubmission req client d
          (after_insert env
            (payment_row id req client d is_sandbox)
            (λ e. fail e)
            (submit_payment env d req)
            o).effects
  unfolding submit_payment
  inserted-IsSubmission env id is_sandbox (err e) = record { fitting = tt; once = omega arith }
  inserted-IsSubmission env id is_sandbox (ok row) =
      let t = inserted_as (payment_row id req client d is_sandbox) row in
      created-IsSubmission t
        (emit_if env.has_notifier (notified_created t) (submit_payment env d req t))
        (refl, refl, refl)
        (notified-IsSubmission env.has_notifier t (submit_payment env d req t)
          (routed-IsSubmission env t env.router))

  transaction-IsSubmission :
      (env : Env) (is_sandbox : Bool) (o : Result String)
      → IsSubmission req client d (create_payment_transaction env req client d is_sandbox o).effects
  unfolding create_payment_transaction
  transaction-IsSubmission env is_sandbox (err e) = record { fitting = tt; once = omega arith }
  transaction-IsSubmission env is_sandbox (ok id) = inserted-IsSubmission env id is_sandbox _

-- What a payment comes to: nothing, or the payment of an inquiry that may be paid.
abbrev pub IsQuoted : Env → CreateTransactionRequest → Client → List Effect → Type 0
IsQuoted env req client es =
    (es ≡ [])
    ⊎ ((d : InquiryData) × IsPayable env req client d
        × All (PaysFor req client d) es
        × (payments es ≤ 1))

checked-IsQuoted :
    (env : Env) (req : CreateTransactionRequest) (client : Client) (d : InquiryData)
    (is_sandbox : Bool) (o : Option GoError)
    → env.cached_by_id req.transaction_id ≡ ok (some d)
    → check_payment env req client d ≡ o
    → IsQuoted env req client (checked_payment env req client d is_sandbox o).effects
checked-IsQuoted env req client d is_sandbox (some e) found checked = inl refl
checked-IsQuoted env req client d is_sandbox none found checked =
    let p = check_payment-none env req client d found checked in
    let s = transaction-IsSubmission req client d env is_sandbox env.new_transaction_id in
    inr (d, p, s.fitting, s.once)

found-IsQuoted :
    (env : Env) (req : CreateTransactionRequest) (client : Client) (is_sandbox : Bool)
    (o : Result (Option InquiryData))
    → env.cached_by_id req.transaction_id ≡ o
    → IsQuoted env req client (found_inquiry env req client is_sandbox o).effects
unfolding found_inquiry
found-IsQuoted env req client is_sandbox (err e) found = inl refl
found-IsQuoted env req client is_sandbox (ok none) found = inl refl
found-IsQuoted env req client is_sandbox (ok (some d)) found =
    checked-IsQuoted env req client d is_sandbox _ found refl

-- A payment either has no effect at all, or it is the payment of the inquiry that the cache has for
-- the request's transaction id, where this inquiry has the request's reference, customer number and
-- product, belongs to the client, was successful and has not expired. Then the row is the client's,
-- for the inquiry's customer and product; at most one provider is asked to pay; a provider of the
-- router is the inquiry's, and is asked for its customer number, SKU and amount; and Digiflazz is
-- called under the inquiry's reference, outside the sandbox with its customer number and the
-- request's SKU.
pub process_payment-IsQuoted :
    (env : Env) (req : CreateTransactionRequest) (client : Client) (is_sandbox : Bool)
    → IsQuoted env req client (process_payment env req client is_sandbox).effects
unfolding process_payment
process_payment-IsQuoted env req client is_sandbox = found-IsQuoted env req client is_sandbox _ refl
