-- ===== src/Transaction/Announced/Paid.antt =====
-- The merchant is told of the payment of an inquiry exactly once.
use gtd_api.Prelude.{ℕ, String, refl, Bool, Option, none, some}
use gtd_api.Errors.{GoError, Result, ok, err}
use gtd_api.Run.{fail}
use gtd_api.Client.{Client}
use gtd_api.Payment.Store.{Inserted}
use gtd_api.Ppob.Model.{ProviderResponse, PpobProviderClient}
use gtd_api.Ppob.Attempt.{Providers}
use gtd_api.Transaction.Model.{Transaction, CreateTransactionRequest, DigiResponse, InquiryData}
use gtd_api.Transaction.Store.{Env, created, notified_created, paid, digi_paid, logged}
use gtd_api.Transaction.Codes.{is_success, is_pending}
use gtd_api.Transaction.Skus.{Running, finished}
use gtd_api.Transaction.Create.{after_insert, inserted_as}
use gtd_api.Transaction.Payment.{
  found_inquiry, checked_payment, create_payment_transaction, payment_row,
}
use gtd_api.Transaction.PayInquiry.{
  submit_payment, pay_routed, pay_digiflazz, execute_payment_with_provider, payment_answered,
  digi_payment_answered, payment_succeeded, payment_pending, digi_payment_succeeded,
  digi_payment_call,
}
use gtd_api.Transaction.Announced.{
  IsAnnounced, emit-IsAnnounced, emit_if-IsAnnounced, fail-IsAnnounced, settle-IsAnnounced,
  settle_paid-IsAnnounced, keep_going-IsAnnounced,
}
use gtd_api.Transaction.Announced.Routed.{
  all_failed-IsAnnounced, provider_failed-IsAnnounced, finished-if,
}

pub after_insert-IsAnnounced :
    (env : Env) (t : Transaction) (on_error : GoError → GoError) (next : Transaction → Running)
    (o : Result Inserted)
    → ((u : Transaction) → IsAnnounced (next u))
    → IsAnnounced (after_insert env t (λ e. fail (on_error e)) next o)
after_insert-IsAnnounced env t on_error next (err e) h = fail-IsAnnounced (on_error e)
after_insert-IsAnnounced env t on_error next (ok row) h =
    let made = inserted_as t row in
    emit-IsAnnounced (created made) _ tt
      (emit_if-IsAnnounced env.has_notifier (notified_created made) (next made) tt (h made))

payment_answered-IsAnnounced :
    (env : Env) (t : Transaction) (d : InquiryData) (a : Result ProviderResponse)
    → IsAnnounced (finished (payment_answered env t d a))
unfolding payment_answered payment_succeeded payment_pending
payment_answered-IsAnnounced env t d (err e) =
    finished-if _ _ _ (keep_going-IsAnnounced env _ refl) (provider_failed-IsAnnounced env t _)
payment_answered-IsAnnounced env t d (ok r) =
    finished-if r.success _ _ (settle_paid-IsAnnounced env _ d refl) (
      finished-if r.pending _ _ (keep_going-IsAnnounced env _ refl)
        (provider_failed-IsAnnounced env _ r))

digi_answered-IsAnnounced :
    (env : Env) (t : Transaction) (d : InquiryData) (a : Result DigiResponse)
    → IsAnnounced (finished (digi_payment_answered env t d a))
unfolding digi_payment_answered digi_payment_succeeded
digi_answered-IsAnnounced env t d (err e) = all_failed-IsAnnounced env t
digi_answered-IsAnnounced env t d (ok r) =
    finished-if (is_success r.rc) _ _ (settle_paid-IsAnnounced env _ d refl) (
      finished-if (is_pending r.rc) _ _ (keep_going-IsAnnounced env _ refl)
        (settle-IsAnnounced env _ "transaction.failed" refl))

digiflazz-IsAnnounced :
    (env : Env) (t : Transaction) (d : InquiryData) (req : CreateTransactionRequest)
    → IsAnnounced (finished (pay_digiflazz env t d req))
unfolding pay_digiflazz
digiflazz-IsAnnounced env t d req = emit-IsAnnounced (digi_paid _) _ tt (
    emit-IsAnnounced (logged _) _ tt
      (digi_answered-IsAnnounced env t d (digi_payment_call env t d req).answer))

provider-IsAnnounced :
    (env : Env) (t : Transaction) (d : InquiryData) (req : CreateTransactionRequest)
    (c : Option PpobProviderClient)
    → IsAnnounced (finished (execute_payment_with_provider env t d req c))
unfolding execute_payment_with_provider
provider-IsAnnounced env t d req none = fail-IsAnnounced _
provider-IsAnnounced env t d req (some c) =
    emit-IsAnnounced (paid _ _ _) _ tt
      (emit-IsAnnounced (logged _) _ tt (payment_answered-IsAnnounced env _ d _))

pay_routed-IsAnnounced :
    (env : Env) (t : Transaction) (d : InquiryData) (req : CreateTransactionRequest)
    (o : Option (ℕ → Providers))
    → IsAnnounced (finished (pay_routed env t d req o))
pay_routed-IsAnnounced env t d req none = digiflazz-IsAnnounced env t d req
pay_routed-IsAnnounced env t d req (some router) =
    finished-if _ _ _ (digiflazz-IsAnnounced env t d req) (provider-IsAnnounced env t d req _)

payment_transaction-IsAnnounced :
    (env : Env) (req : CreateTransactionRequest) (client : Client) (d : InquiryData)
    (is_sandbox : Bool) (o : Result String)
    → IsAnnounced (create_payment_transaction env req client d is_sandbox o)
unfolding create_payment_transaction submit_payment
payment_transaction-IsAnnounced env req client d is_sandbox (err e) = fail-IsAnnounced e
payment_transaction-IsAnnounced env req client d is_sandbox (ok id) =
    after_insert-IsAnnounced env (payment_row id req client d is_sandbox) (λ e. e)
      (submit_payment env d req) (env.insert (payment_row id req client d is_sandbox))
      (λ t. pay_routed-IsAnnounced env t d req env.router)

checked-IsAnnounced :
    (env : Env) (req : CreateTransactionRequest) (client : Client) (d : InquiryData)
    (is_sandbox : Bool) (o : Option GoError)
    → IsAnnounced (checked_payment env req client d is_sandbox o)
checked-IsAnnounced env req client d is_sandbox (some e) = fail-IsAnnounced e
checked-IsAnnounced env req client d is_sandbox none =
    payment_transaction-IsAnnounced env req client d is_sandbox _

pub found-IsAnnounced :
    (env : Env) (req : CreateTransactionRequest) (client : Client) (is_sandbox : Bool)
    (o : Result (Option InquiryData))
    → IsAnnounced (found_inquiry env req client is_sandbox o)
unfolding found_inquiry
found-IsAnnounced env req client is_sandbox (err e) = fail-IsAnnounced _
found-IsAnnounced env req client is_sandbox (ok none) = fail-IsAnnounced _
found-IsAnnounced env req client is_sandbox (ok (some d)) =
    checked-IsAnnounced env req client d is_sandbox _
