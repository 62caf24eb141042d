-- ===== src/Transaction/Dispatch.antt =====
-- CreateTransaction and GetTransaction of internal/service/transaction_service.go.
use gtd_api.Prelude.{ℕ, String, Bool, Option, none, some, ◌==◌, str_eq, if◌then◌else◌}
use gtd_api.Errors.{GoError, plain_error, is_no_rows, Result, ok, err}
use gtd_api.Run.{fail}
use gtd_api.Client.{Client}
use gtd_api.Transaction.Model.{Transaction, CreateTransactionRequest, InquiryData}
use gtd_api.Transaction.Store.{Env}
use gtd_api.Transaction.Skus.{Running, finished}
use gtd_api.Transaction.Create.{process_prepaid}
use gtd_api.Transaction.CachedInquiry.{cached_inquiry_to_transaction}
use gtd_api.Transaction.Inquiry.{process_inquiry}
use gtd_api.Transaction.Payment.{process_payment}

unfoldable pub create_transaction :
    (fuel : ℕ) → Env → CreateTransactionRequest → Client → (is_sandbox : Bool) → Running
unfolding process_prepaid process_inquiry process_payment
create_transaction fuel env req client is_sandbox =
    if str_eq req.type "prepaid"
    then process_prepaid fuel env req client is_sandbox
    else if str_eq req.type "inquiry"
    then finished (process_inquiry env req client is_sandbox)
    else if str_eq req.type "payment"
    then process_payment env req client is_sandbox
    else fail (plain_error "INVALID_TYPE")

abbrev not_found : GoError
not_found = plain_error "TRANSACTION_NOT_FOUND"

abbrev owned : (owner client_id : ℕ) → Transaction → Result Transaction
owned owner client_id t = if owner == client_id then ok t else err not_found

abbrev from_cache : Env → (client_id : ℕ) → Result (Option InquiryData) → Result Transaction
from_cache env client_id (err e) = err e
from_cache env client_id (ok none) = err not_found
from_cache env client_id (ok (some d)) =
    owned d.client_id client_id (cached_inquiry_to_transaction env d d.client_id d.product_id)

abbrev from_table :
    Env → (transaction_id : String) → (client_id : ℕ) → Result Transaction → Result Transaction
from_table env transaction_id client_id (ok t) = owned t.client_id client_id t
from_table env transaction_id client_id (err e) =
    if is_no_rows e
    then (if env.has_cache
        then from_cache env client_id (env.cached_by_id transaction_id)
        else err not_found)
    else err e

unfoldable pub get_transaction :
    Env → (transaction_id : String) → (client_id : ℕ) → Result Transaction
unfolding cached_inquiry_to_transaction
get_transaction env transaction_id client_id =
    from_table env transaction_id client_id (env.by_transaction_id transaction_id)
