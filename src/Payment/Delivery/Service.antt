-- ===== src/Payment/Delivery/Service.antt =====
-- EnqueueEvent and RetryPendingCallbacks of internal/service/payment_callback_service.go, with the
-- statements and the requests of AttemptDelivery. A statement whose error is only logged stands
-- among the effects whether the database takes it or not.
mod Attempt
mod Retried
pub mod Addressed
use gtd_api.Prelude.{
  ℕ, zero, suc, String, Bool, true, false, Option, none, some, List, [], ◌∷◌, ◌++◌, str_eq,
  if◌then◌else◌,
}
use gtd_api.Prelude.Int.{ℤ, pos, negsuc}
use gtd_api.Prelude.Text.{trim_space}
use gtd_api.Client.{Client}
use gtd_api.Errors.{Result, ok, err}
use gtd_api.Run.{Run, return_ok, fail}
use gtd_api.Payment.Model.{Payment}
use gtd_api.Payment.Delivery.{
  PaymentCallbackLog, Answer, no_request, broken, answered, attempt_delivery, enqueued, is_2xx,
}

-- `callback_payload` renders the body, and `sign` is the HMAC of it in hexadecimal digits. The
-- answers of the database are those of the queries of ClientRepository and PaymentRepository.
pub record DeliveryEnv : Type 0 where
  pub client_by_id : ℕ → Result Client
  pub payment_by_id : ℕ → Result Payment
  pub pending_logs : (limit : ℕ) → Result (List PaymentCallbackLog)
  pub insert_log : PaymentCallbackLog → Result ℕ
  pub callback_payload : Payment → (event : String) → String
  pub sign : (payload secret : String) → String
  pub answer : (url : String) → PaymentCallbackLog → Answer
  pub clock : PaymentCallbackLog → ℕ

-- `posted` is the request with a row's event and payload.
pub data DeliveryEffect : Type 0 where
  created : PaymentCallbackLog → DeliveryEffect
  posted : PaymentCallbackLog → (url signature : String) → DeliveryEffect
  updated : PaymentCallbackLog → DeliveryEffect
  marked_sent : (payment_id sent_at : ℕ) → DeliveryEffect

-- The row that an attempt writes, and the mark of a payment whose event was delivered.
abbrev pub attempt_writes : (now : ℕ) → PaymentCallbackLog → Answer → List DeliveryEffect
attempt_writes now row (answered status body) =
    updated (attempt_delivery now row (answered status body))
    ∷ (if is_2xx status then marked_sent row.payment_id now ∷ [] else [])
attempt_writes now row a = updated (attempt_delivery now row a) ∷ []

-- The request, where one can be made.
abbrev pub attempt_request :
    PaymentCallbackLog → (url signature : String) → Answer → List DeliveryEffect
attempt_request row url signature (no_request text) = []
attempt_request row url signature a = posted row url signature ∷ []

unfoldable pub attempt_effects :
    DeliveryEnv → PaymentCallbackLog → (url secret : String) → List DeliveryEffect
attempt_effects env row url secret =
    let a = env.answer url row in
    attempt_request row url (env.sign row.payload secret) a ++ attempt_writes (env.clock row) row a

-- The address of a payment that is not blank, without the white space around it.
unfoldable pub callback_address : Option String → Option String
callback_address none = none
callback_address (some u) = if str_eq (trim_space u) "" then none else some (trim_space u)

abbrev pub inserted_attempt :
    DeliveryEnv → PaymentCallbackLog → (url secret : String) → Result ℕ → List DeliveryEffect
inserted_attempt env row url secret (err e) = []
inserted_attempt env row url secret (ok id) =
    created (record row { id = id }) ∷ attempt_effects env (record row { id = id }) url secret

abbrev pub enqueue_at :
    DeliveryEnv → Payment → (event : String) → Client → (url : Option String) → List DeliveryEffect
enqueue_at env payment event client none = []
enqueue_at env payment event client (some url) =
    let row = enqueued payment.id client.id event (env.callback_payload payment event) in
    inserted_attempt env row url client.callback_secret (env.insert_log row)

abbrev pub enqueue_for :
    DeliveryEnv → Payment → (event : String) → Result Client → List DeliveryEffect
enqueue_for env payment event (err e) = []
enqueue_for env payment event (ok client) =
    enqueue_at env payment event client (callback_address payment.callback_url)

-- `none` is a nil payment.
unfoldable pub enqueue_event : DeliveryEnv → Option Payment → (event : String) → List DeliveryEffect
unfolding callback_address attempt_effects
enqueue_event env none event = []
enqueue_event env (some payment) event =
    enqueue_for env payment event (env.client_by_id payment.client_id)

abbrev pub retry_at :
    DeliveryEnv → PaymentCallbackLog → Client → (url : Option String) → List DeliveryEffect
retry_at env row client none = []
retry_at env row client (some url) = attempt_effects env row url client.callback_secret

abbrev pub retry_for :
    DeliveryEnv → PaymentCallbackLog → Result Client → Result Payment → List DeliveryEffect
retry_for env row (ok client) (ok payment) =
    retry_at env row client (callback_address payment.callback_url)
retry_for env row _ _ = []

-- One row of the loop of RetryPendingCallbacks.
unfoldable pub retry_row : DeliveryEnv → PaymentCallbackLog → List DeliveryEffect
unfolding callback_address attempt_effects
retry_row env row =
    retry_for env row (env.client_by_id row.client_id) (env.payment_by_id row.payment_id)

unfoldable pub retry_rows : DeliveryEnv → List PaymentCallbackLog → List DeliveryEffect
unfolding retry_row
retry_rows env [] = []
retry_rows env (row ∷ rest) = retry_row env row ++ retry_rows env rest

abbrev pub retry_limit : ℤ → ℕ
retry_limit (pos zero) = 50
retry_limit (pos (suc n)) = suc n
retry_limit (negsuc n) = 50

abbrev pub retry_batch :
    DeliveryEnv → Result (List PaymentCallbackLog) → Run DeliveryEffect (Unit {0})
retry_batch env (err e) = fail e
retry_batch env (ok rows) = record { effects = retry_rows env rows; outcome = ok tt }

unfoldable pub retry_pending : DeliveryEnv → (limit : ℤ) → Run DeliveryEffect (Unit {0})
unfolding retry_rows
retry_pending env limit = retry_batch env (env.pending_logs (retry_limit limit))
