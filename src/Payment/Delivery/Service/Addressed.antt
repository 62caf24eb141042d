-- ===== src/Payment/Delivery/Service/Addressed.antt =====
-- Where EnqueueEvent and RetryPendingCallbacks of internal/service/payment_callback_service.go send
-- the events.
use gtd_api.Prelude.{
  ℕ, ◌≤◌, String, ◌≡◌, refl, true, false, Option, none, some, List, [], ◌∷◌, count, length, arith,
}
use gtd_api.Prelude.Int.{ℤ}
use gtd_api.Client.{Client}
use gtd_api.Errors.{GoError, Result, ok, err}
use gtd_api.Run.{Run}
use gtd_api.Payment.Model.{Payment}
use gtd_api.Payment.Delivery.{PaymentCallbackLog, enqueued}
use gtd_api.Payment.Delivery.Service.{
  DeliveryEnv, DeliveryEffect, created, callback_address, inserted_attempt, enqueue_at, enqueue_for,
  enqueue_event, retry_limit, retry_batch, retry_pending,
}
use gtd_api.Payment.Delivery.Service.Attempt.{
  IsDeliveryOf, IsAttempt, is_posted, attempt_effects-IsAttempt,
}
use gtd_api.Payment.Delivery.Service.Retried.{IsBatch, retry_rows-IsBatch}

-- The cases in which EnqueueEvent does nothing at all.
pub data IsSilent (env : DeliveryEnv) : Option Payment → (event : String) → Type 0 where
  no_payment : {event : String} → IsSilent env none event
  no_client :
      {payment : Payment} {event : String} {e : GoError}
      → env.client_by_id payment.client_id ≡ err e
      → IsSilent env (some payment) event
  no_address :
      {payment : Payment} {event : String}
      → callback_address payment.callback_url ≡ none
      → IsSilent env (some payment) event
  refused :
      {payment : Payment} {client : Client} {event : String} {e : GoError}
      → env.client_by_id payment.client_id ≡ ok client
      → env.insert_log (enqueued payment.id client.id event (env.callback_payload payment event))
        ≡ err e
      → IsSilent env (some payment) event

-- The row that stands for an event before its first attempt.
pub record IsNewRow (env : DeliveryEnv) (client : Client) (payment : Payment) (event : String)
    (row : PaymentCallbackLog) : Type 0 where
  pub of_payment : row.payment_id ≡ payment.id
  pub of_client : row.client_id ≡ client.id
  pub of_event : row.event ≡ event
  pub rendered : row.payload ≡ env.callback_payload payment event
  pub no_attempts : row.attempt ≡ 0
  pub five : row.max_attempts ≡ 5

-- An event: nothing, or a new row in the table and then one attempt for it.
abbrev pub IsEnqueue :
    DeliveryEnv → Option Payment → (event : String) → List DeliveryEffect → Type 0
IsEnqueue env o event [] = IsSilent env o event
IsEnqueue env o event (created row ∷ rest) =
    (payment : Payment) × (client : Client) × (o ≡ some payment)
    × (env.client_by_id payment.client_id ≡ ok client)
    × IsNewRow env client payment event row
    × IsAttempt (IsDeliveryOf env row client payment) 1 rest
IsEnqueue env o event _ = ◌≡◌ true false

inserted-IsEnqueue :
    (env : DeliveryEnv) (payment : Payment) (event : String) (client : Client) (url : String)
    (i : Result ℕ)
    → env.client_by_id payment.client_id ≡ ok client
    → callback_address payment.callback_url ≡ some url
    → env.insert_log (enqueued payment.id client.id event (env.callback_payload payment event)) ≡ i
    → IsEnqueue env (some payment) event (
        inserted_attempt env
          (enqueued payment.id client.id event (env.callback_payload payment event))
          url
          client.callback_secret
          i)
unfolding enqueued
inserted-IsEnqueue env payment event client url (err e) ce h ie = refused ce ie
inserted-IsEnqueue env payment event client url (ok id) ce h ie =
    (payment, client, refl, ce, new_row, attempt_effects-IsAttempt env row client payment url h)
  where
    row : PaymentCallbackLog
    row = record (enqueued payment.id client.id event (env.callback_payload payment event)) {
      id = id;
    }

    new_row : IsNewRow env client payment event row
    new_row = record {
      of_payment = refl;
      of_client = refl;
      of_event = refl;
      rendered = refl;
      no_attempts = refl;
      five = refl;
    }

enqueue_at-IsEnqueue :
    (env : DeliveryEnv) (payment : Payment) (event : String) (client : Client) (o : Option String)
    → env.client_by_id payment.client_id ≡ ok client
    → callback_address payment.callback_url ≡ o
    → IsEnqueue env (some payment) event (enqueue_at env payment event client o)
enqueue_at-IsEnqueue env payment event client none ce h = no_address h
enqueue_at-IsEnqueue env payment event client (some url) ce h =
    inserted-IsEnqueue env payment event client url _ ce h refl

enqueue_for-IsEnqueue :
    (env : DeliveryEnv) (payment : Payment) (event : String) (c : Result Client)
    → env.client_by_id payment.client_id ≡ c
    → IsEnqueue env (some payment) event (enqueue_for env payment event c)
enqueue_for-IsEnqueue env payment event (err e) ce = no_client ce
enqueue_for-IsEnqueue env payment event (ok client) ce =
    enqueue_at-IsEnqueue env payment event client _ ce refl

enqueue_event-IsEnqueue :
    (env : DeliveryEnv) (o : Option Payment) (event : String)
    → IsEnqueue env o event (enqueue_event env o event)
unfolding enqueue_event
enqueue_event-IsEnqueue env none event = no_payment
enqueue_event-IsEnqueue env (some payment) event = enqueue_for-IsEnqueue env payment event _ refl

-- A batch of the worker, by what its query gives.
abbrev pub GivesBatch :
    DeliveryEnv
    → (limit : ℕ) → Result (List PaymentCallbackLog)
    → Run DeliveryEffect (Unit {0})
    → Type 0
GivesBatch env limit (err e) r = (r.effects ≡ []) × (r.outcome ≡ err e)
GivesBatch env limit (ok rows) r =
    IsBatch env rows r.effects × (count is_posted r.effects ≤ limit) × (r.outcome ≡ ok tt)

retry_batch-GivesBatch :
    (env : DeliveryEnv) (limit : ℕ) (q : Result (List PaymentCallbackLog))
    → ((rows : List PaymentCallbackLog) → q ≡ ok rows → length rows ≤ limit)
    → GivesBatch env limit q (retry_batch env q)
retry_batch-GivesBatch env limit (err e) h = (refl, refl)
retry_batch-GivesBatch env limit (ok rows) h =
    let batch = retry_rows-IsBatch env rows in
    (batch, omega (arith, batch.asked_at_most, h rows refl), refl)

-- Where the query gives no more rows than its LIMIT, and whatever else the database and the
-- merchants answer: EnqueueEvent does nothing at all, and this only for a nil payment, a client that
-- is not found, a payment without an address, or a refused row; or it puts a new row for the event
-- of the payment's client into the table, with none of its five attempts made, and makes one attempt
-- for it. A batch of RetryPendingCallbacks fails where its query does, and then does nothing; else
-- it makes an attempt for each row of the query whose client and payment are found, the payment with
-- an address. An attempt writes its row once, with the same id, payment, client, event and payload,
-- and sends one request at most: a batch sends no more than the limit, which is 50 for a limit that
-- is not positive. Each request goes to the address of the row's payment, which is not blank, with
-- the row's event and payload, signed with the callback secret of the row's client. Only an answer
-- of this address between 200 and 299 marks the payment as sent.
pub deliveries-IsAddressed :
    (env : DeliveryEnv) (o : Option Payment) (event : String) (limit : ℤ)
    → ((n : ℕ) (rows : List PaymentCallbackLog) → env.pending_logs n ≡ ok rows → length rows ≤ n)
    → IsEnqueue env o event (enqueue_event env o event)
      × GivesBatch env
          (retry_limit limit)
          (env.pending_logs (retry_limit limit))
          (retry_pending env limit)
unfolding retry_pending
deliveries-IsAddressed env o event limit h = (
  enqueue_event-IsEnqueue env o event,
  retry_batch-GivesBatch env (retry_limit limit) (env.pending_logs (retry_limit limit))
      (h (retry_limit limit)),
)
