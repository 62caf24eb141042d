-- ===== src/Payment/Delivery.antt =====
-- PaymentCallbackService of internal/service/payment_callback_service.go: the delivery of an event
-- to the merchant, the row of payment_callback_logs that remembers it, and its retries. The
-- merchant's answer to an attempt is a parameter, and the time that it takes is left out.
pub mod Bounded
pub mod Service
use gtd_api.Prelude.{
  ℕ, zero, suc, ◌+◌, ◌*◌, ◌-◌, String, ◌≡◌, Bool, true, false, not, ◌&&◌, Option, none, some, List,
  [], ◌∷◌, ltb, leb, ◌==◌, str_eq, if◌then◌else◌,
}

pub record PaymentCallbackLog : Type 0 where
  pub id : ℕ
  pub payment_id : ℕ
  pub client_id : ℕ
  pub event : String
  pub payload : String
  pub attempt : ℕ
  pub max_attempts : ℕ
  pub http_status : Option ℕ
  pub response_body : Option String
  pub error_message : Option String
  pub is_delivered : Bool
  pub delivered_at : Option ℕ
  pub next_retry_at : Option ℕ

-- How one attempt goes: no request can be made of the address; the exchange fails, with what was
-- read of a response; or the merchant answers with a status and a body.
pub data Answer : Type 0 where
  no_request : String → Answer
  broken : Option (ℕ × String) → String → Answer
  answered : (status : ℕ) → (body : String) → Answer

abbrev second : ℕ
second = 1000000000

-- The intervals of the schedule, by the number of attempts.
unfoldable pub retry_interval : (attempt : ℕ) → Option ℕ
retry_interval attempt =
    if attempt == 1
    then some (30 * second)
    else if attempt == 2
    then some (60 * second)
    else if attempt == 3
    then some (300 * second)
    else if attempt == 4
    then some (1800 * second)
    else if attempt == 5
    then some (7200 * second)
    else none

abbrev from_now : (now : ℕ) → Option ℕ → Option ℕ
from_now now none = none
from_now now (some interval) = some (now + interval)

unfoldable pub payment_next_retry : (now attempt : ℕ) → Option ℕ
unfolding retry_interval
payment_next_retry now attempt = from_now now (retry_interval attempt)

abbrev pub first_some {ℓ} : {A : Type ℓ} → Option A → Option A → Option A
first_some none o = o
first_some (some a) o = some a

abbrev some_if_set : String → Option String
some_if_set t = if str_eq t "" then none else some t

unfoldable pub mark_failure :
    (now : ℕ)
    → PaymentCallbackLog
    → (status : Option ℕ) → (body : Option String) → (text : String) → PaymentCallbackLog
unfolding payment_next_retry
mark_failure now row status body text =
    let n = if row.attempt == 0 then 1 else row.attempt in
    record row {
      attempt = n;
      http_status = first_some status row.http_status;
      response_body = first_some body row.response_body;
      error_message = first_some (some_if_set text) row.error_message;
      next_retry_at = if ltb n row.max_attempts then payment_next_retry now n else none;
      is_delivered = false;
    }

-- The fields that every exchange writes, delivered or not.
abbrev counted : PaymentCallbackLog → Option ℕ → Option String → PaymentCallbackLog
counted row status body = record row {
  attempt = row.attempt + 1;
  http_status = status;
  response_body = body;
}

abbrev status_of : Option (ℕ × String) → Option ℕ
status_of none = none
status_of (some r) = some r.0

abbrev body_of : Option (ℕ × String) → Option String
body_of none = none
body_of (some r) = some_if_set r.1

abbrev pub is_2xx : ℕ → Bool
is_2xx status = leb 200 status && ltb status 300

unfoldable pub delivered_row :
    (now : ℕ) → PaymentCallbackLog → (status : ℕ) → (body : String) → PaymentCallbackLog
delivered_row now row status body = record (counted row (some status) (some_if_set body)) {
  is_delivered = true;
  delivered_at = some now;
  next_retry_at = none;
  error_message = none;
}

-- AttemptDelivery: the row as it is written then. The payment is marked as sent where the row is
-- delivered.
unfoldable pub attempt_delivery : (now : ℕ) → PaymentCallbackLog → Answer → PaymentCallbackLog
unfolding mark_failure delivered_row
attempt_delivery now row (no_request text) = mark_failure now row none none text
attempt_delivery now row (broken r text) =
    mark_failure now (counted row (status_of r) (body_of r)) (status_of r) (body_of r) text
attempt_delivery now row (answered status body) =
    if is_2xx status
    then delivered_row now row status body
    else mark_failure now (counted row (some status) (some_if_set body)) (some status)
        (some_if_set body) "non-2xx response"

-- The row that EnqueueEvent inserts.
unfoldable pub enqueued : (payment_id client_id : ℕ) → (event payload : String) → PaymentCallbackLog
enqueued payment_id client_id event payload = record {
  id = 0;
  payment_id = payment_id;
  client_id = client_id;
  event = event;
  payload = payload;
  attempt = 0;
  max_attempts = 5;
  http_status = none;
  response_body = none;
  error_message = none;
  is_delivered = false;
  delivered_at = none;
  next_retry_at = none;
}

abbrev is_due : (now : ℕ) → Option ℕ → Bool
is_due now none = true
is_due now (some t) = leb t now

-- The rows that the retry worker's query selects.
abbrev pub is_pending : (now : ℕ) → PaymentCallbackLog → Bool
is_pending now row =
    not row.is_delivered && ltb row.attempt row.max_attempts && is_due now row.next_retry_at

-- A round of the retry worker: its time, the merchant's answer, and whether the database takes the
-- write of the row, of which the error is only logged.
pub record Round : Type 0 where
  pub now : ℕ
  pub answer : Answer
  pub stored : Bool

-- One round of the retry worker on a row, as it stands in the table.
unfoldable pub retry_round : Round → PaymentCallbackLog → PaymentCallbackLog
retry_round r row =
    if is_pending r.now row && r.stored then attempt_delivery r.now row r.answer else row

-- The rounds of the retry worker on one row.
unfoldable pub retry_rounds : List Round → PaymentCallbackLog → PaymentCallbackLog
retry_rounds [] row = row
retry_rounds (r ∷ rest) row = retry_rounds rest (retry_round r row)

-- The exchanges of an answer.
abbrev pub exchanges : Answer → ℕ
exchanges (no_request text) = 0
exchanges _ = 1

-- How many requests the rounds make.
unfoldable pub requests : List Round → PaymentCallbackLog → ℕ
requests [] row = 0
requests (r ∷ rest) row =
    (if is_pending r.now row then exchanges r.answer else 0) + requests rest (retry_round r row)
