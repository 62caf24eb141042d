-- ===== src/Payment/Tests/Webhooks.antt =====
-- Runs of the delivery of events, and its theorems at them.
use gtd_api.Prelude.{
  Bool, ℕ, ◌+◌, ◌≤◌, ◌≡◌, refl, zero, suc, true, false, none, some, List, [], length, if◌then◌else◌,
  ◌==◌, ◌∷◌, arith,
}
use gtd_api.Payment.Delivery.{
  PaymentCallbackLog, Answer, Round, no_request, answered, attempt_delivery, retry_round,
  retry_rounds, requests, enqueued, delivered_row,
}
use gtd_api.Payment.Delivery.Service.{
  DeliveryEnv, posted, updated, marked_sent, retry_pending, enqueue_event,
}
use gtd_api.Payment.Delivery.Service.Addressed.{IsEnqueue, GivesBatch, deliveries-IsAddressed}
use gtd_api.Payment.Tests.{shop, waiting}
use gtd_api.Errors.{ok, err, no_rows}
use gtd_api.Prelude.Int.{pos}
use gtd_api.Prelude.Text.{trim_space}
use gtd_api.Payment.Delivery.Bounded.{IsStuck, requests-bounded, retry_rounds-IsStuck}

abbrev fresh : PaymentCallbackLog
fresh = record {
  id = 0;
  payment_id = 7;
  client_id = 3;
  event = "payment.success";
  payload = "{}";
  attempt = 0;
  max_attempts = 5;
  http_status = none;
  response_body = none;
  error_message = none;
  is_delivered = false;
  delivered_at = none;
  next_retry_at = none;
}

abbrev round : ℕ → Answer → Bool → Round
round now answer stored = record { now = now; answer = answer; stored = stored }

abbrev rounds : List Round
rounds =
    round 0 (answered 500 "") true
    ∷ round 10 (answered 200 "") true
    ∷ round 40000000000 (answered 200 "") false
    ∷ round 50000000000 (answered 200 "") true
    ∷ round 60000000000 (answered 200 "") true
    ∷ []

-- A failure, a round before its time, a success of which the write is lost, the same once more, and
-- a round that finds the row delivered.
rounds_run : requests rounds fresh ≡ 3
unfolding requests retry_round attempt_delivery
rounds_run = refl

requests-bounded_example :
    (requests rounds fresh + 0 ≤ 5 + 1)
    × ((attempt_delivery 7 fresh (answered 201 "ok")).is_delivered ≡ true)
requests-bounded_example = requests-bounded rounds fresh 7 (answered 201 "ok") (omega arith)

retry_rounds-IsStuck_example : IsStuck (
    retry_rounds
      (round 40000000000 (no_request "invalid port") true ∷ [])
      (attempt_delivery 0 (enqueued 7 3 "payment.success" "{}") (no_request "invalid port")))
retry_rounds-IsStuck_example =
    retry_rounds-IsStuck (round 40000000000 (no_request "invalid port") true ∷ []) 7 3 0
      "payment.success" "{}" "invalid port" (("invalid port", refl), tt)

abbrev due : PaymentCallbackLog
due = record fresh { id = 4; attempt = 1; http_status = some 500; next_retry_at = some 30 }

abbrev at_most : ℕ → List PaymentCallbackLog
at_most zero = []
at_most (suc n) = due ∷ []

-- A world of one shop and one payment, where one row is due.
abbrev services : DeliveryEnv
services = record {
  client_by_id = λ id. if id == 3 then ok shop else err no_rows;
  payment_by_id = λ id. ok waiting;
  pending_logs = λ n. ok (at_most n);
  insert_log = λ row. ok 9;
  callback_payload = λ p event. "{}";
  sign = λ payload secret. secret;
  answer = λ url row. answered 200 "ok";
  clock = λ row. 40;
}

keeps_limit :
    (n : ℕ) (rows : List PaymentCallbackLog) → services.pending_logs n ≡ ok rows → length rows ≤ n
keeps_limit zero rows h = ground arith
keeps_limit (suc n) rows h = ground arith

services_run :
    (retry_pending services (pos 0)).effects
    ≡ posted due "https://shop.example/cb" "s"
      ∷ updated (delivered_row 40 due 200 "ok")
      ∷ marked_sent 7 40
      ∷ []
unfolding retry_pending delivered_row attempt_delivery trim_space
services_run = refl

deliveries-IsAddressed_example :
    IsEnqueue services
      (some waiting)
      "payment.success"
      (enqueue_event services (some waiting) "payment.success")
    × GivesBatch services 50 (ok (due ∷ [])) (retry_pending services (pos 0))
deliveries-IsAddressed_example =
    deliveries-IsAddressed services (some waiting) "payment.success" (pos 0) keeps_limit
