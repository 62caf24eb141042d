-- ===== src/Payment/Delivery/Bounded.antt =====
-- How often the merchant is called for one event.
use gtd_api.Prelude.{
  count, not, ℕ, ◌+◌, ◌≤◌, String, ◌≡◌, refl, Bool, false, List, [], ◌∷◌, All, arith, if◌then◌else◌,
}
use gtd_api.Payment.Delivery.{
  PaymentCallbackLog, Answer, Round, no_request, broken, answered, attempt_delivery, retry_round,
  retry_rounds, requests, exchanges, is_pending, mark_failure, delivered_row, is_2xx, enqueued,
}

attempt-counts :
    (now : ℕ) (row : PaymentCallbackLog) (a : Answer)
    → (exchanges a + row.attempt ≤ (attempt_delivery now row a).attempt)
      × ((attempt_delivery now row a).attempt ≤ 1 + row.attempt)
      × ((attempt_delivery now row a).max_attempts ≡ row.max_attempts)
unfolding attempt_delivery mark_failure delivered_row
attempt-counts now row (no_request text) = ground arith
attempt-counts now row (broken r text) = ground arith
attempt-counts now row (answered status body) = ground arith

-- An answer that counts as a delivery.
abbrev pub is_accepted : Answer → Bool
is_accepted (answered status body) = is_2xx status
is_accepted _ = false

attempt-delivers :
    (now : ℕ) (row : PaymentCallbackLog) (a : Answer)
    → (attempt_delivery now row a).is_delivered ≡ is_accepted a
unfolding attempt_delivery mark_failure delivered_row
attempt-delivers now row (no_request text) = refl
attempt-delivers now row (broken r text) = refl
attempt-delivers now row (answered status body) = ground arith

-- The rounds of which the database does not take the write.
abbrev pub lost : Round → Bool
lost r = not r.stored

exchanges_bound : (a : Answer) → exchanges a ≤ 1
exchanges_bound (no_request text) = omega arith
exchanges_bound (broken r text) = omega arith
exchanges_bound (answered status body) = omega arith

round-counts :
    (r : Round) (row : PaymentCallbackLog)
    → row.attempt ≤ row.max_attempts
    → ((if is_pending r.now row then exchanges r.answer else 0) + row.attempt
        ≤ (retry_round r row).attempt + (if lost r then 1 else 0))
      × ((retry_round r row).attempt ≤ (retry_round r row).max_attempts)
      × ((retry_round r row).max_attempts ≡ row.max_attempts)
unfolding retry_round
round-counts r row h = ground (arith, attempt-counts r.now row r.answer, exchanges_bound r.answer)

requests-bound :
    (rounds : List Round) (row : PaymentCallbackLog)
    → row.attempt ≤ row.max_attempts
    → requests rounds row + row.attempt ≤ row.max_attempts + count lost rounds
unfolding requests
requests-bound [] row h = omega (arith, h)
requests-bound (r ∷ rest) row h =
    let c = round-counts r row h in
    let later = requests-bound rest (retry_round r row) c.1 in omega (arith, c.0, c.2, later)

-- A row of which no request could be made.
pub record IsStuck (row : PaymentCallbackLog) : Type 0 where
  pub tried_once : row.attempt ≡ 1
  pub undelivered : row.is_delivered ≡ false
  pub more_left : 2 ≤ row.max_attempts

abbrev pub IsUnsendable : Round → Type 0
IsUnsendable r = (text : String) × (r.answer ≡ no_request text)

round-IsStuck :
    (r : Round) (row : PaymentCallbackLog)
    → IsUnsendable r
    → IsStuck row
    → IsStuck (retry_round r row)
unfolding retry_round attempt_delivery mark_failure
round-IsStuck r row (text, e) h = rw e (ground arith)

rounds-IsStuck :
    (rounds : List Round) (row : PaymentCallbackLog)
    → All IsUnsendable rounds
    → IsStuck row
    → IsStuck (retry_rounds rounds row)
unfolding retry_rounds
rounds-IsStuck [] row u h = h
rounds-IsStuck (r ∷ rest) row u h =
    rounds-IsStuck rest (retry_round r row) u.1 (round-IsStuck r row u.0 h)

-- For a row whose attempts have not passed its maximum, all rounds of the retry worker together
-- send the merchant at most as many requests as are left, and one more for each round of which the
-- database does not take the write of the row: these and the attempts that were counted before do
-- not exceed the maximum and the lost writes. And whatever the row, an attempt leaves it delivered
-- exactly on an answer between 200 and 299.
pub requests-bounded :
    (rounds : List Round) (row : PaymentCallbackLog) (now : ℕ) (a : Answer)
    → row.attempt ≤ row.max_attempts
    → (requests rounds row + row.attempt ≤ row.max_attempts + count lost rounds)
      × ((attempt_delivery now row a).is_delivered ≡ is_accepted a)
requests-bounded rounds row now a h = (requests-bound rounds row h, attempt-delivers now row a)

-- Where no request can be made of the merchant's address, neither at the first attempt for a new
-- event, of which the database takes the write, nor in any round of the retry worker, the row stays
-- at one attempt and undelivered, below its maximum, whichever of the rounds' writes are taken: the
-- worker takes it up again whenever its time comes, and never gives it up.
pub retry_rounds-IsStuck :
    (rounds : List Round) (payment_id client_id now : ℕ) (event payload text : String)
    → All IsUnsendable rounds
    → IsStuck (
        retry_rounds rounds
          (attempt_delivery now (enqueued payment_id client_id event payload) (no_request text)))
unfolding attempt_delivery mark_failure enqueued
retry_rounds-IsStuck rounds payment_id client_id now event payload text u =
    rounds-IsStuck rounds _ u
      (record { tried_once = ground arith; undelivered = ground arith; more_left = ground arith })
