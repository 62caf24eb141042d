-- ===== src/Payment/Delivery/Service/Attempt.antt =====
-- What one attempt of AttemptDelivery sends and writes.
use gtd_api.Prelude.{
  ℕ, ◌≤◌, String, ◌≡◌, ◌≢◌, refl, Bool, true, false, Option, none, some, List, [], ◌∷◌, ◌++◌, All,
  count, arith, eq_iff, if◌then◌else◌,
}
use gtd_api.Prelude.Text.{trim_space}
use gtd_api.Client.{Client}
use gtd_api.Payment.Model.{Payment}
use gtd_api.Payment.Delivery.{
  PaymentCallbackLog, Answer, no_request, broken, answered, attempt_delivery, mark_failure,
  delivered_row, is_2xx,
}
use gtd_api.Payment.Delivery.Service.{
  DeliveryEnv, DeliveryEffect, created, posted, updated, marked_sent, attempt_writes,
  attempt_request, attempt_effects, callback_address,
}

-- What an attempt never changes in a row.
pub record IsSameEvent (row r : PaymentCallbackLog) : Type 0 where
  pub same_id : r.id ≡ row.id
  pub same_payment : r.payment_id ≡ row.payment_id
  pub same_client : r.client_id ≡ row.client_id
  pub same_event : r.event ≡ row.event
  pub same_payload : r.payload ≡ row.payload

-- The address of a payment: its own, which is not blank.
pub record IsAddress (payment : Payment) (url : String) : Type 0 where
  pub given : String
  pub of_payment : payment.callback_url ≡ some given
  pub spaces_cut : url ≡ trim_space given
  pub not_blank : url ≢ ""

-- An effect of an attempt to deliver `row`, an event of `payment`, to `client`.
abbrev pub IsDeliveryOf :
    DeliveryEnv → PaymentCallbackLog → Client → Payment → DeliveryEffect → Type 0
IsDeliveryOf env row client payment (created r) = ◌≡◌ true false
IsDeliveryOf env row client payment (posted r url signature) =
    (r ≡ row) × IsAddress payment url × (signature ≡ env.sign row.payload client.callback_secret)
IsDeliveryOf env row client payment (updated r) = IsSameEvent row r
IsDeliveryOf env row client payment (marked_sent payment_id sent_at) =
    (payment_id ≡ row.payment_id)
    × ((url : String) × (status : ℕ) × (body : String) × IsAddress payment url
        × (env.answer url row ≡ answered status body)
        × (is_2xx status ≡ true))

abbrev pub is_posted : DeliveryEffect → Bool
is_posted (posted row url signature) = true
is_posted _ = false

abbrev pub is_updated : DeliveryEffect → Bool
is_updated (updated row) = true
is_updated _ = false

-- All effects are of the kind, one at most is a request, and `n` of them write the row.
pub record IsAttempt (P : DeliveryEffect → Type 0) (n : ℕ) (es : List DeliveryEffect) : Type 0 where
  pub kind : All P es
  pub asked_once : count is_posted es ≤ 1
  pub written : count is_updated es ≡ n

attempt-IsSameEvent :
    (now : ℕ) (row : PaymentCallbackLog) (a : Answer) → IsSameEvent row (attempt_delivery now row a)
unfolding attempt_delivery mark_failure delivered_row
attempt-IsSameEvent now row (no_request text) = ground arith
attempt-IsSameEvent now row (broken r text) = ground arith
attempt-IsSameEvent now row (answered status body) = ground arith

trimmed_address :
    (u url : String) → callback_address (some u) ≡ some url → (url ≡ trim_space u) × (url ≢ "")
unfolding callback_address
trimmed_address u url h = ground (arith, h, eq_iff (trim_space u) "")

callback_address-IsAddress :
    (payment : Payment) (o : Option String) (url : String)
    → payment.callback_url ≡ o
    → callback_address o ≡ some url
    → IsAddress payment url
unfolding callback_address
callback_address-IsAddress payment none url p h = cc
callback_address-IsAddress payment (some u) url p h = record {
  given = u;
  of_payment = p;
  spaces_cut = (trimmed_address u url h).0;
  not_blank = (trimmed_address u url h).1;
}

marked_if : Bool → PaymentCallbackLog → (now : ℕ) → List DeliveryEffect
marked_if sent row now = if sent then marked_sent row.payment_id now ∷ [] else []

marked-IsDeliveryOf :
    (env : DeliveryEnv) (row : PaymentCallbackLog) (client : Client) (payment : Payment)
    (url : String) (now status : ℕ) (body : String)
    → IsAddress payment url
    → env.answer url row ≡ answered status body
    → (sent : Bool) → is_2xx status ≡ sent
    → All (IsDeliveryOf env row client payment) (marked_if sent row now)
      × (count is_posted (marked_if sent row now) ≡ 0)
      × (count is_updated (marked_if sent row now) ≡ 0)
unfolding marked_if
marked-IsDeliveryOf env row client payment url now status body at e true good =
    (((refl, (url, status, body, at, e, good)), tt), refl, refl)
marked-IsDeliveryOf env row client payment url now status body at e false bad = (tt, refl, refl)

answer-IsAttempt :
    (env : DeliveryEnv) (row : PaymentCallbackLog) (client : Client) (payment : Payment)
    (url : String) (now : ℕ) (a : Answer)
    → IsAddress payment url
    → env.answer url row ≡ a
    → IsAttempt (IsDeliveryOf env row client payment) 1 (
        attempt_request row url (env.sign row.payload client.callback_secret) a
        ++ attempt_writes now row a)
unfolding marked_if
answer-IsAttempt env row client payment url now (no_request text) at e = record {
  kind = (attempt-IsSameEvent now row (no_request text), tt);
  asked_once = omega arith;
  written = refl;
}
answer-IsAttempt env row client payment url now (broken r text) at e = record {
  kind = ((refl, at, refl), (attempt-IsSameEvent now row (broken r text), tt));
  asked_once = omega arith;
  written = refl;
}
answer-IsAttempt env row client payment url now (answered status body) at e =
    let marked =
      marked-IsDeliveryOf env row client payment url now status body at e (is_2xx status) refl in
    record {
      kind = ((refl, at, refl), (attempt-IsSameEvent now row (answered status body), marked.0));
      asked_once = omega (arith, marked.1);
      written = omega (arith, marked.2);
    }

pub attempt_effects-IsAttempt :
    (env : DeliveryEnv) (row : PaymentCallbackLog) (client : Client) (payment : Payment)
    (url : String)
    → callback_address payment.callback_url ≡ some url
    → IsAttempt
        (IsDeliveryOf env row client payment)
        1
        (attempt_effects env row url client.callback_secret)
unfolding attempt_effects
attempt_effects-IsAttempt env row client payment url h =
    answer-IsAttempt env row client payment url (env.clock row) (env.answer url row)
      (callback_address-IsAddress payment payment.callback_url url refl h) refl

pub nil-IsAttempt : {P : DeliveryEffect → Type 0} → IsAttempt P 0 []
nil-IsAttempt = record { kind = tt; asked_once = omega arith; written = refl }
