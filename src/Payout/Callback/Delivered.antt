-- ===== src/Payout/Callback/Delivered.antt =====
-- The posting of the final event of a payout, and what its row remembers of it.
use gtd_api.Prelude.{
  ℕ, String, ◌≡◌, refl, true, false, none, some, [], ◌∷◌, ◌⊎◌, ◌||◌, leb, ltb, Bool-cases, inl, inr,
  str_eq,
}
use gtd_api.Errors.{GoError, Result, ok, err}
use gtd_api.Run.{Run, emit}
use gtd_api.Payout.Model.{Payout, is_final, payout_event_name}
use gtd_api.Payout.Store.{Env, Effect, posted, marked_sent, attempt_counted}
use gtd_api.Payout.Callback.{
  try_send_final_callback, deliver, deliver_to, settle_callback, callback_target, answer_of,
}

-- What the round of the final callback comes to, where the merchant's address is `url` and answers a
-- delivery with `answer`.
pub data IsDelivery (env : Env) (p : Payout) (url : String) (answer : Result ℕ)
    (r : Run Effect Payout) : Type 0 where
  resting :
      (is_final p.status ≡ false) ⊎ (p.callback_sent ≡ true)
      → r.effects ≡ []
      → IsDelivery env p url answer r
  sent :
      {code : ℕ}
      → answer ≡ ok code
      → (ltb code 200 || leb 300 code) ≡ false
      → r.effects ≡ posted url (payout_event_name p.status) p ∷ marked_sent p.id ∷ []
      → r.outcome ≡ ok (record p { callback_sent = true; callback_sent_at = some env.now })
      → IsDelivery env p url answer r
  refused :
      {code : ℕ}
      → answer ≡ ok code
      → (ltb code 200 || leb 300 code) ≡ true
      → r.effects ≡ posted url (payout_event_name p.status) p ∷ attempt_counted p.id ∷ []
      → r.outcome ≡ ok p
      → IsDelivery env p url answer r
  unreachable :
      {e : GoError}
      → answer ≡ err e
      → r.effects ≡ posted url (payout_event_name p.status) p ∷ attempt_counted p.id ∷ []
      → r.outcome ≡ ok p
      → IsDelivery env p url answer r

settle_callback-IsDelivery :
    (env : Env) (p : Payout) (url : String) (answer : Result ℕ)
    → env.mark_sent p.id ≡ none
    → IsDelivery env p url answer (
        emit
          (posted url (payout_event_name p.status) p)
          (settle_callback env p (answer_of env answer)))
unfolding settle_callback
settle_callback-IsDelivery env p url (err e) marks = unreachable refl refl refl
settle_callback-IsDelivery env p url (ok code) marks =
    elim (Bool-cases (ltb code 200 || leb 300 code)) [
      | inl bad ↦ refused refl bad (rw bad refl) (rw bad refl)
      | inr good ↦ sent refl good (rw (good, marks) refl) (rw (good, marks) refl)
    ]

try_send_final_callback-posts :
    (env : Env) (p : Payout) (url secret : String)
    → env.has_callbacks ≡ true
    → callback_target env p ≡ ok (url, secret)
    → str_eq url "" ≡ false
    → p.callback_sent ≡ false
    → is_final p.status ≡ true
    → try_send_final_callback env p
      ≡ emit (posted url (payout_event_name p.status) p) (
          settle_callback env p
            (answer_of env (env.post url (payout_event_name p.status) secret p)))
unfolding try_send_final_callback deliver deliver_to
try_send_final_callback-posts env p url secret on target address unsent final =
    simp (on, unsent, final, target, address)

-- Where callbacks are set up, the payout's merchant has an address, and the database takes the mark:
-- a payout that is not final, or whose event was delivered, is left alone. For any other, the event,
-- named for the status, is posted to the address. An answer between 200 and 299 marks the row as
-- sent; any other answer, and none, counts an attempt and leaves the payout unsent, for the next
-- round.
pub final_callback-IsDelivery :
    (env : Env) (p : Payout) (url secret : String)
    → env.has_callbacks ≡ true
    → callback_target env p ≡ ok (url, secret)
    → str_eq url "" ≡ false
    → env.mark_sent p.id ≡ none
    → IsDelivery env p url
        (env.post url (payout_event_name p.status) secret p)
        (try_send_final_callback env p)
unfolding try_send_final_callback
final_callback-IsDelivery env p url secret on target address marks =
    elim (Bool-cases p.callback_sent) [
      | inl already ↦ resting (inr already) (rw (on, already) refl)
      | inr unsent ↦ elim (Bool-cases (is_final p.status)) [
        | inl final ↦
            rw (try_send_final_callback-posts env p url secret on target address unsent final) (
              settle_callback-IsDelivery env p url
                (env.post url (payout_event_name p.status) secret p) marks)
        | inr unsettled ↦ resting (inl unsettled) (rw (on, unsent, unsettled) refl)
      ]
    ]
