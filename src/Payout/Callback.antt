-- ===== src/Payout/Callback.antt =====
-- PayoutCallbackService (internal/service/payout_callback_service.go), and trySendFinalCallback and
-- trySendProcessingCallback of internal/service/payout_service.go: the merchant's webhook.
pub mod Delivered
use gtd_api.Prelude.{
  ℕ, String, ◌≡◌, Bool, true, false, ◌||◌, not, Option, none, some, ltb, leb, str_eq, if◌then◌else◌,
}
use gtd_api.Errors.{GoError, plain_error, Result, ok, err}
use gtd_api.Run.{Run, return_ok, fail, emit}
use gtd_api.Client.{Client}
use gtd_api.Payout.Model.{Payout, is_final, payout_event_name}
use gtd_api.Payout.Store.{Env, Effect, posted, marked_sent, attempt_counted}
use gtd_api.Payout.Failure.{deref_string}
use Prim.Native.String.{◌++◌ as ◌<>◌}

abbrev own_or_client : String → Client → String × String
own_or_client url client =
    (if str_eq url "" then client.callback_url else url, client.callback_secret)

abbrev target_with : String → Result Client → Result (String × String)
target_with url (ok client) = ok (own_or_client url client)
target_with url (err e) = err e

-- The address and the secret: the payout's own address, or the merchant's.
unfoldable pub callback_target : Env → Payout → Result (String × String)
callback_target env p =
    if env.has_clients
    then target_with (deref_string p.callback_url) (env.client_by_id p.client_id)
    else ok (deref_string p.callback_url, "")

pub data Delivery : Type 0 where
  delivered no_target : Delivery
  undelivered : GoError → Delivery

abbrev pub answer_of : Env → Result ℕ → Delivery
answer_of env (err e) = undelivered e
answer_of env (ok code) =
    if ltb code 200 || leb 300 code
    then undelivered (plain_error ("payout callback returned status " <> env.decimal code))
    else delivered

-- deliver, before the effect of the post: what to post to, and how it ends.
unfoldable pub deliver_to :
    Env
    → Payout
    → (event : String) → Result (String × String)
    → (Delivery → Run Effect Payout)
    → Run Effect Payout
deliver_to env p event (err e) next = next (undelivered e)
deliver_to env p event (ok (url, secret)) next =
    if str_eq url ""
    then next no_target
    else emit (posted url event p) (next (answer_of env (env.post url event secret p)))

unfoldable pub deliver :
    Env → Payout → (event : String) → (Delivery → Run Effect Payout) → Run Effect Payout
deliver env p event next = deliver_to env p event (callback_target env p) next

abbrev pub after_mark : Env → Payout → Option GoError → Run Effect Payout
after_mark env p none =
    emit (marked_sent p.id)
      (return_ok (record p { callback_sent = true; callback_sent_at = some env.now }))
after_mark env p (some e) = return_ok p

-- What follows the delivery of the final event; the error of counting the attempt is dropped.
unfoldable pub settle_callback : Env → Payout → Delivery → Run Effect Payout
settle_callback env p (undelivered e) = emit (attempt_counted p.id) (return_ok p)
settle_callback env p _ = after_mark env p (env.mark_sent p.id)

-- trySendFinalCallback; Send does nothing for a payout that is not final.
unfoldable pub try_send_final_callback : Env → Payout → Run Effect Payout
try_send_final_callback env p =
    if not env.has_callbacks || p.callback_sent
    then return_ok p
    else if not (is_final p.status)
    then return_ok p
    else deliver env p (payout_event_name p.status) (settle_callback env p)

unfoldable pub try_send_processing_callback : Env → Payout → Run Effect Payout
try_send_processing_callback env p =
    if not env.has_callbacks
    then return_ok p
    else deliver env p "payout.processing" (λ _. return_ok p)
