-- ===== src/Transaction/ProviderCallback/Alterra.antt =====
-- ProcessAlterraCallback, alterraFailureMessageFromPayload and ProcessGenericCallback of
-- internal/service/provider_callback_service.go.
use gtd_api.Prelude.{
  ℕ, String, Bool, false, ◌||◌, Option, none, some, [], ◌∷◌, str_eq, if◌then◌else◌,
}
use gtd_api.Prelude.Int.{ℤ, pos}
use gtd_api.Prelude.Text.{trim_space}
use gtd_api.Errors.{plain_error, Result, ok, err}
use gtd_api.Run.{emit, emit_if, fail}
use gtd_api.Transaction.Model.{
  Transaction, success, is_final, JsonField, JsonValue, field, ProviderPayload,
}
use gtd_api.Transaction.Codes.{
  alterra_is_success, alterra_is_pending, alterra_is_fatal, alterra_description,
}
use gtd_api.Transaction.Store.{Env, saved, provider_callback_kept}
use gtd_api.Transaction.Settle.{unless_empty}
use gtd_api.Transaction.ProviderCallback.{
  Received, processed, audit_row, find_provider_transaction, close_provider, retry_or_close,
  process_kiosbank_callback,
}
use gtd_api.Transaction.ProviderFields.{
  look_up, first_text, text_in, text_of, object_of, positive_number,
}
use Prim.Native.String.{◌++◌ as ◌<>◌}

unfoldable pub alterra_order_id : ProviderPayload → String
unfolding first_text
alterra_order_id p = first_text ("order_id" ∷ "orderID" ∷ []) (text_of p)

unfoldable pub alterra_rc : ProviderPayload → String
unfolding first_text
alterra_rc p = first_text ("response_code" ∷ "responseCode" ∷ []) (text_of p)

abbrev text_unless_blank : String → String → String
text_unless_blank text other = if str_eq (trim_space text) "" then other else text

-- alterraFailureMessageFromPayload
unfoldable pub alterra_failure_message : ProviderPayload → (rc : String) → String
alterra_failure_message p rc =
    text_unless_blank (text_of p "message") (
      text_unless_blank (text_in (look_up "message" (object_of p "error")))
        (alterra_description rc))

abbrev is_open_code : String → Bool
is_open_code rc = str_eq rc "" || str_eq rc "10"

-- A response that is already final is kept.
unfoldable pub should_refresh_trace : Env → Transaction → Bool
should_refresh_trace env t =
    str_eq t.provider_response "" || is_open_code (env.response_code t.provider_response)

unfoldable pub alterra_traced : (refresh : Bool) → Transaction → ProviderPayload → Transaction
alterra_traced refresh t p = record t {
  provider_response = if refresh then p.raw else t.provider_response;
  provider_http_status = if refresh then some (pos 200) else t.provider_http_status;
}

abbrev positive_field : Option JsonValue → ℤ
positive_field (some (field f)) = positive_number (some f)
positive_field _ = pos 0

-- A float64 above 0 is taken by its integer part, also where this is 0.
abbrev is_positive_field : Option JsonValue → Bool
is_positive_field (some (field (JsonField.number b n))) = b
is_positive_field _ = false

unfoldable pub alterra_succeeded : (now : ℕ) → Transaction → ProviderPayload → Transaction
alterra_succeeded now t p = record t {
  status = success;
  failed_code = none;
  failed_reason = none;
  serial_number = unless_empty (text_of p "serial_number") t.serial_number;
  buy_price =
      if is_positive_field (look_up "price" p.fields)
      then some (positive_field (look_up "price" p.fields))
      else t.buy_price;
  processed_at = some now;
}

unfoldable pub alterra_status : (rc : String) → Option String
alterra_status rc =
    if alterra_is_success rc
    then some "success"
    else if alterra_is_fatal rc
    then some "failed"
    else if alterra_is_pending rc
    then some "pending"
    else none

abbrev alterra_note : ProviderPayload → (rc : String) → Option String
alterra_note p rc =
    if alterra_is_fatal rc then unless_empty (alterra_failure_message p rc) none else none

unfoldable pub alterra_open : Env → ProviderPayload → Transaction → Received
unfolding close_provider retry_or_close
alterra_open env p t =
    if alterra_is_success (alterra_rc p)
    then close_provider env (alterra_succeeded env.now t p) "transaction.success"
    else if alterra_is_fatal (alterra_rc p)
    then retry_or_close env t "alterra" (alterra_rc p) (alterra_failure_message p (alterra_rc p))
        p.raw
    else processed

unfoldable pub alterra_found : Env → ProviderPayload → Result Transaction → Received
alterra_found env p (err e) = fail e
alterra_found env p (ok t) =
    let refresh = should_refresh_trace env t in
    let traced = alterra_traced refresh t p in
    emit
      (provider_callback_kept (
        audit_row env "alterra" (alterra_order_id p) t p (alterra_status (alterra_rc p))
          (alterra_note p (alterra_rc p))))
      (if is_final t.status
        then emit_if refresh (saved traced (env.update traced)) processed
        else alterra_open env p traced)

unfoldable pub alterra_transaction : Env → ProviderPayload → Result Transaction
alterra_transaction env p =
    find_provider_transaction env "no order ID in Alterra callback" (alterra_order_id p)

unfoldable pub process_alterra_callback : Env → ProviderPayload → Received
process_alterra_callback env p = alterra_found env p (alterra_transaction env p)

unfoldable pub process_generic_callback : Env → (provider : String) → ProviderPayload → Received
process_generic_callback env provider p =
    if str_eq provider "kiosbank"
    then process_kiosbank_callback env p
    else if str_eq provider "alterra"
    then process_alterra_callback env p
    else fail (plain_error ("unknown provider: " <> provider))
