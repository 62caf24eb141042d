-- ===== src/Transaction/ProviderCallback.antt =====
-- internal/service/provider_callback_service.go: what the callbacks share, and those of Kiosbank.
pub mod Alterra
pub mod Answered
use gtd_api.Prelude.{
  ℕ, ◌+◌, ◌-◌, ◌*◌, String, Bool, true, false, ◌&&◌, ◌||◌, Option, none, some, List, [], ◌∷◌, ◌++◌,
  ltb, leb, ◌==◌, str_eq, if◌then◌else◌,
}
use gtd_api.Prelude.Int.{ℤ, pos, negsuc, two63, ltb_ℤ}
use gtd_api.Prelude.Text.{trim_space}
use gtd_api.Errors.{GoError, plain_error, Result, ok, err}
use gtd_api.Run.{Run, emit, return_ok, fail}
use gtd_api.Ppob.Model.{ProviderResponse}
use gtd_api.Transaction.Model.{
  Transaction, success, failed, is_final, JsonField, JsonValue, ProviderPayload, ProviderCallback,
}
use gtd_api.Transaction.Model as Model
use gtd_api.Transaction.Codes.{
  ResponseClass, success_class, pending_class, failed_class, async, classify_rc,
  kiosbank_description,
}
use gtd_api.Transaction.Failure.Final.{no_response}
use gtd_api.Transaction.Store.{
  Env, Effect, callback_started, provider_callback_kept, provider_callback_processed, save,
  notify_status,
}
use gtd_api.Transaction.Settle.{unless_empty, apply_canonical_failure}
use gtd_api.Transaction.Route.{retry_with_next_provider, is_prepaid}
use gtd_api.Transaction.Callback.{first_found, id_or_zero}
use Prim.Native.Char.{Char, code}
use Prim.Native.String.{◌++◌ as ◌<>◌}
use gtd_api.Transaction.ProviderFields.{
  look_up, text_in, value_text, as_object, first_text, text_of, object_of, is_digit, digits_value,
  positive_amount, negated, negative_amount, atoi_or_zero, parse_callback_amount,
  extract_kiosbank_sn, positive_number, extract_kiosbank_buy_price,
}

-- An error is all that is returned.
abbrev pub Received : Type 0
Received = Run Effect Unit

abbrev pub processed : Received
processed = emit provider_callback_processed (return_ok tt)

-- A final status: the error of the write is only logged.
unfoldable pub close_provider : Env → Transaction → (event : String) → Received
close_provider env t event =
    save env t (notify_status env t (emit (callback_started t event) processed))

abbrev pub after_provider_retry :
    List Effect → (handled : Bool) → Option GoError → Received → Received
after_provider_retry es handled (some e) next = record { effects = es; outcome = err e }
after_provider_retry es true none next = record {
  effects = es ++ (provider_callback_processed ∷ []);
  outcome = ok tt;
}
after_provider_retry es false none next = record {
  effects = es ++ next.effects;
  outcome = next.outcome;
}

-- The failure of a callback, as its response.
abbrev async_failure : (rc message raw : String) → ProviderResponse
async_failure rc message raw = record no_response {
  rc = rc;
  message = message;
  http_status = pos 200;
  raw_response = raw;
}

unfoldable pub callback_failed_at :
    Env → Transaction → (provider rc message raw : String) → Transaction
callback_failed_at env t provider rc message raw =
    record (apply_canonical_failure env t provider async (async_failure rc message raw)) {
      status = failed;
      processed_at = some env.now;
    }

-- The failed branch of both functions: another provider where that is possible, and else the end.
unfoldable pub retry_or_close : Env → Transaction → (provider rc message raw : String) → Received
unfolding retry_with_next_provider close_provider callback_failed_at
retry_or_close env t provider rc message raw =
    let next =
      close_provider env (callback_failed_at env t provider rc message raw) "transaction.failed" in
    if env.has_provider_retrier && is_prepaid t.type
    then (let r = retry_with_next_provider env t rc message in
        after_provider_retry r.effects r.handled r.error next)
    else next

abbrev provider_of : Env → (provider : String) → Transaction → ℕ
provider_of env provider t = elim t.provider_id [
  | some id ↦ id
  | none ↦ id_or_zero (env.provider_id_of provider)
]

abbrev pub audit_row :
    Env
    → (provider ref_id : String) → Transaction
    → ProviderPayload
    → (status message : Option String) → ProviderCallback
audit_row env provider ref_id t p status message = record {
  provider_id = provider_of env provider t;
  provider_ref_id = ref_id;
  transaction_id = t.id;
  payload = p.raw;
  status = status;
  message = message;
}

-- By the provider's reference, or by the transaction's id.
unfoldable pub find_provider_transaction : Env → (missing ref_id : String) → Result Transaction
find_provider_transaction env missing ref_id =
    if str_eq ref_id ""
    then err (plain_error missing)
    else first_found (env.by_provider_ref_id ref_id) (
        first_found (env.by_transaction_id ref_id)
          (err (plain_error ("transaction not found: " <> ref_id))))

unfoldable pub kiosbank_ref : ProviderPayload → String
unfolding first_text look_up
kiosbank_ref p = first_text ("referenceID" ∷ "referenceId" ∷ "ref_id" ∷ []) (text_of p)

unfoldable pub kiosbank_rc : ProviderPayload → String
unfolding first_text look_up
kiosbank_rc p = first_text ("rc" ∷ "RC" ∷ []) (text_of p)

abbrev text_or : String → String → String
text_or text other = if str_eq text "" then other else text

unfoldable pub kiosbank_failed_message : ProviderPayload → String
unfolding look_up kiosbank_description kiosbank_rc
kiosbank_failed_message p =
    text_or (text_of p "message")
      (text_or (text_of p "description") (kiosbank_description (kiosbank_rc p)))

abbrev is_empty_ref : Option String → Bool
is_empty_ref none = true
is_empty_ref (some ref) = str_eq ref ""

unfoldable pub kiosbank_traced : Transaction → (ref_id : String) → ProviderPayload → Transaction
kiosbank_traced t ref_id p = record t {
  provider_response = p.raw;
  provider_http_status = some (pos 200);
  provider_ref_id = if is_empty_ref t.provider_ref_id then some ref_id else t.provider_ref_id;
}

unfoldable pub kiosbank_succeeded : (now : ℕ) → Transaction → ProviderPayload → Transaction
unfolding look_up extract_kiosbank_sn extract_kiosbank_buy_price
kiosbank_succeeded now t p =
    let data_fields = object_of p "data" in
    let price = extract_kiosbank_buy_price data_fields in
    record t {
      status = success;
      failed_code = none;
      failed_reason = none;
      serial_number = unless_empty (extract_kiosbank_sn data_fields) t.serial_number;
      buy_price = if ltb_ℤ (pos 0) price then some price else t.buy_price;
      processed_at = some now;
    }

abbrev kiosbank_status : ResponseClass → String
kiosbank_status success_class = "success"
kiosbank_status pending_class = "pending"
kiosbank_status failed_class = "failed"

abbrev kiosbank_note : ProviderPayload → ResponseClass → Option String
kiosbank_note p failed_class = some (kiosbank_failed_message p)
kiosbank_note p _ = none

unfoldable pub kiosbank_open : Env → ProviderPayload → Transaction → ResponseClass → Received
unfolding kiosbank_succeeded close_provider retry_or_close kiosbank_failed_message kiosbank_rc
kiosbank_open env p t success_class =
    close_provider env (kiosbank_succeeded env.now t p) "transaction.success"
kiosbank_open env p t failed_class =
    retry_or_close env t "kiosbank" (kiosbank_rc p) (kiosbank_failed_message p) p.raw
kiosbank_open env p t pending_class = save env t processed

unfoldable pub kiosbank_found : Env → ProviderPayload → Result Transaction → Received
unfolding kiosbank_ref kiosbank_rc kiosbank_traced kiosbank_open classify_rc kiosbank_failed_message
kiosbank_found env p (err e) = fail e
kiosbank_found env p (ok t) =
    let class = classify_rc (kiosbank_rc p) async in
    let traced = kiosbank_traced t (kiosbank_ref p) p in
    emit
      (provider_callback_kept (
        audit_row env "kiosbank" (kiosbank_ref p) t p (some (kiosbank_status class))
          (kiosbank_note p class)))
      (if is_final t.status then save env traced processed else kiosbank_open env p traced class)

unfoldable pub kiosbank_transaction : Env → ProviderPayload → Result Transaction
unfolding find_provider_transaction kiosbank_ref
kiosbank_transaction env p =
    find_provider_transaction env "no reference ID in Kiosbank callback" (kiosbank_ref p)

unfoldable pub process_kiosbank_callback : Env → ProviderPayload → Received
unfolding kiosbank_found kiosbank_transaction
process_kiosbank_callback env p = kiosbank_found env p (kiosbank_transaction env p)
