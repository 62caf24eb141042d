-- ===== src/Payment/Detail.antt =====
-- What a created payment shows: simplifyPaymentDetail, renderInstruction and resolveExpiredAt of
-- internal/service/payment_service.go.
use gtd_api.Prelude.{
  ℕ, zero, suc, ◌+◌, ◌*◌, ◌-◌, String, ◌≡◌, refl, Option, none, some, List, [], ◌∷◌, ◌++◌, str_eq,
  starts_with, if◌then◌else◌,
}
use gtd_api.Prelude.Int.{ℤ, pos, negsuc}
use gtd_api.Prelude.Text.{equal_fold}
use gtd_api.Payment.Model.{
  PaymentType, va, ewallet, qris, retail, other_type, PaymentDetailNormalized,
}
use Prim.Native.String.{◌++◌ as ◌<>◌, count}

-- if value != "" { out[key] = value }
abbrev pub entry : (key value : String) → List (String × String)
entry key value = if str_eq value "" then [] else (key, value) ∷ []

abbrev first_set : String → String → String → String
first_set a b c = if str_eq a "" then (if str_eq b "" then c else b) else a

unfoldable pub simplify_payment_detail :
    PaymentType → (code : String) → PaymentDetailNormalized → List (String × String)
unfolding equal_fold
simplify_payment_detail va code n =
    entry "vaName" n.account_name
    ++ entry "vaNumber" n.va_number
    ++ entry "billerCode" n.biller_code
simplify_payment_detail qris code n =
    if equal_fold code "CPM" then [] else entry "qrString" n.qr_string
simplify_payment_detail ewallet code n =
    if equal_fold code "OVO"
    then []
    else entry "checkoutUrl" (first_set n.checkout_url n.mobile_web_url n.deeplink)
simplify_payment_detail retail code n = entry "paymentCode" n.payment_code
simplify_payment_detail (other_type t) code n = []

-- strings.ReplaceAll for a pattern that is not empty: `skip` characters of a match are still to be
-- dropped.
unfoldable pub replace_from : (skip : ℕ) → (old new : String) → String → String
replace_from skip old new String.[] = ""
replace_from zero old new (String.◌∷◌ c s) =
    if starts_with (String.◌∷◌ c s) old
    then new <> replace_from (count old - 1) old new s
    else String.◌∷◌ c (replace_from 0 old new s)
replace_from (suc skip) old new (String.◌∷◌ c s) = replace_from skip old new s

-- The replacements in the order in which the map's iteration gives them.
unfoldable pub replace_each : List (String × String) → String → String
unfolding replace_from
replace_each [] text = text
replace_each ((old, new) ∷ rest) text = replace_each rest (replace_from 0 old new text)

-- `order` permutes the four placeholders, as Go's iteration over a map may.
unfoldable pub render_instruction :
    (order : List (String × String) → List (String × String))
    → (template : Option String) → PaymentDetailNormalized
    → (amount_text : String) → Option String
unfolding replace_each
render_instruction order none n amount_text = none
render_instruction order (some template) n amount_text =
    if str_eq template ""
    then none
    else some (
        replace_each
          (order (
            ("{VA_NUMBER}", n.va_number)
            ∷ ("{PAYMENT_CODE}", n.payment_code)
            ∷ ("{QR_STRING}", n.qr_string)
            ∷ ("{AMOUNT}", amount_text)
            ∷ []))
          template)

-- resolveExpiredAt("", maxDurationSec), the only call: the method's duration, or a day.
unfoldable pub resolve_expired_at : (now : ℕ) → (max_duration_sec : ℤ) → ℕ
resolve_expired_at now (pos zero) = now + 86400 * 1000000000
resolve_expired_at now (pos (suc n)) = now + suc n * 1000000000
resolve_expired_at now (negsuc n) = now + 86400 * 1000000000

renders :
    replace_each
      (("{VA_NUMBER}", "8801") ∷ ("{AMOUNT}", "5000") ∷ [])
      "Pay {AMOUNT} to {VA_NUMBER}."
    ≡ "Pay 5000 to 8801."
unfolding replace_each
renders = refl
