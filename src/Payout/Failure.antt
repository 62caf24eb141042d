-- ===== src/Payout/Failure.antt =====
-- internal/service/payout_errors.go, and the helpers on texts of
-- internal/service/payout_helpers.go: what the payout service makes of a provider's error.
use gtd_api.Prelude.{
  String, Bool, true, false, ◌&&◌, ◌||◌, Option, none, some, leb, str_eq, starts_with,
  if◌then◌else◌,
}
use gtd_api.Prelude.Text.{trim_space, to_lower, contains}
use gtd_api.Errors.{GoError, payment_error, payout_error, SnapInfo, extract_snap_error}
use Prim.Native.Char.{code as code_point}

abbrev some_if_set : String → Option String
some_if_set t = if str_eq t "" then none else some t

-- stringPtr: nil for a blank text
unfoldable pub string_ptr : String → Option String
string_ptr v = some_if_set (trim_space v)

unfoldable pub deref_string : Option String → String
deref_string none = ""
deref_string (some v) = trim_space v

abbrev or_fallback : String → String → String
or_fallback v fallback = if str_eq v "" then fallback else v

unfoldable pub non_empty_or_default : (v fallback : String) → String
non_empty_or_default v fallback = or_fallback (trim_space v) fallback

-- ch < '0' || ch > '9' for no character
unfoldable all_digits : String → Bool
all_digits String.[] = true
all_digits (String.◌∷◌ c s) = (leb 48 (code_point c) && leb (code_point c) 57) && all_digits s

unfoldable pub is_numeric_string : String → Bool
unfolding all_digits
is_numeric_string v = if all_digits v then (if str_eq v "" then false else true) else false

abbrev pub provider_unavailable : (text : String) → GoError → GoError
provider_unavailable text = payout_error 503 "PROVIDER_UNAVAILABLE" text true

unfoldable inquiry_error_of : GoError → SnapInfo → GoError
inquiry_error_of e info =
    if starts_with info.response_code "404"
    then payout_error 404 "ACCOUNT_NOT_FOUND" "Account not found" false e
    else if starts_with info.response_code "400"
    then payout_error 400 "INVALID_REQUEST"
        (non_empty_or_default info.response_message "Invalid inquiry request") false e
    else if starts_with info.response_code "401"
    then provider_unavailable "Payout provider unavailable" e
    else payout_error 503 "BANK_UNAVAILABLE" "Bank is temporarily unavailable" true e

unfoldable inquiry_error_with : GoError → Option SnapInfo → GoError
unfolding inquiry_error_of
inquiry_error_with e none = provider_unavailable "Payout provider is temporarily unavailable" e
inquiry_error_with e (some info) = inquiry_error_of e info

-- mapPayoutInquiryError
unfoldable pub map_payout_inquiry_error : GoError → GoError
unfolding inquiry_error_with
map_payout_inquiry_error e = inquiry_error_with e (extract_snap_error e)

unfoldable pub submit_error_of : GoError → SnapInfo → GoError
submit_error_of e info =
    if starts_with info.response_code "404"
    then payout_error 404 "ACCOUNT_NOT_FOUND" "Account not found" false e
    else if contains (to_lower info.response_message) "insufficient"
    then payout_error 400 "INSUFFICIENT_BALANCE" "Disbursement balance is insufficient" false e
    else if starts_with info.response_code "409"
    then payout_error 400 "DUPLICATE_REFERENCE_ID" "Reference ID already exists" false e
    else if starts_with info.response_code "400" || starts_with info.response_code "403"
    then payout_error 400 "INVALID_REQUEST"
        (non_empty_or_default info.response_message "Invalid payout request") false e
    else provider_unavailable "Payout provider unavailable" e

unfoldable pub submit_error_with : GoError → Option SnapInfo → GoError
submit_error_with e none = provider_unavailable "Payout provider is temporarily unavailable" e
submit_error_with e (some info) = submit_error_of e info

-- mapPayoutSubmitError
unfoldable pub map_payout_submit_error : GoError → GoError
unfolding submit_error_with
map_payout_submit_error e = submit_error_with e (extract_snap_error e)

-- An answer that leaves open whether the provider pays: no recognised answer at all, or a server's
-- error.
abbrev pub uncertain_info : Option SnapInfo → Bool
uncertain_info none = true
uncertain_info (some info) =
    starts_with info.response_code "500"
    || starts_with info.response_code "504"
    || leb 500 info.http_status

unfoldable pub is_uncertain_payout_error : GoError → Bool
is_uncertain_payout_error e = uncertain_info (extract_snap_error e)

abbrev code_of : Option SnapInfo → String
code_of none = "UNKNOWN"
code_of (some info) = if str_eq info.response_code "" then "UNKNOWN" else info.response_code

unfoldable pub payout_failed_code : GoError → String
payout_failed_code e = code_of (extract_snap_error e)

-- pErr.Retryable of the outermost *PayoutServiceError, as errors.As finds it
abbrev pub is_retryable : GoError → Bool
is_retryable (payout_error http code message retryable cause) = retryable
is_retryable (payment_error http code message cause) = is_retryable cause
is_retryable _ = false

abbrev pub message_of : GoError → String
message_of (payout_error http code message retryable cause) = message
message_of _ = ""
