-- ===== src/Transaction/Failure/Final.antt =====
-- The response that stands for several failed attempts: extractProviderErrorCode and
-- providerResponseFromError of internal/service/transaction_service.go, and
-- BuildFinalFailureResponseFromAttempts of internal/service/provider_public_contract.go.
use gtd_api.Prelude.{
  String, Bool, true, false, ◌&&◌, Option, none, some, List, [], ◌∷◌, ltb, leb, length, str_eq,
  if◌then◌else◌,
}
use gtd_api.Prelude.Int.{pos}
use gtd_api.Prelude.Text.{trim_space, codes}
use gtd_api.Errors.{error_text, ok, err}
use gtd_api.Ppob.Model.{ProviderResponse, ProviderAttempt}
use gtd_api.Transaction.Codes.{Phase, inquiry_phase}
use gtd_api.Transaction.Failure.{canonical_failure}
use gtd_api.Transaction.FailureCodes.{
  JsonTexts, CanonicalFailure, get_canonical_failure, precedence, looks_like_timeout_message,
}
use Prim.Native.Char.{Char, code as char_code}
use Prim.Native.String.{◌++◌ as ◌<>◌}

is_digit : Char → Bool
is_digit c = leb 48 (char_code c) && leb (char_code c) 57

has_code_length : String → Bool
has_code_length token = leb 2 (length (codes token)) && leb (length (codes token)) 3

-- The walk of extractProviderErrorCode; `token` holds the digits since `start`, and is "" where
-- that is -1.
walk_token : (token : String) → String → String
walk_token token String.[] = if has_code_length token then token else ""
walk_token token (String.◌∷◌ c s) = elim (is_digit c) [
  | true ↦ walk_token (token <> String.◌∷◌ c "") s
  | false ↦ elim (has_code_length token) [ true ↦ token | false ↦ walk_token "" s ]
]

unfoldable pub extract_provider_error_code : String → String
unfolding walk_token is_digit has_code_length codes
extract_provider_error_code message = walk_token "" message

abbrev failed_with : CanonicalFailure → ProviderResponse → ProviderResponse
failed_with f r = record r {
  message = f.message;
  public_code = f.code;
  public_message = f.message;
  public_http_code = f.http_status;
}

-- Kiosbank may have taken an order that ended in an error, but not an inquiry.
abbrev is_uncertain : (provider : String) → Phase → Bool
is_uncertain provider inquiry_phase = false
is_uncertain provider _ = str_eq provider "kiosbank"

abbrev pub no_response : ProviderResponse
no_response = record {
  success = false;
  pending = false;
  ref_id = "";
  provider_ref_id = "";
  http_status = pos 0;
  phase = "";
  status = "Failed";
  rc = "";
  message = "";
  provider_status = "";
  serial_number = "";
  customer_name = "";
  amount = pos 0;
  admin = pos 0;
  description = "";
  raw_response = "";
  needs_retry = false;
  public_code = "";
  public_message = "";
  public_http_code = 0;
}

-- providerResponseFromError, of an error that is not nil, by its text.
unfoldable pub provider_response_from_error :
    JsonTexts → (provider : String) → Phase → (text : String) → ProviderResponse
unfolding extract_provider_error_code looks_like_timeout_message get_canonical_failure trim_space
provider_response_from_error texts provider phase text =
    let message = trim_space text in
    let r : ProviderResponse = record no_response {
      rc = extract_provider_error_code message;
      message = "Transaction could not be completed";
      raw_response = texts.transport_error message phase;
    } in
    if is_uncertain provider phase
    then record r { pending = true; status = "Pending"; message = "Transaction is being processed" }
    else failed_with
        (get_canonical_failure (
          if looks_like_timeout_message message
          then "PROVIDER_TIMEOUT"
          else "PROVIDER_UNAVAILABLE"))
        r

abbrev response_unless_empty :
    JsonTexts → (provider : String) → Phase → (text : String) → Option ProviderResponse
response_unless_empty texts provider phase text =
    if str_eq text "" then none else some (provider_response_from_error texts provider phase text)

-- What an attempt counts as.
abbrev pub response_of : JsonTexts → Phase → ProviderAttempt → Option ProviderResponse
response_of texts phase a = elim a.answer [
  | ok r ↦ some r
  | err e ↦ response_unless_empty texts a.provider.provider_code phase (error_text e)
]

pub record Choice : Type 0 where
  pub best : CanonicalFailure
  pub chosen : Option ProviderResponse

unfoldable pub better : Choice → CanonicalFailure → ProviderResponse → Choice
better c f r = elim c.chosen [
  | none ↦ record { best = f; chosen = some r }
  | some _ ↦
      if ltb (precedence f.code) (precedence c.best.code)
      then record { best = f; chosen = some r }
      else c
]

unfoldable pub consider :
    JsonTexts → Phase → Choice → ProviderAttempt → Option ProviderResponse → Choice
consider texts phase c a none = c
consider texts phase c a (some r) =
    better c (canonical_failure texts a.provider.provider_code phase r) r

-- The loop over the attempts.
unfoldable pub choose : JsonTexts → Phase → Choice → List ProviderAttempt → Choice
choose texts phase c [] = c
choose texts phase c (a ∷ rest) =
    choose texts phase (consider texts phase c a (response_of texts phase a)) rest

abbrev pub no_choice : Choice
no_choice = record { best = get_canonical_failure "NO_PROVIDER_AVAILABLE"; chosen = none }

unfoldable pub finish_failure : JsonTexts → CanonicalFailure → ProviderResponse → ProviderResponse
finish_failure texts f r = record r {
  public_code = f.code;
  public_message = f.message;
  public_http_code = f.http_status;
  message = if str_eq r.message "" then f.message else r.message;
  description = if str_eq r.description "" then r.description else texts.sanitize r.description;
}

abbrev response_or_none : Option ProviderResponse → ProviderResponse
response_or_none none = no_response
response_or_none (some r) = r

-- BuildFinalFailureResponseFromAttempts; without an attempt the message stays empty.
unfoldable pub build_final_failure : JsonTexts → List ProviderAttempt → Phase → ProviderResponse
build_final_failure texts [] phase =
    let f = get_canonical_failure "NO_PROVIDER_AVAILABLE" in
    record no_response {
      public_code = f.code;
      public_message = f.message;
      public_http_code = f.http_status;
    }
build_final_failure texts (a ∷ rest) phase =
    let c = choose texts phase no_choice (a ∷ rest) in
    finish_failure texts c.best (response_or_none c.chosen)
