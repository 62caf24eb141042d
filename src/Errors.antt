-- ===== src/Errors.antt =====
-- Go's `error` values as the services build and inspect them: PaymentServiceError
-- (internal/service/payment_service.go), PayoutServiceError (internal/service/payout_provider.go), the
-- helpers of internal/service/payout_helpers.go and payout_errors.go, and the foreign errors that they
-- look for: sql.ErrNoRows, *pq.Error and a provider package's *APIError.
use gtd_api.Prelude.{
  ℕ, String, ◌≡◌, Bool, true, false, not, Option, none, some, arith, str_eq, if◌then◌else◌,
}
use gtd_api.Prelude.Text.{to_lower, contains}
use Prim.Native.String.{◌++◌ as ◌<>◌}

-- The last argument of the two service errors is what `Unwrap` returns; `no_cause` is its nil.
pub data GoError : Type 0 where
  no_cause : GoError
  no_rows : GoError
  pq_error : (code constraint message : String) → GoError
  snap_error : (http : ℕ) (response_code response_message text : String) → GoError
  plain_error : String → GoError
  payment_error : (http : ℕ) (code message : String) → GoError → GoError
  payout_error : (http : ℕ) (code message : String) (retryable : Bool) → GoError → GoError

pub data Result {ℓ} (A : Type ℓ) : Type ℓ where
  ok : A → Result A
  err : GoError → Result A

abbrev pub map_ok {ℓ κ} : {A : Type ℓ} {B : Type κ} → (A → B) → Result A → Result B
map_ok f (ok a) = ok (f a)
map_ok f (err e) = err e

-- err.Error()
unfoldable pub error_text : GoError → String
error_text no_cause = ""
error_text no_rows = "sql: no rows in result set"
error_text (pq_error code constraint message) = message
error_text (snap_error http code message text) = text
error_text (plain_error text) = text
error_text (payment_error http code message no_cause) = code <> ": " <> message
error_text (payment_error http code message cause) =
    code <> ": " <> message <> ": " <> error_text cause
error_text (payout_error http code message retryable no_cause) = code <> ": " <> message
error_text (payout_error http code message retryable cause) =
    code <> ": " <> message <> ": " <> error_text cause

-- errors.Is(err, sql.ErrNoRows)
abbrev pub is_no_rows : GoError → Bool
is_no_rows no_rows = true
is_no_rows (payment_error http code message cause) = is_no_rows cause
is_no_rows (payout_error http code message retryable cause) = is_no_rows cause
is_no_rows _ = false

-- errors.As(err, &pqErr): the code and the constraint of the first *pq.Error of the chain.
abbrev pub as_pq : GoError → Option (String × String)
as_pq (pq_error code constraint message) = some (code, constraint)
as_pq (payment_error http code message cause) = as_pq cause
as_pq (payout_error http code message retryable cause) = as_pq cause
as_pq _ = none

pub record SnapInfo : Type 0 where
  pub http_status : ℕ
  pub response_code : String
  pub response_message : String

-- One shape for the *APIError of every provider package; `none` is `ok == false`.
abbrev pub extract_snap_error : GoError → Option SnapInfo
extract_snap_error (snap_error http code message text) =
    some (record { http_status = http; response_code = code; response_message = message })
extract_snap_error (payment_error http code message cause) = extract_snap_error cause
extract_snap_error (payout_error http code message retryable cause) = extract_snap_error cause
extract_snap_error _ = none

abbrev pub is_unique_violation : GoError → Bool
is_unique_violation e = elim (as_pq e) [ none ↦ false | some found ↦ str_eq found.0 "23505" ]

unfoldable pub names_reference : String → Bool
names_reference constraint = contains (to_lower constraint) "reference"

abbrev pub is_reference_unique_violation : GoError → Bool
is_reference_unique_violation e = elim (as_pq e) [
  | none ↦ false
  | some found ↦ if not (str_eq found.0 "23505") then false else names_reference found.1
]

-- Whoever breaks a reference's unique index breaks a unique index.
pub is_reference-is_unique :
    (e : GoError) → is_reference_unique_violation e ≡ true → is_unique_violation e ≡ true
is_reference-is_unique e h = ground arith
