-- ===== src/Transaction/RefId.antt =====
-- The references of Digiflazz and the transaction's id inside them: extractBaseRefID of
-- internal/service/callback_service.go and extractRefIDSuffix of
-- internal/service/transaction_service.go.
use gtd_api.Prelude.{
  ℕ, zero, suc, ◌+◌, ◌-◌, ◌*◌, ◌≡◌, refl, ap, sym, String, Bool, true, false, ◌&&◌, Bool-cases, inl,
  inr, Option, none, some, ltb, leb, ◌==◌, str_eq, if◌then◌else◌, arith, ◌∙◌, ◌<◌, eq_iff,
}
use gtd_api.Prelude.Int.{two63}
use gtd_api.Prelude.Text.{is_space}
use Prim.Native.Char.{Char, code}
use Prim.Native.String.{◌++◌ as ◌<>◌}
use text.Mathlib.TextLemmas.{nil-append, cons-append}
use gtd_api.Transaction.Store.{Env}
use gtd_api.Transaction.Skus.{suffixed_ref}

is_dash : Char → Bool
is_dash c = code c == 45

abbrev after_char : Char → Option String → Option String
after_char c none = none
after_char c (some s) = some (String.◌∷◌ c s)

-- What stands before the last of `n` dashes.
before_dash : (n : ℕ) → String → Option String
unfolding is_dash
before_dash n String.[] = none
before_dash n (String.◌∷◌ c s) = elim (is_dash c) [
  | true ↦ if n == 1 then some "" else after_char c (before_dash (n - 1) s)
  | false ↦ after_char c (before_dash n s)
]

abbrev base_or : String → Option String → String
base_or ref none = ref
base_or ref (some base) = if str_eq base "" then ref else base

-- What stands before the third dash, of a reference that has three.
unfoldable pub extract_base_ref_id : String → String
unfolding before_dash
extract_base_ref_id ref = base_or ref (before_dash 3 ref)

abbrev pub dashes : String → ℕ
dashes String.[] = 0
dashes (String.◌∷◌ c s) = if code c == 45 then suc (dashes s) else dashes s

-- What stands behind the last dash.
after_last_dash : (since : String) → String → String
unfolding is_dash
after_last_dash since String.[] = since
after_last_dash since (String.◌∷◌ c s) = after_last_dash (if is_dash c then s else since) s

-- fmt.Sscanf(…, "%d", …) of a text without a minus sign: spaces, a plus sign, and digits, whose
-- number is taken where it is an int64; otherwise the variable keeps its 0.
scan_digits : (any : Bool) → (n : ℕ) → String → ℕ
scan_digits any n String.[] = n
scan_digits any n (String.◌∷◌ c s) = elim (leb 48 (code c) && leb (code c) 57) [
  | true ↦ scan_digits true (n * 10 + (code c - 48)) s
  | false ↦ n
]

skip_plus : String → ℕ
unfolding scan_digits
skip_plus String.[] = 0
skip_plus (String.◌∷◌ c s) =
    if code c == 43 then scan_digits false 0 s else scan_digits false 0 (String.◌∷◌ c s)

skip_spaces : String → ℕ
unfolding skip_plus is_space
skip_spaces String.[] = 0
skip_spaces (String.◌∷◌ c s) =
    let rest = skip_spaces s in if is_space c then rest else skip_plus (String.◌∷◌ c s)

unfoldable pub scan_int : String → ℕ
unfolding skip_spaces
scan_int s = let n = skip_spaces s in if ltb n two63 then n else 0

unfoldable pub extract_ref_id_suffix : Option String → ℕ
unfolding after_last_dash scan_int
extract_ref_id_suffix none = 0
extract_ref_id_suffix (some ref) =
    if ltb (dashes ref) 3 then 0 else scan_int (after_last_dash "" ref)

suffix_run : extract_ref_id_suffix (some "GRB-20250203-000001-13") ≡ 13
unfolding extract_ref_id_suffix
suffix_run = refl

base_run : extract_base_ref_id "GRB-20250203-000001-13" ≡ "GRB-20250203-000001"
unfolding extract_base_ref_id
base_run = refl

-- A text with one more dash than `id` has.
before-append :
    (n : ℕ) (id rest : String)
    → suc (dashes id) ≡ n
    → before_dash n (id <> String.◌∷◌ "-" rest) ≡ some id
unfolding before_dash is_dash
before-append n String.[] rest e = rw (nil-append (String.◌∷◌ "-" rest), sym e)
before-append n (String.◌∷◌ c id) rest e = elim (Bool-cases (code c == 45)) [
  | inl dash ↦ rw cons-append (ground (arith, before-append (n - 1) id rest))
  | inr other ↦ rw cons-append (ground (arith, before-append n id rest))
]

before-none : (n : ℕ) (id : String) → dashes id < n → before_dash n id ≡ none
unfolding before_dash is_dash
before-none n String.[] e = refl
before-none n (String.◌∷◌ c id) e = ground (arith, before-none (n - 1) id, before-none n id)

after-no_dash : (since s : String) → dashes s ≡ 0 → after_last_dash since s ≡ since
unfolding after_last_dash is_dash
after-no_dash since String.[] e = refl
after-no_dash since (String.◌∷◌ c s) e = ground (arith, after-no_dash since s)

after-append :
    (since id rest : String)
    → dashes rest ≡ 0
    → after_last_dash since (id <> String.◌∷◌ "-" rest) ≡ rest
unfolding after_last_dash is_dash
after-append since String.[] rest e = rw nil-append (after-no_dash rest rest e)
after-append since (String.◌∷◌ c id) rest e =
    rw cons-append (after-append (if is_dash c then id <> String.◌∷◌ "-" rest else since) id rest e)

dashes-append :
    (id rest : String) → dashes (id <> String.◌∷◌ "-" rest) ≡ dashes id + suc (dashes rest)
dashes-append String.[] rest = rw nil-append (omega arith)
dashes-append (String.◌∷◌ c id) rest = rw cons-append (ground (arith, dashes-append id rest))

-- What the two functions make of a reference.
abbrev pub Reads : (ref id : String) → (suffix : ℕ) → Type 0
Reads ref id suffix = (extract_base_ref_id ref ≡ id) × (extract_ref_id_suffix (some ref) ≡ suffix)

base_or-some : (ref id : String) → dashes id ≡ 2 → base_or ref (some id) ≡ id
base_or-some ref id two = elim (Bool-cases (str_eq id "")) [
  | inl e ↦ absurd (omega (arith, ap (λ (t : String). dashes t) ((eq_iff id "").0 e)))
  | inr e ↦ rw e
]

-- How a reference that carries a suffix is read; `digits` is the suffix in decimal.
suffixed-Reads :
    (id digits : String) (n : ℕ)
    → dashes id ≡ 2
    → dashes digits ≡ 0
    → scan_int digits ≡ n
    → Reads (id <> String.◌∷◌ "-" digits) id n
unfolding extract_base_ref_id extract_ref_id_suffix
suffixed-Reads id digits n two plain reads = (
  rw (before-append 3 id digits (omega arith)) (base_or-some _ id two),
  rw (after-append "" id digits plain) (ground (arith, dashes-append id digits)),
)

join_dash : (id digits : String) → id <> "-" <> digits ≡ id <> String.◌∷◌ "-" digits
join_dash id digits =
    ap (λ t. id <> t) (cons-append "-" "" digits ∙ ap (λ t. String.◌∷◌ "-" t) (nil-append digits))

plain-Reads : (id : String) → dashes id ≡ 2 → Reads id id 0
unfolding extract_base_ref_id extract_ref_id_suffix
plain-Reads id two = (rw (before-none 3 id (omega arith)), rw two)

-- Of the reference that a transaction's call with a suffix has, the id is the transaction's and the
-- suffix is the call's: so that a callback for the reference finds its transaction, and a retry
-- goes on behind the suffix. The id has the two dashes of GRB-YYYYMMDD-NNNNNN; and the suffix in
-- decimal has no dash, and is read back as the number that it is.
pub suffixed_ref-Reads :
    (env : Env) (id : String) (suffix : ℕ)
    → dashes id ≡ 2
    → dashes (env.decimal suffix) ≡ 0
    → scan_int (env.decimal suffix) ≡ suffix
    → Reads (suffixed_ref env id suffix) id suffix
unfolding suffixed_ref
suffixed_ref-Reads env id zero two plain read = plain-Reads id two
suffixed_ref-Reads env id (suc n) two plain read =
    let later : ltb 0 (suc n) ≡ true = ground arith in
    rw (later, join_dash id (env.decimal (suc n)))
      (suffixed-Reads id (env.decimal (suc n)) (suc n) two plain read)
