-- ===== src/Transaction/ProviderFields.antt =====
-- What internal/service/provider_callback_service.go reads from the payload of a callback.
use gtd_api.Prelude.{
  ℕ, ◌+◌, ◌-◌, ◌*◌, String, Bool, true, false, ◌&&◌, ◌||◌, Option, none, some, List, [], ◌∷◌, ltb,
  leb, ◌==◌, str_eq, if◌then◌else◌,
}
use gtd_api.Prelude.Int.{ℤ, pos, negsuc, two63}
use gtd_api.Prelude.Text.{trim_space}
use gtd_api.Transaction.Model.{
  Transaction, success, failed, is_final, JsonField, JsonValue, ProviderPayload, ProviderCallback,
}
use gtd_api.Transaction.Model as Model
use Prim.Native.Char.{Char, code}

unfoldable pub look_up : {A : Type 0} → String → List (String × A) → Option A
look_up k [] = none
look_up k ((j, v) ∷ rest) = if str_eq j k then some v else look_up k rest

-- `text, _ := fields[k].(string)`
abbrev pub text_in : Option JsonField → String
text_in (some (Model.text s)) = s
text_in _ = ""

abbrev pub value_text : Option JsonValue → String
value_text (some (Model.field f)) = text_in (some f)
value_text _ = ""

abbrev pub as_object : Option JsonValue → List (String × JsonField)
as_object (some (Model.object fields)) = fields
as_object _ = []

unfoldable pub first_text : List String → (String → String) → String
first_text [] get = ""
first_text (k ∷ rest) get = if str_eq (get k) "" then first_text rest get else get k

abbrev pub text_of : ProviderPayload → String → String
text_of p k = value_text (look_up k p.fields)

-- The fields of an object that stands in the payload; none where no object does.
abbrev pub object_of : ProviderPayload → String → List (String × JsonField)
object_of p k = as_object (look_up k p.fields)

pub is_digit : Char → Bool
is_digit c = leb 48 (code c) && leb (code c) 57

pub digits_value : (n : ℕ) → String → Option ℕ
unfolding is_digit
digits_value n String.[] = some n
digits_value n (String.◌∷◌ c s) = elim (is_digit c) [
  | true ↦ digits_value (n * 10 + (code c - 48)) s
  | false ↦ none
]

abbrev pub positive_amount : Option ℕ → ℤ
positive_amount none = pos 0
positive_amount (some n) = if ltb n two63 then pos n else pos 0

abbrev pub negated : ℕ → ℤ
negated n = if n == 0 then pos 0 else negsuc (n - 1)

abbrev pub negative_amount : Option ℕ → ℤ
negative_amount none = pos 0
negative_amount (some n) = if leb n two63 then negated n else pos 0

-- strconv.Atoi of a text without the spaces around it, where an error counts as 0.
pub atoi_or_zero : String → ℤ
unfolding digits_value
atoi_or_zero String.[] = pos 0
atoi_or_zero (String.◌∷◌ c s) =
    if (code c == 43 || code c == 45) && str_eq s ""
    then pos 0
    else if code c == 43
    then positive_amount (digits_value 0 s)
    else if code c == 45
    then negative_amount (digits_value 0 s)
    else positive_amount (digits_value 0 (String.◌∷◌ c s))

unfoldable pub parse_callback_amount : String → ℤ
unfolding atoi_or_zero trim_space
parse_callback_amount s = atoi_or_zero (trim_space s)

unfoldable pub extract_kiosbank_sn : List (String × JsonField) → String
unfolding look_up first_text
extract_kiosbank_sn fields =
    first_text ("TK" ∷ "sn" ∷ "kodeVoucher" ∷ "noReferensi" ∷ []) (λ k. text_in (look_up k fields))

abbrev pub positive_number : Option JsonField → ℤ
positive_number (some (Model.number true n)) = n
positive_number _ = pos 0

unfoldable pub extract_kiosbank_buy_price : List (String × JsonField) → ℤ
unfolding look_up first_text parse_callback_amount
extract_kiosbank_buy_price fields =
    let amount = first_text ("tagihan" ∷ "harga" ∷ "RS" ∷ []) (λ k. text_in (look_up k fields)) in
    if str_eq amount ""
    then positive_number (look_up "tagihan" fields)
    else parse_callback_amount amount
