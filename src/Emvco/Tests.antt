-- ===== src/Emvco/Tests.antt =====
-- Sample payloads, and the theorems at them.
use gtd_api.Prelude.{ℕ, String, ◌≡◌, ◌≢◌, refl, List, [], ◌∷◌, ◌++◌, true, arith}
use gtd_api.Prelude.Text.{codes}
use gtd_api.Emvco.{Bytes, EmvTag, walk_tlv, walk_from, take_value, atoi2, overruns, truncated}
use gtd_api.Emvco.Ends.{parse_qris_ends}
use gtd_api.Emvco.Fields.{Field, mark, account, name, city, additional, other, parse_qris-fields}
use gtd_api.Emvco.Parse.{
  QrisInfo, Parsed, parse_qris, info_only, info_and_error, no_info, empty_string, nmid_missing,
  framing, sub_framing, slice_panic, out_of_fuel,
}
use gtd_api.Emvco.Spaces.{trim_bytes}

trims : trim_bytes (194 ∷ 160 ∷ codes " ab \n" ++ (226 ∷ 128 ∷ 138 ∷ [])) ≡ codes "ab"
unfolding trim_bytes codes
trims = refl

-- Parsing and its errors, where the second of two names counts.
abbrev read_text : String → Parsed
read_text s = parse_qris (codes s)

parses :
    (read_text "5903ABC5902XY"
      ≡ info_and_error (record no_info { merchant_name = codes "XY" }) nmid_missing)
    × (read_text " \t " ≡ info_and_error no_info empty_string)
    × (read_text "5905ABC" ≡ info_and_error no_info (framing (overruns (b'5', b'9') 5)))
    × (read_text "5103ABC" ≡ info_and_error no_info (sub_framing (b'5', b'1') (truncated 0)))
unfolding parse_qris trim_bytes walk_tlv walk_from take_value atoi2 codes
parses = (refl, refl, refl, refl)

-- A static code, with a no-break space before it and a line's end behind it.
abbrev static_code : Bytes
static_code = 194 ∷ 160 ∷ codes "00020101021151090205ID1235908WARUNG A6003BDG62070703A01\n"

abbrev tag : ℕ → ℕ → String → EmvTag
tag a b value = record { id = (a, b); value = codes value }

abbrev static_fields : List Field
static_fields =
    mark (codes "11")
    ∷ account (tag b'0' b'2' "ID123" ∷ [])
    ∷ name (codes "WARUNG A")
    ∷ city (codes "BDG")
    ∷ additional (tag b'0' b'7' "A01" ∷ [])
    ∷ []

abbrev static_info : QrisInfo
static_info = record {
  nmid = codes "ID123";
  merchant_name = codes "WARUNG A";
  merchant_city = codes "BDG";
  merchant_category_code = [];
  terminal_id = codes "A01";
  is_static = true;
}

parse_qris-fields_example : parse_qris static_code ≡ info_only static_info
unfolding codes trim_bytes
parse_qris-fields_example =
    parse_qris-fields static_code (other (tag b'0' b'0' "01")) static_fields refl (ground arith)

parse_qris_ends_example :
    (parse_qris static_code ≢ out_of_fuel) × (parse_qris (codes " 59-1X") ≡ slice_panic)
unfolding codes trim_bytes
parse_qris_ends_example =
    parse_qris_ends static_code (codes " 59-1X") (b'X' ∷ []) b'5' b'9' b'1' (omega arith)
      (omega arith) refl
