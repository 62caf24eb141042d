-- ===== src/Emvco/Parse.antt =====
-- ParseQRIS of internal/utils/emvco.go: the fields of a QRIS payload, over the walk of its tags.
use gtd_api.Prelude.{ℕ, Bool, true, false, ◌&&◌, List, [], ◌∷◌, ◌==◌, if◌then◌else◌}
use gtd_api.Emvco.{Bytes, EmvTag, TlvError, Walk, done, malformed, panicked, unfinished, walk_tlv}
use gtd_api.Emvco.Spaces.{trim_bytes}

pub record QrisInfo : Type 0 where
  pub nmid : Bytes
  pub merchant_name : Bytes
  pub merchant_city : Bytes
  pub merchant_category_code : Bytes
  pub terminal_id : Bytes
  pub is_static : Bool

pub data QrisError : Type 0 where
  empty_string : QrisError
  framing : TlvError → QrisError
  sub_framing : (tag : ℕ × ℕ) → TlvError → QrisError
  nmid_missing : QrisError

-- The two results of ParseQRIS. `slice_panic` and `out_of_fuel` are the walk's.
pub data Parsed : Type 0 where
  info_only : QrisInfo → Parsed
  info_and_error : QrisInfo → QrisError → Parsed
  slice_panic : Parsed
  out_of_fuel : Parsed

pub data Scan : Type 0 where
  going : QrisInfo → Scan
  stopped : Parsed → Scan

abbrev pub no_info : QrisInfo
no_info = record {
  nmid = [];
  merchant_name = [];
  merchant_city = [];
  merchant_category_code = [];
  terminal_id = [];
  is_static = false;
}

abbrev pub is_id : ℕ × ℕ → ℕ × ℕ → Bool
is_id a b = a.0 == b.0 && a.1 == b.1

abbrev pub same_bytes : Bytes → Bytes → Bool
same_bytes [] [] = true
same_bytes (a ∷ s) (b ∷ t) = a == b && same_bytes s t
same_bytes _ _ = false

abbrev pub tag_01 : ℕ × ℕ
tag_01 = (b'0', b'1')

abbrev pub tag_02 : ℕ × ℕ
tag_02 = (b'0', b'2')

abbrev pub tag_07 : ℕ × ℕ
tag_07 = (b'0', b'7')

abbrev pub tag_51 : ℕ × ℕ
tag_51 = (b'5', b'1')

abbrev pub tag_52 : ℕ × ℕ
tag_52 = (b'5', b'2')

abbrev pub tag_59 : ℕ × ℕ
tag_59 = (b'5', b'9')

abbrev pub tag_60 : ℕ × ℕ
tag_60 = (b'6', b'0')

abbrev pub tag_62 : ℕ × ℕ
tag_62 = (b'6', b'2')

-- The loop over the subfields, where `old` is the field's value before it.
unfoldable pub sub_value : (id : ℕ × ℕ) → (old : Bytes) → List EmvTag → Bytes
sub_value id old [] = old
sub_value id old (t ∷ rest) = sub_value id (if is_id t.id id then t.value else old) rest

abbrev pub with_sub : (tag : ℕ × ℕ) → (List EmvTag → QrisInfo) → Walk → Scan
with_sub tag write (done sub) = going (write sub)
with_sub tag write (malformed e) = stopped (info_and_error no_info (sub_framing tag e))
with_sub tag write panicked = stopped slice_panic
with_sub tag write unfinished = stopped out_of_fuel

-- One round of the loop: the switch on the tag's id.
unfoldable pub scan_tag : QrisInfo → EmvTag → Scan
scan_tag info t =
    if is_id t.id tag_01
    then going (record info { is_static = same_bytes t.value (b'1' ∷ b'1' ∷ []) })
    else if is_id t.id tag_51
    then with_sub tag_51 (λ sub. record info { nmid = sub_value tag_02 info.nmid sub })
        (walk_tlv t.value)
    else if is_id t.id tag_52
    then going (record info { merchant_category_code = t.value })
    else if is_id t.id tag_59
    then going (record info { merchant_name = t.value })
    else if is_id t.id tag_60
    then going (record info { merchant_city = t.value })
    else if is_id t.id tag_62
    then with_sub tag_62
        (λ sub. record info { terminal_id = sub_value tag_07 info.terminal_id sub })
        (walk_tlv t.value)
    else going info

abbrev pub next_scan : (QrisInfo → Scan) → Scan → Scan
next_scan again (going info) = again info
next_scan again (stopped p) = stopped p

unfoldable pub scan : QrisInfo → List EmvTag → Scan
scan info [] = going info
scan info (t ∷ rest) = next_scan (λ i. scan i rest) (scan_tag info t)

abbrev pub finish_nmid : (nmid : Bytes) → QrisInfo → Parsed
finish_nmid [] info = info_and_error info nmid_missing
finish_nmid (_ ∷ _) info = info_only info

abbrev pub finish : Scan → Parsed
finish (going info) = finish_nmid info.nmid info
finish (stopped p) = p

abbrev pub scan_walk : Walk → Parsed
scan_walk (done tags) = finish (scan no_info tags)
scan_walk (malformed e) = info_and_error no_info (framing e)
scan_walk panicked = slice_panic
scan_walk unfinished = out_of_fuel

abbrev pub parse_trimmed : Bytes → Parsed
parse_trimmed [] = info_and_error no_info empty_string
parse_trimmed (c ∷ s) = scan_walk (walk_tlv (c ∷ s))

unfoldable pub parse_qris : Bytes → Parsed
unfolding scan scan_tag
parse_qris qr = parse_trimmed (trim_bytes qr)
