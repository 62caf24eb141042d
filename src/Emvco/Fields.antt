-- ===== src/Emvco/Fields.antt =====
-- The fields of a payload as the specification writes them, and what ParseQRIS reads of them.
use gtd_api.Prelude.{
  ℕ, ◌<◌, ◌≡◌, refl, ap, ◌∙◌, Bool, false, ◌||◌, Bool-cases, inl, inr, Option, none, some, List, [],
  ◌∷◌, All, map, length, arith, if◌then◌else◌,
}
use gtd_api.Emvco.{Bytes, EmvTag}
use gtd_api.Emvco.Framing.{encode_all, walk_tlv-encode}
use gtd_api.Emvco.Parse.{
  QrisInfo, going, no_info, is_id, same_bytes, sub_value, tag_01, tag_02, tag_07, tag_51, tag_52,
  tag_59, tag_60, tag_62, scan_tag, scan, finish_nmid, parse_qris,
}
use gtd_api.Emvco.Spaces.{trim_bytes}

-- The ids of which ParseQRIS takes notice.
abbrev is_read : ℕ × ℕ → Bool
is_read id =
    is_id id tag_01
    || is_id id tag_51
    || is_id id tag_52
    || is_id id tag_59
    || is_id id tag_60
    || is_id id tag_62

-- A field by its meaning. `other` is a tag of which ParseQRIS takes no notice.
pub data Field : Type 0 where
  mark : (value : Bytes) → Field
  account : (sub : List EmvTag) → Field
  category : (value : Bytes) → Field
  name : (value : Bytes) → Field
  city : (value : Bytes) → Field
  additional : (sub : List EmvTag) → Field
  other : EmvTag → Field

abbrev pub tag_of : Field → EmvTag
tag_of (mark v) = record { id = tag_01; value = v }
tag_of (account sub) = record { id = tag_51; value = encode_all sub }
tag_of (category v) = record { id = tag_52; value = v }
tag_of (name v) = record { id = tag_59; value = v }
tag_of (city v) = record { id = tag_60; value = v }
tag_of (additional sub) = record { id = tag_62; value = encode_all sub }
tag_of (other t) = t

abbrev pub IsShort : EmvTag → Type 0
IsShort t = length t.value < 100

-- What the format asks of a field: lengths of two digits, also of the subfields.
abbrev pub IsWritable : Field → Type 0
IsWritable (account sub) = All IsShort sub × IsShort (tag_of (account sub))
IsWritable (additional sub) = All IsShort sub × IsShort (tag_of (additional sub))
IsWritable (other t) = IsShort t × (is_read t.id ≡ false)
IsWritable f = IsShort (tag_of f)

abbrev or_else : Option Bytes → Option Bytes → Option Bytes
or_else none o = o
or_else (some v) o = some v

-- The value of the last subfield with the id, and of the last field that says something.
abbrev pub latest_sub : (id : ℕ × ℕ) → List EmvTag → Option Bytes
latest_sub id [] = none
latest_sub id (t ∷ rest) =
    or_else (latest_sub id rest) (if is_id t.id id then some t.value else none)

abbrev pub latest : (Field → Option Bytes) → List Field → Option Bytes
latest says [] = none
latest says (f ∷ rest) = or_else (latest says rest) (says f)

abbrev pub says_mark : Field → Option Bytes
says_mark (mark v) = some v
says_mark _ = none

abbrev pub says_nmid : Field → Option Bytes
says_nmid (account sub) = latest_sub tag_02 sub
says_nmid _ = none

abbrev pub says_category : Field → Option Bytes
says_category (category v) = some v
says_category _ = none

abbrev pub says_name : Field → Option Bytes
says_name (name v) = some v
says_name _ = none

abbrev pub says_city : Field → Option Bytes
says_city (city v) = some v
says_city _ = none

abbrev pub says_terminal : Field → Option Bytes
says_terminal (additional sub) = latest_sub tag_07 sub
says_terminal _ = none

abbrev or_old : (old : Bytes) → Option Bytes → Bytes
or_old old none = old
or_old old (some v) = v

abbrev or_static : (old : Bool) → Option Bytes → Bool
or_static old none = old
or_static old (some v) = same_bytes v (b'1' ∷ b'1' ∷ [])

abbrev written : QrisInfo → ((Field → Option Bytes) → Option Bytes) → QrisInfo
written info found = record {
  nmid = or_old info.nmid (found says_nmid);
  merchant_name = or_old info.merchant_name (found says_name);
  merchant_city = or_old info.merchant_city (found says_city);
  merchant_category_code = or_old info.merchant_category_code (found says_category);
  terminal_id = or_old info.terminal_id (found says_terminal);
  is_static = or_static info.is_static (found says_mark);
}

-- What the fields say of the merchant.
abbrev pub described : List Field → QrisInfo
described fields = written no_info (λ says. latest says fields)

or_old-or_else :
    (old : Bytes) (a b : Option Bytes) → or_old (or_old old b) a ≡ or_old old (or_else a b)
or_old-or_else old none b = refl
or_old-or_else old (some v) b = refl

or_static-or_else :
    (old : Bool) (a b : Option Bytes) → or_static (or_static old b) a ≡ or_static old (or_else a b)
or_static-or_else old none b = refl
or_static-or_else old (some v) b = refl

sub_value-latest_sub :
    (id : ℕ × ℕ) (old : Bytes) (sub : List EmvTag)
    → sub_value id old sub ≡ or_old old (latest_sub id sub)
unfolding sub_value
sub_value-latest_sub id old [] = refl
sub_value-latest_sub id old (t ∷ rest) = elim (Bool-cases (is_id t.id id)) [
  | inl e ↦ rw e (
      sub_value-latest_sub id t.value rest ∙ or_old-or_else old (latest_sub id rest) (some t.value))
  | inr e ↦ rw e (sub_value-latest_sub id old rest ∙ or_old-or_else old (latest_sub id rest) none)
]

scan_tag-tag_of :
    (info : QrisInfo) (f : Field)
    → IsWritable f
    → scan_tag info (tag_of f) ≡ going (written info (λ says. says f))
unfolding scan_tag
scan_tag-tag_of info (mark v) h = refl
scan_tag-tag_of info (account sub) h =
    rw (walk_tlv-encode sub h.0, sub_value-latest_sub tag_02 info.nmid sub) refl
scan_tag-tag_of info (category v) h = refl
scan_tag-tag_of info (name v) h = refl
scan_tag-tag_of info (city v) h = refl
scan_tag-tag_of info (additional sub) h =
    rw (walk_tlv-encode sub h.0, sub_value-latest_sub tag_07 info.terminal_id sub) refl
scan_tag-tag_of info (other t) h = ground (arith, h.1)

written-twice :
    (info : QrisInfo) (f : Field) (rest : List Field)
    → written (written info (λ says. says f)) (λ says. latest says rest)
      ≡ written info (λ says. latest says (f ∷ rest))
written-twice info f rest = simp (or_old-or_else, or_static-or_else)

scan-fields :
    (info : QrisInfo) (fields : List Field)
    → All IsWritable fields
    → scan info (map tag_of fields) ≡ going (written info (λ says. latest says fields))
unfolding scan
scan-fields info [] h = refl
scan-fields info (f ∷ rest) h =
    rw (scan_tag-tag_of info f h.0)
      (scan-fields (written info (λ says. says f)) rest h.1 ∙ ap going (written-twice info f rest))

tag_of-IsShort : (f : Field) → IsWritable f → IsShort (tag_of f)
tag_of-IsShort (account sub) h = h.1
tag_of-IsShort (additional sub) h = h.1
tag_of-IsShort (other t) h = h.0
tag_of-IsShort (mark v) h = h
tag_of-IsShort (category v) h = h
tag_of-IsShort (name v) h = h
tag_of-IsShort (city v) h = h

map-IsShort : (fields : List Field) → All IsWritable fields → All IsShort (map tag_of fields)
map-IsShort [] h = tt
map-IsShort (f ∷ rest) h = (tag_of-IsShort f h.0, map-IsShort rest h.1)

-- For a text that is, without the white space around it, the bytes of one field or more, each with
-- a length of two digits, also of the subfields: ParseQRIS returns what the fields say, where the
-- last of two fields with one meaning counts and the fields may stand in any order. The error that
-- the NMID is missing comes with it exactly where the fields give none or an empty one.
pub parse_qris-fields :
    (qr : Bytes) (f : Field) (rest : List Field)
    → trim_bytes qr ≡ encode_all (map tag_of (f ∷ rest))
    → All IsWritable (f ∷ rest)
    → parse_qris qr ≡ finish_nmid (described (f ∷ rest)).nmid (described (f ∷ rest))
unfolding parse_qris
parse_qris-fields qr f rest e h =
    rw
      (
        e,
        walk_tlv-encode (map tag_of (f ∷ rest)) (map-IsShort (f ∷ rest) h),
        scan-fields no_info (f ∷ rest) h,
      )
      refl
