-- ===== src/Emvco/Ends.antt =====
-- ParseQRIS of internal/utils/emvco.go comes to an end, and where it panics.
use gtd_api.Prelude.{
  ℕ, ◌≤◌, ◌≡◌, ◌≢◌, ◌∷◌, List, [], Bool, true, false, if◌then◌else◌, refl, ap, arith,
}
use gtd_api.Emvco.{Bytes, EmvTag, Walk, done, malformed, panicked, unfinished, walk_tlv}
use gtd_api.Emvco.Framing.{walk_tlv_ends, walk_tlv-minus}
use gtd_api.Emvco.Parse.{
  QrisInfo, Scan, going, stopped, out_of_fuel, slice_panic, no_info, is_id, tag_01, tag_51, tag_52,
  tag_59, tag_60, tag_62, with_sub, scan_tag, scan, next_scan, finish_nmid, finish, scan_walk,
  parse_trimmed, parse_qris,
}
use gtd_api.Emvco.Spaces.{trim_bytes}

with_sub-ends :
    (tag : ℕ × ℕ) (write : List EmvTag → QrisInfo) (w : Walk)
    → w ≢ unfinished
    → with_sub tag write w ≢ stopped out_of_fuel
with_sub-ends tag write (done sub) h = ground arith
with_sub-ends tag write (malformed e) h = ground arith
with_sub-ends tag write panicked h = ground arith
with_sub-ends tag write unfinished h = absurd (h refl)

going-ends : (info : QrisInfo) → going info ≢ stopped out_of_fuel
going-ends info = ground arith

either-ends :
    (b : Bool) {x y : Scan}
    → x ≢ stopped out_of_fuel
    → y ≢ stopped out_of_fuel
    → (if b then x else y) ≢ stopped out_of_fuel
either-ends true p q = p
either-ends false p q = q

scan_tag-ends : (info : QrisInfo) (t : EmvTag) → scan_tag info t ≢ stopped out_of_fuel
unfolding scan_tag
scan_tag-ends info t = either-ends (is_id t.id tag_01) (going-ends _) (
    either-ends (is_id t.id tag_51) (with_sub-ends tag_51 _ _ walked) (
      either-ends (is_id t.id tag_52) (going-ends _) (
        either-ends (is_id t.id tag_59) (going-ends _) (
          either-ends (is_id t.id tag_60) (going-ends _)
            (either-ends (is_id t.id tag_62) (with_sub-ends tag_62 _ _ walked) (going-ends _))))))
  where
    walked : walk_tlv t.value ≢ unfinished
    walked = walk_tlv_ends t.value

next_scan-ends :
    (again : QrisInfo → Scan) (s : Scan)
    → ((info : QrisInfo) → again info ≢ stopped out_of_fuel)
    → s ≢ stopped out_of_fuel
    → next_scan again s ≢ stopped out_of_fuel
next_scan-ends again (going info) a h = a info
next_scan-ends again (stopped p) a h = h

scan-ends : (tags : List EmvTag) (info : QrisInfo) → scan info tags ≢ stopped out_of_fuel
unfolding scan
scan-ends [] info = ground arith
scan-ends (t ∷ rest) info =
    next_scan-ends (λ i. scan i rest) (scan_tag info t) (scan-ends rest) (scan_tag-ends info t)

finish_nmid-ends : (nmid : Bytes) (info : QrisInfo) → finish_nmid nmid info ≢ out_of_fuel
finish_nmid-ends [] info = ground arith
finish_nmid-ends (c ∷ nmid) info = ground arith

finish-ends : (s : Scan) → s ≢ stopped out_of_fuel → finish s ≢ out_of_fuel
finish-ends (going info) h = finish_nmid-ends info.nmid info
finish-ends (stopped p) h = λ e. h (ap stopped e)

scan_walk-ends : (w : Walk) → w ≢ unfinished → scan_walk w ≢ out_of_fuel
scan_walk-ends (done tags) h = finish-ends (scan no_info tags) (scan-ends tags no_info)
scan_walk-ends (malformed e) h = ground arith
scan_walk-ends panicked h = ground arith
scan_walk-ends unfinished h = absurd (h refl)

parse_trimmed-ends : (s : Bytes) → parse_trimmed s ≢ out_of_fuel
parse_trimmed-ends [] = ground arith
parse_trimmed-ends (c ∷ s) = scan_walk-ends (walk_tlv (c ∷ s)) (walk_tlv_ends (c ∷ s))

-- ParseQRIS always comes to an end, whatever the text: the walks over the payload and over its
-- templates, each with a fuel of one more than its bytes, never run out. But it panics on a text
-- that is, without the white space around it, a payload whose first length is written with a minus
-- sign and a digit from 1 to 9, whatever comes behind.
pub parse_qris_ends :
    (qr bad s : Bytes) (a b digit : ℕ)
    → 49 ≤ digit
    → digit ≤ 57
    → trim_bytes bad ≡ a ∷ b ∷ b'-' ∷ digit ∷ s
    → (parse_qris qr ≢ out_of_fuel) × (parse_qris bad ≡ slice_panic)
unfolding parse_qris
parse_qris_ends qr bad s a b digit low high e =
    (parse_trimmed-ends (trim_bytes qr), rw (e, walk_tlv-minus s a b digit low high) refl)
