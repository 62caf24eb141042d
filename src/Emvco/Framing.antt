-- ===== src/Emvco/Framing.antt =====
-- The end of the walk, and the reading back of what is encoded.
use gtd_api.Prelude.{
  ℕ, zero, suc, ◌+◌, ◌-◌, ◌/◌, ◌%◌, ◌≤◌, ◌<◌, ◌≡◌, ◌≢◌, refl, ap, false, Option, none, some, List,
  [], ◌∷◌, ◌++◌, All, ltb, length, take, drop, length-append, length-drop, arith, Bool-cases, inl,
  inr,
}
use gtd_api.Prelude.Int.{ℤ, pos, negsuc}
use gtd_api.Emvco.{
  Bytes, EmvTag, Walk, done, malformed, panicked, unfinished, atoi2, take_value, walk_from,
  walk_tlv, cons_tag,
}

cons_tag-ends : (t : EmvTag) (w : Walk) → w ≢ unfinished → cons_tag t w ≢ unfinished
cons_tag-ends t (done tags) h = ground arith
cons_tag-ends t (malformed e) h = ground arith
cons_tag-ends t panicked h = ground arith
cons_tag-ends t unfinished h = h

take_value-ends :
    (again : ℕ → Bytes → Walk) (offset : ℕ) (id : ℕ × ℕ) (rest : Bytes) (o : Option ℤ)
    → ((i n : ℕ) → again i (drop n rest) ≢ unfinished)
    → take_value again offset id rest o ≢ unfinished
unfolding take_value
take_value-ends again offset id rest none h = ground arith
take_value-ends again offset id rest (some (negsuc n)) h = ground arith
take_value-ends again offset id rest (some (pos n)) h = elim (Bool-cases (ltb (length rest) n)) [
  | inl e ↦ rw e (ground arith)
  | inr e ↦ rw e (cons_tag-ends _ _ (h (offset + 4 + n) n))
]

walk_from-ends :
    (fuel offset : ℕ) (s : Bytes) → length s < fuel → walk_from fuel offset s ≢ unfinished
unfolding walk_from
walk_from-ends zero offset s h = omega (arith, h)
walk_from-ends (suc fuel) offset [] h = ground arith
walk_from-ends (suc fuel) offset (a ∷ []) h = ground arith
walk_from-ends (suc fuel) offset (a ∷ b ∷ []) h = ground arith
walk_from-ends (suc fuel) offset (a ∷ b ∷ c ∷ []) h = ground arith
walk_from-ends (suc fuel) offset (a ∷ b ∷ c ∷ d ∷ rest) h =
    take_value-ends (λ i s. walk_from fuel i s) offset (a, b) rest (atoi2 c d)
      (λ i n. walk_from-ends fuel i (drop n rest) (omega (arith, h, length-drop n rest)))

-- A tag as the specification writes it: the id, two digits of length, and the value.
abbrev pub encode : EmvTag → Bytes
encode t = t.id.0 ∷ t.id.1 ∷ (48 + length t.value / 10) ∷ (48 + length t.value % 10) ∷ t.value

abbrev pub encode_all : List EmvTag → Bytes
encode_all [] = []
encode_all (t ∷ tags) = encode t ++ encode_all tags

take-append : (xs ys : Bytes) → take (length xs) (xs ++ ys) ≡ xs
take-append [] ys = refl
take-append (x ∷ xs) ys = ap (λ zs. x ∷ zs) (take-append xs ys)

drop-append : (xs ys : Bytes) → drop (length xs) (xs ++ ys) ≡ ys
drop-append [] ys = refl
drop-append (x ∷ xs) ys = drop-append xs ys

atoi2-digits : (n : ℕ) → n < 100 → atoi2 (48 + n / 10) (48 + n % 10) ≡ some (pos n)
unfolding atoi2
atoi2-digits n h = ground arith

not_longer : (v r : Bytes) → ltb (length (v ++ r)) (length v) ≡ false
not_longer v r = ground (arith, length-append v r)

take_value-append :
    (again : ℕ → Bytes → Walk) (offset : ℕ) (id : ℕ × ℕ) (v r : Bytes)
    → take_value again offset id (v ++ r) (some (pos (length v)))
      ≡ cons_tag (record { id = id; value = v }) (again (offset + 4 + length v) r)
unfolding take_value
take_value-append again offset id v r = rw (not_longer v r, take-append v r, drop-append v r) refl

walk_from-encode :
    (fuel offset : ℕ) (tags : List EmvTag)
    → All (λ t. length t.value < 100) tags
    → length (encode_all tags) < fuel
    → walk_from fuel offset (encode_all tags) ≡ done tags
unfolding walk_from
walk_from-encode zero offset tags u h = ground arith
walk_from-encode (suc fuel) offset [] u h = refl
walk_from-encode (suc fuel) offset (t ∷ tags) u h =
    rw
      (
        atoi2-digits (length t.value) u.0,
        take_value-append (λ i s. walk_from fuel i s) offset t.id t.value (encode_all tags),
        walk_from-encode fuel (offset + 4 + length t.value) tags u.1
            (omega (arith, h, length-append t.value (encode_all tags))),
      )
      refl

-- The bytes of tags whose values are shorter than 100 bytes, each written with its id and its
-- length in two digits, are read back as these tags.
pub walk_tlv-encode :
    (tags : List EmvTag)
    → All (λ t. length t.value < 100) tags
    → walk_tlv (encode_all tags) ≡ done tags
unfolding walk_tlv
walk_tlv-encode tags u = walk_from-encode (suc (length (encode_all tags))) 0 tags u (omega arith)

atoi2-minus : (digit : ℕ) → 49 ≤ digit → digit ≤ 57 → (n : ℕ) × (atoi2 45 digit ≡ some (negsuc n))
unfolding atoi2
atoi2-minus digit low high = (digit - 49, ground arith)

-- A length with a minus sign is no error: the slice's bounds are in the wrong order.
pub walk_tlv-minus :
    (s : Bytes) (a b digit : ℕ)
    → 49 ≤ digit
    → digit ≤ 57
    → walk_tlv (a ∷ b ∷ 45 ∷ digit ∷ s) ≡ panicked
unfolding walk_tlv walk_from take_value
walk_tlv-minus s a b digit low high = rw (atoi2-minus digit low high).1 refl

pub walk_tlv_ends : (s : Bytes) → walk_tlv s ≢ unfinished
unfolding walk_tlv
walk_tlv_ends s = walk_from-ends (suc (length s)) 0 s (omega arith)
