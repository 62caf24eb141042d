-- ===== src/Emvco.antt =====
-- internal/utils/emvco.go: walkTLV, the framing of a QRIS payload. A Go string is the list of its bytes
-- here.
pub mod Framing
mod Spaces
pub mod Parse
mod Fields
mod Ends
mod Tests
use gtd_api.Prelude.{
  ℕ, zero, suc, ◌+◌, ◌*◌, ◌-◌, ◌≡◌, Bool, true, false, ◌&&◌, Option, none, some, List, [], ◌∷◌, ltb,
  leb, ◌==◌, length, take, drop, if◌then◌else◌,
}
use gtd_api.Prelude.Int.{ℤ, pos, negsuc, ltb_ℤ}

abbrev pub Bytes : Type 0
Bytes = List ℕ

pub record EmvTag : Type 0 where
  pub id : ℕ × ℕ
  pub value : Bytes

pub data TlvError : Type 0 where
  truncated : (offset : ℕ) → TlvError
  invalid_length : (offset : ℕ) → TlvError
  overruns : (id : ℕ × ℕ) → (need : ℕ) → TlvError

-- `panicked` is a slice whose bounds are in the wrong order; `unfinished` is a loop that ran out of
-- fuel.
pub data Walk : Type 0 where
  done : List EmvTag → Walk
  malformed : TlvError → Walk
  panicked : Walk
  unfinished : Walk

abbrev is_digit : ℕ → Bool
is_digit b = leb 48 b && leb b 57

abbrev negated : ℕ → ℤ
negated zero = pos 0
negated (suc n) = negsuc n

-- strconv.Atoi of two bytes: two digits, or a sign and a digit.
unfoldable pub atoi2 : ℕ → ℕ → Option ℤ
atoi2 a b =
    if is_digit b
    then (if is_digit a
        then some (pos (10 * (a - 48) + (b - 48)))
        else if a == 43
        then some (pos (b - 48))
        else if a == 45
        then some (negated (b - 48))
        else none)
    else none

abbrev cons_tag : EmvTag → Walk → Walk
cons_tag t (done tags) = done (t ∷ tags)
cons_tag t (malformed e) = malformed e
cons_tag t panicked = panicked
cons_tag t unfinished = unfinished

-- The value behind a header, where `again` is the rest of the loop: `end > len(s)` and `s[start:end]`.
unfoldable pub take_value :
    (again : ℕ → Bytes → Walk) → (offset : ℕ) → (id : ℕ × ℕ) → (rest : Bytes) → Option ℤ → Walk
take_value again offset id rest none = malformed (invalid_length offset)
take_value again offset id rest (some (negsuc n)) = panicked
take_value again offset id rest (some (pos n)) =
    if ltb (length rest) n
    then malformed (overruns id n)
    else cons_tag (record { id = id; value = take n rest }) (again (offset + 4 + n) (drop n rest))

unfoldable pub walk_from : (fuel offset : ℕ) → Bytes → Walk
walk_from zero offset s = unfinished
walk_from (suc fuel) offset [] = done []
walk_from (suc fuel) offset (a ∷ b ∷ c ∷ d ∷ rest) =
    take_value (λ i s. walk_from fuel i s) offset (a, b) rest (atoi2 c d)
walk_from (suc fuel) offset _ = malformed (truncated offset)

unfoldable pub walk_tlv : Bytes → Walk
walk_tlv s = walk_from (suc (length s)) 0 s
