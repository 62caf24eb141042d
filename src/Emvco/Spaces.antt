-- ===== src/Emvco/Spaces.antt =====
-- strings.TrimSpace on the bytes of a text, as ParseQRIS of internal/utils/emvco.go uses it: the
-- white space of Unicode, in UTF-8.
use gtd_api.Prelude.{
  ℕ, zero, suc, Bool, ◌&&◌, ◌||◌, [], ◌∷◌, leb, ◌==◌, length, drop, if◌then◌else◌,
}
use gtd_api.Emvco.{Bytes}

abbrev is_ascii_space : ℕ → Bool
is_ascii_space a = a == 32 || leb 9 a && leb a 13

-- U+0085 and U+00A0.
abbrev is_latin_space : ℕ → ℕ → Bool
is_latin_space a b = a == 194 && (b == 133 || b == 160)

-- U+1680, U+2000 to U+200A, U+2028, U+2029, U+202F, U+205F and U+3000.
abbrev is_wide_space : ℕ → ℕ → ℕ → Bool
is_wide_space a b c =
    a == 225 && b == 154 && c == 128
    || a == 226 && b == 128 && (leb 128 c && leb c 138 || c == 168 || c == 169 || c == 175)
    || a == 226 && b == 129 && c == 159
    || a == 227 && b == 128 && c == 128

-- How many bytes the first character takes, where it is a space, and 0 where it is none.
unfoldable space_width : Bytes → ℕ
space_width [] = 0
space_width (a ∷ []) = if is_ascii_space a then 1 else 0
space_width (a ∷ b ∷ []) = if is_ascii_space a then 1 else if is_latin_space a b then 2 else 0
space_width (a ∷ b ∷ c ∷ _) =
    if is_ascii_space a
    then 1
    else if is_latin_space a b
    then 2
    else if is_wide_space a b c
    then 3
    else 0

-- The same of the last character, of which the bytes come from the end.
unfoldable last_space_width : Bytes → ℕ
last_space_width [] = 0
last_space_width (a ∷ []) = if is_ascii_space a then 1 else 0
last_space_width (b ∷ a ∷ []) = if is_ascii_space b then 1 else if is_latin_space a b then 2 else 0
last_space_width (c ∷ b ∷ a ∷ _) =
    if is_ascii_space c
    then 1
    else if is_latin_space b c
    then 2
    else if is_wide_space a b c
    then 3
    else 0

abbrev trim_by : (again : Bytes → Bytes) → (width : ℕ) → Bytes → Bytes
trim_by again zero s = s
trim_by again (suc w) s = again (drop (suc w) s)

unfoldable trim_front : (width : Bytes → ℕ) → (fuel : ℕ) → Bytes → Bytes
trim_front width zero s = s
trim_front width (suc fuel) s = trim_by (trim_front width fuel) (width s) s

abbrev reverse_onto : Bytes → Bytes → Bytes
reverse_onto out [] = out
reverse_onto out (a ∷ s) = reverse_onto (a ∷ out) s

-- Every round takes a byte at least, so that the length is fuel enough.
unfoldable pub trim_bytes : Bytes → Bytes
unfolding space_width last_space_width trim_front
trim_bytes s =
    let front = trim_front space_width (length s) s in
    reverse_onto [] (trim_front last_space_width (length front) (reverse_onto [] front))
