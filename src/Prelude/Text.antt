-- ===== src/Prelude/Text.antt =====
-- What the code uses of Go's package `strings`, over texts read as their characters.
-- `trim_space` strips every character with the Unicode property White_Space. The maps of case send
-- the ASCII letters, and the four other characters whose image is an ASCII letter (İ, ı, ſ, K);
-- all else is kept, so a comparison of the result with an ASCII text comes out as in Go.
use Prim.Native.Nat.{ℕ}
use Prim.Native.Char.{Char, code}
use Prim.Native.String.{String}
use mathlib.Core.Bool.{Bool, true, ◌&&◌, ◌||◌}
use mathlib.Core.Path.{◌≡◌, refl}
use mathlib.Core.List.{List, [], ◌∷◌}
use text.Mathlib.Text.{◌==◌ as str_eq, starts_with}
use gtd_api.Prelude.Tests.{leb, ◌==◌, if◌then◌else◌}

unfoldable pub is_space : Char → Bool
is_space c =
    let n = code c in
    (leb 9 n && leb n 13)
    || n == 0x20
    || n == 0x85
    || n == 0xa0
    || n == 0x1680
    || (leb 0x2000 n && leb n 0x200a)
    || n == 0x2028
    || n == 0x2029
    || n == 0x202f
    || n == 0x205f
    || n == 0x3000

unfoldable pub trim_left : String → String
unfolding is_space
trim_left String.[] = ""
trim_left (String.◌∷◌ c s) = if is_space c then trim_left s else String.◌∷◌ c s

unfoldable pub trim_right : String → String
unfolding is_space
trim_right String.[] = ""
trim_right (String.◌∷◌ c s) =
    let t = trim_right s in if is_space c && str_eq t "" then "" else String.◌∷◌ c t

-- strings.TrimSpace
unfoldable pub trim_space : String → String
unfolding trim_left trim_right
trim_space s = trim_right (trim_left s)

unfoldable pub convert : List (ℕ × Char) → Char → Char
convert [] c = c
convert ((n, d) ∷ table) c = if code c == n then d else convert table c

unfoldable pub convert_all : List (ℕ × Char) → String → String
unfolding convert
convert_all table String.[] = ""
convert_all table (String.◌∷◌ c s) = String.◌∷◌ (convert table c) (convert_all table s)

abbrev to_small : List (ℕ × Char)
to_small =
    (65, "a")
    ∷ (66, "b")
    ∷ (67, "c")
    ∷ (68, "d")
    ∷ (69, "e")
    ∷ (70, "f")
    ∷ (71, "g")
    ∷ (72, "h")
    ∷ (73, "i")
    ∷ (74, "j")
    ∷ (75, "k")
    ∷ (76, "l")
    ∷ (77, "m")
    ∷ (78, "n")
    ∷ (79, "o")
    ∷ (80, "p")
    ∷ (81, "q")
    ∷ (82, "r")
    ∷ (83, "s")
    ∷ (84, "t")
    ∷ (85, "u")
    ∷ (86, "v")
    ∷ (87, "w")
    ∷ (88, "x")
    ∷ (89, "y")
    ∷ (90, "z")
    ∷ (0x212a, "k")
    ∷ []

abbrev to_capital : List (ℕ × Char)
to_capital =
    (97, "A")
    ∷ (98, "B")
    ∷ (99, "C")
    ∷ (100, "D")
    ∷ (101, "E")
    ∷ (102, "F")
    ∷ (103, "G")
    ∷ (104, "H")
    ∷ (105, "I")
    ∷ (106, "J")
    ∷ (107, "K")
    ∷ (108, "L")
    ∷ (109, "M")
    ∷ (110, "N")
    ∷ (111, "O")
    ∷ (112, "P")
    ∷ (113, "Q")
    ∷ (114, "R")
    ∷ (115, "S")
    ∷ (116, "T")
    ∷ (117, "U")
    ∷ (118, "V")
    ∷ (119, "W")
    ∷ (120, "X")
    ∷ (121, "Y")
    ∷ (122, "Z")
    ∷ (0x131, "I")
    ∷ (0x17f, "S")
    ∷ []

-- strings.ToLower
unfoldable pub to_lower : String → String
unfolding convert_all
to_lower = convert_all ((0x130, "i") ∷ to_small)

-- strings.ToUpper
unfoldable pub to_upper : String → String
unfolding convert_all
to_upper = convert_all to_capital

-- strings.EqualFold, where one of the two texts is ASCII
unfoldable pub equal_fold : String → String → Bool
unfolding convert_all
equal_fold s t =
    str_eq (convert_all ((0x17f, "s") ∷ to_small) s) (convert_all ((0x17f, "s") ∷ to_small) t)

-- strings.Contains
unfoldable pub contains : String → String → Bool
contains String.[] part = str_eq part ""
contains (String.◌∷◌ c s) part = starts_with (String.◌∷◌ c s) part || contains s part

-- the characters of a text
unfoldable pub codes : String → List ℕ
codes String.[] = []
codes (String.◌∷◌ c s) = code c ∷ codes s

trims : trim_space "  OVO x\n" ≡ "OVO x"
unfolding trim_space
trims = refl

lowers : to_lower "İNSUFFICIENT K2" ≡ "insufficient k2"
unfolding to_lower
lowers = refl

folds : equal_fold "aſtraPay" "ASTRAPAY" ≡ true
unfolding equal_fold
folds = refl

finds : contains "balance is insufficient" "insufficient" ≡ true
unfolding contains
finds = refl
