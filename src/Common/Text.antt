-- ===== src/Common/Text.antt =====
-- What the code uses of Go's `strings` and `unicode/utf8` on well-formed text.
use Prim.Native.Nat.{ℕ, zero, suc, ◌/◌, ◌%◌}
use Prim.Native.Char.{Char, code}
use Prim.Native.String.{String}
use mathlib.Core.Bool.{Bool, true, false, ◌&&◌, ◌||◌}
use loresuelvo_api.Common.Tests.{ltb, leb, ◌==◌, if◌then◌else◌}
use loresuelvo_api.Common.Int.{ℤ, pos, negsuc}

abbrev pub is_empty : String → Bool
is_empty String.[] = true
is_empty (String.◌∷◌ c s) = false

-- `unicode.IsSpace`.
unfoldable pub is_space : ℕ → Bool
is_space c =
    (leb 9 c && leb c 13)
    || c == 32
    || c == 0x85
    || c == 0xA0
    || c == 0x1680
    || (leb 0x2000 c && leb c 0x200A)
    || c == 0x2028
    || c == 0x2029
    || c == 0x202F
    || c == 0x205F
    || c == 0x3000

-- `strings.TrimLeftFunc(s, unicode.IsSpace)`.
unfoldable pub trim_left : String → String
unfolding is_space
trim_left String.[] = String.[]
trim_left (String.◌∷◌ c s) = if is_space (code c) then trim_left s else String.◌∷◌ c s

-- A character in front of a text that is trimmed on the right.
unfoldable pub keep : Char → String → String
unfolding is_space
keep c s = if is_space (code c) && is_empty s then String.[] else String.◌∷◌ c s

-- `strings.TrimRightFunc(s, unicode.IsSpace)`.
unfoldable pub trim_right : String → String
unfolding keep
trim_right String.[] = String.[]
trim_right (String.◌∷◌ c s) = keep c (trim_right s)

-- `strings.TrimSpace`.
unfoldable pub trim_space : String → String
unfolding trim_left trim_right
trim_space s = trim_right (trim_left s)

-- `strings.TrimSpace(s) == ""`.
unfoldable pub is_blank : String → Bool
unfolding trim_space
is_blank s = is_empty (trim_space s)

-- `utf8.RuneCountInString`.
unfoldable pub rune_count : String → ℕ
rune_count String.[] = 0
rune_count (String.◌∷◌ c s) = suc (rune_count s)

-- `strings.ContainsRune(s, 0)`.
unfoldable pub contains_nul : String → Bool
contains_nul String.[] = false
contains_nul (String.◌∷◌ c s) = code c == 0 || contains_nul s

-- A text followed by another.
unfoldable pub append : String → String → String
append String.[] t = t
append (String.◌∷◌ c s) t = String.◌∷◌ c (append s t)

-- `s <= t`: code points are in the order of their UTF-8 bytes.
unfoldable pub text_leb : String → String → Bool
text_leb String.[] t = true
text_leb (String.◌∷◌ c s) String.[] = false
text_leb (String.◌∷◌ c s) (String.◌∷◌ d t) =
    ltb (code c) (code d) || (code c == code d && text_leb s t)

-- The decimal digits.
abbrev digit : ℕ → Char
digit n =
    if n == 0
    then "0"
    else if n == 1
    then "1"
    else if n == 2
    then "2"
    else if n == 3
    then "3"
    else if n == 4
    then "4"
    else if n == 5
    then "5"
    else if n == 6
    then "6"
    else if n == 7
    then "7"
    else if n == 8
    then "8"
    else "9"

-- The digits of a number below 10 ^ fuel, in front of a text.
unfoldable digits : ℕ → ℕ → String → String
digits zero n s = s
digits (suc fuel) n s =
    let t = String.◌∷◌ (digit (n % 10)) s in if ltb n 10 then t else digits fuel (n / 10) t

-- `strconv.Itoa` of a number that an int holds, which has at most 19 digits.
unfoldable pub itoa : ℤ → String
unfolding digits
itoa (pos n) = digits 20 n String.[]
itoa (negsuc n) = String.◌∷◌ "-" (digits 20 (suc n) String.[])

-- `uuid.Nil` in the canonical form of an id.
abbrev pub nil_uuid : String
nil_uuid = "00000000-0000-0000-0000-000000000000"
