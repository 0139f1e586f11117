-- ===== src/GoText.antt =====
-- Go's `strings` and `strconv` as far as the program uses them, and util.IsStringEmpty
-- (internal/pkg/util/util.go). A Go string is read as its code points.
pub mod Laws
use Prim.Native.String.{String, [], ◌∷◌, ◌++◌, len}
use mathlib.Core.List
use logtrace_backend.Common.{
  ℕ, zero, suc, ◌+◌, ◌-◌, ◌*◌, ◌^◌, Char, code, Bool, true, false, ◌&&◌, ◌||◌, Option, none, some,
  List, leb, ltb, ◌==◌, nat_eq, if◌then◌else◌,
}
use logtrace_backend.Common.Int.{ℤ, pos, negsuc}

-- `unicode.IsSpace`
unfoldable pub is_space : ℕ → Bool
is_space c =
    (leb 9 c && leb c 13)
    || c == 32
    || c == 0x85
    || c == 0xa0
    || c == 0x1680
    || (leb 0x2000 c && leb c 0x200a)
    || c == 0x2028
    || c == 0x2029
    || c == 0x202f
    || c == 0x205f
    || c == 0x3000

unfoldable pub trim_left : String → String
trim_left [] = []
trim_left (c ∷ s) = let rest = trim_left s in if is_space (code c) then rest else c ∷ s

-- Puts a character before a trimmed tail: a space is dropped where nothing follows it.
trim_cons : Char → String → String
trim_cons c [] = if is_space (code c) then [] else c ∷ []
trim_cons c (d ∷ s) = c ∷ d ∷ s

unfoldable pub trim_right : String → String
unfolding trim_cons
trim_right [] = []
trim_right (c ∷ s) = trim_cons c (trim_right s)

-- `strings.TrimSpace`
unfoldable pub trim_space : String → String
unfolding trim_left trim_right
trim_space s = trim_right (trim_left s)

-- `len(strings.TrimSpace(s)) == 0`
unfoldable pub is_string_empty : String → Bool
unfolding trim_space
is_string_empty s = len (trim_space s) == 0

-- The loop of `strings.Split(s, sep)` for a separator of one character.
split_from : ℕ → String → String → List String
split_from sep cur [] = List.◌∷◌ cur List.[]
split_from sep cur (c ∷ s) =
    let closed = List.◌∷◌ cur (split_from sep [] s) in
    let longer = split_from sep (cur ++ (c ∷ [])) s in if code c == sep then closed else longer

unfoldable pub split : ℕ → String → List String
unfolding split_from
split sep s = split_from sep [] s

-- `xff[:i]` for `i = strings.Index(xff, ", ")`, or the whole text where there is no `", "`.
unfoldable pub before_comma_space : String → String
before_comma_space [] = []
before_comma_space (c ∷ []) = c ∷ []
before_comma_space (c ∷ d ∷ s) =
    let rest = before_comma_space (d ∷ s) in
    if code c == b',' && code d == b' ' then [] else c ∷ rest

-- The value of a text of decimal digits; `none` at any other character.
digits_value : String → ℕ → Option ℕ
digits_value [] acc = some acc
digits_value (c ∷ s) acc =
    let rest = digits_value s (acc * 10 + (code c - b'0')) in
    if leb b'0' (code c) && leb (code c) b'9' then rest else none

unsigned : String → Option ℕ
unfolding digits_value
unsigned [] = none
unsigned (c ∷ s) = digits_value (c ∷ s) 0

-- The bounds of int64: a magnitude below 2 ^ 63, or up to 2 ^ 63 with a minus sign.
int_pos : Option ℕ → Option ℤ
int_pos none = none
int_pos (some n) = if ltb n (2 ^ 63) then some (pos n) else none

int_neg : Option ℕ → Option ℤ
int_neg none = none
int_neg (some zero) = some (pos 0)
int_neg (some (suc n)) = if ltb n (2 ^ 63) then some (negsuc n) else none

-- `strconv.Atoi` on a 64-bit platform
unfoldable pub atoi : String → Option ℤ
unfolding unsigned int_pos int_neg
atoi [] = none
atoi (c ∷ s) =
    if code c == b'-'
    then int_neg (unsigned s)
    else if code c == b'+'
    then int_pos (unsigned s)
    else int_pos (unsigned (c ∷ s))

-- `string(s[0])` of a text of three bytes that ends with "xx".
unfoldable pub status_class : String → Option String
status_class (c ∷ d ∷ e ∷ []) =
    if code d == 0x78 && code e == 0x78 && len (c ∷ d ∷ e ∷ []) == 3 then some (c ∷ []) else none
status_class s = none
