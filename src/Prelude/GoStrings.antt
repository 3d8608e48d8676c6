-- ===== src/Prelude/GoStrings.antt =====
-- The functions of Go's packages strings and strconv that the program calls.
pub mod Decimal
pub mod Words
use Prim.Native.Nat.{ℕ, zero, suc, ◌+◌, ◌-◌, ◌*◌, ◌/◌, ◌%◌, ◌^◌}
use Prim.Native.Char.{Char, code}
use Prim.Native.String.{String, ◌++◌, slice}
use mathlib.Core.Path.{◌≡◌, refl}
use mathlib.Core.Bool.{Bool, true, false, ◌&&◌, ◌||◌, not}
use mathlib.Core.List.{List, [], ◌∷◌}
use mathlib.Core.Option.{Option, none, some}
use faultlab.Prelude.Tests.{ltb, leb, ◌=ℕ=◌, if◌then◌else◌}
use faultlab.Prelude.Text.{◌==◌}
use faultlab.Prelude.Integer.{ℤ, pos, negsuc}

-- One character before the two halves of a split.
push_front : Char → Option (String × String) → Option (String × String)
push_front c none = none
push_front c (some (before, after)) = some (String.◌∷◌ c before, after)

-- What stands before and after the first character numbered k: strings.Index with two slices.
unfoldable pub cut_first : ℕ → String → Option (String × String)
unfolding push_front
cut_first k String.[] = none
cut_first k (String.◌∷◌ c s) =
    let rest = push_front c (cut_first k s) in if code c =ℕ= k then some ("", s) else rest

or_here : ℕ → Char → String → Option (String × String) → Option (String × String)
unfolding push_front
or_here k c s none = if code c =ℕ= k then some ("", s) else none
or_here k c s (some split) = push_front c (some split)

-- The same at the last such character: strings.LastIndex.
unfoldable pub cut_last : ℕ → String → Option (String × String)
unfolding or_here
cut_last k String.[] = none
cut_last k (String.◌∷◌ c s) = or_here k c s (cut_last k s)

unfoldable pub is_digit : ℕ → Bool
is_digit c = leb b'0' c && leb c b'9'

-- A run of decimal digits, nothing else.
digits_from : ℕ → String → Option ℕ
unfolding is_digit
digits_from n String.[] = some n
digits_from n (String.◌∷◌ c s) =
    let rest = digits_from (n * 10 + (code c - b'0')) s in if is_digit (code c) then rest else none

unsigned : String → Option ℕ
unfolding digits_from
unsigned s = if s == "" then none else digits_from 0 s

-- A magnitude within the range of a 64-bit `int`.
positive : Option ℕ → Option ℤ
positive none = none
positive (some n) = if ltb n (2 ^ 63) then some (pos n) else none

negative : Option ℕ → Option ℤ
negative none = none
negative (some zero) = some (pos 0)
negative (some (suc n)) = if ltb n (2 ^ 63) then some (negsuc n) else none

-- strconv.Atoi, `none` for its error
unfoldable pub atoi : String → Option ℤ
unfolding unsigned positive negative
atoi String.[] = none
atoi (String.◌∷◌ c s) =
    if code c =ℕ= b'-'
    then negative (unsigned s)
    else if code c =ℕ= b'+'
    then positive (unsigned s)
    else positive (unsigned (String.◌∷◌ c s))

-- The digits as strconv.ParseUint reads them: it stops where the number leaves 64 bits.
scan_digits : ℕ → String → Option ℕ
unfolding is_digit
scan_digits n String.[] = some n
scan_digits n (String.◌∷◌ c s) =
    let m = n * 10 + (code c - b'0') in
    let rest = scan_digits m s in
    if not (is_digit (code c)) then none else if ltb m (2 ^ 64) then rest else some (2 ^ 64 - 1)

-- The number that strconv.ParseUint returns, also beside an error.
unfoldable pub magnitude : String → ℕ
unfolding scan_digits
magnitude s = if s == "" then 0 else elim (scan_digits 0 s) [ none ↦ 0 | some n ↦ n ]

positive_value : ℕ → ℤ
positive_value n = if ltb n (2 ^ 63) then pos n else pos (2 ^ 63 - 1)

negative_value : ℕ → ℤ
negative_value zero = pos 0
negative_value (suc n) = if ltb n (2 ^ 63) then negsuc n else negsuc (2 ^ 63 - 1)

-- The number that strconv.Atoi returns, also beside an error: 0 for a text that is no number, the
-- nearest bound for one out of range.
unfoldable pub atoi_value : String → ℤ
unfolding magnitude positive_value negative_value
atoi_value String.[] = pos 0
atoi_value (String.◌∷◌ c s) =
    if code c =ℕ= b'-'
    then negative_value (magnitude s)
    else if code c =ℕ= b'+'
    then positive_value (magnitude s)
    else positive_value (magnitude (String.◌∷◌ c s))

digit : ℕ → String
digit n =
    if n =ℕ= 0
    then "0"
    else if n =ℕ= 1
    then "1"
    else if n =ℕ= 2
    then "2"
    else if n =ℕ= 3
    then "3"
    else if n =ℕ= 4
    then "4"
    else if n =ℕ= 5
    then "5"
    else if n =ℕ= 6
    then "6"
    else if n =ℕ= 7
    then "7"
    else if n =ℕ= 8
    then "8"
    else "9"

decimal_from : ℕ → ℕ → String
unfolding digit
decimal_from zero n = ""
decimal_from (suc fuel) n =
    let rest = decimal_from fuel (n / 10) in if ltb n 10 then digit n else rest ++ digit (n % 10)

-- %d of a number that is not negative; a number has fewer digits than its value plus one
unfoldable pub decimal : ℕ → String
unfolding decimal_from
decimal n = decimal_from (n + 1) n

-- %d of an int64
unfoldable pub print_int : ℤ → String
print_int (pos n) = decimal n
print_int (negsuc n) = "-" ++ decimal (n + 1)

-- strings.TrimPrefix where the text has the prefix, `none` where it has not
unfoldable pub cut_prefix : String → String → Option String
cut_prefix String.[] s = some s
cut_prefix (String.◌∷◌ c p) String.[] = none
cut_prefix (String.◌∷◌ c p) (String.◌∷◌ d s) =
    let rest = cut_prefix p s in if code c =ℕ= code d then rest else none

is_some : Option String → Bool
is_some none = false
is_some (some _) = true

-- strings.Contains
unfoldable pub has_substring : String → String → Bool
unfolding is_some
has_substring String.[] p = p == ""
has_substring (String.◌∷◌ c s) p = is_some (cut_prefix p (String.◌∷◌ c s)) || has_substring s p

-- strings.Join
unfoldable pub join : String → List String → String
join sep [] = ""
join sep (s ∷ []) = s
join sep (s ∷ t ∷ rest) = s ++ sep ++ join sep (t ∷ rest)

-- Whether a text stands in a list: the loops that search one.
unfoldable pub contains : List String → String → Bool
contains [] s = false
contains (t ∷ ts) s = t == s || contains ts s

-- unicode.IsSpace
is_space : ℕ → Bool
is_space c =
    (leb 9 c && leb c 13)
    || c =ℕ= 32
    || c =ℕ= 0x85
    || c =ℕ= 0xa0
    || c =ℕ= 0x1680
    || (leb 0x2000 c && leb c 0x200a)
    || c =ℕ= 0x2028
    || c =ℕ= 0x2029
    || c =ℕ= 0x202f
    || c =ℕ= 0x205f
    || c =ℕ= 0x3000

trim_left : String → String
unfolding is_space
trim_left String.[] = String.[]
trim_left (String.◌∷◌ c s) =
    let rest = trim_left s in if is_space (code c) then rest else String.◌∷◌ c s

-- One more character in front of a text whose right end is trimmed.
keep_unless_blank : Char → String → String
unfolding is_space
keep_unless_blank c String.[] = if is_space (code c) then String.[] else String.◌∷◌ c String.[]
keep_unless_blank c (String.◌∷◌ d s) = String.◌∷◌ c (String.◌∷◌ d s)

trim_right : String → String
unfolding keep_unless_blank
trim_right String.[] = String.[]
trim_right (String.◌∷◌ c s) = keep_unless_blank c (trim_right s)

-- strings.TrimSpace
unfoldable pub trim_space : String → String
unfolding trim_left trim_right
trim_space s = trim_right (trim_left s)

atoi_tests :
    (atoi "7001" ≡ some (pos 7001))
    × (atoi "-12" ≡ some (negsuc 11))
    × (atoi "" ≡ none)
    × (atoi "70x" ≡ none)
    × (atoi "9223372036854775808" ≡ none)
    × (atoi "-9223372036854775808" ≡ some (negsuc 9223372036854775807))
    × (atoi "+" ≡ none)
unfolding atoi
atoi_tests = (refl, refl, refl, refl, refl, refl, refl)

text_tests :
    (cut_first b'@' "n1@h@p" ≡ some ("n1", "h@p"))
    × (cut_last b':' "::1:70" ≡ some ("::1", "70"))
    × (decimal 0 ≡ "0")
    × (decimal 9070 ≡ "9070")
    × (join "," ("a" ∷ "b" ∷ "c" ∷ []) ≡ "a,b,c")
    × (trim_space " \t a b\n" ≡ "a b")
    × (cut_prefix "TL:" "TL:x" ≡ some "x")
    × (has_substring "a TL:x" "TL:" ≡ true)
    × (print_int (negsuc 41) ≡ "-42")
unfolding cut_first cut_last decimal join trim_space cut_prefix has_substring print_int
text_tests = (refl, refl, refl, refl, refl, refl, refl, refl, refl)

atoi_value_tests :
    (atoi_value "7001" ≡ pos 7001)
    × (atoi_value "-12" ≡ negsuc 11)
    × (atoi_value "70x" ≡ pos 0)
    × (atoi_value "99999999999999999999x" ≡ pos 9223372036854775807)
unfolding atoi_value
atoi_value_tests = (refl, refl, refl, refl)

lower_char : Char → String
lower_char c =
    if leb b'A' (code c) && leb (code c) b'Z'
    then slice "abcdefghijklmnopqrstuvwxyz" (code c - b'A') (code c - b'A' + 1)
    else if code c =ℕ= 0x130
    then "i"
    else if code c =ℕ= 0x212a
    then "k"
    else String.◌∷◌ c ""

-- strings.ToLower, for texts that are then compared with ASCII words: of the letters beyond ASCII
-- only the two are changed whose lower case is an ASCII letter.
unfoldable pub to_lower : String → String
unfolding lower_char
to_lower String.[] = ""
to_lower (String.◌∷◌ c s) = let rest = to_lower s in lower_char c ++ rest

to_lower_tests : to_lower "GoSSip-9" ≡ "gossip-9"
unfolding to_lower
to_lower_tests = refl

-- strings.HasPrefix with a text of one character
unfoldable pub starts_with_char : ℕ → String → Bool
starts_with_char k String.[] = false
starts_with_char k (String.◌∷◌ c s) = code c =ℕ= k

push_word : Char → List String → List String
push_word c [] = String.◌∷◌ c "" ∷ []
push_word c (w ∷ ws) = String.◌∷◌ c w ∷ ws

-- strings.Split at each of one character
unfoldable pub split_on : ℕ → String → List String
unfolding push_word
split_on k String.[] = "" ∷ []
split_on k (String.◌∷◌ c s) =
    let rest = split_on k s in if code c =ℕ= k then "" ∷ rest else push_word c rest

drop_char : ℕ → String → String
drop_char k String.[] = ""
drop_char k (String.◌∷◌ c s) =
    let rest = drop_char k s in if code c =ℕ= k then rest else String.◌∷◌ c s

keep_unless_char : ℕ → Char → String → String
keep_unless_char k c s = if code c =ℕ= k && s == "" then "" else String.◌∷◌ c s

drop_char_right : ℕ → String → String
unfolding keep_unless_char
drop_char_right k String.[] = ""
drop_char_right k (String.◌∷◌ c s) = keep_unless_char k c (drop_char_right k s)

-- strings.Trim with a cutset of one character
unfoldable pub trim_char : ℕ → String → String
unfolding drop_char drop_char_right
trim_char k s = drop_char_right k (drop_char k s)

split_tests :
    (split_on b',' "a,,b" ≡ "a" ∷ "" ∷ "b" ∷ []) × (trim_char b'"' "\"a \"b\"\"" ≡ "a \"b")
unfolding split_on trim_char
split_tests = (refl, refl)

split_space : String → List String
unfolding push_word is_space
split_space String.[] = "" ∷ []
split_space (String.◌∷◌ c s) =
    let rest = split_space s in if is_space (code c) then "" ∷ rest else push_word c rest

unfoldable pub nonempty : List String → List String
nonempty [] = []
nonempty (w ∷ ws) = let rest = nonempty ws in if w == "" then rest else w ∷ rest

-- strings.Fields
unfoldable pub fields : String → List String
unfolding split_space nonempty
fields s = nonempty (split_space s)

fields_tests : fields "  kv-put lab  n1 " ≡ "kv-put" ∷ "lab" ∷ "n1" ∷ []
unfolding fields
fields_tests = refl
