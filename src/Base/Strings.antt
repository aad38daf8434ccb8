-- ===== src/Base/Strings.antt =====
-- The functions of Go's `strings`, `strconv` and `net/url` packages that the operator calls,
-- over native strings.
pub mod Trim
use Prim.Native.Nat.{ℕ, zero, suc, ◌+◌, ◌/◌, ◌%◌}
use Prim.Native.Char.{Char, code}
use Prim.Native.String
use Prim.Native.String.{String}
use mathlib.Core.Bool.{Bool, true, false, ◌&&◌, ◌||◌}
use mathlib.Core.List.{List, [], ◌∷◌}
use mathlib.Core.Path.{◌≡◌, refl}
use text.Mathlib.Text.{◌==◌}
use infisical_entity_operato.Base.Tests.{ltb, leb, nat_eq, if◌then◌else◌}

-- The parts of a formatted message, one after the other.
unfoldable pub concat : List String → String
concat [] = ""
concat (s ∷ rest) = String.◌++◌ s (concat rest)

-- unicode.IsSpace
unfoldable pub is_space : ℕ → Bool
is_space c =
    (leb 9 c && leb c 13)
    || nat_eq c 32
    || nat_eq c 0x85
    || nat_eq c 0xa0
    || nat_eq c 0x1680
    || (leb 0x2000 c && leb c 0x200a)
    || nat_eq c 0x2028
    || nat_eq c 0x2029
    || nat_eq c 0x202f
    || nat_eq c 0x205f
    || nat_eq c 0x3000

unfoldable pub trim_left_space : String → String
unfolding is_space
trim_left_space String.[] = ""
trim_left_space (String.◌∷◌ c s) =
    let rest = trim_left_space s in if is_space (code c) then rest else String.◌∷◌ c s

abbrev keep_last : Bool → Char → String → String
keep_last true c String.[] = ""
keep_last _ c s = String.◌∷◌ c s

unfoldable pub trim_right_space : String → String
unfolding is_space
trim_right_space String.[] = ""
trim_right_space (String.◌∷◌ c s) = keep_last (is_space (code c)) c (trim_right_space s)

-- strings.TrimSpace
unfoldable pub trim_space : String → String
unfolding trim_left_space trim_right_space
trim_space s = trim_right_space (trim_left_space s)

abbrev pub is_blank : String → Bool
is_blank s = trim_space s == ""

-- strings.TrimRight and strings.TrimLeft with the cutset of one character
unfoldable pub trim_right : ℕ → String → String
trim_right cut String.[] = ""
trim_right cut (String.◌∷◌ c s) = keep_last (nat_eq (code c) cut) c (trim_right cut s)

unfoldable pub trim_left : ℕ → String → String
trim_left cut String.[] = ""
trim_left cut (String.◌∷◌ c s) =
    let rest = trim_left cut s in if nat_eq (code c) cut then rest else String.◌∷◌ c s

-- strings.ContainsAny for the characters "\t\r\n "
unfoldable pub contains_whitespace : String → Bool
contains_whitespace String.[] = false
contains_whitespace (String.◌∷◌ c s) =
    nat_eq (code c) 9
    || nat_eq (code c) 13
    || nat_eq (code c) 10
    || nat_eq (code c) 32
    || contains_whitespace s

abbrev onto_first : Char → List String → List String
onto_first c [] = String.◌∷◌ c "" ∷ []
onto_first c (part ∷ parts) = String.◌∷◌ c part ∷ parts

-- strings.Split at one character
unfoldable pub split : ℕ → String → List String
split sep String.[] = "" ∷ []
split sep (String.◌∷◌ c s) =
    let parts = split sep s in if nat_eq (code c) sep then "" ∷ parts else onto_first c parts

-- strings.Join
unfoldable pub join : String → List String → String
join sep [] = ""
join sep (s ∷ []) = s
join sep (s ∷ rest) = String.◌++◌ s (String.◌++◌ sep (join sep rest))

-- strconv.Itoa, digit by digit; `n + 1` rounds are enough
digit : ℕ → String
digit zero = "0"
digit (suc zero) = "1"
digit (suc (suc zero)) = "2"
digit (suc (suc (suc zero))) = "3"
digit (suc (suc (suc (suc zero)))) = "4"
digit (suc (suc (suc (suc (suc zero))))) = "5"
digit (suc (suc (suc (suc (suc (suc zero)))))) = "6"
digit (suc (suc (suc (suc (suc (suc (suc zero))))))) = "7"
digit (suc (suc (suc (suc (suc (suc (suc (suc zero)))))))) = "8"
digit (suc (suc (suc (suc (suc (suc (suc (suc (suc zero))))))))) = "9"
digit (suc (suc (suc (suc (suc (suc (suc (suc (suc (suc n)))))))))) = elim n [
  | zero ↦ "A"
  | suc zero ↦ "B"
  | suc (suc zero) ↦ "C"
  | suc (suc (suc zero)) ↦ "D"
  | suc (suc (suc (suc zero))) ↦ "E"
  | _ ↦ "F"
]

decimal_from : ℕ → ℕ → String → String
decimal_from zero n out = out
decimal_from (suc fuel) n out =
    let out' = String.◌++◌ (digit (n % 10)) out in
    let rest = decimal_from fuel (n / 10) out' in if ltb n 10 then out' else rest

unfoldable pub decimal : ℕ → String
unfolding decimal_from digit
decimal n = decimal_from (suc n) n ""

-- The bytes of a code point in UTF-8.
abbrev utf8 : ℕ → List ℕ
utf8 c =
    if ltb c 0x80
    then c ∷ []
    else if ltb c 0x800
    then (0xc0 + c / 64) ∷ (0x80 + c % 64) ∷ []
    else if ltb c 0x10000
    then (0xe0 + c / 4096) ∷ (0x80 + (c / 64) % 64) ∷ (0x80 + c % 64) ∷ []
    else (0xf0 + c / 262144)
      ∷ (0x80 + (c / 4096) % 64)
      ∷ (0x80 + (c / 64) % 64)
      ∷ (0x80 + c % 64)
      ∷ []

percent : List ℕ → String
percent [] = ""
percent (b ∷ bs) =
    String.◌++◌ "%" (String.◌++◌ (digit (b / 16)) (String.◌++◌ (digit (b % 16)) (percent bs)))

-- The characters that url.PathEscape keeps: letters, digits and `-_.~$&+:=@`.
unfoldable pub is_kept : ℕ → Bool
is_kept c =
    (leb b'a' c && leb c b'z')
    || (leb b'A' c && leb c b'Z')
    || (leb b'0' c && leb c b'9')
    || nat_eq c b'-'
    || nat_eq c b'_'
    || nat_eq c b'.'
    || nat_eq c b'~'
    || nat_eq c b'$'
    || nat_eq c b'&'
    || nat_eq c b'+'
    || nat_eq c b':'
    || nat_eq c b'='
    || nat_eq c b'@'

-- url.PathEscape
unfoldable pub path_escape : String → String
unfolding is_kept percent digit
path_escape String.[] = ""
path_escape (String.◌∷◌ c s) =
    let rest = path_escape s in
    if is_kept (code c) then String.◌∷◌ c rest else String.◌++◌ (percent (utf8 (code c))) rest

-- The verb `%q` for text without control characters: quotes and backslashes are escaped.
quote_body : String → String
quote_body String.[] = "\""
quote_body (String.◌∷◌ c s) =
    let rest = String.◌∷◌ c (quote_body s) in
    if nat_eq (code c) 34 || nat_eq (code c) 92 then String.◌++◌ "\\" rest else rest

unfoldable pub quote : String → String
unfolding quote_body
quote s = String.◌++◌ "\"" (quote_body s)

trim_space_example : trim_space "  a b\t" ≡ "a b"
unfolding trim_space
trim_space_example = refl

path_escape_example : path_escape "a b/é-1" ≡ "a%20b%2F%C3%A9-1"
unfolding path_escape
path_escape_example = refl

split_example : split b',' "a,,b" ≡ "a" ∷ "" ∷ "b" ∷ []
unfolding split
split_example = refl

decimal_example : decimal 1404 ≡ "1404"
unfolding decimal
decimal_example = refl

quote_example : quote "a\"b" ≡ "\"a\\\"b\""
unfolding quote
quote_example = refl
