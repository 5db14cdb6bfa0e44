-- ===== src/Core/Decimal.antt =====
-- strconv.FormatInt and strconv.ParseInt at base 10 and 64 bits, as core/id.go and core/paging.go
-- use them. An error of ParseInt is `none`: the callers do not tell the two kinds apart.
pub mod RoundTrip
use Prim.Native.Char.{Char, code}
use Prim.Native.String
use sakumock.Prelude.{
  ℕ, zero, suc, ◌+◌, ◌-◌, ◌*◌, ◌/◌, ◌%◌, ◌^◌, String, Bool, true, ◌&&◌, Option, none, some, ltb,
  leb, ◌==◌, if◌then◌else◌, ℤ, pos, negsuc, max_int64,
}

-- The digits '0' to '9'.
digit : ℕ → Char
digit zero = "0"
digit (suc zero) = "1"
digit (suc (suc zero)) = "2"
digit (suc (suc (suc zero))) = "3"
digit (suc (suc (suc (suc zero)))) = "4"
digit (suc (suc (suc (suc (suc zero))))) = "5"
digit (suc (suc (suc (suc (suc (suc zero)))))) = "6"
digit (suc (suc (suc (suc (suc (suc (suc zero))))))) = "7"
digit (suc (suc (suc (suc (suc (suc (suc (suc zero)))))))) = "8"
digit _ = "9"

-- The digits of `n` in front of `out`; an int64 has at most 19, and `fuel` bounds their number.
digits : ℕ → ℕ → String → String
unfolding digit
digits zero n out = out
digits (suc fuel) n out =
    let front = digits fuel (n / 10) (String.◌∷◌ (digit (n % 10)) out) in
    if n / 10 == 0 then String.◌∷◌ (digit (n % 10)) out else front

abbrev pub max_digits : ℕ
max_digits = 20

-- strconv.FormatInt(n, 10)
unfoldable pub format_int : ℤ → String
unfolding digits
format_int (pos n) = digits max_digits n ""
format_int (negsuc n) = String.◌∷◌ "-" (digits max_digits (n + 1) "")

is_digit : Char → Bool
is_digit c = leb b'0' (code c) && leb (code c) b'9'

-- The number that a text of digits writes, after the digits that make `acc`.
unfoldable pub parse_digits : ℕ → String → Option ℕ
unfolding is_digit
parse_digits acc String.[] = some acc
parse_digits acc (String.◌∷◌ c s) =
    let rest = parse_digits (acc * 10 + (code c - b'0')) s in if is_digit c then rest else none

-- At least one digit.
parse_uint : String → Option ℕ
unfolding parse_digits
parse_uint String.[] = none
parse_uint (String.◌∷◌ c s) = parse_digits 0 (String.◌∷◌ c s)

in_range : Option ℕ → Option ℤ
in_range none = none
in_range (some n) = if leb n max_int64 then some (pos n) else none

negated : Option ℕ → Option ℤ
negated none = none
negated (some zero) = some (pos 0)
negated (some (suc n)) = if leb n max_int64 then some (negsuc n) else none

-- strconv.ParseInt(s, 10, 64): an optional sign, then digits, within the range of an int64.
unfoldable pub parse_int : String → Option ℤ
unfolding parse_uint in_range negated
parse_int String.[] = none
parse_int (String.◌∷◌ c s) =
    if code c == b'-'
    then negated (parse_uint s)
    else if code c == b'+'
    then in_range (parse_uint s)
    else in_range (parse_uint (String.◌∷◌ c s))
