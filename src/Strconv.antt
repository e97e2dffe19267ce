-- ===== src/Strconv.antt =====
-- strconv.FormatInt and strconv.ParseInt in base 10 and 64 bits, and strconv.Atoi, on texts.
-- Go counts the magnitude with a cutoff; here it is counted in full and compared with the bound.
pub mod RoundTrip
use taskflow_api.Base.{
  ℕ, zero, suc, ◌+◌, ◌-◌, String, Bool, true, false, ◌&&◌, Option, none, some, ltb, leb, ◌==◌,
  if◌then◌else◌, ℤ, pos, negsuc,
}
use Prim.Native.Nat.{◌*◌, ◌/◌, ◌%◌}
use Prim.Native.Char.{Char, code}

-- '0' + d, for a digit.
unfoldable pub digit : ℕ → Char
digit d =
    if d == 0
    then "0"
    else if d == 1
    then "1"
    else if d == 2
    then "2"
    else if d == 3
    then "3"
    else if d == 4
    then "4"
    else if d == 5
    then "5"
    else if d == 6
    then "6"
    else if d == 7
    then "7"
    else if d == 8
    then "8"
    else "9"

-- The digits are written from the last one, in front of what is there.
unfoldable pub format_digits : ℕ → ℕ → String → String
unfolding digit
format_digits zero n s = s
format_digits (suc fuel) n s =
    let more = format_digits fuel (n / 10) (String.◌∷◌ (digit (n % 10)) s) in
    if ltb n 10 then String.◌∷◌ (digit n) s else more

-- A number has at most as many digits as its value plus one.
unfoldable pub format_nat : ℕ → String
unfolding format_digits
format_nat n = format_digits (suc n) n ""

unfoldable pub format_int : ℤ → String
unfolding format_nat
format_int (pos n) = format_nat n
format_int (negsuc n) = String.◌∷◌ "-" (format_nat (suc n))

unfoldable pub is_digit : Char → Bool
is_digit c = leb b'0' (code c) && leb (code c) b'9'

-- The error of a number's text: not a number, or out of range.
pub data NumError : Type 0 where
  syntax range : NumError

-- The loop of `ParseUint`: a value, or an error as soon as one is seen.
pub data Unsigned : Type 0 where
  value : ℕ → Unsigned
  failed : NumError → Unsigned

abbrev pub max_uint64 : ℕ
max_uint64 = 18446744073709551615

unfoldable pub parse_digits : ℕ → String → Unsigned
unfolding is_digit
parse_digits acc String.[] = value acc
parse_digits acc (String.◌∷◌ c s) =
    let n = acc * 10 + (code c - b'0') in
    let rest = parse_digits n s in
    if is_digit c then (if leb n max_uint64 then rest else failed range) else failed syntax

-- `ParseUint(s, 10, 64)`: at least one digit.
unfoldable pub parse_uint : String → Unsigned
unfolding parse_digits
parse_uint String.[] = failed syntax
parse_uint (String.◌∷◌ c s) = parse_digits 0 (String.◌∷◌ c s)

abbrev pub two_pow_63 : ℕ
two_pow_63 = 9223372036854775808

-- The end of `ParseInt`: a magnitude out of range gives the nearest value and an error.
unfoldable pub signed : Bool → Unsigned → ℤ × Option NumError
signed neg (failed syntax) = (pos 0, some syntax)
signed false (failed range) = (pos 9223372036854775807, some range)
signed true (failed range) = (negsuc 9223372036854775807, some range)
signed false (value n) =
    if ltb n two_pow_63 then (pos n, none) else (pos 9223372036854775807, some range)
signed true (value zero) = (pos 0, none)
signed true (value (suc n)) =
    if leb (suc n) two_pow_63 then (negsuc n, none) else (negsuc 9223372036854775807, some range)

-- `ParseInt(s, 10, 64)`, and `Atoi` on a machine of 64 bits: the value that comes back beside the
-- error too.
unfoldable pub parse_int : String → ℤ × Option NumError
unfolding parse_uint signed
parse_int String.[] = (pos 0, some syntax)
parse_int (String.◌∷◌ c s) =
    if code c == b'+'
    then signed false (parse_uint s)
    else if code c == b'-'
    then signed true (parse_uint s)
    else signed false (parse_uint (String.◌∷◌ c s))
