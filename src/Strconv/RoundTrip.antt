-- ===== src/Strconv/RoundTrip.antt =====
-- What FormatInt writes, ParseInt reads.
use taskflow_api.Base.{
  ℕ, zero, suc, ◌+◌, ◌-◌, ◌*◌, ◌/◌, ◌%◌, ◌≤◌, ◌<◌, String, ◌≡◌, refl, ◌∙◌, Bool-cases, inl, inr,
  true, false, none, arith, ltb, leb, ◌==◌, if◌then◌else◌, ℤ, pos, negsuc, ◌≤ℤ◌,
}
use taskflow_api.Strconv.{
  digit, format_digits, format_nat, format_int, is_digit, value, failed, range, parse_digits,
  parse_uint, signed, parse_int, max_uint64, two_pow_63,
}
use Prim.Native.Char.{Char, code}

digit_code : (d : ℕ) → d < 10 → code (digit d) ≡ 48 + d
unfolding digit
digit_code zero h = refl
digit_code (suc zero) h = refl
digit_code (suc (suc zero)) h = refl
digit_code (suc (suc (suc zero))) h = refl
digit_code (suc (suc (suc (suc zero)))) h = refl
digit_code (suc (suc (suc (suc (suc zero))))) h = refl
digit_code (suc (suc (suc (suc (suc (suc zero)))))) h = refl
digit_code (suc (suc (suc (suc (suc (suc (suc zero))))))) h = refl
digit_code (suc (suc (suc (suc (suc (suc (suc (suc zero)))))))) h = refl
digit_code (suc (suc (suc (suc (suc (suc (suc (suc (suc zero))))))))) h = refl
digit_code (suc (suc (suc (suc (suc (suc (suc (suc (suc (suc d)))))))))) h = omega arith

digit-is_digit : (d : ℕ) → d < 10 → is_digit (digit d) ≡ true
unfolding is_digit
digit-is_digit d h = let c = digit_code d h in ground arith

split_last : (n : ℕ) → n / 10 * 10 + n % 10 ≡ n
split_last n = omega arith

shorter : (n fuel : ℕ) → n < suc fuel → (10 ≤ n) → n / 10 < fuel
shorter n fuel h k = omega arith

small : (n : ℕ) → n % 10 < 10
small n = omega arith

read_on :
    (m n : ℕ) (s : String)
    → m ≡ n
    → n ≤ max_uint64
    → (if leb m max_uint64 then parse_digits m s else failed range) ≡ parse_digits n s
read_on m n s same k = let fits : leb n max_uint64 ≡ true = ground arith in rw (same, fits)

-- Writing the digits of a number and reading them back goes on with the number.
parse-format_digits :
    (fuel n : ℕ) (s : String)
    → n < fuel
    → n ≤ max_uint64
    → parse_digits 0 (format_digits fuel n s) ≡ parse_digits n s
unfolding parse_digits format_digits
parse-format_digits zero n s h k = absurd (omega arith)
parse-format_digits (suc fuel) n s h k = elim (Bool-cases (ltb n 10)) [
  | inl e ↦
      let low : n < 10 = ground arith in
      rw (e, digit-is_digit n low, digit_code n low)
        (read_on (0 * 10 + (48 + n - 48)) n s (omega arith) k)
  | inr e ↦
      let high : 10 ≤ n = ground arith in
      rw e (
        parse-format_digits fuel (n / 10) (String.◌∷◌ (digit (n % 10)) s) (shorter n fuel h high)
          (omega arith)
        ∙ rw (digit-is_digit (n % 10) (small n), digit_code (n % 10) (small n))
            (read_on (n / 10 * 10 + (48 + n % 10 - 48)) n s (omega arith) k))
]

-- A text that begins with a digit.
record BeginsWithDigit (s : String) : Type 0 where
  first : Char
  rest : String
  text : s ≡ String.◌∷◌ first rest
  is_one : is_digit first ≡ true

format_digits-BeginsWithDigit :
    (fuel n : ℕ) (s : String) → BeginsWithDigit s → BeginsWithDigit (format_digits fuel n s)
unfolding format_digits
format_digits-BeginsWithDigit zero n s b = b
format_digits-BeginsWithDigit (suc fuel) n s b = elim (Bool-cases (ltb n 10)) [
  | inl e ↦
      let low : n < 10 = ground arith in
      rw e (record { first = digit n; rest = s; text = refl; is_one = digit-is_digit n low })
  | inr e ↦ rw e (
      format_digits-BeginsWithDigit fuel (n / 10) (String.◌∷◌ (digit (n % 10)) s) (record {
        first = digit (n % 10);
        rest = s;
        text = refl;
        is_one = digit-is_digit (n % 10) (small n);
      }))
]

format_nat-BeginsWithDigit : (n : ℕ) → BeginsWithDigit (format_nat n)
unfolding format_nat format_digits
format_nat-BeginsWithDigit n = elim (Bool-cases (ltb n 10)) [
  | inl e ↦
      let low : n < 10 = ground arith in
      rw e (record { first = digit n; rest = ""; text = refl; is_one = digit-is_digit n low })
  | inr e ↦ rw e (
      format_digits-BeginsWithDigit n (n / 10) (String.◌∷◌ (digit (n % 10)) "") (record {
        first = digit (n % 10);
        rest = "";
        text = refl;
        is_one = digit-is_digit (n % 10) (small n);
      }))
]

-- A text that begins with a digit is read digit by digit.
parse_uint-digits : (s : String) → BeginsWithDigit s → parse_uint s ≡ parse_digits 0 s
unfolding parse_uint
parse_uint-digits s b = rw b.text

parse_int-digits : (s : String) → BeginsWithDigit s → parse_int s ≡ signed false (parse_digits 0 s)
unfolding parse_int parse_uint is_digit
parse_int-digits s b =
    let c = b.is_one in
    let no_plus : (code b.first == b'+') ≡ false = ground arith in
    let no_minus : (code b.first == b'-') ≡ false = ground arith in rw (b.text, no_plus, no_minus)

parse_int-minus : (s : String) → parse_int (String.◌∷◌ "-" s) ≡ signed true (parse_uint s)
unfolding parse_int
parse_int-minus s = refl

format_nat-read : (n : ℕ) → n ≤ max_uint64 → parse_digits 0 (format_nat n) ≡ value n
unfolding format_nat parse_digits
format_nat-read n k = parse-format_digits (suc n) n "" (omega arith) k

-- ParseInt reads what FormatInt wrote: of every number of 64 bits it gives back the number, and no
-- error.
pub parse_int-format_int :
    (i : ℤ)
    → negsuc 9223372036854775807 ≤ℤ i
    → i ≤ℤ pos 9223372036854775807
    → parse_int (format_int i) ≡ (i, none)
unfolding format_int signed
parse_int-format_int (pos n) low high =
    let fits : ltb n two_pow_63 ≡ true = ground arith in
    rw (
      parse_int-digits (format_nat n) (format_nat-BeginsWithDigit n),
      format_nat-read n (omega arith),
      fits,
    )
parse_int-format_int (negsuc n) low high =
    let fits : leb (suc n) two_pow_63 ≡ true = ground arith in
    rw (
      parse_int-minus (format_nat (suc n)),
      parse_uint-digits (format_nat (suc n)) (format_nat-BeginsWithDigit (suc n)),
      format_nat-read (suc n) (omega arith),
      fits,
    )
