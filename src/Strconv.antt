-- ===== src/Strconv.antt =====
-- The decimal conversions of Go's standard package strconv: ParseUint, ParseInt, Itoa, FormatInt.
use mathlib.Core.List.{reverse}
use mudis.Prelude.{
  Bool, ℕ, zero, suc, ◌+◌, ◌-◌, ◌*◌, ◌/◌, ◌%◌, ◌^◌, Bytes, List, [], ◌∷◌, ◌++◌, ltb, leb, ◌==◌,
  ◌&&◌, not, if◌then◌else◌, Result, ok, err, ◌>>=◌,
}
use mudis.Prelude.Int.{ℤ, pos, negsuc, max_int}
pub mod RoundTrip

pub data NumError : Type 0 where
  syntax range : NumError

unfoldable pub is_digit : ℕ → Bool
is_digit c = leb b'0' c && leb c b'9'

-- The loop of `ParseUint`: a wrong byte is a syntax error, a value above `most` a range error.
unfoldable pub parse_digits : ℕ → ℕ → Bytes → Result NumError ℕ
parse_digits most n [] = ok n
parse_digits most n (c ∷ s) =
    let n' = n * 10 + (c - 48) in
    let rest = parse_digits most n' s in
    if is_digit c then (if ltb most n' then err range else rest) else err syntax

-- `strconv.ParseUint(s, 10, bits)`, with `most` the largest value of `bits` bits.
unfoldable pub parse_uint : ℕ → Bytes → Result NumError ℕ
parse_uint most [] = err syntax
parse_uint most (c ∷ s) = parse_digits most 0 (c ∷ s)

positive : Result NumError ℕ → Result NumError ℤ
positive (ok n) = if leb n max_int then ok (pos n) else err range
positive (err e) = err e

negative : Result NumError ℕ → Result NumError ℤ
negative (ok zero) = ok (pos 0)
negative (ok (suc n)) = if leb n max_int then ok (negsuc n) else err range
negative (err e) = err e

-- `strconv.ParseInt(s, 10, 64)`, and so `strconv.Atoi` on a 64-bit machine.
unfoldable pub parse_int : Bytes → Result NumError ℤ
unfolding positive negative
parse_int [] = err syntax
parse_int (c ∷ s) =
    if c == b'-'
    then negative (parse_uint (2 ^ 64 - 1) s)
    else if c == b'+'
    then positive (parse_uint (2 ^ 64 - 1) s)
    else positive (parse_uint (2 ^ 64 - 1) (c ∷ s))

-- The decimal digits of a number; `fuel` above the number is enough.
unfoldable pub digits : ℕ → ℕ → Bytes
digits zero n = []
digits (suc f) n =
    let rest = digits f (n / 10) in if ltb n 10 then (n + 48) ∷ [] else rest ++ (n % 10 + 48) ∷ []

-- `strconv.Itoa` of a number that is not negative.
unfoldable pub format_uint : ℕ → Bytes
format_uint n = digits (suc n) n

-- `strconv.FormatInt(z, 10)`.
unfoldable pub format_int : ℤ → Bytes
format_int (pos n) = format_uint n
format_int (negsuc n) = b'-' ∷ format_uint (suc n)
