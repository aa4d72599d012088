-- ===== src/Strconv/RoundTrip.antt =====
-- Parsing a printed number gives the number back.
use mudis.Prelude.{
  ℕ, zero, suc, ◌+◌, ◌-◌, ◌*◌, ◌/◌, ◌%◌, ◌^◌, ◌≤◌, ◌<◌, Bytes, [], ◌∷◌, ◌++◌, ltb, ok, ◌>>=◌, ◌≡◌,
  refl, true, arith, All, All-append, Bool-cases, inl, inr, ◌≢◌,
}
use mudis.Prelude.Int.{ℤ, pos, negsuc, max_int, InRange}
use mudis.Strconv.{is_digit, parse_digits, parse_uint, parse_int, digits, format_uint, format_int}

abbrev pub IsDigit : ℕ → Type 0
IsDigit c = is_digit c ≡ true

parse_digits-append :
    (most n : ℕ) (s t : Bytes)
    → parse_digits most n (s ++ t) ≡ (parse_digits most n s >>= λ m. parse_digits most m t)
unfolding parse_digits
parse_digits-append most n [] t = refl
parse_digits-append most n (c ∷ s) t =
    ground (arith, parse_digits-append most (n * 10 + (c - 48)) s t)

parse_digits-snoc :
    (most n : ℕ) (s : Bytes)
    → n ≤ most
    → parse_digits most 0 s ≡ ok (n / 10)
    → parse_digits most 0 (s ++ (n % 10 + 48) ∷ []) ≡ ok n
parse_digits-snoc most n s k e =
    rw parse_digits-append (rw e (unfold parse_digits is_digit in ground arith))

parse_digits-digits : (most f n : ℕ) → n < f → n ≤ most → parse_digits most 0 (digits f n) ≡ ok n
unfolding digits
parse_digits-digits most zero n h k = elim h [ ]
parse_digits-digits most (suc f) n h k = elim (Bool-cases (ltb n 10)) [
  | inl small ↦ rw small (unfold parse_digits is_digit in ground arith)
  | inr large ↦ rw large (
      parse_digits-snoc most n (digits f (n / 10)) k
        (parse_digits-digits most f (n / 10) (ground arith) (omega arith)))
]

pub All-digits : (f n : ℕ) → All IsDigit (digits f n)
unfolding digits is_digit
All-digits zero n = tt
All-digits (suc f) n = elim (Bool-cases (ltb n 10)) [
  | inl small ↦ rw small (ground arith, tt)
  | inr large ↦
      rw large (All-append IsDigit (digits f (n / 10)) _ (All-digits f (n / 10)) (ground arith, tt))
]

append-ne-nil : (s : Bytes) (c : ℕ) → s ++ c ∷ [] ≢ []
append-ne-nil [] c e = cc
append-ne-nil (x ∷ s) c e = cc

pub digits-ne-nil : (f n : ℕ) → digits (suc f) n ≢ []
unfolding digits
digits-ne-nil f n = elim (Bool-cases (ltb n 10)) [
  | inl small ↦ rw small (λ e. cc)
  | inr large ↦ rw large (append-ne-nil (digits f (n / 10)) (n % 10 + 48))
]

parse_uint_nonempty : (most : ℕ) (s : Bytes) → s ≢ [] → parse_uint most s ≡ parse_digits most 0 s
unfolding parse_uint
parse_uint_nonempty most [] h = absurd (h refl)
parse_uint_nonempty most (c ∷ s) h = refl

pub parse_uint-format_uint : (most n : ℕ) → n ≤ most → parse_uint most (format_uint n) ≡ ok n
unfolding format_uint
parse_uint-format_uint most n h =
    rw (parse_uint_nonempty most _ (digits-ne-nil n n))
      (parse_digits-digits most (suc n) n (omega arith) h)

parse_int_unsigned :
    (s : Bytes) (n : ℕ)
    → All IsDigit s
    → parse_uint (2 ^ 64 - 1) s ≡ ok n
    → n ≤ max_int
    → parse_int s ≡ ok (pos n)
unfolding parse_int is_digit
parse_int_unsigned [] n d e h = unfold parse_uint in cc e
parse_int_unsigned (c ∷ s) n d e h = ground arith

-- Every 64-bit signed number that is printed is parsed back to itself.
pub parse_int-format_int : (z : ℤ) → InRange z → parse_int (format_int z) ≡ ok z
unfolding format_int
parse_int-format_int (pos n) h =
    parse_int_unsigned (format_uint n) n (unfold format_uint in All-digits (suc n) n)
      (parse_uint-format_uint _ n (omega arith)) h
parse_int-format_int (negsuc n) h =
    unfold parse_int in
    rw (parse_uint-format_uint (2 ^ 64 - 1) (suc n) (omega arith)) (ground arith)

pub parse_int-format_uint : (n : ℕ) → n ≤ max_int → parse_int (format_uint n) ≡ ok (pos n)
unfolding format_int
parse_int-format_uint n h = parse_int-format_int (pos n) h

pub All-format_uint : (n : ℕ) → All IsDigit (format_uint n)
unfolding format_uint
All-format_uint n = All-digits (suc n) n
