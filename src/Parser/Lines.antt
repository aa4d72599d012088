-- ===== src/Parser/Lines.antt =====
-- Reading lines and binary bodies off the stream, and what a round leaves of it.
use mudis.Strconv.RoundTrip.{IsDigit}
use mudis.Strconv.{is_digit}
use mudis.Parser.{
  crash, longer, check_line, read_bytes, read_line, ReadState, line, bad_line, LineRead, byte_at,
  check_bulk, read_bulk,
}
use mudis.Reply.{crlf}
use mudis.Prelude.Int.{negsuc, neg_part, ℤ, pos, max_int}
use mudis.Prelude.{
  zero, none, if◌then◌else◌, Option, inr, inl, Bool-cases, length-drop, ◌⊎◌, ℕ, suc, ◌+◌, ◌-◌, ◌≤◌,
  ◌<◌, Bytes, [], ◌∷◌, ◌++◌, some, true, false, ◌≡◌, ◌≢◌, refl, sym, arith, length, take, drop, All,
  length-append, take-append, drop-append, append_assoc, ◌==◌, ltb, ◌&&◌,
}

ℤ-cases : (z : ℤ) → neg_part z ≡ 0 → (z ≡ pos 0) ⊎ ((n : ℕ) × (z ≡ pos (suc n)))
ℤ-cases (pos zero) h = inl refl
ℤ-cases (pos (suc n)) h = inr (n, refl)
ℤ-cases (negsuc n) h = absurd (omega arith)

-- A text with no line feed.
abbrev pub OneLine : Bytes → Type 0
OneLine = All (λ c. c ≢ 10)

pub read_bytes-line :
    (s rest : Bytes) → OneLine s → read_bytes (s ++ (crlf ++ rest)) ≡ some (s ++ crlf, rest)
unfolding read_bytes
read_bytes-line [] rest h = refl
read_bytes-line (c ∷ s) rest h = ground (arith, read_bytes-line s rest h.1)

pub OneLine-digits : (s : Bytes) → All IsDigit s → OneLine s
unfolding is_digit
OneLine-digits [] h = tt
OneLine-digits (c ∷ s) h = (ground arith, OneLine-digits s h.1)

-- The line without its last two bytes.
pub take-crlf : (s : Bytes) → take (length (s ++ crlf) - 2) (s ++ crlf) ≡ s
take-crlf s =
    let e : length (s ++ crlf) - 2 ≡ length s = omega (arith, length-append s crlf) in
    rw e (take-append s crlf)

drop-crlf : (s : Bytes) → drop (length (s ++ crlf) - 2) (s ++ crlf) ≡ crlf
drop-crlf s =
    let e : length (s ++ crlf) - 2 ≡ length s = omega (arith, length-append s crlf) in
    rw e (drop-append s crlf)

-- A complete line is read whole while no body is awaited.
pub read_line-line :
    (st : ReadState) (s rest : Bytes)
    → st.bulk_len ≡ pos 0
    → OneLine s
    → read_line st (s ++ (crlf ++ rest)) ≡ line (s ++ crlf) st rest
unfolding read_line
read_line-line st s rest b h =
    rw (b, read_bulk)
      (rw (read_bytes-line s rest h) (ground (arith, drop-crlf s, length-append s crlf)))

byte_at-append : (s t : Bytes) (i : ℕ) → byte_at (s ++ t) (length s + i) ≡ byte_at t i
unfolding byte_at
byte_at-append [] t i = ground arith
byte_at-append (c ∷ s) t i =
    let e : suc (length s) + i ≡ suc (length s + i) = omega arith in rw e (byte_at-append s t i)

-- The stream from a body on, regrouped behind its line end.
regroup : (s rest : Bytes) → s ++ (crlf ++ rest) ≡ (s ++ crlf) ++ rest
regroup s rest = sym (append_assoc s crlf rest)

take-body : (s rest : Bytes) → take (length s + 2) (s ++ (crlf ++ rest)) ≡ s ++ crlf
take-body s rest =
    let e : length s + 2 ≡ length (s ++ crlf) = omega (arith, length-append s crlf) in
    rw (e, regroup s rest) (take-append (s ++ crlf) rest)

drop-body : (s rest : Bytes) → drop (length s + 2) (s ++ (crlf ++ rest)) ≡ rest
drop-body s rest =
    let e : length s + 2 ≡ length (s ++ crlf) = omega (arith, length-append s crlf) in
    rw (e, regroup s rest) (drop-append (s ++ crlf) rest)

long_enough : (s rest : Bytes) → ltb (length (s ++ (crlf ++ rest))) (length s + 2) ≡ false
long_enough s rest = ground (arith, length-append s (crlf ++ rest))

body_end :
    (s : Bytes)
    → (byte_at (s ++ crlf) (length s + 2 - 2) == 13 && byte_at (s ++ crlf) (length s + 2 - 1) == 10)
      ≡ true
body_end s =
    let e₀ : length s + 2 - 2 ≡ length s + 0 = omega arith in
    let e₁ : length s + 2 - 1 ≡ length s + 1 = omega arith in
    rw (e₀, e₁, byte_at-append) (rw byte_at-append (unfold byte_at in refl))

check_bulk_lem :
    (st : ReadState) (c : ℕ) (s rest : Bytes)
    → check_bulk st (length (c ∷ s) + 2) ((c ∷ s) ++ (crlf ++ rest))
      ≡ line ((c ∷ s) ++ crlf) (record st { bulk_len = pos 0 }) rest
unfolding check_bulk
check_bulk_lem st c s rest =
    rw (long_enough (c ∷ s) rest)
      (rw (take-body (c ∷ s) rest) (rw (body_end (c ∷ s)) (rw (drop-body (c ∷ s) rest))))

-- A body of the announced length is read whole, whatever bytes it holds.
pub read_line-bulk :
    (st : ReadState) (s rest : Bytes)
    → s ≢ []
    → length s + 2 ≤ max_int
    → st.bulk_len ≡ pos (length s)
    → read_line st (s ++ (crlf ++ rest)) ≡ line (s ++ crlf) (record st { bulk_len = pos 0 }) rest
read_line-bulk st [] rest ne h b = absurd (ne refl)
read_line-bulk st (c ∷ s) rest ne h b =
    unfold read_line in
    rw (b, read_bulk)
      (let e : ltb max_int (suc (length s) + 2) ≡ false = ground arith in
        rw e (check_bulk_lem st c s rest))

-- No length that is awaited is negative.
abbrev pub IsReady : ReadState → Type 0
IsReady st = neg_part st.bulk_len ≡ 0

abbrev pub LineShrinks : ℕ → LineRead → Type 0
LineShrinks n (line _ st rest) = (length rest < n) × IsReady st
LineShrinks n (bad_line _ rest) = length rest < n
LineShrinks n _ = Unit

abbrev Shorter : ℕ → Option (Bytes × Bytes) → Type 0
Shorter n none = Unit
Shorter n (some (_, rest)) = length rest < n

longer-Shorter : (c n : ℕ) (r : Option (Bytes × Bytes)) → Shorter n r → Shorter (suc n) (longer c r)
unfolding longer
longer-Shorter c n none h = tt
longer-Shorter c n (some (m, rest)) h = omega arith

read_bytes-Shorter : (s : Bytes) → Shorter (length s) (read_bytes s)
unfolding read_bytes
read_bytes-Shorter [] = tt
read_bytes-Shorter (c ∷ s) = elim (Bool-cases (c == 10)) [
  | inl e ↦ rw e (omega arith)
  | inr e ↦ rw e (longer-Shorter c (length s) (read_bytes s) (read_bytes-Shorter s))
]

check_line-LineShrinks :
    (st : ReadState) (n : ℕ) (r : Option (Bytes × Bytes))
    → IsReady st
    → Shorter n r
    → LineShrinks n (check_line st r)
unfolding check_line
check_line-LineShrinks st n none p h = tt
check_line-LineShrinks st n (some (m, rest)) p h = ground arith

check_bulk-LineShrinks :
    (st : ReadState) (n : ℕ) (s : Bytes) → LineShrinks (length s) (check_bulk st (suc n) s)
unfolding check_bulk
check_bulk-LineShrinks st n [] = tt
check_bulk-LineShrinks st n (c ∷ s) = ground (arith, length-drop n s)

-- A line that is read takes bytes off the stream.
pub read_line-LineShrinks :
    (st : ReadState) (s : Bytes) → IsReady st → LineShrinks (length s) (read_line st s)
read_line-LineShrinks st s p = elim (ℤ-cases st.bulk_len p) [
  | inl e ↦
      unfold read_line in
      rw (e, read_bulk)
        (check_line-LineShrinks st (length s) (read_bytes s) p (read_bytes-Shorter s))
  | inr (n, e) ↦ unfold read_line in rw (e, read_bulk) (go n (Bool-cases (ltb max_int (suc n + 2))))
]
  where
    go :
        (n : ℕ)
        → (ltb max_int (suc n + 2) ≡ true) ⊎ (ltb max_int (suc n + 2) ≡ false)
        → LineShrinks
            (length s)
            (if ltb max_int (suc n + 2) then crash else check_bulk st (suc n + 2) s)
    go n (inl e) = rw e tt
    go n (inr e) =
        let k : suc n + 2 ≡ suc (n + 2) = omega arith in
        rw e (rw k (check_bulk-LineShrinks st (n + 2) s))
