-- ===== src/Parser/RoundTrip.antt =====
-- What the server or a client writes as a multi bulk, the parser reads back argument by argument.
use mudis.Strconv.{format_uint}
use mudis.Strconv.RoundTrip.{parse_uint-format_uint, parse_int-format_uint, All-format_uint}
use mudis.Parser.Lines.{OneLine, OneLine-digits, read_line-line, read_line-bulk, take-crlf}
use mudis.Parser.Termination.{parse_from, parse_from-next}
use mudis.Reply.{
  Slice, crlf, multi_bulk, multi_bulk_to_bytes, arg_to_bytes, args_to_bytes, to_bytes,
}
use mudis.Parser.{
  ReadState, initial, next, round, parse_stream, send, line_round, body_round, header_round,
  new_message, reply, finished, read_line, line, parse_multi_bulk_header, read_body, body_line,
  body_header, finished_reply,
}
use mudis.Prelude.Int.{pos, max_int}
use mudis.Prelude.{
  ℕ, zero, suc, ◌+◌, ◌-◌, ◌≤◌, ◌<◌, ◌^◌, Bytes, List, [], ◌∷◌, ◌++◌, some, true, ◌≡◌, ◌≢◌, refl,
  ◌∙◌, arith, length, ok, map, All, length-append, append_assoc, length-map,
}

-- Collecting the arguments of a message of `total` of them, with a body of `n` bytes awaited.
abbrev pub collecting : ℕ → List Bytes → ℕ → ReadState
collecting total done n = record {
  reading_multi_line = true;
  expected_args_count = total;
  msg_type = b'*';
  args = done;
  bulk_len = pos n;
}

-- An argument that the framing can carry: not empty, and not begun by the bulk mark.
abbrev pub IsPlain : Bytes → Type 0
IsPlain [] = ⊥
IsPlain (c ∷ s) = (c ≢ b'$') × (suc (length s) + 2 ≤ max_int)

pub mark_line : (c n : ℕ) → c ≢ 10 → OneLine (c ∷ format_uint n)
mark_line c n h = (h, OneLine-digits (format_uint n) (All-format_uint n))

parse_header :
    (n : ℕ) (st : ReadState)
    → 0 < n
    → n ≤ 2 ^ 32 - 1
    → parse_multi_bulk_header ((b'*' ∷ format_uint n) ++ crlf) st
      ≡ ok (record st {
        msg_type = b'*';
        reading_multi_line = true;
        expected_args_count = n;
        args = [];
      })
parse_header n st h k =
    unfold parse_multi_bulk_header in
    rw (take-crlf (b'*' ∷ format_uint n))
      (rw (parse_uint-format_uint (2 ^ 32 - 1) n k) (ground arith))

read_body-length :
    (n : ℕ) (st : ReadState)
    → 0 < n
    → n ≤ max_int
    → read_body ((b'$' ∷ format_uint n) ++ crlf) st ≡ ok (some (record st { bulk_len = pos n }))
read_body-length zero st h k = elim h [ ]
read_body-length (suc n) st h k =
    unfold read_body in
    rw (take-crlf (b'$' ∷ format_uint (suc n)))
      (unfold body_line in rw (parse_int-format_uint (suc n) k) (unfold body_header in refl))

pub read_body-plain :
    (a : Bytes) (st : ReadState)
    → IsPlain a
    → read_body (a ++ crlf) st ≡ ok (some (record st { args = st.args ++ a ∷ [] }))
read_body-plain [] st p = elim p [ ]
read_body-plain (c ∷ s) st p =
    unfold read_body in rw (take-crlf (c ∷ s)) (unfold body_line in ground arith)

pub header-collecting :
    (n : ℕ) (rest : Bytes)
    → 0 < n
    → n ≤ 2 ^ 32 - 1
    → round initial ((b'*' ∷ format_uint n) ++ (crlf ++ rest)) ≡ next [] (collecting n [] 0) rest
header-collecting n rest h k =
    unfold round in
    rw (read_line-line initial (b'*' ∷ format_uint n) rest refl (mark_line b'*' n (omega arith))) (
      unfold line_round new_message in
      rw (parse_header n initial h k) (unfold header_round in ground arith))

pub length_header :
    (total n : ℕ) (done : List Bytes) (rest : Bytes)
    → 0 < n
    → n ≤ max_int
    → length done < total
    → round (collecting total done 0) ((b'$' ∷ format_uint n) ++ (crlf ++ rest))
      ≡ next [] (collecting total done n) rest
length_header total n done rest h k l =
    unfold round in
    rw
      (read_line-line (collecting total done 0) (b'$' ∷ format_uint n) rest refl
        (mark_line b'$' n (omega arith)))
      (unfold line_round in
        rw (read_body-length n (collecting total done 0) h k)
          (unfold body_round finished in ground arith))

read_plain :
    (total : ℕ) (done : List Bytes) (a rest : Bytes)
    → IsPlain a
    → read_line (collecting total done (length a)) (a ++ (crlf ++ rest))
      ≡ line (a ++ crlf) (collecting total done 0) rest
read_plain total done [] rest p = elim p [ ]
read_plain total done (c ∷ s) rest p =
    read_line-bulk (collecting total done (length (c ∷ s))) (c ∷ s) rest (λ e. cc) p.1 refl

pub body_more :
    (total : ℕ) (done : List Bytes) (a rest : Bytes)
    → IsPlain a
    → length done + 1 < total
    → round (collecting total done (length a)) (a ++ (crlf ++ rest))
      ≡ next [] (collecting total (done ++ a ∷ []) 0) rest
body_more total done a rest p l =
    unfold round in
    rw (read_plain total done a rest p) (
      unfold line_round in
      rw (read_body-plain a (collecting total done 0) p)
        (unfold body_round finished in ground (arith, length-append done (a ∷ []))))

body_last :
    (total : ℕ) (done : List Bytes) (a rest : Bytes)
    → IsPlain a
    → length done + 1 ≡ total
    → round (collecting total done (length a)) (a ++ (crlf ++ rest))
      ≡ next (reply (multi_bulk (map some (done ++ a ∷ []))) ∷ []) initial rest
body_last total done a rest p l =
    unfold round in
    rw (read_plain total done a rest p) (
      unfold line_round in
      rw (read_body-plain a (collecting total done 0) p)
        (unfold body_round finished finished_reply in ground (arith, length-append done (a ∷ []))))

-- The first argument of a message with its header, on a stream.
args-append :
    (a : Bytes) (others : List Slice) (rest : Bytes)
    → args_to_bytes (some a ∷ others) ++ rest
      ≡ (b'$' ∷ format_uint (length a)) ++ (crlf ++ (a ++ (crlf ++ (args_to_bytes others ++ rest))))
unfolding args_to_bytes arg_to_bytes
args-append a others rest = simp append_assoc

pub IsPlain-length : (a : Bytes) → IsPlain a → (0 < length a) × (length a ≤ max_int)
IsPlain-length [] p = elim p [ ]
IsPlain-length (c ∷ s) p = (omega arith, omega arith)

-- The header of an argument takes one round.
pub parse_from-length :
    (total : ℕ) (done : List Bytes) (a : Bytes) (others : List Slice) (rest : Bytes)
    → IsPlain a
    → length done < total
    → parse_from (collecting total done 0) (args_to_bytes (some a ∷ others) ++ rest)
      ≡ parse_from
          (collecting total done (length a))
          (a ++ (crlf ++ (args_to_bytes others ++ rest)))
parse_from-length total done a others rest p l =
    let k : (0 < length a) × (length a ≤ max_int) = IsPlain-length a p in
    rw (args-append a others rest) (
      parse_from-next (collecting total done 0) (collecting total done (length a)) _ _ [] refl
        (length_header total (length a) done _ k.0 k.1 l))

-- The arguments still to come complete the message, and the parser goes on behind it.
parse_from-args :
    (total : ℕ) (done : List Bytes) (a : Bytes) (more : List Bytes) (rest : Bytes)
    → All IsPlain (a ∷ more)
    → length done + length (a ∷ more) ≡ total
    → parse_from (collecting total done 0) (args_to_bytes (map some (a ∷ more)) ++ rest)
      ≡ send (reply (multi_bulk (map some (done ++ a ∷ more))) ∷ []) (parse_from initial rest)
parse_from-args total done a [] rest p l =
    unfold args_to_bytes in
    parse_from-length total done a [] rest p.0 (omega arith)
    ∙ parse_from-next (collecting total done (length a)) initial _ rest _ refl
        (body_last total done a rest p.0 (omega arith))
parse_from-args total done a (b ∷ more) rest p l =
    parse_from-length total done a (map some (b ∷ more)) rest p.0 (omega arith)
    ∙ (parse_from-next (collecting total done (length a)) (collecting total (done ++ a ∷ []) 0) _ _
          [] refl (body_more total done a _ p.0 (omega arith))
        ∙ (rw append_assoc at (
            parse_from-args total (done ++ a ∷ []) b more rest p.1
              (omega (arith, length-append done (a ∷ []))))))

pub parse_stream-eq : (s : Bytes) → parse_stream s ≡ parse_from initial s
unfolding parse_stream parse_from
parse_stream-eq s = refl

pub header-append :
    (args : List Slice) (rest : Bytes)
    → multi_bulk_to_bytes args ++ rest
      ≡ (b'*' ∷ format_uint (length args)) ++ (crlf ++ (args_to_bytes args ++ rest))
unfolding multi_bulk_to_bytes
header-append args rest = simp append_assoc

-- A request of plain arguments, written as the client and the log write it, is read back whole, and
-- the parser goes on with the bytes behind it as with a new stream.
pub parse_stream-to_bytes :
    (a : Bytes) (more : List Bytes) (rest : Bytes)
    → All IsPlain (a ∷ more)
    → length (a ∷ more) ≤ 2 ^ 32 - 1
    → parse_stream (to_bytes (multi_bulk (map some (a ∷ more))) ++ rest)
      ≡ send (reply (multi_bulk (map some (a ∷ more))) ∷ []) (parse_stream rest)
parse_stream-to_bytes a more rest p l =
    rw (parse_stream-eq (to_bytes (multi_bulk (map some (a ∷ more))) ++ rest), parse_stream-eq rest)
      (unfold to_bytes in
        rw (header-append (map some (a ∷ more)) rest) (
          parse_from-next initial (collecting (length (map some (a ∷ more))) [] 0) _ _ [] refl
            (header-collecting (length (map some (a ∷ more))) _ (omega arith) (rw length-map l))
          ∙ parse_from-args _ [] a more rest p
              (omega (arith, length-map {B = Slice} some (a ∷ more)))))
