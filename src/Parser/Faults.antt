-- ===== src/Parser/Faults.antt =====
-- Requests that the parser does not read back: bodies that begin with '$', and empty arguments.
use mudis.Strconv.{NumError, parse_digits, is_digit, parse_uint, parse_int, format_uint, digits}
use mudis.Parser.Lines.{read_line-line, read_line-bulk, take-crlf}
use mudis.Parser.Termination.{parse_from, parse_from-next}
use mudis.Parser.RoundTrip.{
  IsPlain, collecting, body_more, header-collecting, parse_from-length, header-append,
  parse_stream-eq, mark_line,
}
use mudis.Reply.{Slice, crlf, multi_bulk, arg_to_bytes, args_to_bytes, to_bytes}
use mudis.Parser.{
  read_bytes, parse_single_line_reply, ReadState, initial, next, crashed, round, parse0,
  parse_stream, send, line_round, body_round, reply, failure, protocol_error, left_open, finished,
  read_line, line, read_body, body_line, body_header, finished_reply, go_on,
}
use mudis.Prelude.Int.{max_int}
use mudis.Prelude.{
  append-nil, ℕ, suc, ◌+◌, ◌-◌, ◌≤◌, ◌<◌, ◌^◌, Bytes, List, [], ◌∷◌, ◌++◌, some, ◌≡◌, refl, ap, ◌∙◌,
  arith, length, ok, err, map, All, length-append, append_assoc, length-map,
}

-- A body that begins with '$' and goes on with no number is answered by a protocol error, and the
-- arguments read so far are dropped.
pub dollar_body_refused :
    (total : ℕ) (done : List Bytes) (s rest : Bytes) (e : NumError)
    → parse_int s ≡ err e
    → length s + 3 ≤ max_int
    → round (collecting total done (suc (length s))) ((b'$' ∷ s) ++ (crlf ++ rest))
      ≡ next (failure (protocol_error ((b'$' ∷ s) ++ crlf)) ∷ []) initial rest
dollar_body_refused total done s rest e h k =
    unfold round in
    rw
      (read_line-bulk (collecting total done (suc (length s))) (b'$' ∷ s) rest (λ p. cc)
        (omega arith) refl)
      (unfold line_round read_body in
        rw (take-crlf (b'$' ∷ s))
          (unfold body_line in rw h (unfold body_header body_round in refl)))

-- Plain arguments that do not complete the message are collected.
parse_from-prefix :
    (total : ℕ) (done pre : List Bytes) (others : List Slice) (rest : Bytes)
    → All IsPlain pre
    → length done + length pre < total
    → parse_from (collecting total done 0) (args_to_bytes (map some pre ++ others) ++ rest)
      ≡ parse_from (collecting total (done ++ pre) 0) (args_to_bytes others ++ rest)
parse_from-prefix total done [] others rest p l = rw append-nil
parse_from-prefix total done (a ∷ pre) others rest p l =
    parse_from-length total done a (map some pre ++ others) rest p.0 (omega arith)
    ∙ (parse_from-next (collecting total done (length a)) (collecting total (done ++ a ∷ []) 0) _ _
          [] refl (body_more total done a _ p.0 (omega arith))
        ∙ (rw append_assoc at (
            parse_from-prefix total (done ++ a ∷ []) pre others rest p.1
              (omega (arith, length-append done (a ∷ []))))))

-- The empty argument on a stream: its header, and a line end that no length announces.
empty-append :
    (others : List Slice) (rest : Bytes)
    → args_to_bytes (some [] ∷ others) ++ rest
      ≡ (b'$' ∷ format_uint 0) ++ (crlf ++ (crlf ++ (args_to_bytes others ++ rest)))
unfolding args_to_bytes arg_to_bytes
empty-append others rest = simp append_assoc

empty_header :
    (total : ℕ) (done : List Bytes) (rest : Bytes)
    → line_round (line ((b'$' ∷ format_uint 0) ++ crlf) (collecting total done 0) rest)
      ≡ body_round
          ((b'$' ∷ format_uint 0) ++ crlf)
          rest
          (ok (some (collecting total (done ++ [] ∷ []) 0)))
unfolding line_round read_body body_line body_header parse_int format_uint parse_uint digits
    parse_digits is_digit
empty_header total done rest = refl

empty_more :
    (total : ℕ) (done : List Bytes) (rest : Bytes)
    → length done + 1 < total
    → round (collecting total done 0) ((b'$' ∷ format_uint 0) ++ (crlf ++ rest))
      ≡ next [] (collecting total (done ++ [] ∷ []) 0) rest
empty_more total done rest l =
    unfold round in
    rw
      (read_line-line (collecting total done 0) (b'$' ∷ format_uint 0) rest refl
        (mark_line b'$' 0 (omega arith)))
      (rw (empty_header total done rest)
        (unfold body_round finished in ground (arith, length-append done ([] ∷ []))))

empty_last :
    (total : ℕ) (done : List Bytes) (rest : Bytes)
    → length done + 1 ≡ total
    → round (collecting total done 0) ((b'$' ∷ format_uint 0) ++ (crlf ++ rest))
      ≡ next (reply (multi_bulk (map some (done ++ [] ∷ []))) ∷ []) initial rest
empty_last total done rest l =
    unfold round in
    rw
      (read_line-line (collecting total done 0) (b'$' ∷ format_uint 0) rest refl
        (mark_line b'$' 0 (omega arith)))
      (rw (empty_header total done rest)
        (unfold body_round finished finished_reply in ground (arith, length-append done ([] ∷ []))))

-- The line end of an empty argument inside a message is an empty line, whose first byte is read.
empty_line_crashes :
    (total : ℕ) (done : List Bytes) (rest : Bytes)
    → round (collecting total done 0) (crlf ++ rest) ≡ crashed
unfolding round read_line read_body read_bytes
empty_line_crashes total done rest = refl

crashes :
    (st : ReadState) (s : Bytes)
    → round st s ≡ crashed
    → parse_from st s ≡ record { payloads = []; ending = left_open }
unfolding parse_from parse0
crashes st s e = rw e (unfold go_on in refl)

-- Between messages it is a text command of one empty word.
empty_line_request :
    (rest : Bytes)
    → round initial (crlf ++ rest) ≡ next (reply (multi_bulk (some [] ∷ [])) ∷ []) initial rest
unfolding round read_line read_bytes parse_single_line_reply
empty_line_request rest = refl

-- A message up to its empty argument.
module _ (pre : List Bytes) (others : List Slice) (rest : Bytes) (p : All IsPlain pre) where
  abbrev total : ℕ
  total = length pre + suc (length others)

  up_to_empty :
      total ≤ 2 ^ 32 - 1
      → parse_stream (to_bytes (multi_bulk (map some pre ++ some [] ∷ others)) ++ rest)
        ≡ parse_from (collecting total pre 0) (args_to_bytes (some [] ∷ others) ++ rest)
  up_to_empty l =
      let n : length (map some pre ++ some [] ∷ others) ≡ total =
        omega (
          arith,
          length-append (map some pre) (some [] ∷ others),
          length-map {B = Slice} some pre,
        ) in
      rw (parse_stream-eq (to_bytes (multi_bulk (map some pre ++ some [] ∷ others)) ++ rest)) (
        unfold to_bytes in
        rw (header-append (map some pre ++ some [] ∷ others) rest) (
          rw n (
            parse_from-next initial (collecting total [] 0) _ _ [] refl
              (header-collecting total _ (omega arith) l)
            ∙ parse_from-prefix total [] pre (some [] ∷ others) rest p (omega arith))))

-- An empty argument with others behind it: the goroutine panics before the request is sent, and
-- the channel is never closed.
pub empty_argument_crashes :
    (pre : List Bytes) (b : Slice) (others : List Slice) (rest : Bytes)
    → All IsPlain pre
    → length pre + suc (suc (length others)) ≤ 2 ^ 32 - 1
    → parse_stream (to_bytes (multi_bulk (map some pre ++ some [] ∷ b ∷ others)) ++ rest)
      ≡ record { payloads = []; ending = left_open }
empty_argument_crashes pre b others rest p l =
    up_to_empty pre (b ∷ others) rest p l
    ∙ (rw (empty-append (b ∷ others) rest) (
        parse_from-next _ _ _ _ [] refl (empty_more _ pre _ (omega arith))
        ∙ crashes _ _ (empty_line_crashes _ _ _)))

-- An empty last argument: the request is sent, and behind it a second request of one empty word.
pub empty_last_argument_doubles :
    (pre : List Bytes) (rest : Bytes)
    → All IsPlain pre
    → length pre + 1 ≤ 2 ^ 32 - 1
    → parse_stream (to_bytes (multi_bulk (map some pre ++ some [] ∷ [])) ++ rest)
      ≡ send
          (reply (multi_bulk (map some (pre ++ [] ∷ []))) ∷ reply (multi_bulk (some [] ∷ [])) ∷ [])
          (parse_stream rest)
empty_last_argument_doubles pre rest p l = rw (parse_stream-eq rest) (
    up_to_empty pre [] rest p l
    ∙ (rw (empty-append [] rest) (
        parse_from-next _ initial _ _ _ refl (empty_last _ pre _ refl)
        ∙ ap (send (reply (multi_bulk (map some (pre ++ [] ∷ []))) ∷ [])) (
            unfold args_to_bytes in
            parse_from-next initial initial _ rest _ refl (empty_line_request rest)))))
