-- ===== src/Parser/Replies.antt =====
-- What a node or a peer writes as a reply, the parser reads back as a reply with the same bytes.
use mudis.Strconv.{format_int, format_uint, parse_int, parse_uint, parse_digits, is_digit}
use mudis.Strconv.RoundTrip.{parse_int-format_int, parse_int-format_uint, All-format_uint}
use mudis.Parser.Lines.{OneLine, OneLine-digits, read_line-line, read_line-bulk, take-crlf}
use mudis.Parser.Termination.{parse_from-next}
use mudis.Parser.RoundTrip.{
  IsPlain, mark_line, read_body-plain, parse_stream-eq, parse_stream-to_bytes,
}
use mathlib.Core.Path.{subst}
use mudis.Reply.Framing.{wire_nothing}
use mudis.Reply.{
  Reply, crlf, pong, ok_reply, null_bulk, empty_multi_bulk, unknown_err, syntax_err, wrong_type_err,
  arg_num_err, no_reply, protocol_err, bulk, multi_bulk, status, int, standard_err, to_bytes,
}
use mudis.Parser.{
  ReadState, initial, next, round, parse_stream, send, line_round, body_round, bulk_round,
  bulk_header_round, single_line_round, parse_single_line_reply, new_message, reply, finished, line,
  parse_bulk_header, bulk_header, header_number, finished_reply, parse_multi_bulk_header,
  multi_bulk_header, header_round,
}
use mudis.Prelude.Int.{ℤ, pos, negsuc, max_int, InRange}
use mudis.Prelude.{
  ℕ, suc, ◌-◌, ◌≤◌, ◌<◌, ◌^◌, ◌==◌, Bytes, codes, List, [], ◌∷◌, ◌++◌, none, some, true, false, ◌≡◌,
  ◌≢◌, refl, sym, ◌∙◌, arith, length, ok, map, All, All-append, append_assoc, take,
}

-- A line that begins no bulk and no multi bulk is one reply.
single_line :
    (c : ℕ) (s rest : Bytes) (r : Reply)
    → OneLine (c ∷ s)
    → (c == b'*') ≡ false
    → (c == b'$') ≡ false
    → parse_single_line_reply c ((c ∷ s) ++ crlf) (c ∷ s) ≡ ok r
    → parse_stream ((c ∷ s) ++ (crlf ++ rest)) ≡ send (reply r ∷ []) (parse_stream rest)
single_line c s rest r o star dollar e =
    let taken : take (length ((c ∷ s) ++ crlf) - 2) ((c ∷ s) ++ crlf) ≡ c ∷ s = take-crlf (c ∷ s) in
    rw (parse_stream-eq ((c ∷ s) ++ (crlf ++ rest)), parse_stream-eq rest)
      (parse_from-next initial initial _ rest (reply r ∷ []) refl (
        unfold round in
        rw (read_line-line initial (c ∷ s) rest refl o) (
          unfold line_round new_message in
          rw (star, dollar, taken, e) (unfold single_line_round in refl))))

-- Behind the header of a bulk reply, with a body of so many bytes awaited.
abbrev awaiting : ℕ → List Bytes → ReadState
awaiting n args = record {
  reading_multi_line = true;
  expected_args_count = 1;
  msg_type = b'$';
  args = args;
  bulk_len = pos n;
}

parse_length :
    (n : ℕ)
    → n < max_int
    → parse_bulk_header ((b'$' ∷ format_uint (suc n)) ++ crlf) initial ≡ ok (awaiting (suc n) [])
parse_length n k =
    unfold parse_bulk_header header_number in
    rw (take-crlf (b'$' ∷ format_uint (suc n)))
      (rw (parse_int-format_uint (suc n) k) (unfold bulk_header in refl))

bulk_header_lem :
    (n : ℕ) (rest : Bytes)
    → n < max_int
    → round initial ((b'$' ∷ format_uint (suc n)) ++ (crlf ++ rest))
      ≡ next [] (awaiting (suc n) []) rest
bulk_header_lem n rest k =
    unfold round in
    rw
      (read_line-line initial (b'$' ∷ format_uint (suc n)) rest refl
        (mark_line b'$' (suc n) (omega arith)))
      (unfold line_round new_message in
        rw (parse_length n k) (unfold bulk_header_round bulk_round in refl))

bulk_body_lem :
    (c : ℕ) (s rest : Bytes)
    → IsPlain (c ∷ s)
    → round (awaiting (length (c ∷ s)) []) ((c ∷ s) ++ (crlf ++ rest))
      ≡ next (reply (bulk (some (c ∷ s))) ∷ []) initial rest
bulk_body_lem c s rest p =
    unfold round in
    rw (read_line-bulk (awaiting (length (c ∷ s)) []) (c ∷ s) rest (λ e. cc) p.1 refl) (
      unfold line_round in
      rw (read_body-plain (c ∷ s) (awaiting 0 []) p)
        (unfold body_round finished finished_reply in refl))

bulk_append :
    (c : ℕ) (s rest : Bytes)
    → to_bytes (bulk (some (c ∷ s))) ++ rest
      ≡ (b'$' ∷ format_uint (length (c ∷ s))) ++ (crlf ++ ((c ∷ s) ++ (crlf ++ rest)))
unfolding to_bytes
bulk_append c s rest = simp append_assoc

bulk_lem :
    (c : ℕ) (s rest : Bytes)
    → IsPlain (c ∷ s)
    → parse_stream (to_bytes (bulk (some (c ∷ s))) ++ rest)
      ≡ send (reply (bulk (some (c ∷ s))) ∷ []) (parse_stream rest)
bulk_lem c s rest p =
    rw
      (
        parse_stream-eq (to_bytes (bulk (some (c ∷ s))) ++ rest),
        parse_stream-eq rest,
        bulk_append c s rest,
      )
      (parse_from-next initial (awaiting (length (c ∷ s)) []) _ _ [] refl
          (bulk_header_lem (length s) _ (omega (arith, p.1)))
        ∙ parse_from-next (awaiting (length (c ∷ s)) []) initial _ rest _ refl
            (bulk_body_lem c s rest p))

-- Two headers of a whole reply: the null bulk, and the multi bulk of no arguments.
header_only :
    (c : ℕ) (s rest : Bytes) (r : Reply)
    → OneLine (c ∷ s)
    → line_round (line ((c ∷ s) ++ crlf) initial rest) ≡ next (reply r ∷ []) initial rest
    → parse_stream ((c ∷ s) ++ (crlf ++ rest)) ≡ send (reply r ∷ []) (parse_stream rest)
header_only c s rest r o e =
    rw (parse_stream-eq ((c ∷ s) ++ (crlf ++ rest)), parse_stream-eq rest)
      (parse_from-next initial initial _ rest (reply r ∷ []) refl
        (unfold round in rw (read_line-line initial (c ∷ s) rest refl o) e))

-- The replies that the protocol carries: a line is one line, an integer has 64 bits, and a value is
-- not empty, not begun by the bulk mark, and not nil in an array.
abbrev pub Crosses : Reply → Type 0
Crosses pong = Unit
Crosses ok_reply = Unit
Crosses null_bulk = Unit
Crosses empty_multi_bulk = Unit
Crosses unknown_err = Unit
Crosses syntax_err = Unit
Crosses wrong_type_err = Unit
Crosses (arg_num_err cmd) = OneLine cmd
Crosses (bulk (some s)) = IsPlain s
Crosses (bulk none) = ⊥
Crosses (multi_bulk arr) =
    (args : List Bytes) × (arr ≡ map some args) × All IsPlain args × (length args ≤ 2 ^ 32 - 1)
Crosses (status s) = OneLine s
Crosses (standard_err s) = OneLine s
Crosses (int z) = InRange z
Crosses no_reply = ⊥
Crosses (protocol_err msg) = ⊥

-- One reply is parsed, with these bytes, and the parser goes on behind them as with a new stream.
abbrev pub ReadsBack : Bytes → Bytes → Type 0
ReadsBack bytes rest =
    (r : Reply) × (parse_stream (bytes ++ rest) ≡ send (reply r ∷ []) (parse_stream rest))
    × (to_bytes r ≡ bytes)

line-ReadsBack :
    (c : ℕ) (s rest : Bytes) (r : Reply)
    → OneLine (c ∷ s)
    → (c == b'*') ≡ false
    → (c == b'$') ≡ false
    → parse_single_line_reply c ((c ∷ s) ++ crlf) (c ∷ s) ≡ ok r
    → to_bytes r ≡ (c ∷ s) ++ crlf
    → ReadsBack ((c ∷ s) ++ crlf) rest
line-ReadsBack c s rest r o star dollar e b =
    (r, rw (append_assoc (c ∷ s) crlf rest) (single_line c s rest r o star dollar e), b)

status-ReadsBack : (s rest : Bytes) → OneLine s → ReadsBack ((b'+' ∷ s) ++ crlf) rest
status-ReadsBack s rest o =
    line-ReadsBack b'+' s rest (status s) ((λ e. cc), o) refl refl
      (unfold parse_single_line_reply in refl) (unfold to_bytes in refl)

error-ReadsBack : (s rest : Bytes) → OneLine s → ReadsBack ((b'-' ∷ s) ++ crlf) rest
error-ReadsBack s rest o =
    line-ReadsBack b'-' s rest (standard_err s) ((λ e. cc), o) refl refl
      (unfold parse_single_line_reply in refl) (unfold to_bytes in refl)

OneLine-format_int : (z : ℤ) → OneLine (format_int z)
unfolding format_int
OneLine-format_int (pos n) = OneLine-digits (format_uint n) (All-format_uint n)
OneLine-format_int (negsuc n) =
    ((λ e. cc), OneLine-digits (format_uint (suc n)) (All-format_uint (suc n)))

arg_num-bytes :
    (cmd : Bytes)
    → to_bytes (arg_num_err cmd)
      ≡ (b'-' ∷ (codes "ERR wrong number of arguments for '" ++ (cmd ++ codes "' command"))) ++ crlf
unfolding to_bytes
arg_num-bytes cmd = simp append_assoc

nothing-ReadsBack : (rest : Bytes) → ReadsBack (to_bytes empty_multi_bulk) rest
unfolding to_bytes
nothing-ReadsBack rest = (
  empty_multi_bulk,
  header_only b'*' (codes "0") rest empty_multi_bulk (ground arith) (
      unfold line_round new_message parse_multi_bulk_header header_number multi_bulk_header
        header_round parse_uint parse_digits is_digit in
      refl),
  refl,
)

-- The parser reads such a reply back, as one with the same bytes.
pub to_bytes-ReadsBack : (r : Reply) (rest : Bytes) → Crosses r → ReadsBack (to_bytes r) rest
unfolding to_bytes
to_bytes-ReadsBack pong rest h = status-ReadsBack (codes "PONG") rest (ground arith)
to_bytes-ReadsBack ok_reply rest h = status-ReadsBack (codes "OK") rest (ground arith)
to_bytes-ReadsBack null_bulk rest h = (
  null_bulk,
  header_only b'$' (codes "-1") rest null_bulk (ground arith) (
      unfold line_round new_message parse_bulk_header header_number bulk_header bulk_header_round
        bulk_round parse_int parse_uint parse_digits is_digit in
      refl),
  refl,
)
to_bytes-ReadsBack empty_multi_bulk rest h = nothing-ReadsBack rest
to_bytes-ReadsBack unknown_err rest h = error-ReadsBack (codes "Err unknown") rest (ground arith)
to_bytes-ReadsBack syntax_err rest h =
    error-ReadsBack (codes "Err syntax error") rest (ground arith)
to_bytes-ReadsBack wrong_type_err rest h =
    error-ReadsBack (codes "WRONGTYPE Operation against a key holding the wrong kind of value") rest
      (ground arith)
to_bytes-ReadsBack (arg_num_err cmd) rest h =
    subst (λ bytes. ReadsBack bytes rest) (sym (arg_num-bytes cmd))
      (error-ReadsBack (codes "ERR wrong number of arguments for '" ++ (cmd ++ codes "' command"))
        rest
        (All-append (λ c. c ≢ 10) (codes "ERR wrong number of arguments for '") _ (ground arith)
          (All-append (λ c. c ≢ 10) cmd (codes "' command") h (ground arith))))
to_bytes-ReadsBack (bulk (some [])) rest h = elim h [ ]
to_bytes-ReadsBack (bulk (some (c ∷ s))) rest h = (bulk (some (c ∷ s)), bulk_lem c s rest h, refl)
to_bytes-ReadsBack (bulk none) rest h = elim h [ ]
to_bytes-ReadsBack (multi_bulk arr) rest ([], e, p, l) =
    rw e (subst (λ bytes. ReadsBack bytes rest) wire_nothing (nothing-ReadsBack rest))
to_bytes-ReadsBack (multi_bulk arr) rest (a ∷ more, e, p, l) =
    rw e (multi_bulk (map some (a ∷ more)), parse_stream-to_bytes a more rest p l, refl)
to_bytes-ReadsBack (status s) rest h = status-ReadsBack s rest h
to_bytes-ReadsBack (standard_err s) rest h = error-ReadsBack s rest h
to_bytes-ReadsBack (int z) rest h =
    line-ReadsBack b':' (format_int z) rest (int z) ((λ e. cc), OneLine-format_int z) refl refl
      (unfold parse_single_line_reply in rw (parse_int-format_int z h) refl) refl
to_bytes-ReadsBack no_reply rest h = elim h [ ]
to_bytes-ReadsBack (protocol_err msg) rest h = elim h [ ]
