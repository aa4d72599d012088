-- ===== src/Parser.antt =====
-- resp/parser: the parser of requests and replies. A stream is the bytes that will arrive before
-- the end of the file; the channel is the list of payloads that are sent on it.
pub mod Lines
pub mod Termination
pub mod RoundTrip
pub mod Replies
pub mod Faults
pub mod Errors
use mudis.Prelude.Int.{ℤ, pos, negsuc, max_int}
use mudis.Strconv.{NumError, parse_uint, parse_int}
use mudis.Reply.{Reply, null_bulk, empty_multi_bulk, bulk, multi_bulk, status, int, standard_err}
use mudis.Prelude.{
  ℕ, zero, suc, ◌+◌, ◌-◌, ◌^◌, Bytes, codes, List, [], ◌∷◌, ◌++◌, map, Option, none, some, Bool,
  true, false, ◌&&◌, ◌||◌, ◌==◌, ltb, if◌then◌else◌, length, take, drop, Result, ok, err,
}

-- `io.EOF`, `io.ErrUnexpectedEOF` and errors.New("protocol error: " + msg).
pub data ParseError : Type 0 where
  eof : ParseError
  unexpected_eof : ParseError
  protocol_error : Bytes → ParseError

-- A payload has a reply or an error, never both.
pub data Payload : Type 0 where
  reply : Reply → Payload
  failure : ParseError → Payload

-- `readState`
pub record ReadState : Type 0 where
  pub reading_multi_line : Bool
  pub expected_args_count : ℕ
  pub msg_type : ℕ
  pub args : List Bytes
  pub bulk_len : ℤ

-- `readState{}`
abbrev pub initial : ReadState
initial = record {
  reading_multi_line = false;
  expected_args_count = 0;
  msg_type = 0;
  args = [];
  bulk_len = pos 0;
}

unfoldable pub finished : ReadState → Bool
finished s = ltb 0 s.expected_args_count && length s.args == s.expected_args_count

longer : ℕ → Option (Bytes × Bytes) → Option (Bytes × Bytes)
longer c none = none
longer c (some (msg, rest)) = some (c ∷ msg, rest)

-- `bufReader.ReadBytes('\n')`: the bytes up to the first line feed, and the rest.
unfoldable pub read_bytes : Bytes → Option (Bytes × Bytes)
unfolding longer
read_bytes [] = none
read_bytes (c ∷ s) =
    let later = longer c (read_bytes s) in if c == 10 then some (c ∷ [], s) else later

-- What one call of `readLine` ends with. `crash` is a panic.
pub data LineRead : Type 0 where
  line : Bytes → ReadState → Bytes → LineRead
  io_error : ParseError → LineRead
  bad_line : Bytes → Bytes → LineRead
  crash : LineRead

byte_at : Bytes → ℕ → ℕ
byte_at s i = elim (drop i s) [ [] ↦ 0 | c ∷ _ ↦ c ]

-- `msg[len(msg)-2] != '\r'` panics on a line of one byte.
check_line : ReadState → Option (Bytes × Bytes) → LineRead
check_line st none = io_error eof
check_line st (some (msg, rest)) =
    if ltb (length msg) 2
    then crash
    else if byte_at msg (length msg - 2) == 13
    then line msg st rest
    else bad_line msg rest

-- `io.ReadFull` of `n` bytes, and the test of the two last ones.
check_bulk : ReadState → ℕ → Bytes → LineRead
check_bulk st n [] = io_error eof
check_bulk st n (c ∷ s) =
    if ltb (length (c ∷ s)) n
    then io_error unexpected_eof
    else if byte_at (take n (c ∷ s)) (n - 2) == 13 && byte_at (take n (c ∷ s)) (n - 1) == 10
    then line (take n (c ∷ s)) (record st { bulk_len = pos 0 }) (drop n (c ∷ s))
    else bad_line (take n (c ∷ s)) (drop n (c ∷ s))

-- `make([]byte, state.bulkLen+2)` panics where the sum wraps to a negative length.
read_bulk : ReadState → ℤ → Bytes → LineRead
read_bulk st (pos zero) s = check_line st (read_bytes s)
read_bulk st (pos (suc n)) s =
    if ltb max_int (suc n + 2) then crash else check_bulk st (suc n + 2) s
read_bulk st (negsuc zero) [] = io_error eof
read_bulk st (negsuc zero) (c ∷ s) = crash
read_bulk st (negsuc (suc zero)) s = bad_line [] s
read_bulk st (negsuc (suc (suc n))) s = crash

unfoldable pub read_line : ReadState → Bytes → LineRead
unfolding check_line check_bulk read_bulk byte_at
read_line st s = read_bulk st st.bulk_len s

-- `msg[1 : len(msg)-2]` of a line that ends with "\r\n".
header_number : Bytes → Bytes
header_number msg = drop 1 (take (length msg - 2) msg)

-- Behind the call of `ParseUint`; an unsigned number that is not 0 is above 0.
multi_bulk_header : Bytes → ReadState → Result NumError ℕ → Result ParseError ReadState
multi_bulk_header msg st (err e) = err (protocol_error msg)
multi_bulk_header msg st (ok n) =
    if n == 0
    then ok (record st { expected_args_count = 0 })
    else ok (record st {
      msg_type = b'*';
      reading_multi_line = true;
      expected_args_count = n;
      args = [];
    })

unfoldable pub parse_multi_bulk_header : Bytes → ReadState → Result ParseError ReadState
unfolding header_number multi_bulk_header
parse_multi_bulk_header msg st =
    multi_bulk_header msg st (parse_uint (2 ^ 32 - 1) (header_number msg))

-- The cases of `state.bulkLen` behind `parseBulkHeader`'s call of `ParseInt`.
bulk_header : Bytes → ReadState → Result NumError ℤ → Result ParseError ReadState
bulk_header msg st (err e) = err (protocol_error msg)
bulk_header msg st (ok (negsuc zero)) = ok (record st { bulk_len = negsuc 0 })
bulk_header msg st (ok (negsuc (suc n))) = err (protocol_error msg)
bulk_header msg st (ok (pos zero)) = err (protocol_error msg)
bulk_header msg st (ok (pos (suc n))) = ok (record st {
  bulk_len = pos (suc n);
  msg_type = b'$';
  reading_multi_line = true;
  expected_args_count = 1;
  args = [];
})

unfoldable pub parse_bulk_header : Bytes → ReadState → Result ParseError ReadState
unfolding header_number bulk_header
parse_bulk_header msg st = bulk_header msg st (parse_int (header_number msg))

-- `strings.Split(str, " ")`
split_spaces : Bytes → Bytes → List Bytes
split_spaces cur [] = cur ∷ []
split_spaces cur (c ∷ s) = elim (c == 32) [
  | true ↦ cur ∷ split_spaces [] s
  | false ↦ split_spaces (cur ++ c ∷ []) s
]

-- The switch on the first byte; `str` is the line without "\r\n".
unfoldable pub parse_single_line_reply : ℕ → Bytes → Bytes → Result ParseError Reply
unfolding split_spaces
parse_single_line_reply c msg str =
    if c == b'+'
    then ok (status (drop 1 str))
    else if c == b'-'
    then ok (standard_err (drop 1 str))
    else if c == b':'
    then elim (parse_int (drop 1 str)) [ err e ↦ err (protocol_error msg) | ok n ↦ ok (int n) ]
    else ok (multi_bulk (map some (split_spaces [] str)))

-- A bulk header inside a multi bulk, by the result of `ParseInt`.
body_header : Bytes → ReadState → Result NumError ℤ → Result ParseError (Option ReadState)
body_header msg st (err e) = err (protocol_error msg)
body_header msg st (ok (pos (suc n))) = ok (some (record st { bulk_len = pos (suc n) }))
body_header msg st (ok _) = ok (some (record st { args = st.args ++ [] ∷ []; bulk_len = pos 0 }))

body_line : Bytes → Bytes → ReadState → Result ParseError (Option ReadState)
body_line msg [] st = ok none
body_line msg (c ∷ s) st =
    if c == b'$'
    then body_header msg st (parse_int s)
    else ok (some (record st { args = st.args ++ (c ∷ s) ∷ [] }))

-- `none` is the panic of `line[0]` on an empty line.
unfoldable pub read_body : Bytes → ReadState → Result ParseError (Option ReadState)
unfolding body_line body_header
read_body msg st = body_line msg (take (length msg - 2) msg) st

-- One round of the loop of `parse0`: what is sent, and how it goes on.
pub data Round : Type 0 where
  next : List Payload → ReadState → Bytes → Round
  closed : Payload → Round
  crashed : Round

-- Behind `parseMultiBulkHeader`.
header_round : Bytes → Bytes → Result ParseError ReadState → Round
header_round msg rest (err e) = next (failure (protocol_error msg) ∷ []) initial rest
header_round msg rest (ok st) =
    if st.expected_args_count == 0
    then next (reply empty_multi_bulk ∷ []) initial rest
    else next [] st rest

-- Behind `parseBulkHeader`: a length of -1 is the null reply.
bulk_round : ReadState → Bytes → ℤ → Round
bulk_round st rest (negsuc zero) = next (reply null_bulk ∷ []) initial rest
bulk_round st rest _ = next [] st rest

bulk_header_round : Bytes → Bytes → Result ParseError ReadState → Round
bulk_header_round msg rest (err e) = next (failure (protocol_error msg) ∷ []) initial rest
bulk_header_round msg rest (ok st) = bulk_round st rest st.bulk_len

single_line_round : Bytes → Result ParseError Reply → Round
single_line_round rest (err e) = next (failure e ∷ []) initial rest
single_line_round rest (ok r) = next (reply r ∷ []) initial rest

new_message : Bytes → ReadState → Bytes → Round
new_message [] st rest = crashed
new_message (c ∷ s) st rest =
    if c == b'*'
    then header_round (c ∷ s) rest (parse_multi_bulk_header (c ∷ s) st)
    else if c == b'$'
    then bulk_header_round (c ∷ s) rest (parse_bulk_header (c ∷ s) st)
    else single_line_round rest
        (parse_single_line_reply c (c ∷ s) (take (length (c ∷ s) - 2) (c ∷ s)))

-- The reply of a finished state; the message type is '*' or '$'.
finished_reply : ReadState → Reply
finished_reply st =
    if st.msg_type == b'*'
    then multi_bulk (map some st.args)
    else (elim st.args [ [] ↦ bulk none | a ∷ _ ↦ bulk (some a) ])

-- Behind `readBody`.
body_round : Bytes → Bytes → Result ParseError (Option ReadState) → Round
body_round msg rest (err e) = next (failure (protocol_error msg) ∷ []) initial rest
body_round msg rest (ok none) = crashed
body_round msg rest (ok (some st)) =
    if finished st then next (reply (finished_reply st) ∷ []) initial rest else next [] st rest

line_round : LineRead → Round
line_round crash = crashed
line_round (io_error e) = closed (failure e)
line_round (bad_line msg rest) = next (failure (protocol_error msg) ∷ []) initial rest
line_round (line msg st rest) =
    if st.reading_multi_line
    then body_round msg rest (read_body msg st)
    else new_message msg st rest

unfoldable pub round : ReadState → Bytes → Round
unfolding header_round bulk_round bulk_header_round single_line_round new_message finished_reply
    body_round line_round finished
round st s = line_round (read_line st s)

-- How the goroutine ends: by closing the channel, or by a panic that leaves the channel open.
pub data Ending : Type 0 where
  channel_closed : Ending
  left_open : Ending
  out_of_fuel : Ending

pub record Channel : Type 0 where
  pub payloads : List Payload
  pub ending : Ending

abbrev pub send : List Payload → Channel → Channel
send ps c = record { payloads = ps ++ c.payloads; ending = c.ending }

go_on : (ReadState → Bytes → Channel) → Round → Channel
go_on loop crashed = record { payloads = []; ending = left_open }
go_on loop (closed p) = record { payloads = p ∷ []; ending = channel_closed }
go_on loop (next ps st rest) = send ps (loop st rest)

unfoldable pub parse0 : ℕ → ReadState → Bytes → Channel
unfolding go_on
parse0 zero st s = record { payloads = []; ending = out_of_fuel }
parse0 (suc f) st s = go_on (parse0 f) (round st s)

-- Every round takes at least one byte, or ends.
unfoldable pub parse_stream : Bytes → Channel
parse_stream s = parse0 (suc (length s)) initial s
