-- ===== src/Parser/Termination.antt =====
-- Each round of the parser takes bytes off the stream, so its loop ends within the fuel.
use mudis.Strconv.{NumError, parse_int}
use mudis.Parser.Lines.{IsReady, read_line-LineShrinks, LineShrinks}
use mudis.Parser.{
  Reply, ReadState, initial, Round, next, closed, crashed, round, new_message, parse0, parse_stream,
  send, out_of_fuel, parse_multi_bulk_header, parse_bulk_header, bulk_header, header_round,
  bulk_round, bulk_header_round, single_line_round, body_round, line_round, go_on, LineRead,
  read_body, body_line, body_header, Payload, Channel, finished, line, io_error, bad_line, crash,
  ParseError,
}
use mudis.Prelude.Int.{ℤ, pos, negsuc}
use mudis.Prelude.{
  if_elim, ℕ, zero, suc, ◌-◌, ◌≤◌, ◌<◌, Bytes, List, [], ◌∷◌, Option, none, some, ◌≡◌, ◌≢◌, refl,
  ap, arith, length, take, ◌==◌, Result, ok, err, Bool-cases, inl, inr,
}

abbrev RoundShrinks : ℕ → Round → Type 0
RoundShrinks n (next _ st rest) = (length rest < n) × IsReady st
RoundShrinks n _ = Unit

abbrev OkReady : {E : Type 0} → Result E ReadState → Type 0
OkReady (ok st) = IsReady st
OkReady (err _) = Unit

abbrev SomeReady : {E : Type 0} → Result E (Option ReadState) → Type 0
SomeReady (ok (some st)) = IsReady st
SomeReady (ok none) = Unit
SomeReady (err _) = Unit

header-IsReady :
    (msg : Bytes) (st : ReadState) → IsReady st → OkReady (parse_multi_bulk_header msg st)
unfolding parse_multi_bulk_header
header-IsReady msg st h = ground arith

body_header-IsReady :
    (msg : Bytes) (st : ReadState) (r : Result NumError ℤ) → SomeReady (body_header msg st r)
unfolding body_header
body_header-IsReady msg st (ok (pos zero)) = refl
body_header-IsReady msg st (ok (pos (suc n))) = refl
body_header-IsReady msg st (ok (negsuc n)) = refl
body_header-IsReady msg st (err e) = tt

read_body-IsReady : (msg : Bytes) (st : ReadState) → IsReady st → SomeReady (read_body msg st)
unfolding read_body
read_body-IsReady msg st h = go (take (length msg - 2) msg)
  where
    go : (text : Bytes) → SomeReady (body_line msg text st)
    go [] = tt
    go (c ∷ s) = elim (Bool-cases (c == b'$')) [
      | inl e ↦ rw e (body_header-IsReady msg st (parse_int s))
      | inr e ↦ rw e h
    ]

module _ (n : ℕ) (msg rest : Bytes) (h : length rest < n) where
  body_round-RoundShrinks :
      (r : Result ParseError (Option ReadState))
      → SomeReady r
      → RoundShrinks n (body_round msg rest r)
  unfolding body_round
  body_round-RoundShrinks (err e) k = (h, refl)
  body_round-RoundShrinks (ok none) k = tt
  body_round-RoundShrinks (ok (some st)) k = elim (Bool-cases (finished st)) [
    | inl e ↦ rw e (h, refl)
    | inr e ↦ rw e (h, k)
  ]

  header_round-RoundShrinks :
      (r : Result ParseError ReadState) → OkReady r → RoundShrinks n (header_round msg rest r)
  unfolding header_round
  header_round-RoundShrinks (err e) k = (h, refl)
  header_round-RoundShrinks (ok st) k = elim (Bool-cases (st.expected_args_count == 0)) [
    | inl e ↦ rw e (h, refl)
    | inr e ↦ rw e (h, k)
  ]

  bulk_header_round-RoundShrinks :
      (st : ReadState) (r : Result NumError ℤ)
      → RoundShrinks n (bulk_header_round msg rest (bulk_header msg st r))
  unfolding bulk_header_round bulk_header bulk_round
  bulk_header_round-RoundShrinks st (err e) = (h, refl)
  bulk_header_round-RoundShrinks st (ok (pos zero)) = (h, refl)
  bulk_header_round-RoundShrinks st (ok (pos (suc k))) = (h, refl)
  bulk_header_round-RoundShrinks st (ok (negsuc zero)) = (h, refl)
  bulk_header_round-RoundShrinks st (ok (negsuc (suc k))) = (h, refl)

  single_line_round-RoundShrinks :
      (r : Result ParseError Reply) → RoundShrinks n (single_line_round rest r)
  unfolding single_line_round
  single_line_round-RoundShrinks (err e) = (h, refl)
  single_line_round-RoundShrinks (ok r) = (h, refl)

new_message-RoundShrinks :
    (n : ℕ) (msg : Bytes) (st : ReadState) (rest : Bytes)
    → length rest < n
    → IsReady st
    → RoundShrinks n (new_message msg st rest)
unfolding new_message
new_message-RoundShrinks n [] st rest h k = tt
new_message-RoundShrinks n (c ∷ s) st rest h k = elim (Bool-cases (c == b'*')) [
  | inl e ↦ rw e (header_round-RoundShrinks n (c ∷ s) rest h _ (header-IsReady (c ∷ s) st k))
  | inr e ↦ elim (Bool-cases (c == b'$')) [
    | inl d ↦
        rw (e, d) (unfold parse_bulk_header in bulk_header_round-RoundShrinks n (c ∷ s) rest h st _)
    | inr d ↦ rw (e, d) (single_line_round-RoundShrinks n (c ∷ s) rest h _)
  ]
]

line_round-RoundShrinks : (n : ℕ) (l : LineRead) → LineShrinks n l → RoundShrinks n (line_round l)
unfolding line_round
line_round-RoundShrinks n crash h = tt
line_round-RoundShrinks n (io_error e) h = tt
line_round-RoundShrinks n (bad_line msg rest) h = (h, refl)
line_round-RoundShrinks n (line msg st rest) h =
    if_elim (RoundShrinks n) st.reading_multi_line _ _
      (body_round-RoundShrinks n msg rest h.0 _ (read_body-IsReady msg st h.1))
      (new_message-RoundShrinks n msg st rest h.0 h.1)

-- A round that goes on leaves a shorter stream and a ready state.
pub round-RoundShrinks :
    (st : ReadState) (s : Bytes) → IsReady st → RoundShrinks (length s) (round st s)
unfolding round
round-RoundShrinks st s h = line_round-RoundShrinks (length s) _ (read_line-LineShrinks st s h)

go_on_ends :
    (f n : ℕ) (r : Round)
    → n ≤ f
    → RoundShrinks n r
    → ((st : ReadState) (s : Bytes)
        → IsReady st
        → length s < f
        → (parse0 f st s).ending ≢ out_of_fuel)
    → (go_on (parse0 f) r).ending ≢ out_of_fuel
unfolding go_on
go_on_ends f n crashed h k ih = λ e. cc
go_on_ends f n (closed p) h k ih = λ e. cc
go_on_ends f n (next ps st s) h k ih = ih st s k.1 (omega arith)

parse0_ends :
    (f : ℕ) (st : ReadState) (s : Bytes)
    → IsReady st
    → length s < f
    → (parse0 f st s).ending ≢ out_of_fuel
unfolding parse0
parse0_ends zero st s r h = elim h [ ]
parse0_ends (suc f) st s r h =
    go_on_ends f (length s) (round st s) (omega arith) (round-RoundShrinks st s r) (parse0_ends f)

go_on_fuel :
    (f g n : ℕ) (r : Round)
    → n ≤ f
    → n ≤ g
    → RoundShrinks n r
    → ((st : ReadState) (s : Bytes)
        → IsReady st
        → length s < f
        → length s < g
        → parse0 f st s ≡ parse0 g st s)
    → go_on (parse0 f) r ≡ go_on (parse0 g) r
unfolding go_on
go_on_fuel f g n crashed h h' k ih = refl
go_on_fuel f g n (closed p) h h' k ih = refl
go_on_fuel f g n (next ps st s) h h' k ih = ap (send ps) (ih st s k.1 (omega arith) (omega arith))

-- Fuel beyond the length of the stream makes no difference.
pub parse0_fuel :
    (f g : ℕ) (st : ReadState) (s : Bytes)
    → IsReady st
    → length s < f
    → length s < g
    → parse0 f st s ≡ parse0 g st s
unfolding parse0
parse0_fuel zero g st s r h k = elim h [ ]
parse0_fuel (suc f) zero st s r h k = elim k [ ]
parse0_fuel (suc f) (suc g) st s r h k =
    go_on_fuel f g (length s) (round st s) (omega arith) (omega arith) (round-RoundShrinks st s r)
      (parse0_fuel f g)

-- The parser's loop ends on every stream: by closing the channel or by a panic.
pub parse_stream_ends : (s : Bytes) → (parse_stream s).ending ≢ out_of_fuel
unfolding parse_stream
parse_stream_ends s = parse0_ends (suc (length s)) initial s refl (omega arith)

-- The parser from any state, on as much fuel as it needs.
unfoldable pub parse_from : ReadState → Bytes → Channel
parse_from st s = parse0 (suc (length s)) st s

-- A round that goes on is followed by the rest of the parse.
pub parse_from-next :
    (st st' : ReadState) (s rest : Bytes) (ps : List Payload)
    → IsReady st
    → round st s ≡ next ps st' rest
    → parse_from st s ≡ send ps (parse_from st' rest)
parse_from-next st st' s rest ps r e =
    let k : RoundShrinks (length s) (next ps st' rest) = rw e at (round-RoundShrinks st s r) in
    unfold parse_from parse0 in
    rw e (
      unfold go_on in
      ap (send ps) (parse0_fuel (length s) (suc (length rest)) st' rest k.1 k.0 (omega arith)))
