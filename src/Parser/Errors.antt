-- ===== src/Parser/Errors.antt =====
-- A line that begins as an error does.
use mudis.Parser.{
  Payload, reply, failure, crash, bad_line, line, ReadState, initial, Channel, check_line, longer,
  line_round, new_message, single_line_round, parse_single_line_reply, read_line, read_bulk,
  read_bytes, round, go_on, parse0, parse_stream,
}
use mudis.Reply.{standard_err}
use mudis.Prelude.{
  Bytes, List, [], ◌∷◌, Option, none, some, Bool, true, false, ◌≡◌, refl, if◌then◌else◌,
}

-- The first payload, if there is one, is a failure or an error.
abbrev pub FailsFirst : List Payload → Type 0
FailsFirst [] = Unit
FailsFirst (reply r ∷ _) = (text : Bytes) × (r ≡ standard_err text)
FailsFirst (failure _ ∷ _) = Unit

-- The tests of the line's length and end may come out in any way.
tests-FailsFirst :
    (loop : ReadState → Bytes → Channel) (too_short ends : Bool) (s rest : Bytes)
    → FailsFirst
        (go_on loop (
          line_round (
            if too_short
            then crash
            else if ends
            then line (b'-' ∷ s) initial rest
            else bad_line (b'-' ∷ s) rest))).payloads
unfolding go_on line_round new_message single_line_round parse_single_line_reply
tests-FailsFirst loop true ends s rest = tt
tests-FailsFirst loop false true s rest = (_, refl)
tests-FailsFirst loop false false s rest = tt

go_on-FailsFirst :
    (loop : ReadState → Bytes → Channel) (r : Option (Bytes × Bytes))
    → FailsFirst (go_on loop (line_round (check_line initial (longer b'-' r)))).payloads
unfolding go_on line_round check_line longer
go_on-FailsFirst loop none = tt
go_on-FailsFirst loop (some (s, rest)) = tests-FailsFirst loop _ _ s rest

pub parse_stream-FailsFirst : (s : Bytes) → FailsFirst (parse_stream (b'-' ∷ s)).payloads
unfolding parse_stream parse0 round read_line read_bulk read_bytes
parse_stream-FailsFirst s = go_on-FailsFirst _ (read_bytes s)
