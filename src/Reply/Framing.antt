-- ===== src/Reply/Framing.antt =====
-- Replies on the wire: which of them read as errors, and which end their line.
use mudis.Strconv.{format_uint, digits}
use mudis.Reply.{
  multi_bulk_to_bytes, Reply, Slice, pong, ok_reply, null_bulk, empty_multi_bulk, no_reply,
  unknown_err, arg_num_err, syntax_err, wrong_type_err, protocol_err, bulk, multi_bulk, status, int,
  standard_err, crlf, arg_to_bytes, args_to_bytes, to_bytes, is_error_reply, error_text,
  starts_with_dash,
}
use mudis.Prelude.{
  Bytes, List, [], ◌∷◌, ◌++◌, Option, none, some, Bool, true, false, ◌≡◌, refl, append-nil,
  append_assoc, arith, ◌≢◌, codes, ap,
}

-- The bytes end with a complete line.
abbrev pub EndsLine : Bytes → Type 0
EndsLine s = (body : Bytes) × (s ≡ body ++ crlf)

abbrev pub has_text : Option Bytes → Bool
has_text none = false
has_text (some _) = true

-- A reply reads as an error exactly if its struct has an error text; only the empty reply panics.
pub is_error_reply_iff :
    (r : Reply) → r ≢ no_reply → is_error_reply r ≡ some (has_text (error_text r))
unfolding is_error_reply error_text
is_error_reply_iff no_reply h = ground arith
is_error_reply_iff (bulk none) h = refl
is_error_reply_iff (bulk (some [])) h = refl
is_error_reply_iff (bulk (some (c ∷ s))) h = refl
is_error_reply_iff _ h = refl

starts_with_dash-cons : (s : Bytes) → starts_with_dash s ≡ some true → (t : Bytes) × (s ≡ b'-' ∷ t)
unfolding starts_with_dash
starts_with_dash-cons [] h = cc
starts_with_dash-cons (c ∷ s) h = (s, ground arith)

-- An error's bytes begin with a dash.
pub error-to_bytes :
    (r : Reply) → is_error_reply r ≡ some true → (t : Bytes) × (to_bytes r ≡ b'-' ∷ t)
unfolding is_error_reply
error-to_bytes r h = starts_with_dash-cons (to_bytes r) h

-- An empty bulk reply is `$-1` with no line end.
abbrev pub IsFramed : Reply → Type 0
IsFramed no_reply = ⊥
IsFramed (bulk none) = ⊥
IsFramed (bulk (some [])) = ⊥
IsFramed _ = Unit

EndsLine-cons : {s : Bytes} → (c : _) → EndsLine s → EndsLine (c ∷ s)
EndsLine-cons c (b, e) = (c ∷ b, ap (λ t. c ∷ t) e)

EndsLine-append : (t : Bytes) {s : Bytes} → EndsLine s → EndsLine (t ++ s)
EndsLine-append t (b, e) = (t ++ b, rw e (rw append_assoc))

EndsLine-crlf : EndsLine crlf
EndsLine-crlf = ([], refl)

EndsLine-text : (t : Bytes) → EndsLine (t ++ crlf)
EndsLine-text t = (t, refl)

arg_to_bytes-EndsLine : (a : Slice) → EndsLine (arg_to_bytes a)
unfolding arg_to_bytes
arg_to_bytes-EndsLine none = EndsLine-text (codes "$-1")
arg_to_bytes-EndsLine (some s) =
    EndsLine-cons b'$' (EndsLine-append _ (EndsLine-append crlf (EndsLine-text s)))

args_to_bytes-EndsLine :
    (s : Bytes) (rest : List Slice) → EndsLine s → EndsLine (s ++ args_to_bytes rest)
unfolding args_to_bytes
args_to_bytes-EndsLine s [] h = rw append-nil h
args_to_bytes-EndsLine s (a ∷ rest) h =
    EndsLine-append s (args_to_bytes-EndsLine (arg_to_bytes a) rest (arg_to_bytes-EndsLine a))

-- Every reply but the empty one and an empty bulk ends with a complete line.
pub to_bytes-EndsLine : (r : Reply) → IsFramed r → EndsLine (to_bytes r)
unfolding to_bytes
to_bytes-EndsLine (bulk none) h = elim h [ ]
to_bytes-EndsLine (bulk (some [])) h = elim h [ ]
to_bytes-EndsLine (bulk (some (c ∷ s))) h =
    EndsLine-cons b'$' (EndsLine-append _ (EndsLine-append crlf (EndsLine-text (c ∷ s))))
to_bytes-EndsLine no_reply h = elim h [ ]
to_bytes-EndsLine (multi_bulk args) h =
    EndsLine-cons b'*' (EndsLine-append _ (args_to_bytes-EndsLine crlf args EndsLine-crlf))
to_bytes-EndsLine (status s) h = EndsLine-cons b'+' (EndsLine-text s)
to_bytes-EndsLine (int z) h = EndsLine-cons b':' (EndsLine-text _)
to_bytes-EndsLine (standard_err s) h = EndsLine-cons b'-' (EndsLine-text s)
to_bytes-EndsLine (arg_num_err cmd) h =
    EndsLine-append (codes "-ERR wrong number of arguments for '")
      (EndsLine-append cmd (EndsLine-text (codes "' command")))
to_bytes-EndsLine (protocol_err msg) h =
    EndsLine-append (codes "-ERR Protocol error: '")
      (EndsLine-append msg (EndsLine-text (codes "'")))
to_bytes-EndsLine pong h = EndsLine-text (codes "+PONG")
to_bytes-EndsLine ok_reply h = EndsLine-text (codes "+OK")
to_bytes-EndsLine null_bulk h = EndsLine-text (codes "$-1")
to_bytes-EndsLine empty_multi_bulk h = EndsLine-text (codes "*0")
to_bytes-EndsLine unknown_err h = EndsLine-text (codes "-Err unknown")
to_bytes-EndsLine syntax_err h = EndsLine-text (codes "-Err syntax error")
to_bytes-EndsLine wrong_type_err h =
    EndsLine-text (codes "-WRONGTYPE Operation against a key holding the wrong kind of value")

-- The two arrays of nothing.
pub wire_nothing : to_bytes empty_multi_bulk ≡ to_bytes (multi_bulk [])
unfolding to_bytes multi_bulk_to_bytes args_to_bytes format_uint digits
wire_nothing = refl
