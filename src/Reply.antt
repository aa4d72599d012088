-- ===== src/Reply.antt =====
-- resp/reply: the replies of the server and their bytes on the wire.
pub mod Framing
use mudis.Prelude.Int.{ℤ}
use mudis.Strconv.{format_uint, format_int}
use mudis.Prelude.{
  ℕ, Bytes, codes, List, [], ◌∷◌, ◌++◌, Option, none, some, Bool, true, false, ◌==◌, length,
}

-- A byte slice that may be nil is an `Option Bytes`.
abbrev pub Slice : Type 0
Slice = Option Bytes

-- One constructor for each struct that implements `resp.Reply`.
pub data Reply : Type 0 where
  pong : Reply
  ok_reply : Reply
  null_bulk : Reply
  empty_multi_bulk : Reply
  no_reply : Reply
  unknown_err : Reply
  arg_num_err : Bytes → Reply
  syntax_err : Reply
  wrong_type_err : Reply
  protocol_err : Bytes → Reply
  bulk : Slice → Reply
  multi_bulk : List Slice → Reply
  status : Bytes → Reply
  int : ℤ → Reply
  standard_err : Bytes → Reply

-- "\r\n"
abbrev pub crlf : Bytes
crlf = 13 ∷ 10 ∷ []

-- `BulkReply.ToBytes`; a nil slice has length 0 too.
bulk_to_bytes : Slice → Bytes
bulk_to_bytes none = codes "$-1"
bulk_to_bytes (some []) = codes "$-1"
bulk_to_bytes (some (c ∷ s)) = b'$' ∷ (format_uint (length (c ∷ s)) ++ (crlf ++ ((c ∷ s) ++ crlf)))

-- What the loop of `MultiBulkReply.ToBytes` writes for one argument.
unfoldable pub arg_to_bytes : Slice → Bytes
arg_to_bytes none = codes "$-1" ++ crlf
arg_to_bytes (some s) = b'$' ∷ (format_uint (length s) ++ (crlf ++ (s ++ crlf)))

unfoldable pub args_to_bytes : List Slice → Bytes
args_to_bytes [] = []
args_to_bytes (a ∷ rest) = arg_to_bytes a ++ args_to_bytes rest

unfoldable pub multi_bulk_to_bytes : List Slice → Bytes
multi_bulk_to_bytes args = b'*' ∷ (format_uint (length args) ++ (crlf ++ args_to_bytes args))

unfoldable pub to_bytes : Reply → Bytes
unfolding bulk_to_bytes arg_to_bytes args_to_bytes multi_bulk_to_bytes
to_bytes pong = codes "+PONG" ++ crlf
to_bytes ok_reply = codes "+OK" ++ crlf
to_bytes null_bulk = codes "$-1" ++ crlf
to_bytes empty_multi_bulk = codes "*0" ++ crlf
to_bytes no_reply = []
to_bytes unknown_err = codes "-Err unknown" ++ crlf
to_bytes (arg_num_err cmd) =
    codes "-ERR wrong number of arguments for '" ++ (cmd ++ (codes "' command" ++ crlf))
to_bytes syntax_err = codes "-Err syntax error" ++ crlf
to_bytes wrong_type_err =
    codes "-WRONGTYPE Operation against a key holding the wrong kind of value" ++ crlf
to_bytes (protocol_err msg) = codes "-ERR Protocol error: '" ++ (msg ++ (codes "'" ++ crlf))
to_bytes (bulk arg) = bulk_to_bytes arg
to_bytes (multi_bulk args) = multi_bulk_to_bytes args
to_bytes (status s) = b'+' ∷ (s ++ crlf)
to_bytes (int code) = b':' ∷ (format_int code ++ crlf)
to_bytes (standard_err s) = b'-' ∷ (s ++ crlf)

starts_with_dash : Bytes → Option Bool
starts_with_dash [] = none
starts_with_dash (c ∷ s) = some (c == b'-')

-- `IsErrorReply`; `none` is the panic on the first byte of an empty slice.
unfoldable pub is_error_reply : Reply → Option Bool
unfolding to_bytes starts_with_dash
is_error_reply r = starts_with_dash (to_bytes r)

-- `Error()` of the structs that implement `ErrorReply`.
unfoldable pub error_text : Reply → Option Bytes
error_text unknown_err = some (codes "Err unknown")
error_text (arg_num_err cmd) =
    some (codes "ERR wrong number of arguments for '" ++ (cmd ++ codes "' command"))
error_text syntax_err = some (codes "Err syntax error")
error_text wrong_type_err =
    some (codes "WRONGTYPE Operation against a key holding the wrong kind of value")
error_text (protocol_err msg) = some (codes "ERR Protocol error: '" ++ msg)
error_text (standard_err s) = some s
error_text _ = none
