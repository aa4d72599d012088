-- ===== src/Handler.antt =====
-- resp/handler/handler.go: the loop that serves a client. The database is a parameter, as the
-- handler has it by its interface; so is the network, `net.Conn.Write`, by whether it takes a write
-- behind the ones that it has taken.
pub mod Laws
use mudis.Prelude.Int.{ℤ, pos}
use mudis.Reply.{Reply, multi_bulk, standard_err, to_bytes, crlf}
use mudis.Parser.{
  Payload, reply, failure, ParseError, eof, unexpected_eof, protocol_error, Ending, channel_closed,
  left_open, out_of_fuel, Channel, parse_stream,
}
use mudis.Aof.{words}
use mudis.Database.{CmdLine}
use mudis.Prelude.{
  Bytes, codes, List, Option, none, some, [], ◌∷◌, ◌++◌, Bool, true, false, if◌then◌else◌, length,
}

-- `interface/database`'s `Exec` on the database and the index that the client selected; `none` is a
-- nil reply.
pub record DatabaseFace (S : Type 0) : Type 0 where
  pub exec : S → ℤ → CmdLine → Option Reply × S × ℤ

-- A served client: the databases, the client's selected index, the writes, and whether the handler
-- closed the connection.
pub record Session (S : Type 0) : Type 0 where
  pub db : S
  pub selected_db : ℤ
  pub written : List Bytes
  pub is_closed : Bool

-- The loop returns, or waits for a channel that no one closes.
pub data Served (S : Type 0) : Type 0 where
  returned : Session S → Served S
  waiting : Session S → Served S

-- What the handler writes for a result.
unfoldable pub result_bytes : Option Reply → Bytes
result_bytes none = codes "-ERR unknown" ++ crlf
result_bytes (some r) = to_bytes r

-- `takes` is whether `net.Conn.Write` returns no error, `is_closed_text` the test of the error's text
-- for "use of closed network connection".
module _ {S : Type 0} (d : DatabaseFace S) (takes : List Bytes → Bool)
    (is_closed_text : Bytes → Bool) where
  -- `Connection.Write` writes nothing for no bytes, and returns whether there was an error.
  client_write : Session S → Bytes → Session S × Bool
  client_write s [] = (s, false)
  client_write s (b ∷ bs) =
      if takes s.written
      then (record s { written = s.written ++ (b ∷ bs) ∷ [] }, false)
      else (s, true)

  close_client : Session S → Session S
  close_client s = record s { is_closed = true }

  -- `Error()` of a protocol error.
  abbrev error_text : Bytes → Bytes
  error_text msg = codes "protocol error: " ++ msg

  run_request : Session S → CmdLine → Session S
  unfolding client_write result_bytes
  run_request s line =
      let (result, db, c) = d.exec s.db s.selected_db line in
      (client_write (record s { db = db; selected_db = c }) (result_bytes result)).0

  at_end : Ending → Session S → Served S
  at_end channel_closed s = returned s
  at_end left_open s = waiting s
  at_end out_of_fuel s = waiting s

  unfoldable pub handle_loop : Ending → Session S → List Payload → Served S
  unfolding client_write close_client run_request at_end
  handle_loop end s [] = at_end end s
  handle_loop end s (failure eof ∷ payloads) = returned (close_client s)
  handle_loop end s (failure unexpected_eof ∷ payloads) = returned (close_client s)
  handle_loop end s (failure (protocol_error msg) ∷ payloads) =
      let (s', failed) = client_write s (to_bytes (standard_err (error_text msg))) in
      let rest = handle_loop end s' payloads in
      if is_closed_text (error_text msg)
      then returned (close_client s)
      else if failed
      then returned (close_client s')
      else rest
  handle_loop end s (reply (multi_bulk args) ∷ payloads) =
      handle_loop end (run_request s (words args)) payloads
  handle_loop end s (reply r ∷ payloads) = handle_loop end s payloads

  -- `Handle`: a handler that is closing closes the connection, and serves it all the same.
  unfoldable pub handle : Bool → S → Bytes → Served S
  unfolding handle_loop
  handle closing db stream =
      let channel = parse_stream stream in
      handle_loop channel.ending
        (record { db = db; selected_db = pos 0; written = []; is_closed = closing })
        channel.payloads
