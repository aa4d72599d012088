-- ===== src/Aof.antt =====
-- aof/aof.go: the log. The channel is the list of the payloads received before it is closed. The file is
-- a parameter: `write` is `os.File.Write`, with the file behind it and whether it returned no error.
pub mod Log
pub mod Steps
pub mod Replay
pub mod Restart
pub mod Durable
pub mod Commands
pub mod Restore
use mudis.Prelude.Int.{ℤ, pos}
use mudis.Strconv.{format_uint}
use mudis.Reply.{Reply, multi_bulk, to_bytes, is_error_reply}
use mudis.Parser.{
  Payload, reply, failure, eof, Ending, channel_closed, left_open, out_of_fuel, Channel,
  parse_stream,
}
use mudis.Standalone.{AofPayload, Standalone}
use mudis.Standalone
use mudis.Database.{CmdLine, CmdTable}
use mudis.Reply.{Slice}
use mudis.Prelude.{
  ℕ, zero, suc, ◌+◌, ◌-◌, Bytes, codes, List, [], ◌∷◌, ◌++◌, Option, none, some, Bool, true, false,
  ◌==◌, ltb, if◌then◌else◌, map, take,
}

-- The bytes of a command line, and the line that selects a database.
unfoldable pub line_to_bytes : CmdLine → Bytes
line_to_bytes line = to_bytes (multi_bulk (map some line))

abbrev pub select_line : ℕ → CmdLine
select_line i = codes "SELECT" ∷ format_uint i ∷ []

-- `read_locks` counts the read locks held on `pausingAof`.
pub record AofHandler (File : Type 0) : Type 0 where
  pub aof_file : File
  pub current_db : ℕ
  pub read_locks : ℕ

module _ {File : Type 0} (write : File → Bytes → File × Bool) where
  -- The second half of a round of `handleAof`: an error is only warned about.
  write_line : AofHandler File → CmdLine → AofHandler File
  write_line h line = record h {
    aof_file = (write h.aof_file (line_to_bytes line)).0;
    read_locks = h.read_locks - 1;
  }

  -- A round of `handleAof`. Where the SELECT line cannot be written, the round ends without the line
  -- and with the lock held.
  unfoldable pub handle_payload : AofHandler File → AofPayload → AofHandler File
  unfolding write_line
  handle_payload h p =
      let locked : AofHandler File = record h { read_locks = h.read_locks + 1 } in
      if p.db_index == h.current_db
      then write_line locked p.cmd_line
      else (let (file, written) = write h.aof_file (line_to_bytes (select_line p.db_index)) in
          let selected : AofHandler File = record locked { aof_file = file } in
          if written
          then write_line (record selected { current_db = p.db_index }) p.cmd_line
          else selected)

  handle_loop : AofHandler File → List AofPayload → AofHandler File
  unfolding handle_payload
  handle_loop h [] = h
  handle_loop h (p ∷ payloads) = handle_loop (handle_payload h p) payloads

  unfoldable pub handle_aof : AofHandler File → List AofPayload → AofHandler File
  unfolding handle_loop
  handle_aof h payloads = handle_loop (record h { current_db = 0 }) payloads

-- How `LoadAof` ends: it returns, it panics, or it waits for a channel that no one closes.
pub data Loaded (C : Type 0) : Type 0 where
  loaded : Standalone C → Loaded C
  panics : Loaded C
  waits : Standalone C → Loaded C

-- A nil argument reads as the empty word.
unfoldable pub words : List Slice → List Bytes
words [] = []
words (none ∷ args) = [] ∷ words args
words (some a ∷ args) = a ∷ words args

module _ {C : Type 0} (append_only : Bool) (table : CmdTable C) where
  at_end : Ending → Standalone C → Loaded C
  at_end channel_closed mdb = loaded mdb
  at_end left_open mdb = waits mdb
  at_end out_of_fuel mdb = waits mdb

  -- The loop of `LoadAof`; the end of the file leaves it, other errors and replies are skipped.
  unfoldable pub load_loop : Ending → Standalone C → ℤ → List Payload → Loaded C
  unfolding at_end words
  load_loop end mdb c [] = at_end end mdb
  load_loop end mdb c (failure eof ∷ payloads) = loaded mdb
  load_loop end mdb c (failure e ∷ payloads) = load_loop end mdb c payloads
  load_loop end mdb c (reply (multi_bulk args) ∷ payloads) =
      let answer = Standalone.exec append_only table mdb c (words args) in
      let rest = load_loop end answer.server answer.selected_db payloads in
      elim (is_error_reply answer.result) [ none ↦ panics | some _ ↦ rest ]
  load_loop end mdb c (reply r ∷ payloads) = load_loop end mdb c payloads

  -- The handler's channel is nil while the file is read, and put back behind it.
  with_chan : Option (List AofPayload) → Loaded C → Loaded C
  with_chan chan (loaded mdb) = loaded (record mdb { aof_chan = chan })
  with_chan chan panics = panics
  with_chan chan (waits mdb) = waits mdb

  load_bytes : Standalone C → Bytes → Loaded C
  unfolding load_loop
  load_bytes mdb bytes =
      let channel = parse_stream bytes in
      load_loop channel.ending (record mdb { aof_chan = none }) (pos 0) channel.payloads

  -- `file` is what `os.Open` finds: nothing where it returns an error.
  unfoldable pub load_aof : ℕ → Option Bytes → Standalone C → Loaded C
  unfolding with_chan load_bytes
  load_aof max_bytes none mdb = loaded mdb
  load_aof max_bytes (some bytes) mdb =
      with_chan mdb.aof_chan
        (load_bytes mdb (if ltb 0 max_bytes then take max_bytes bytes else bytes))
