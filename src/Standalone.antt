-- ===== src/Standalone.antt =====
-- database/standalone_database.go, resp/connection: the databases that a client selects from. A client's
-- connection is the index that it selected. The channel of the log's handler is the list of the payloads
-- sent on it; it is nil before the handler is set up.
pub mod Laws
use mudis.Prelude.Int.{ℤ, pos, negsuc}
use mudis.Strconv.{parse_int}
use mudis.Reply.{Reply, ok_reply, unknown_err, arg_num_err, standard_err}
use mudis.Database.{CmdLine, Db, Outcome, done, panic, CmdTable}
use mudis.Database
use mudis.Prelude.{
  ℕ, suc, ◌+◌, Bytes, codes, List, [], ◌∷◌, ◌++◌, Option, none, some, Bool, true, false, ◌==◌, leb,
  length, if◌then◌else◌, ok, err, map, set, get_elem?, to_lower, beq,
}

-- `payload` of aof/aof.go: a command line and the index of its database.
pub record AofPayload : Type 0 where
  pub cmd_line : CmdLine
  pub db_index : ℕ

pub record Standalone (C : Type 0) : Type 0 where
  pub db_set : List (Db C)
  pub aof_chan : Option (List AofPayload)

-- `AddAof`, with `config.Properties.AppendOnly`.
unfoldable pub add_aof :
    Bool → ℕ → List CmdLine → Option (List AofPayload) → Option (List AofPayload)
add_aof append_only index lines none = none
add_aof append_only index lines (some queue) =
    if append_only
    then some (queue ++ map (λ line. record { cmd_line = line; db_index = index }) lines)
    else some queue

abbrev pub index_out_of_range : Reply
index_out_of_range = standard_err (codes "ERR DB index is out of range")

-- What a call of `Exec` replies, and the databases and the connection behind it.
pub record Answer (C : Type 0) : Type 0 where
  pub result : Reply
  pub server : Standalone C
  pub selected_db : ℤ

module _ {C : Type 0} (append_only : Bool) (table : CmdTable C) where
  unfoldable pub exec_select : Standalone C → ℤ → List Bytes → Answer C
  exec_select mdb c [] = record { result = unknown_err; server = mdb; selected_db = c }
  exec_select mdb c (arg ∷ _) = elim (parse_int arg) [
    | err e ↦ record {
      result = standard_err (codes "ERR invalid DB index");
      server = mdb;
      selected_db = c;
    }
    | ok (pos i) ↦
        if leb (length mdb.db_set) i
        then record { result = index_out_of_range; server = mdb; selected_db = c }
        else record { result = ok_reply; server = mdb; selected_db = pos i }
    | ok (negsuc n) ↦ record { result = ok_reply; server = mdb; selected_db = negsuc n }
  ]

  -- The lines that the command handed to `addAof` go to the channel; a panic is recovered.
  unfoldable pub finish : Standalone C → ℕ → Outcome C → Standalone C
  unfolding add_aof
  finish mdb i out =
      let db = Database.state_of out in
      record {
        db_set = set mdb.db_set i (record db { aof = [] });
        aof_chan = add_aof append_only i db.aof mdb.aof_chan;
      }

  unfoldable pub reply_or_unknown : Outcome C → Reply
  reply_or_unknown (done r db) = r
  reply_or_unknown (panic db) = unknown_err

  unfoldable pub exec_at : Standalone C → ℤ → CmdLine → Answer C
  unfolding finish reply_or_unknown
  exec_at mdb (negsuc n) line = record {
    result = unknown_err;
    server = mdb;
    selected_db = negsuc n;
  }
  exec_at mdb (pos i) line = elim (get_elem? mdb.db_set i) [
    | none ↦ record { result = index_out_of_range; server = mdb; selected_db = pos i }
    | some db ↦
        let out = Database.exec table (record db { aof = [] }) line in
        record { result = reply_or_unknown out; server = finish mdb i out; selected_db = pos i }
  ]

  -- `Exec`: a panic is recovered and answered by the unknown error.
  unfoldable pub exec : Standalone C → ℤ → CmdLine → Answer C
  unfolding exec_select exec_at
  exec mdb c [] = record { result = unknown_err; server = mdb; selected_db = c }
  exec mdb c (name ∷ args) =
      if beq (to_lower name) (codes "select")
      then (if length (name ∷ args) == 2
          then exec_select mdb c args
          else record { result = arg_num_err (codes "select"); server = mdb; selected_db = c })
      else exec_at mdb c (name ∷ args)
