-- ===== src/Aof/Restart.antt =====
-- A second run of the server on a log that another left: its first line is for the database 0 as it
-- thinks, and for the last one of the log as `LoadAof` reads it.
use mudis.Aof.{AofHandler, line_to_bytes, handle_aof, load_aof, load_bytes, loaded, with_chan}
use mudis.Aof.Log.{log, last_db, Appends, handle_aof-log}
use mudis.Aof.Replay.{load_log, with_nothing, last_db-below}
use mudis.Aof.Steps.{IsLogged, run, replay, Answers, load_stream, length-run, step}
use mudis.Standalone.{AofPayload, Standalone}
use mudis.Database.{CmdLine, CmdTable, Db}
use mudis.Prelude.Int.{max_int}
use mudis.Prelude.{
  ◌+◌, ◌≤◌, Bytes, List, [], ◌∷◌, ◌++◌, some, Bool, length, All, ◌≡◌, refl, ap, ◌∙◌,
}

module _ {C : Type 0} (append_only : Bool) (table : CmdTable C) where
  length-replay :
      (ps : List AofPayload) (dbs : List (Db C)) → length (replay table dbs ps) ≡ length dbs
  length-replay [] dbs = refl
  length-replay (p ∷ ps) dbs =
      length-replay ps (run table dbs p) ∙ length-run append_only table dbs p

  module _ {File : Type 0} (write : File → Bytes → File × Bool) (contents : File → Bytes) where
    -- A line that a new handler appends for the database 0, behind what another handler logged, is
    -- run on loading the whole on the database of the last line before it, under the conditions of
    -- the load of one log.
    pub load-restart :
        (mdb : Standalone C) (h k : AofHandler File) (ps : List AofPayload) (line : CmdLine)
        → Appends write contents
        → contents h.aof_file ≡ []
        → contents k.aof_file ≡ contents (handle_aof write h ps).aof_file
        → Answers append_only table
        → All (IsLogged (length mdb.db_set)) ps
        → IsLogged (length mdb.db_set) (record { cmd_line = line; db_index = 0 })
        → length mdb.db_set + 3 ≤ max_int
        → load_aof append_only table 0
            (some (
              contents
                (handle_aof write k (record { cmd_line = line; db_index = 0 } ∷ [])).aof_file))
            mdb
          ≡ loaded (record mdb {
            db_set =
                run table
                  (replay table mdb.db_set ps)
                  (record { cmd_line = line; db_index = last_db 0 ps });
          })
    unfolding load_aof with_chan load_bytes load_stream
    load-restart mdb h k ps line w e d a l i b =
        let dbs : List (Db C) = replay table mdb.db_set ps in
        let n : length dbs ≡ length mdb.db_set = length-replay ps mdb.db_set in
        let f : contents
              (handle_aof write k (record { cmd_line = line; db_index = 0 } ∷ [])).aof_file
            ≡ log 0 ps ++ (line_to_bytes line ++ []) =
          (handle_aof-log write contents w k (record { cmd_line = line; db_index = 0 } ∷ [])).0
          ∙ ap (λ s. s ++ (line_to_bytes line ++ []))
              (d ∙ (handle_aof-log write contents w h ps).0 ∙ ap (λ s. s ++ log 0 ps) e) in
        let there : IsLogged (length dbs) (record { cmd_line = line; db_index = last_db 0 ps }) =
          record {
            index = rw n (last_db-below append_only table (length mdb.db_set) 0 ps i.index l);
            plain = i.plain;
            length = i.length;
            reaches = i.reaches;
          } in
        ap (λ s. load_aof append_only table 0 (some s) mdb) f
        ∙ ap (with_chan append_only table mdb.aof_chan) (
            load_log append_only table ps mdb.db_set 0 (line_to_bytes line ++ []) a l b
            ∙ step append_only table dbs (last_db 0 ps) line [] a there
            ∙ with_nothing append_only table _ (last_db 0 ps))
