-- ===== src/Aof/Replay.antt =====
-- What `LoadAof` makes of the bytes that `handleAof` wrote.
use mudis.Aof.{AofHandler, handle_aof, load_aof, load_bytes, load_loop, loaded, with_chan}
use mudis.Aof.Log.{log, last_db, Appends, handle_aof-log}
use mudis.Standalone.{AofPayload, Standalone}
use mudis.Parser.{parse0, round, read_line, read_bytes, parse_stream}
use mudis.Database.{CmdTable, Db}
use mudis.Prelude.Int.{max_int}
use mudis.Prelude.{
  ℕ, ◌+◌, ◌<◌, ◌≤◌, Bytes, List, [], ◌∷◌, ◌++◌, none, some, Bool, ◌==◌, length, All, ◌≡◌, refl, sym,
  ap, ◌∙◌, Bool-cases, inl, inr, ==_iff, append-nil, append_assoc,
}
use mudis.Aof.Steps.{IsLogged, run, replay, Answers, load_stream, length-run, step, step_select}

module _ {C : Type 0} (append_only : Bool) (table : CmdTable C) where
  pub load_log :
      (ps : List AofPayload) (dbs : List (Db C)) (c : ℕ) (rest : Bytes)
      → Answers append_only table
      → All (IsLogged (length dbs)) ps
      → length dbs + 3 ≤ max_int
      → load_stream append_only table dbs c (parse_stream (log c ps ++ rest))
        ≡ load_stream append_only table (replay table dbs ps) (last_db c ps) (parse_stream rest)
  load_log [] dbs c rest a h b = refl
  load_log (p ∷ ps) dbs c rest a (l, h) b =
      let h' : All (IsLogged (length (run table dbs p))) ps =
        rw (length-run append_only table dbs p) h in
      let b' : length (run table dbs p) + 3 ≤ max_int = rw (length-run append_only table dbs p) b in
      let line =
        step append_only table dbs p.db_index p.cmd_line (log p.db_index ps ++ rest) a l
        ∙ load_log ps (run table dbs p) p.db_index rest a h' b' in
      elim (Bool-cases (p.db_index == c)) [
        | inl same ↦
            let e : p.db_index ≡ c = (==_iff p.db_index c).0 same in
            ap (λ n. load_stream append_only table dbs n (parse_stream (log c (p ∷ ps) ++ rest)))
              (sym e)
            ∙ (rw (same, append_assoc) line)
        | inr other ↦
            rw (other, append_assoc, append_assoc)
              (step_select append_only table dbs c p.db_index _ l.index b ∙ line)
      ]

  pub with_nothing :
      (dbs : List (Db C)) (c : ℕ)
      → load_stream append_only table dbs c (parse_stream [])
        ≡ loaded (record { db_set = dbs; aof_chan = none })
  unfolding load_stream load_loop parse_stream parse0 round read_line read_bytes
  with_nothing dbs c = refl

  load_log_end :
      (ps : List AofPayload) (dbs : List (Db C))
      → Answers append_only table
      → All (IsLogged (length dbs)) ps
      → length dbs + 3 ≤ max_int
      → load_stream append_only table dbs 0 (parse_stream (log 0 ps))
        ≡ loaded (record { db_set = replay table dbs ps; aof_chan = none })
  load_log_end ps dbs a h b =
      ap (λ s. load_stream append_only table dbs 0 (parse_stream s)) (sym (append-nil (log 0 ps)))
      ∙ load_log ps dbs 0 [] a h b
      ∙ with_nothing (replay table dbs ps) (last_db 0 ps)

  pub last_db-below :
      (n c : ℕ) (ps : List AofPayload) → c < n → All (IsLogged n) ps → last_db c ps < n
  last_db-below n c [] h l = h
  last_db-below n c (p ∷ ps) h (l, ls) = last_db-below n p.db_index ps (l.index) ls

  module _ {File : Type 0} (write : File → Bytes → File × Bool) (contents : File → Bytes) where
    -- On a file that takes every write and was empty, and with commands whose replies all have
    -- bytes, loading the log of any payloads of plain lines that are not SELECT runs exactly those
    -- lines, each on its database and in their order.
    pub load-handle_aof :
        (mdb : Standalone C) (h : AofHandler File) (ps : List AofPayload)
        → Appends write contents
        → contents h.aof_file ≡ []
        → Answers append_only table
        → All (IsLogged (length mdb.db_set)) ps
        → length mdb.db_set + 3 ≤ max_int
        → load_aof append_only table 0 (some (contents (handle_aof write h ps).aof_file)) mdb
          ≡ loaded (record mdb { db_set = replay table mdb.db_set ps })
    unfolding load_aof with_chan load_bytes load_stream
    load-handle_aof mdb h ps w e a l b =
        let f : contents (handle_aof write h ps).aof_file ≡ log 0 ps =
          (handle_aof-log write contents w h ps).0 ∙ ap (λ s. s ++ log 0 ps) e in
        ap (λ s. load_aof append_only table 0 (some s) mdb) f
        ∙ ap (with_chan append_only table mdb.aof_chan) (load_log_end ps mdb.db_set a l b)
