-- ===== src/Tests/Server.antt =====
-- The server of two databases that knows DEL: its log, and a client.
use mudis.Tests.Lists.{dict, k, empty_db, list_db}
use mudis.Aof.{AofHandler, handle_aof, load_aof, loaded}
use mudis.Aof.Log.{Appends, last_db}
use mudis.Aof.Steps.{IsLogged, run, replay, Answers}
use mudis.Aof.Restart.{load-restart}
use mudis.Handler.{DatabaseFace, returned, handle}
use mudis.Handler.Laws.{requests, serve, handle-serve}
use mudis.Standalone.{AofPayload, Standalone, exec, reply_or_unknown}
use mudis.Standalone.Laws.{Keeps, exec-Keeps}
use mudis.Database.Dispatch.{exec-register_command}
use mudis.Reply.{arg_num_err, is_error_reply, to_bytes}
use mudis.Dict.GoMap.{lookup}
use mudis.Database.Keys.{exec_del}
use mudis.Database
use mudis.Database.{CmdLine, CmdTable, Db, register_command, validate_arity, done}
use mudis.Prelude.Int.{pos, negsuc}
use mudis.Prelude.{
  ◌<◌, ℕ, Bytes, codes, List, [], ◌∷◌, ◌++◌, some, Bool, true, false, to_lower, beq, ◌≡◌, refl,
  arith, Bool-cases, inl, inr, if◌then◌else◌,
}

abbrev del_table : CmdTable dict.Carrier
del_table = register_command "del" (exec_del dict) (negsuc 1) []

abbrev pub server : Standalone dict.Carrier
server = record { db_set = empty_db ∷ list_db ∷ []; aof_chan = some [] }

abbrev pub del_line : CmdLine
del_line = codes "del" ∷ k ∷ []

abbrev first_log : List AofPayload
first_log = record { cmd_line = del_line; db_index = 1 } ∷ []

abbrev pub append_bytes : Bytes → Bytes → Bytes × Bool
append_bytes f b = (f ++ b, true)

abbrev pub no_log : AofHandler Bytes
no_log = record { aof_file = []; current_db = 0; read_locks = 0 }

pub append_bytes-Appends : Appends append_bytes (λ f. f)
append_bytes-Appends f b = (refl, refl)

del_exec :
    (db : Db dict.Carrier) (name : Bytes) (args : List Bytes)
    → Database.exec del_table db (name ∷ args) ≡ (
        if beq (codes "del") (to_lower name)
        then (if validate_arity (negsuc 1) (name ∷ args)
            then exec_del dict db args
            else done (arg_num_err (to_lower name)) db)
        else Database.exec [] db (name ∷ args))
unfolding to_lower
del_exec db name args = exec-register_command "del" (exec_del dict) (negsuc 1) [] db name args

del_table-Answers : Answers true del_table
unfolding package.mudis.Database.exec reply_or_unknown is_error_reply to_bytes exec_del lookup
del_table-Answers db [] = λ e. cc
del_table-Answers db (name ∷ args) = elim (Bool-cases (beq (codes "del") (to_lower name))) [
  | inl same ↦ elim (Bool-cases (validate_arity (negsuc 1) (name ∷ args))) [
    | inl fits ↦ rw (del_exec db name args, same, fits) (λ e. cc)
    | inr bad ↦ rw (del_exec db name args, same, bad) (λ e. cc)
  ]
  | inr unknown ↦ rw (del_exec db name args, unknown) (λ e. cc)
]

del_line-IsLogged : (i : ℕ) → i < 2 → IsLogged 2 (record { cmd_line = del_line; db_index = i })
unfolding to_lower beq
del_line-IsLogged i h = record {
  index = h;
  plain = ((ground arith, omega arith), ((ground arith, omega arith), tt));
  length = omega arith;
  reaches = refl;
}

abbrev second_log : AofHandler Bytes
second_log = record {
  aof_file = (handle_aof append_bytes no_log first_log).aof_file;
  current_db = 0;
  read_locks = 0;
}

load-restart_example :
    load_aof true del_table 0
      (some
        (handle_aof append_bytes second_log
          (record { cmd_line = del_line; db_index = 0 } ∷ [])).aof_file)
      server
    ≡ loaded (record server {
      db_set =
          run del_table
            (replay del_table server.db_set first_log)
            (record { cmd_line = del_line; db_index = last_db 0 first_log });
    })
load-restart_example =
    load-restart true del_table append_bytes (λ f. f) server no_log second_log first_log del_line
      append_bytes-Appends refl refl del_table-Answers (del_line-IsLogged 1 (omega arith), tt)
      (del_line-IsLogged 0 (omega arith)) (omega arith)

exec-Keeps_example : Keeps true del_table server (exec true del_table server (pos 1) del_line) 0
exec-Keeps_example = exec-Keeps true del_table server (pos 1) del_line 0 (λ e. cc)

abbrev face : DatabaseFace (Standalone dict.Carrier)
face = record {
  exec = λ s c line.
      let answer = exec true del_table s c line in
      (some answer.result, answer.server, answer.selected_db);
}

abbrev two_requests : List CmdLine
two_requests = (codes "SELECT" ∷ codes "1" ∷ []) ∷ del_line ∷ []

handle-serve_example :
    handle face (λ w. true) (λ t. false) false server (requests two_requests)
    ≡ returned
        (record (serve face
          (record { db = server; selected_db = pos 0; written = []; is_closed = false })
          two_requests) { is_closed = true })
handle-serve_example =
    handle-serve face (λ w. true) (λ t. false) (λ w. refl) server two_requests
      (
        (
          ((ground arith, omega arith), ((ground arith, omega arith), tt)),
          omega arith,
          omega arith,
        ),
        (
          (
            ((ground arith, omega arith), ((ground arith, omega arith), tt)),
            omega arith,
            omega arith,
          ),
          tt,
        ),
      )
