-- ===== src/Tests/Restart.antt =====
-- A server whose clients set and delete keys, and its log.
use mudis.Tests.Lists.{dict, empty_db}
use mudis.Tests.Server.{append_bytes, append_bytes-Appends, no_log}
use mudis.Standalone.{Standalone}
use mudis.Aof.{handle_aof, load_aof, loaded}
use mudis.Aof.Durable.{Durable}
use mudis.Aof.Commands.{commands, commands-Durable}
use mudis.Aof.Restore.{serve_lines, queued, load-serve_lines}
use mudis.Strconv.{NumError}
use mudis.Database.{CmdLine}
use mudis.Prelude.Int.{ℤ, pos}
use mudis.Prelude.{Bytes, codes, List, [], ◌∷◌, some, true, ◌≡◌, refl, arith}

abbrev error_text : NumError → Bytes → Bytes
error_text e s = s

abbrev client_lines : List (ℤ × CmdLine)
client_lines =
    (pos 1, codes "SET" ∷ codes "k" ∷ codes "1" ∷ [])
    ∷ (pos 0, codes "Incr" ∷ codes "n" ∷ [])
    ∷ (pos 1, codes "SELECT" ∷ codes "0" ∷ [])
    ∷ (pos 1, codes "del" ∷ codes "k" ∷ [])
    ∷ []

commands-Durable_example : Durable (commands dict error_text)
commands-Durable_example = commands-Durable dict error_text

abbrev new_server : Standalone dict.Carrier
new_server = record { db_set = empty_db ∷ empty_db ∷ []; aof_chan = some [] }

load-serve_lines_example :
    load_aof true
      (commands dict error_text)
      0
      (some
        (handle_aof append_bytes no_log (
          queued
            (serve_lines (commands dict error_text) new_server client_lines).aof_chan)).aof_file)
      new_server
    ≡ loaded (record new_server {
      db_set = (serve_lines (commands dict error_text) new_server client_lines).db_set;
    })
load-serve_lines_example =
    load-serve_lines (commands dict error_text) (commands-Durable dict error_text) append_bytes
      (λ f. f) new_server no_log client_lines append_bytes-Appends refl refl (refl, (refl, tt))
      (
        (
          ((λ e. cc, omega arith), ((λ e. cc, omega arith), ((λ e. cc, omega arith), tt))),
          omega arith,
          omega arith,
        ),
        (
          (((λ e. cc, omega arith), ((λ e. cc, omega arith), tt)), omega arith, omega arith),
          (
            (((λ e. cc, omega arith), ((λ e. cc, omega arith), tt)), omega arith, omega arith),
            (
              (((λ e. cc, omega arith), ((λ e. cc, omega arith), tt)), omega arith, omega arith),
              tt,
            ),
          ),
        ),
      )
      (omega arith)
