-- ===== src/Database/Dispatch.antt =====
-- database/command.go, database/db.go: a registered command is the one that is run.
use mudis.Dict.GoMap.{lookup-insert}
use mudis.Reply.{arg_num_err}
use mudis.Database.{Db, done, CmdTable, ExecFunc, register_command, validate_arity, exec}
use mudis.Prelude.Int.{ℤ}
use mudis.Prelude.{Bytes, String, codes, List, ◌∷◌, if◌then◌else◌, beq, to_lower, ◌≡◌, arith}

-- Behind the registration of a command, a command line whose first word is its name in any letter
-- case runs it, if the number of words fits its arity, and is answered by the error on the number of
-- arguments otherwise; a command line with another name is run as before the registration.
pub exec-register_command :
    {C : Type 0} (name : String) (executor : ExecFunc C) (arity : ℤ) (table : CmdTable C)
    (db : Db C) (word : Bytes) (args : List Bytes)
    → exec (register_command name executor arity table) db (word ∷ args) ≡ (
        if beq (to_lower (codes name)) (to_lower word)
        then (if validate_arity arity (word ∷ args)
            then executor db args
            else done (arg_num_err (to_lower word)) db)
        else exec table db (word ∷ args))
unfolding exec register_command
exec-register_command name executor arity table db word args = ground (
  arith,
  lookup-insert (to_lower (codes name)) (to_lower word)
      (record { executor = executor; arity = arity }) table,
)
