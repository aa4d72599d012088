-- ===== src/Database.antt =====
-- database/db.go, database/command.go: one database, its access to the dictionary of entities, and
-- the dispatch of a command by name and number of arguments.
pub mod Strings
pub mod Keys
pub mod Sets
pub mod Lists
pub mod Dispatch
pub mod Recorded
use mudis.Prelude.Int.{ℤ, pos, negsuc}
use mudis.Dict.{Dict, bound}
use mudis.Dict.GoMap.{GoMap, lookup, insert}
use mudis.Set.{Set}
use mudis.LinkedList.{LinkedList}
use mudis.Reply.{Reply, Slice, arg_num_err, standard_err, wrong_type_err}
use mudis.Prelude.{
  ℕ, zero, suc, ◌+◌, Bytes, String, codes, List, [], ◌∷◌, ◌++◌, Option, none, some, Bool, true,
  false, ◌==◌, leb, length, if◌then◌else◌, to_lower, Result, ok, err,
}

-- The types that `DataEntity.Data` holds: []byte, *List.LinkedList, *HashSet.Set.
pub data Entity : Type 0 where
  string : Slice → Entity
  list : LinkedList Slice → Entity
  hash_set : Set → Entity

abbrev pub CmdLine : Type 0
CmdLine = List Bytes

-- `DB`, over the dictionary's type: the entities, and the command lines handed to `addAof`.
pub record Db (C : Type 0) : Type 0 where
  pub contents : C
  pub aof : List CmdLine

-- A command replies, or panics; what it did to the database before stays.
pub data Outcome (C : Type 0) : Type 0 where
  done : Reply → Db C → Outcome C
  panic : Db C → Outcome C

-- The reply of a command, if it does not panic, and the database behind it.
abbrev pub reply_of : {C : Type 0} → Outcome C → Option Reply
reply_of (done r _) = some r
reply_of (panic _) = none

abbrev pub state_of : {C : Type 0} → Outcome C → Db C
state_of (done _ db) = db
state_of (panic db) = db

-- `utils.ToCmdLine2` and `utils.ToCmdLine3`: the command's name before its arguments.
abbrev pub to_cmd_line : String → List Bytes → CmdLine
to_cmd_line name args = codes name ∷ args

unfoldable pub add_aof : {C : Type 0} → CmdLine → Db C → Db C
add_aof line db = record db { aof = db.aof ++ line ∷ [] }

module _ (D : Dict Entity) where
  abbrev pub State : Type 0
  State = Db D.Carrier

  unfoldable pub get_entity : State → Bytes → Option Entity
  get_entity db key = D.get db.contents key

  unfoldable pub put_entity : State → Bytes → Entity → State
  put_entity db key e = record db { contents = (D.put db.contents key e).0 }

  unfoldable pub put_if_exists : State → Bytes → Entity → State × ℕ
  put_if_exists db key e =
      let (d, n) = D.put_if_exists db.contents key e in (record db { contents = d }, n)

  unfoldable pub put_if_absent : State → Bytes → Entity → State × ℕ
  put_if_absent db key e =
      let (d, n) = D.put_if_absent db.contents key e in (record db { contents = d }, n)

  unfoldable pub remove : State → Bytes → State
  remove db key = record db { contents = (D.remove db.contents key).0 }

  -- `Removes`, with the number of keys deleted so far.
  unfoldable pub removes : State → ℕ → List Bytes → State × ℕ
  unfolding remove
  removes db deleted [] = (db, deleted)
  removes db deleted (key ∷ keys) = elim (D.get db.contents key) [
    | some _ ↦ removes (remove db key) (deleted + 1) keys
    | none ↦ removes db deleted keys
  ]

  unfoldable pub flush : State → State
  flush db = record db { contents = D.clear db.contents }

-- What an `ExecFunc` does; `args` is the command line without the command's name.
abbrev pub ExecFunc : Type 0 → Type 0
ExecFunc C = Db C → List Bytes → Outcome C

pub record Command (C : Type 0) : Type 0 where
  pub executor : ExecFunc C
  pub arity : ℤ

abbrev pub CmdTable : Type 0 → Type 0
CmdTable C = GoMap (Command C)

unfoldable pub register_command : {C : Type 0} → String → ExecFunc C → ℤ → CmdTable C → CmdTable C
register_command name executor arity table =
    insert (to_lower (codes name)) (record { executor = executor; arity = arity }) table

unfoldable pub validate_arity : ℤ → List Bytes → Bool
validate_arity (pos n) cmd_args = length cmd_args == n
validate_arity (negsuc n) cmd_args = leb (suc n) (length cmd_args)

-- `DB.Exec`; an empty command line panics on its first word.
unfoldable pub exec : {C : Type 0} → CmdTable C → Db C → List Bytes → Outcome C
exec table db [] = panic db
exec table db (name ∷ args) = elim (lookup (to_lower name) table) [
  | none ↦ done (standard_err (codes "ERR unknown command '" ++ (to_lower name ++ codes "'"))) db
  | some cmd ↦
      if validate_arity cmd.arity (name ∷ args)
      then cmd.executor db args
      else done (arg_num_err (to_lower name)) db
]
