-- ===== src/Database/Keys.antt =====
-- database/keys.go and database/ping.go: the commands on keys of any type, and PING.
pub mod Laws
pub mod Logged
pub mod Pattern
use mudis.Prelude.Int.{pos}
use mudis.Dict.{Dict}
use mudis.Reply.{ok_reply, int, standard_err, status, unknown_err, pong}
use mudis.Database.{
  Entity, string, Db, Outcome, done, panic, to_cmd_line, add_aof, State, get_entity, put_entity,
  remove, removes, flush,
}
use mudis.Prelude.{ℕ, ◌+◌, Bytes, codes, List, [], ◌∷◌, none, some, ltb, if◌then◌else◌}

-- `Ping`
unfoldable pub ping : {C : Type 0} → Db C → List Bytes → Outcome C
ping db [] = done pong db
ping db (text ∷ []) = done (status text) db
ping db _ = done (standard_err (codes "ERR wrong number of arguments for 'ping' command")) db

module _ (D : Dict Entity) where
  unfoldable pub exec_del : State D → List Bytes → Outcome D.Carrier
  unfolding removes
  exec_del db args =
      let (db', deleted) = removes D db 0 args in
      done (int (pos deleted)) (if ltb 0 deleted then add_aof (to_cmd_line "del" args) db' else db')

  -- The loop of `execExists`, with the number of keys found so far.
  count_existing : State D → ℕ → List Bytes → ℕ
  unfolding get_entity
  count_existing db n [] = n
  count_existing db n (key ∷ keys) =
      count_existing db (elim (get_entity D db key) [ some _ ↦ n + 1 | none ↦ n ]) keys

  unfoldable pub exec_exists : State D → List Bytes → Outcome D.Carrier
  unfolding count_existing
  exec_exists db args = done (int (pos (count_existing db 0 args))) db

  unfoldable pub exec_flush_db : State D → List Bytes → Outcome D.Carrier
  unfolding flush
  exec_flush_db db args = done ok_reply (add_aof (to_cmd_line "flushdb" args) (flush D db))

  unfoldable pub exec_type : State D → List Bytes → Outcome D.Carrier
  unfolding get_entity
  exec_type db [] = panic db
  exec_type db (key ∷ _) = elim (get_entity D db key) [
    | none ↦ done (status (codes "none")) db
    | some (string _) ↦ done (status (codes "string")) db
    | some _ ↦ done unknown_err db
  ]

  unfoldable pub exec_rename : State D → List Bytes → Outcome D.Carrier
  unfolding get_entity put_entity remove
  exec_rename db (src ∷ dest ∷ []) = elim (get_entity D db src) [
    | none ↦ done (standard_err (codes "no such key")) db
    | some entity ↦ done ok_reply (
        add_aof (to_cmd_line "rename" (src ∷ dest ∷ []))
          (remove D (put_entity D db dest entity) src))
  ]
  exec_rename db _ =
      done (standard_err (codes "ERR wrong number of arguments for 'rename' command")) db

  unfoldable pub exec_rename_nx : State D → List Bytes → Outcome D.Carrier
  unfolding get_entity put_entity removes
  exec_rename_nx db (src ∷ dest ∷ rest) = elim (get_entity D db dest) [
    | some _ ↦ done (int (pos 0)) db
    | none ↦ elim (get_entity D db src) [
      | none ↦ done (standard_err (codes "no such key")) db
      | some entity ↦
          let (db', _) = removes D db 0 (src ∷ dest ∷ []) in
          done (int (pos 1))
            (add_aof (to_cmd_line "renamenx" (src ∷ dest ∷ rest)) (put_entity D db' dest entity))
    ]
  ]
  exec_rename_nx db _ = panic db
