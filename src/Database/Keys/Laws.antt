-- ===== src/Database/Keys/Laws.antt =====
-- What DEL, RENAME, RENAMENX and FLUSHDB leave behind every key.
use mudis.Prelude.Int.{pos}
use mudis.Dict.{Dict}
use mudis.Reply.{ok_reply, int}
use mudis.Set.Laws.{contains}
use mudis.Database.{
  Entity, done, reply_of, state_of, add_aof, to_cmd_line, State, get_entity, put_entity, remove,
  removes, flush,
}
use mudis.Database.Keys.{exec_del, exec_rename, exec_rename_nx, exec_flush_db}
use mudis.Prelude.{
  ℕ, ◌+◌, Bytes, List, [], ◌∷◌, none, some, if◌then◌else◌, beq, beq_iff, ◌≡◌, refl, arith,
}

module _ (D : Dict Entity) where
  get_entity-remove :
      (db : State D) (k j : Bytes)
      → get_entity D (remove D db k) j ≡ (if beq k j then none else get_entity D db j)
  unfolding get_entity remove
  get_entity-remove db k j = D.get-remove db.contents k j

  pub get_entity-put_entity :
      (db : State D) (k j : Bytes) (e : Entity)
      → get_entity D (put_entity D db k e) j ≡ (if beq k j then some e else get_entity D db j)
  unfolding get_entity put_entity
  get_entity-put_entity db k j e = D.get-put db.contents k j e

  pub get_entity-add_aof :
      (db : State D) (line : List Bytes) (j : Bytes)
      → get_entity D (add_aof line db) j ≡ get_entity D db j
  unfolding get_entity add_aof
  get_entity-add_aof db line j = refl

  get_entity-removes :
      (db : State D) (n : ℕ) (keys : List Bytes) (j : Bytes)
      → get_entity D (removes D db n keys).0 j
        ≡ (if contains j keys then none else get_entity D db j)
  unfolding removes get_entity
  get_entity-removes db n [] j = refl
  get_entity-removes db n (k ∷ keys) j = ground (
    arith,
    get_entity-removes (remove D db k) (n + 1) keys j,
    get_entity-removes db n keys j,
    D.get-remove db.contents k j,
    beq_iff k j,
  )

  -- After DEL the given keys are absent, and every other key holds what it held.
  pub get_entity-del :
      (db : State D) (keys : List Bytes) (j : Bytes)
      → get_entity D (state_of (exec_del D db keys)) j
        ≡ (if contains j keys then none else get_entity D db j)
  unfolding exec_del
  get_entity-del db keys j = ground (
    arith,
    get_entity-removes db 0 keys j,
    get_entity-add_aof (removes D db 0 keys).0 (to_cmd_line "del" keys) j,
  )

  -- No key of the list is bound.
  abbrev pub NoneBound : State D → List Bytes → Type 0
  NoneBound db [] = Unit
  NoneBound db (k ∷ keys) = (get_entity D db k ≡ none) × NoneBound db keys

  removes_none :
      (db : State D) (n : ℕ) (keys : List Bytes) → NoneBound db keys → removes D db n keys ≡ (db, n)
  unfolding removes get_entity
  removes_none db n [] h = refl
  removes_none db n (k ∷ keys) h = ground (arith, removes_none db n keys)

  -- DEL of keys that are all absent replies 0, changes nothing and is not logged.
  pub del_none :
      (db : State D) (keys : List Bytes)
      → NoneBound db keys
      → exec_del D db keys ≡ done (int (pos 0)) db
  unfolding exec_del
  del_none db keys h = rw (removes_none db 0 keys h)

  -- RENAME of a bound key: it is absent afterwards, the new key holds what it held, and every other
  -- key is unchanged. Where both keys are one, that key is lost.
  pub get_entity-rename :
      (db : State D) (src dest j : Bytes) (e : Entity)
      → get_entity D db src ≡ some e
      → (reply_of (exec_rename D db (src ∷ dest ∷ [])) ≡ some ok_reply)
        × (get_entity D (state_of (exec_rename D db (src ∷ dest ∷ []))) j
            ≡ (if beq src j then none else if beq dest j then some e else get_entity D db j))
  unfolding exec_rename
  get_entity-rename db src dest j e h = ground (
    arith,
    get_entity-put_entity db dest j e,
    get_entity-remove (put_entity D db dest e) src j,
    get_entity-add_aof (remove D (put_entity D db dest e) src)
        (to_cmd_line "rename" (src ∷ dest ∷ [])) j,
  )

  -- RENAMENX of a bound key never overwrites: where the destination is bound it replies 0 and no
  -- key changes; else it replies 1, the entity moves and every other key is unchanged.
  pub get_entity-rename_nx :
      (db : State D) (src dest j : Bytes) (e : Entity)
      → get_entity D db src ≡ some e
      → (reply_of (exec_rename_nx D db (src ∷ dest ∷ []))
          ≡ some (int (pos (elim (get_entity D db dest) [ some _ ↦ 0 | none ↦ 1 ]))))
        × (get_entity D (state_of (exec_rename_nx D db (src ∷ dest ∷ []))) j
            ≡ (elim (get_entity D db dest) [
              | some _ ↦ get_entity D db j
              | none ↦ if beq src j then none else if beq dest j then some e else get_entity D db j
            ]))
  unfolding exec_rename_nx
  get_entity-rename_nx db src dest j e h = ground (
    arith,
    get_entity-removes db 0 (src ∷ dest ∷ []) j,
    beq_iff src dest,
    beq_iff src j,
    beq_iff dest j,
    get_entity-put_entity (removes D db 0 (src ∷ dest ∷ [])).0 dest j e,
    get_entity-add_aof (put_entity D (removes D db 0 (src ∷ dest ∷ [])).0 dest e)
        (to_cmd_line "renamenx" (src ∷ dest ∷ [])) j,
  )

  -- After FLUSHDB no key is bound.
  pub get_entity-flush_db :
      (db : State D) (args : List Bytes) (j : Bytes)
      → get_entity D (state_of (exec_flush_db D db args)) j ≡ none
  unfolding exec_flush_db get_entity flush add_aof
  get_entity-flush_db db args j = D.get-clear db.contents j
