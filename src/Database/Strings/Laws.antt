-- ===== src/Database/Strings/Laws.antt =====
-- What SET, APPEND, GETSET and SETRANGE store, as later commands see it.
use mudis.Prelude.Int.{pos}
use mudis.Dict.{Dict}
use mudis.Reply.{ok_reply, null_bulk, bulk, int, wrong_type_err}
use mudis.Database.{
  Entity, string, done, reply_of, state_of, add_aof, State, get_entity, put_entity,
}
use mudis.Database.Strings.{
  get_as_string, exec_get, exec_set, exec_append, exec_get_set, exec_str_len,
}
use mudis.Database.Strings.Counters.{exec_incr, exec_decr}
use mudis.Prelude.{
  Bytes, codes, [], ◌∷◌, ◌++◌, none, some, length, if◌then◌else◌, to_upper, ok, err, beq, ◌≡◌, refl,
  arith, beq_refl,
}

module _ (D : Dict Entity) (db : State D) where
  -- SET without options replies OK, and afterwards GET of that key replies the value; GET of any
  -- other key replies what it did before.
  pub get-set :
      (k v j : Bytes)
      → (reply_of (exec_set D db (k ∷ v ∷ [])) ≡ some ok_reply)
        × (reply_of (exec_get D (state_of (exec_set D db (k ∷ v ∷ []))) (j ∷ []))
            ≡ (if beq k j then some (bulk (some v)) else reply_of (exec_get D db (j ∷ []))))
  unfolding exec_set exec_get get_as_string put_entity add_aof
  get-set k v j = (refl, ground (arith, D.get-put db.contents k j (string (some v))))

  -- SET with NX, in any letter case, writes exactly if the key is absent; the reply says whether it
  -- did, and no other key changes.
  pub set_nx :
      (k v option j : Bytes)
      → to_upper option ≡ codes "NX"
      → (reply_of (exec_set D db (k ∷ v ∷ option ∷ []))
          ≡ some (elim (get_entity D db k) [ none ↦ ok_reply | some _ ↦ null_bulk ]))
        × (get_entity D (state_of (exec_set D db (k ∷ v ∷ option ∷ []))) j
            ≡ (elim (get_entity D db k) [
              | none ↦ if beq k j then some (string (some v)) else get_entity D db j
              | some _ ↦ get_entity D db j
            ]))
  unfolding exec_set get_entity add_aof beq
  set_nx k v option j h = ground (
    arith,
    D.put_if_absent_result db.contents k (string (some v)),
    D.get-put_if_absent db.contents k j (string (some v)),
  )

  -- SET with XX, in any letter case, writes exactly if the key is there; the reply says whether it
  -- did, and no other key changes.
  pub set_xx :
      (k v option j : Bytes)
      → to_upper option ≡ codes "XX"
      → (reply_of (exec_set D db (k ∷ v ∷ option ∷ []))
          ≡ some (elim (get_entity D db k) [ none ↦ null_bulk | some _ ↦ ok_reply ]))
        × (get_entity D (state_of (exec_set D db (k ∷ v ∷ option ∷ []))) j
            ≡ (elim (get_entity D db k) [
              | none ↦ get_entity D db j
              | some _ ↦ if beq k j then some (string (some v)) else get_entity D db j
            ]))
  unfolding exec_set get_entity add_aof beq
  set_xx k v option j h = ground (
    arith,
    D.put_if_exists_result db.contents k (string (some v)),
    D.get-put_if_exists db.contents k j (string (some v)),
  )

  -- APPEND to a string replies the new length, and GET then replies both parts together.
  pub get-append :
      (k s v : Bytes)
      → get_as_string D db k ≡ ok (some s)
      → (reply_of (exec_append D db (k ∷ v ∷ [])) ≡ some (int (pos (length (s ++ v)))))
        × (reply_of (exec_get D (state_of (exec_append D db (k ∷ v ∷ []))) (k ∷ []))
            ≡ some (bulk (some (s ++ v))))
  unfolding exec_append exec_get get_as_string put_entity add_aof
  get-append k s v h =
      ground (arith, D.get-put db.contents k k (string (some (s ++ v))), beq_refl k)

  -- GETSET of an absent key replies null, and GET then replies the new value, but nothing is handed
  -- to the log.
  pub get_set_absent_not_logged :
      (k v : Bytes)
      → get_entity D db k ≡ none
      → (reply_of (exec_get_set D db (k ∷ v ∷ [])) ≡ some null_bulk)
        × (reply_of (exec_get D (state_of (exec_get_set D db (k ∷ v ∷ []))) (k ∷ []))
            ≡ some (bulk (some v)))
        × ((state_of (exec_get_set D db (k ∷ v ∷ []))).aof ≡ db.aof)
  unfolding exec_get_set exec_get get_as_string put_entity add_aof
  get_set_absent_not_logged k v h =
      ground (arith, D.get-put db.contents k k (string (some v)), beq_refl k)

  -- A key of another type: the commands that read a string reply the type error and change nothing.
  pub wrong_type_unchanged :
      (k v : Bytes)
      → get_as_string D db k ≡ err wrong_type_err
      → (exec_get D db (k ∷ []) ≡ done wrong_type_err db)
        × (exec_get_set D db (k ∷ v ∷ []) ≡ done wrong_type_err db)
        × (exec_append D db (k ∷ v ∷ []) ≡ done wrong_type_err db)
        × (exec_str_len D db (k ∷ []) ≡ done wrong_type_err db)
        × (exec_incr D db (k ∷ []) ≡ done wrong_type_err db)
        × (exec_decr D db (k ∷ []) ≡ done wrong_type_err db)
  unfolding exec_get exec_get_set exec_append exec_str_len exec_incr exec_decr
  wrong_type_unchanged k v h = ground arith
