-- ===== src/Database/Lists.antt =====
-- database/list.go: the commands on lists. A list is changed in place under its key, and no two keys
-- share one. Where a method of a list panics, the command does, and what the method changed before is
-- not modelled.
pub mod Logged
pub mod Holds
pub mod Pushes
pub mod Indexed
pub mod Move
pub mod Undo
use mudis.Prelude.Int.{ℤ, pos, negsuc, sub64}
use mudis.Strconv.{parse_int}
use mudis.Dict.{Dict}
use mudis.LinkedList
use mudis.LinkedList.{LinkedList, Panic}
use mudis.Utils.{bytes_equals}
use mudis.Reply.{
  Reply, Slice, null_bulk, empty_multi_bulk, multi_bulk, bulk, int, standard_err, wrong_type_err,
  ok_reply,
}
use mudis.Database.{
  Entity, list, Db, Outcome, done, panic, to_cmd_line, add_aof, State, get_entity, put_entity,
  remove,
}
use mudis.Database.Strings.Counters.{not_integer}
use mudis.Database.Strings.Range.{start_index}
use mudis.Prelude.{
  ℕ, zero, suc, ◌+◌, ◌-◌, Bytes, codes, List, [], ◌∷◌, Option, none, some, Bool, true, false, ◌==◌,
  leb, ltb, length, if◌then◌else◌, Result, ok, err, ◌>>=◌, map, beq,
}

-- The type test of `getAsList`.
unfoldable pub as_list : Option Entity → Result Reply (Option (LinkedList Slice))
as_list none = ok none
as_list (some (list l)) = ok (some l)
as_list (some _) = err wrong_type_err

-- The loops of LPUSH and RPUSH.
unfoldable pub insert_all : LinkedList Slice → List Bytes → Result Panic (LinkedList Slice)
insert_all l [] = ok l
insert_all l (value ∷ values) = do
  l' ← LinkedList.insert l (pos 0) (some value)
  insert_all l' values

unfoldable pub add_all : LinkedList Slice → List Bytes → Result Panic (LinkedList Slice)
add_all l [] = ok l
add_all l (value ∷ values) = do l' ← LinkedList.add l (some value); add_all l' values

-- A nil interface becomes a nil slice.
abbrev pub as_slice : Option Slice → Slice
as_slice none = none
as_slice (some s) = s

module _ (D : Dict Entity) where
  unfoldable pub get_as_list : State D → Bytes → Result Reply (Option (LinkedList Slice))
  unfolding get_entity as_list
  get_as_list db key = as_list (get_entity D db key)

  -- A list that is changed in place.
  unfoldable pub put_list : State D → Bytes → LinkedList Slice → State D
  unfolding put_entity
  put_list db key l = put_entity D db key (list l)

  -- An absent key gets an empty list.
  unfoldable pub get_or_init_list :
      State D → Bytes → Result Reply (State D × LinkedList Slice × Bool)
  get_or_init_list db key = elim (get_as_list db key) [
    | err e ↦ err e
    | ok (some l) ↦ ok (db, l, false)
    | ok none ↦ ok (put_list db key LinkedList.empty, LinkedList.empty, true)
  ]

  -- A list that is changed in place, and removed when it is empty.
  unfoldable pub put_or_remove : State D → Bytes → LinkedList Slice → State D
  unfolding put_list remove
  put_or_remove db key l =
      let db' = put_list db key l in if LinkedList.length l == 0 then remove D db' key else db'

  unfoldable pub exec_l_len : State D → List Bytes → Outcome D.Carrier
  exec_l_len db [] = panic db
  exec_l_len db (key ∷ _) = elim (get_as_list db key) [
    | err e ↦ done e db
    | ok none ↦ done (int (pos 0)) db
    | ok (some l) ↦ done (int (pos (LinkedList.length l))) db
  ]

  unfoldable pub exec_l_pop : State D → List Bytes → Outcome D.Carrier
  unfolding put_or_remove
  exec_l_pop db [] = panic db
  exec_l_pop db (key ∷ rest) = elim (get_as_list db key) [
    | err e ↦ done e db
    | ok none ↦ done null_bulk db
    | ok (some l) ↦ elim (LinkedList.remove l (pos 0)) [
      | err e ↦ panic db
      | ok (l', val) ↦
          done (bulk val) (add_aof (to_cmd_line "lpop" (key ∷ rest)) (put_or_remove db key l'))
    ]
  ]

  unfoldable pub exec_l_push : State D → List Bytes → Outcome D.Carrier
  unfolding get_or_init_list insert_all put_list
  exec_l_push db [] = panic db
  exec_l_push db (key ∷ values) = elim (get_or_init_list db key) [
    | err e ↦ done e db
    | ok (db', l, _) ↦ elim (insert_all l values) [
      | err e ↦ panic db'
      | ok l' ↦
          done (int (pos (LinkedList.length l')))
            (add_aof (to_cmd_line "lpush" (key ∷ values)) (put_list db' key l'))
    ]
  ]

  unfoldable pub exec_l_push_x : State D → List Bytes → Outcome D.Carrier
  unfolding insert_all put_list
  exec_l_push_x db [] = panic db
  exec_l_push_x db (key ∷ values) = elim (get_as_list db key) [
    | err e ↦ done e db
    | ok none ↦ done (int (pos 0)) db
    | ok (some l) ↦ elim (insert_all l values) [
      | err e ↦ panic db
      | ok l' ↦
          done (int (pos (LinkedList.length l')))
            (add_aof (to_cmd_line "lpushx" (key ∷ values)) (put_list db key l'))
    ]
  ]

  unfoldable pub exec_r_pop : State D → List Bytes → Outcome D.Carrier
  unfolding put_or_remove
  exec_r_pop db [] = panic db
  exec_r_pop db (key ∷ rest) = elim (get_as_list db key) [
    | err e ↦ done e db
    | ok none ↦ done null_bulk db
    | ok (some l) ↦ elim (LinkedList.remove_last l) [
      | err e ↦ panic db
      | ok (l', val) ↦
          done (bulk (as_slice val))
            (add_aof (to_cmd_line "rpop" (key ∷ rest)) (put_or_remove db key l'))
    ]
  ]

  unfoldable pub exec_r_push : State D → List Bytes → Outcome D.Carrier
  unfolding get_or_init_list add_all put_list
  exec_r_push db [] = panic db
  exec_r_push db (key ∷ values) = elim (get_or_init_list db key) [
    | err e ↦ done e db
    | ok (db', l, _) ↦ elim (add_all l values) [
      | err e ↦ panic db'
      | ok l' ↦
          done (int (pos (LinkedList.length l')))
            (add_aof (to_cmd_line "rpush" (key ∷ values)) (put_list db' key l'))
    ]
  ]

  unfoldable pub exec_r_push_x : State D → List Bytes → Outcome D.Carrier
  unfolding add_all put_list
  exec_r_push_x db (key ∷ value ∷ values) = elim (get_as_list db key) [
    | err e ↦ done e db
    | ok none ↦ done (int (pos 0)) db
    | ok (some l) ↦ elim (add_all l (value ∷ values)) [
      | err e ↦ panic db
      | ok l' ↦
          done (int (pos (LinkedList.length l')))
            (add_aof (to_cmd_line "rpushx" (key ∷ value ∷ values)) (put_list db key l'))
    ]
  ]
  exec_r_push_x db _ =
      done (standard_err (codes "ERR wrong number of arguments for 'rpush' command")) db
