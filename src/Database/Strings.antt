-- ===== src/Database/Strings.antt =====
-- database/string.go: the commands on string values.
pub mod Range
pub mod Counters
pub mod Laws
pub mod Bulk
pub mod Logged
use mudis.Prelude.Int.{ℤ, pos, negsuc, add64, sub64, max_int}
use mudis.Strconv.{NumError, parse_int, format_int}
use mudis.Dict.{Dict}
use mudis.Reply.{
  Reply, Slice, ok_reply, null_bulk, bulk, multi_bulk, int, standard_err, syntax_err,
  wrong_type_err,
}
use mudis.Database.{
  Entity, string, CmdLine, Db, Outcome, done, panic, to_cmd_line, add_aof, State, get_entity,
  put_entity, put_if_exists, put_if_absent,
}
use mudis.Database.Strings.Range.{index_range, overwrite}
use mudis.Prelude.{
  ℕ, zero, suc, ◌+◌, ◌-◌, ◌%◌, Bytes, codes, List, [], ◌∷◌, ◌++◌, Option, none, some, Bool, true,
  false, ◌==◌, leb, ltb, length, if◌then◌else◌, to_upper, Result, ok, err, beq, take, drop,
  replicate, set,
}

-- The bytes of a slice that may be nil, and `len` of it.
abbrev pub bytes_of : Slice → Bytes
bytes_of none = []
bytes_of (some s) = s

-- What `append` makes of a slice and of its new contents: nil and nothing stay nil.
abbrev pub grown : Slice → Bytes → Slice
grown none [] = none
grown _ s = some s

-- What the type test of `getAsString` makes of an entity.
unfoldable pub as_string : Option Entity → Result Reply Slice
as_string none = ok none
as_string (some (string s)) = ok s
as_string (some _) = err wrong_type_err

pub data Policy : Type 0 where
  upsert_policy insert_policy update_policy : Policy

-- The option loop of `execSet`; `none` is a syntax error.
set_policy : Policy → List Bytes → Option Policy
set_policy p [] = some p
set_policy p (arg ∷ args) =
    let rest_insert = set_policy insert_policy args in
    let rest_update = set_policy update_policy args in
    if beq (to_upper arg) (codes "NX")
    then (elim p [ update_policy ↦ none | _ ↦ rest_insert ])
    else if beq (to_upper arg) (codes "XX")
    then (elim p [ insert_policy ↦ none | _ ↦ rest_update ])
    else none

-- `args[2*i]` and `args[2*i+1]` for each `i` below `len(args)/2`.
pub pairs : List Bytes → List (Bytes × Bytes)
pairs (k ∷ v ∷ rest) = (k, v) ∷ pairs rest
pairs _ = []

is_even : List Bytes → Bool
is_even args = length args % 2 == 0

module _ (D : Dict Entity) where
  unfoldable pub get_as_string : State D → Bytes → Result Reply Slice
  unfolding get_entity as_string
  get_as_string db key = as_string (get_entity D db key)

  unfoldable pub exec_get : State D → List Bytes → Outcome D.Carrier
  exec_get db [] = panic db
  exec_get db (key ∷ _) = elim (get_as_string db key) [
    | err e ↦ done e db
    | ok none ↦ done null_bulk db
    | ok (some s) ↦ done (bulk (some s)) db
  ]

  -- The switch on the policy: the new state, and whether anything was written.
  store_by : Policy → State D → Bytes → Entity → State D × ℕ
  unfolding put_entity put_if_absent put_if_exists
  store_by upsert_policy db key e = (put_entity D db key e, 1)
  store_by insert_policy db key e = put_if_absent D db key e
  store_by update_policy db key e = put_if_exists D db key e

  unfoldable pub exec_set : State D → List Bytes → Outcome D.Carrier
  unfolding set_policy store_by
  exec_set db (key ∷ value ∷ options) = elim (set_policy upsert_policy options) [
    | none ↦ done syntax_err db
    | some policy ↦
        let (db', result) = store_by policy db key (string (some value)) in
        done (if ltb 0 result then ok_reply else null_bulk)
          (add_aof (to_cmd_line "set" (key ∷ value ∷ options)) db')
  ]
  exec_set db _ = panic db

  unfoldable pub exec_set_nx : State D → List Bytes → Outcome D.Carrier
  unfolding put_if_absent
  exec_set_nx db (key ∷ value ∷ rest) =
      let (db', result) = put_if_absent D db key (string (some value)) in
      done (int (pos result)) (add_aof (to_cmd_line "setnx" (key ∷ value ∷ rest)) db')
  exec_set_nx db _ = panic db

  pub put_all : State D → List (Bytes × Bytes) → State D
  unfolding put_entity
  put_all db [] = db
  put_all db ((k, v) ∷ rest) = put_all (put_entity D db k (string (some v))) rest

  unfoldable pub exec_m_set : State D → List Bytes → Outcome D.Carrier
  unfolding is_even put_all pairs
  exec_m_set db args =
      if is_even args
      then done ok_reply (add_aof (to_cmd_line "mset" args) (put_all db (pairs args)))
      else done syntax_err db

  -- The loop of `execMGet`: a value of another type is listed as nil.
  m_get : State D → List Bytes → List Slice
  unfolding get_as_string
  m_get db [] = []
  m_get db (key ∷ keys) = (elim (get_as_string db key) [ err e ↦ none | ok s ↦ s ]) ∷ m_get db keys

  unfoldable pub exec_m_get : State D → List Bytes → Outcome D.Carrier
  unfolding m_get
  exec_m_get db args = done (multi_bulk (m_get db args)) db

  any_exists : State D → List (Bytes × Bytes) → Bool
  unfolding get_entity
  any_exists db [] = false
  any_exists db ((k, _) ∷ rest) = elim (get_entity D db k) [
    | some _ ↦ true
    | none ↦ any_exists db rest
  ]

  unfoldable pub exec_m_set_nx : State D → List Bytes → Outcome D.Carrier
  unfolding is_even any_exists put_all pairs
  exec_m_set_nx db args =
      if is_even args
      then (if any_exists db (pairs args)
          then done (int (pos 0)) db
          else done (int (pos 1)) (add_aof (to_cmd_line "msetnx" args) (put_all db (pairs args))))
      else done syntax_err db

  unfoldable pub exec_get_set : State D → List Bytes → Outcome D.Carrier
  unfolding put_entity
  exec_get_set db (key ∷ value ∷ rest) = elim (get_as_string db key) [
    | err e ↦ done e db
    | ok none ↦ done null_bulk (put_entity D db key (string (some value)))
    | ok (some old) ↦ done (bulk (some old)) (
        add_aof (to_cmd_line "getset" (key ∷ value ∷ rest))
          (put_entity D db key (string (some value))))
  ]
  exec_get_set db _ = panic db

  unfoldable pub exec_str_len : State D → List Bytes → Outcome D.Carrier
  exec_str_len db [] = panic db
  exec_str_len db (key ∷ _) = elim (get_as_string db key) [
    | err e ↦ done e db
    | ok s ↦ done (int (pos (length (bytes_of s)))) db
  ]

  unfoldable pub exec_append : State D → List Bytes → Outcome D.Carrier
  unfolding put_entity
  exec_append db (key ∷ value ∷ rest) = elim (get_as_string db key) [
    | err e ↦ done e db
    | ok s ↦ done (int (pos (length (bytes_of s ++ value)))) (
        add_aof (to_cmd_line "append" (key ∷ value ∷ rest))
          (put_entity D db key (string (grown s (bytes_of s ++ value)))))
  ]
  exec_append db _ = panic db

  -- `execSetRange` behind its checks; a negative index panics before anything is written.
  set_range : State D → CmdLine → Bytes → ℤ → Bytes → Slice → Outcome D.Carrier
  unfolding put_entity overwrite
  set_range db line key (pos offset) value s =
      let s' = overwrite (bytes_of s) offset value in
      done (int (pos (length s'))) (add_aof line (put_entity D db key (string (grown s s'))))
  set_range db line key (negsuc n) [] s =
      done (int (pos (length (bytes_of s)))) (add_aof line (put_entity D db key (string s)))
  set_range db line key (negsuc n) (c ∷ value) s = panic db

  -- The text of a number that does not parse is strconv's.
  module _ (error_text : NumError → Bytes → Bytes) where
    unfoldable pub exec_set_range : State D → List Bytes → Outcome D.Carrier
    unfolding set_range
    exec_set_range db (key ∷ offset ∷ value ∷ rest) = elim (parse_int offset) [
      | err e ↦ done (standard_err (error_text e offset)) db
      | ok n ↦ elim (get_as_string db key) [
        | err e ↦ done e db
        | ok s ↦ set_range db (to_cmd_line "setRange" (key ∷ offset ∷ value ∷ rest)) key n value s
      ]
    ]
    exec_set_range db _ = panic db

    unfoldable pub exec_get_range : State D → List Bytes → Outcome D.Carrier
    unfolding index_range
    exec_get_range db (key ∷ start ∷ stop ∷ _) = elim (parse_int start) [
      | err e ↦ done (standard_err (error_text e start)) db
      | ok i ↦ elim (parse_int stop) [
        | err e ↦ done (standard_err (error_text e stop)) db
        | ok j ↦ elim (get_as_string db key) [
          | err e ↦ done e db
          | ok none ↦ done null_bulk db
          | ok (some s) ↦ elim (index_range (length s) i j) [
            | none ↦ done null_bulk db
            | some (from, to) ↦ done (bulk (some (drop from (take to s)))) db
          ]
        ]
      ]
    ]
    exec_get_range db _ = panic db
