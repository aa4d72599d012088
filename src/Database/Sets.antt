-- ===== src/Database/Sets.antt =====
-- database/set.go: the commands on sets. A set is changed in place under its key.
pub mod Algebra
pub mod Laws
pub mod Logged
use mudis.Prelude.Int.{ℤ, pos, negsuc}
use mudis.Strconv.{parse_int}
use mudis.Dict.{Dict}
use mudis.Dict.GoMap.{keys}
use mudis.Set
use mudis.Set.{Set}
use mudis.Reply.{
  Reply, Slice, null_bulk, empty_multi_bulk, multi_bulk, int, standard_err, wrong_type_err,
}
use mudis.Database.{
  Entity, hash_set, CmdLine, Db, Outcome, done, panic, to_cmd_line, add_aof, State, get_entity,
  put_entity, remove,
}
use mudis.Prelude.{
  ℕ, zero, suc, ◌+◌, Bytes, codes, List, [], ◌∷◌, ◌++◌, Option, none, some, Bool, true, false, ◌==◌,
  ltb, length, if◌then◌else◌, Result, ok, err, map, set, replicate,
}

-- The type test of `getAsSet`.
unfoldable pub as_set : Option Entity → Result Reply (Option Set)
as_set none = ok none
as_set (some (hash_set s)) = ok (some s)
as_set (some _) = err wrong_type_err

-- The set that `getOrInitSet` returns.
or_init : Option Set → Set
or_init none = Set.make []
or_init (some s) = s

-- The loops of SADD and SREM, with the count so far.
add_members : Set → ℕ → List Bytes → Set × ℕ
add_members s counter [] = (s, counter)
add_members s counter (member ∷ members) =
    let (s', n) = Set.add s member in add_members s' (counter + n) members

remove_members : Set → ℕ → List Bytes → Set × ℕ
remove_members s counter [] = (s, counter)
remove_members s counter (member ∷ members) =
    let (s', n) = Set.remove s member in remove_members s' (counter + n) members

-- `arr[i] = []byte(member)` over the visited members.
array_loop : ℕ → List Slice → List Bytes → List Slice
array_loop i arr [] = arr
array_loop i arr (member ∷ members) = array_loop (i + 1) (set arr i (some member)) members

-- The array of a set's members that the commands reply.
unfoldable pub members_of : Set → List Slice
unfolding array_loop
members_of s = array_loop 0 (replicate (Set.len s) none) (keys s.dict.m)

abbrev not_positive : Reply
not_positive = standard_err (codes "ERR value is out of range, must be positive")

-- The count of SPOP.
pop_count : List Bytes → Option ℕ
pop_count [] = some 1
pop_count (arg ∷ _) = elim (parse_int arg) [ ok (pos (suc n)) ↦ some (suc n) | _ ↦ none ]

module _ (D : Dict Entity) where
  unfoldable pub get_as_set : State D → Bytes → Result Reply (Option Set)
  unfolding get_entity as_set
  get_as_set db key = as_set (get_entity D db key)

  unfoldable pub exec_s_add : State D → List Bytes → Outcome D.Carrier
  unfolding put_entity or_init add_members
  exec_s_add db [] = panic db
  exec_s_add db (key ∷ members) = elim (get_as_set db key) [
    | err e ↦ done e db
    | ok found ↦
        let (s, counter) = add_members (or_init found) 0 members in
        done (int (pos counter))
          (add_aof (to_cmd_line "sadd" (key ∷ members)) (put_entity D db key (hash_set s)))
  ]

  unfoldable pub exec_s_is_member : State D → List Bytes → Outcome D.Carrier
  exec_s_is_member db (key ∷ member ∷ _) = elim (get_as_set db key) [
    | err e ↦ done e db
    | ok none ↦ done (int (pos 0)) db
    | ok (some s) ↦ done (int (pos (if Set.has s member then 1 else 0))) db
  ]
  exec_s_is_member db _ = panic db

  -- An empty set is removed; a command that removed nothing is not logged.
  unfoldable pub exec_s_rem : State D → List Bytes → Outcome D.Carrier
  unfolding put_entity remove remove_members
  exec_s_rem db [] = panic db
  exec_s_rem db (key ∷ members) = elim (get_as_set db key) [
    | err e ↦ done e db
    | ok none ↦ done (int (pos 0)) db
    | ok (some old) ↦
        let (s, counter) = remove_members old 0 members in
        let db' = put_entity D db key (hash_set s) in
        let db'' = (if Set.len s == 0 then remove D db' key else db') in
        done (int (pos counter))
          (if ltb 0 counter then add_aof (to_cmd_line "srem" (key ∷ members)) db'' else db'')
  ]

  pop : State D → Bytes → List Bytes → Set → ℕ → Outcome D.Carrier
  unfolding put_entity remove_members
  pop db key rest s asked =
      let count = (if ltb (Set.len s) asked then Set.len s else asked) in
      let members = Set.random_distinct_members s count in
      let (s', _) = remove_members s 0 members in
      let db' = put_entity D db key (hash_set s') in
      done (multi_bulk (map some members))
        (if ltb 0 count then add_aof (to_cmd_line "spop" (key ∷ rest)) db' else db')

  -- SPOP behind its test of the number of arguments.
  spop : State D → Bytes → List Bytes → Outcome D.Carrier
  unfolding pop pop_count
  spop db key rest = elim (get_as_set db key) [
    | err e ↦ done e db
    | ok none ↦ done null_bulk db
    | ok (some s) ↦ elim (pop_count rest) [
      | none ↦ done not_positive db
      | some asked ↦ pop db key rest s asked
    ]
  ]

  unfoldable pub exec_s_pop : State D → List Bytes → Outcome D.Carrier
  unfolding spop
  exec_s_pop db (key ∷ []) = spop db key []
  exec_s_pop db (key ∷ count ∷ []) = spop db key (count ∷ [])
  exec_s_pop db _ =
      done (standard_err (codes "ERR wrong number of arguments for 'spop' command")) db

  unfoldable pub exec_s_card : State D → List Bytes → Outcome D.Carrier
  exec_s_card db [] = panic db
  exec_s_card db (key ∷ _) = elim (get_as_set db key) [
    | err e ↦ done e db
    | ok none ↦ done (int (pos 0)) db
    | ok (some s) ↦ done (int (pos (Set.len s))) db
  ]

  unfoldable pub exec_s_members : State D → List Bytes → Outcome D.Carrier
  unfolding members_of
  exec_s_members db [] = panic db
  exec_s_members db (key ∷ _) = elim (get_as_set db key) [
    | err e ↦ done e db
    | ok none ↦ done empty_multi_bulk db
    | ok (some s) ↦ done (multi_bulk (members_of s)) db
  ]
