-- ===== src/Database/Sets/Algebra.antt =====
-- database/set.go: SINTER, SUNION, SDIFF and the commands that store their results.
pub mod Laws
pub mod Exact
use mudis.Prelude.Int.{pos}
use mudis.Dict.{Dict}
use mudis.Dict.GoMap.{keys}
use mudis.Set
use mudis.Set.{Set}
use mudis.Reply.{Reply, empty_multi_bulk, multi_bulk, int}
use mudis.Database.{
  Entity, hash_set, CmdLine, Outcome, done, panic, to_cmd_line, add_aof, State, put_entity, remove,
}
use mudis.Prelude.{
  Bytes, List, [], ◌∷◌, Option, none, some, Bool, true, false, ◌==◌, if◌then◌else◌, Result, ok, err,
}
use mudis.Database.Sets.{get_as_set, members_of}

-- Why a loop over the keys returns early: an error, or a result that is known to be empty.
pub data Stop : Type 0 where
  failed : Reply → Stop
  nothing : Stop

module _ (D : Dict Entity) where
  -- The loops over the keys; `none` is the nil set before the first set is found.
  pub inter_loop : State D → Option Set → List Bytes → Result Stop (Option Set)
  unfolding get_as_set
  inter_loop db result [] = ok result
  inter_loop db result (key ∷ keys) = elim (get_as_set D db key) [
    | err e ↦ err (failed e)
    | ok none ↦ err nothing
    | ok (some s) ↦ elim result [
      | none ↦ inter_loop db (some (Set.make (Set.to_slice s))) keys
      | some r ↦
          let rest = inter_loop db (some (Set.intersect r s)) keys in
          if Set.len (Set.intersect r s) == 0 then err nothing else rest
    ]
  ]

  pub union_loop : State D → Option Set → List Bytes → Result Stop (Option Set)
  unfolding get_as_set
  union_loop db result [] = ok result
  union_loop db result (key ∷ keys) = elim (get_as_set D db key) [
    | err e ↦ err (failed e)
    | ok none ↦ union_loop db result keys
    | ok (some s) ↦ elim result [
      | none ↦ union_loop db (some (Set.make (Set.to_slice s))) keys
      | some r ↦ union_loop db (some (Set.union r s)) keys
    ]
  ]

  -- `at_start` says that the key is the first one.
  pub diff_loop : State D → Bool → Option Set → List Bytes → Result Stop (Option Set)
  unfolding get_as_set
  diff_loop db at_start result [] = ok result
  diff_loop db at_start result (key ∷ keys) = elim (get_as_set D db key) [
    | err e ↦ err (failed e)
    | ok none ↦ elim at_start [ true ↦ err nothing | false ↦ diff_loop db false result keys ]
    | ok (some s) ↦ elim result [
      | none ↦ diff_loop db false (some (Set.make (Set.to_slice s))) keys
      | some r ↦
          let rest = diff_loop db false (some (Set.diff r s)) keys in
          if Set.len (Set.diff r s) == 0 then err nothing else rest
    ]
  ]

  -- A set is written under the destination as a copy, and the command is logged.
  store : State D → CmdLine → Bytes → Set → Outcome D.Carrier
  unfolding put_entity
  store db line dest r =
      let s = Set.make (Set.to_slice r) in
      done (int (pos (Set.len s))) (add_aof line (put_entity D db dest (hash_set s)))

  -- What SINTER replies for the result of its loop; a call on the nil set panics.
  inter_reply : State D → Result Stop (Option Set) → Outcome D.Carrier
  unfolding members_of
  inter_reply db (err (failed e)) = done e db
  inter_reply db (err nothing) = done empty_multi_bulk db
  inter_reply db (ok none) = panic db
  inter_reply db (ok (some r)) = done (multi_bulk (members_of r)) db

  -- What SUNION and SDIFF reply, which test for the nil set.
  members_reply : State D → Result Stop (Option Set) → Outcome D.Carrier
  unfolding members_of
  members_reply db (err (failed e)) = done e db
  members_reply db (err nothing) = done empty_multi_bulk db
  members_reply db (ok none) = done empty_multi_bulk db
  members_reply db (ok (some r)) = done (multi_bulk (members_of r)) db

  unfoldable pub exec_s_inter : State D → List Bytes → Outcome D.Carrier
  unfolding inter_loop inter_reply
  exec_s_inter db args = inter_reply db (inter_loop db none args)

  unfoldable pub exec_s_inter_store : State D → List Bytes → Outcome D.Carrier
  unfolding inter_loop remove store
  exec_s_inter_store db [] = panic db
  exec_s_inter_store db (dest ∷ keys) = elim (inter_loop db none keys) [
    | err (failed e) ↦ done e db
    | err nothing ↦ done (int (pos 0)) (remove D db dest)
    | ok none ↦ panic db
    | ok (some r) ↦ store db (to_cmd_line "sinterstore" (dest ∷ keys)) dest r
  ]

  unfoldable pub exec_s_union : State D → List Bytes → Outcome D.Carrier
  unfolding union_loop members_reply
  exec_s_union db args = members_reply db (union_loop db none args)

  unfoldable pub exec_s_union_store : State D → List Bytes → Outcome D.Carrier
  unfolding union_loop remove store
  exec_s_union_store db [] = panic db
  exec_s_union_store db (dest ∷ keys) = elim (union_loop db none keys) [
    | err (failed e) ↦ done e db
    | err nothing ↦ done empty_multi_bulk (remove D db dest)
    | ok none ↦ done empty_multi_bulk (remove D db dest)
    | ok (some r) ↦ store (remove D db dest) (to_cmd_line "sunionstore" (dest ∷ keys)) dest r
  ]

  unfoldable pub exec_s_diff : State D → List Bytes → Outcome D.Carrier
  unfolding diff_loop members_reply
  exec_s_diff db args = members_reply db (diff_loop db true none args)

  unfoldable pub exec_s_diff_store : State D → List Bytes → Outcome D.Carrier
  unfolding diff_loop remove store
  exec_s_diff_store db [] = panic db
  exec_s_diff_store db (dest ∷ keys) = elim (diff_loop db true none keys) [
    | err (failed e) ↦ done e db
    | err nothing ↦ done (int (pos 0)) (remove D db dest)
    | ok none ↦ done empty_multi_bulk (remove D db dest)
    | ok (some r) ↦ store db (to_cmd_line "sdiffstore" (dest ∷ keys)) dest r
  ]
