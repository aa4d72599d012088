-- ===== src/Database/Lists/Indexed.antt =====
-- database/list.go: LINDEX, LRANGE, LREM and LSET.
pub mod Index
pub mod Laws
pub mod Logged
pub mod Removals
use mudis.Prelude.Int.{ℤ, pos, negsuc, sub64}
use mudis.Strconv.{parse_int}
use mudis.Dict.{Dict}
use mudis.LinkedList
use mudis.LinkedList.Loops
use mudis.LinkedList.{LinkedList, Panic}
use mudis.Utils.{bytes_equals}
use mudis.Reply.{
  Reply, Slice, null_bulk, empty_multi_bulk, multi_bulk, bulk, int, standard_err, wrong_type_err,
  ok_reply,
}
use mudis.Database.{
  Entity, list, Db, Outcome, done, panic, to_cmd_line, add_aof, State, get_entity, put_entity,
  remove,
}
use mudis.Database.Strings.Counters.{not_integer}
use mudis.Database.Strings.Range.{start_index}
use mudis.Prelude.{
  ℕ, zero, suc, ◌+◌, ◌-◌, Bytes, codes, List, [], ◌∷◌, Option, none, some, Bool, true, false, ◌==◌,
  leb, ltb, length, if◌then◌else◌, Result, ok, err, ◌>>=◌, map, beq,
}
use mudis.Database.Lists.{
  as_list, insert_all, add_all, as_slice, get_as_list, put_list, get_or_init_list, put_or_remove,
}

-- The start and the exclusive end that LRANGE passes to `Range`, and the start that is out of range.
-- The sums are between indices of the list, and do not wrap.
unfoldable pub range_start : ℕ → ℤ → Option ℕ
range_start size (pos start) = if leb size start then none else some start
range_start size (negsuc n) = if ltb size (suc n) then some 0 else some (size - suc n)

unfoldable pub range_stop : ℕ → ℤ → ℕ
range_stop size (pos stop) = if ltb stop size then stop + 1 else size
range_stop size (negsuc n) = if ltb size (suc n) then 0 else size - suc n + 1

-- The three cases of LREM; the most negative count is its own negation.
unfoldable pub remove_count : Bytes → ℤ → LinkedList Slice → Result Panic (LinkedList Slice × ℕ)
remove_count value (pos zero) l = Loops.remove_all_by_val (λ v. bytes_equals v (some value)) l
remove_count value (pos (suc n)) l =
    Loops.remove_by_val (λ v. bytes_equals v (some value)) l (pos (suc n))
remove_count value (negsuc n) l =
    Loops.reverse_remove_by_val (λ v. bytes_equals v (some value)) l (sub64 (pos 0) (negsuc n))

abbrev pub out_of_range : Reply
out_of_range = standard_err (codes "ERR index out of range")

abbrev pub no_such_key : Reply
no_such_key = standard_err (codes "ERR no such key")

module _ (D : Dict Entity) where
  unfoldable pub exec_l_index : State D → List Bytes → Outcome D.Carrier
  exec_l_index db (key ∷ index ∷ _) = elim (parse_int index) [
    | err e ↦ done not_integer db
    | ok i ↦ elim (get_as_list D db key) [
      | err e ↦ done e db
      | ok none ↦ done null_bulk db
      | ok (some l) ↦ elim (start_index (LinkedList.length l) i) [
        | none ↦ done null_bulk db
        | some j ↦ elim (LinkedList.get l (pos j)) [
          | err e ↦ panic db
          | ok val ↦ done (bulk val) db
        ]
      ]
    ]
  ]
  exec_l_index db _ = panic db

  -- LRANGE behind its arguments.
  range_of : State D → LinkedList Slice → ℤ → ℤ → Outcome D.Carrier
  unfolding range_start range_stop
  range_of db l start stop = elim (range_start (LinkedList.length l) start) [
    | none ↦ done empty_multi_bulk db
    | some i ↦
        let j = range_stop (LinkedList.length l) stop in
        elim (Loops.range l (pos i) (pos (if ltb j i then i else j))) [
          | err e ↦ panic db
          | ok slice ↦ done (multi_bulk (map as_slice slice)) db
        ]
  ]

  unfoldable pub exec_l_range : State D → List Bytes → Outcome D.Carrier
  unfolding range_of
  exec_l_range db (key ∷ start ∷ stop ∷ _) = elim (parse_int start) [
    | err e ↦ done not_integer db
    | ok i ↦ elim (parse_int stop) [
      | err e ↦ done not_integer db
      | ok j ↦ elim (get_as_list D db key) [
        | err e ↦ done e db
        | ok none ↦ done empty_multi_bulk db
        | ok (some l) ↦ range_of db l i j
      ]
    ]
  ]
  exec_l_range db (key ∷ start ∷ []) = elim (parse_int start) [
    | err e ↦ done not_integer db
    | ok i ↦ panic db
  ]
  exec_l_range db _ = panic db

  unfoldable pub exec_l_rem : State D → List Bytes → Outcome D.Carrier
  unfolding remove_count put_or_remove
  exec_l_rem db (key ∷ count ∷ value ∷ rest) = elim (parse_int count) [
    | err e ↦ done not_integer db
    | ok n ↦ elim (get_as_list D db key) [
      | err e ↦ done e db
      | ok none ↦ done (int (pos 0)) db
      | ok (some l) ↦ elim (remove_count value n l) [
        | err e ↦ panic db
        | ok (l', removed) ↦
            let db' = put_or_remove D db key l' in
            done (int (pos removed)) (
              if ltb 0 removed
              then add_aof (to_cmd_line "lrem" (key ∷ count ∷ value ∷ rest)) db'
              else db')
      ]
    ]
  ]
  exec_l_rem db (key ∷ count ∷ []) = elim (parse_int count) [
    | err e ↦ done not_integer db
    | ok n ↦ panic db
  ]
  exec_l_rem db _ = panic db

  unfoldable pub exec_l_set : State D → List Bytes → Outcome D.Carrier
  unfolding put_list
  exec_l_set db (key ∷ index ∷ value ∷ rest) = elim (parse_int index) [
    | err e ↦ done not_integer db
    | ok i ↦ elim (get_as_list D db key) [
      | err e ↦ done e db
      | ok none ↦ done no_such_key db
      | ok (some l) ↦ elim (start_index (LinkedList.length l) i) [
        | none ↦ done out_of_range db
        | some j ↦ elim (LinkedList.set_at l (pos j) (some value)) [
          | err e ↦ panic db
          | ok l' ↦
              done ok_reply
                (add_aof (to_cmd_line "lset" (key ∷ index ∷ value ∷ rest)) (put_list D db key l'))
        ]
      ]
    ]
  ]
  exec_l_set db (key ∷ index ∷ []) = elim (parse_int index) [
    | err e ↦ done not_integer db
    | ok i ↦ panic db
  ]
  exec_l_set db _ = panic db
