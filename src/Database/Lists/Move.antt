-- ===== src/Database/Lists/Move.antt =====
-- database/list.go: RPOPLPUSH.
pub mod Laws
use mudis.Prelude.Int.{ℤ, pos, negsuc, sub64}
use mudis.Strconv.{parse_int}
use mudis.Dict.{Dict}
use mudis.LinkedList
use mudis.LinkedList.{LinkedList, Panic}
use mudis.Utils.{bytes_equals}
use mudis.Reply.{
  Reply, Slice, null_bulk, empty_multi_bulk, multi_bulk, bulk, int, standard_err, wrong_type_err,
  ok_reply,
}
use mudis.Database.{
  Entity, list, Db, Outcome, done, panic, to_cmd_line, add_aof, State, get_entity, put_entity,
  remove,
}
use mudis.Database.Strings.Counters.{not_integer}
use mudis.Database.Strings.Range.{start_index}
use mudis.Prelude.{
  ℕ, zero, suc, ◌+◌, ◌-◌, Bytes, codes, List, [], ◌∷◌, Option, none, some, Bool, true, false, ◌==◌,
  leb, ltb, length, if◌then◌else◌, Result, ok, err, ◌>>=◌, map, beq,
}
use mudis.Database.Lists.{
  as_list, insert_all, add_all, as_slice, get_as_list, put_list, get_or_init_list, put_or_remove,
}

module _ (D : Dict Entity) where
  -- RPOPLPUSH from the list `source`, behind the initialization of the other list `dest`. Under one
  -- key both are the same list.
  move :
      State D → Bytes → Bytes → List Bytes → LinkedList Slice → LinkedList Slice → Outcome D.Carrier
  unfolding put_list remove
  move db source_key dest_key rest source dest = elim (LinkedList.remove_last source) [
    | err e ↦ panic db
    | ok (source', val) ↦
        let same = beq source_key dest_key in
        let db₁ = put_list D db source_key source' in
        elim (LinkedList.insert (if same then source' else dest) (pos 0) (as_slice val)) [
          | err e ↦ panic db₁
          | ok dest' ↦
              let db₂ = put_list D db₁ dest_key dest' in
              let left = LinkedList.length (if same then dest' else source') in
              done (bulk (as_slice val)) (
                add_aof (to_cmd_line "rpoplpush" (source_key ∷ dest_key ∷ rest))
                  (if left == 0 then remove D db₂ source_key else db₂))
        ]
  ]

  unfoldable pub exec_r_pop_l_push : State D → List Bytes → Outcome D.Carrier
  unfolding get_or_init_list move
  exec_r_pop_l_push db (source_key ∷ dest_key ∷ rest) = elim (get_as_list D db source_key) [
    | err e ↦ done e db
    | ok none ↦ done null_bulk db
    | ok (some source) ↦ elim (get_or_init_list D db dest_key) [
      | err e ↦ done e db
      | ok (db', dest, _) ↦ move db' source_key dest_key rest source dest
    ]
  ]
  exec_r_pop_l_push db _ = panic db
