-- ===== src/Tests/Lists.antt =====
-- The list commands on a database with a list of three values.
use mudis.Database.Lists.Holds.{Holds, Holds-elsewhere, Runs, SameElsewhere}
use mudis.Database.Lists.{exec_r_push, exec_l_push, get_as_list, as_list}
use mudis.Database.Lists.Pushes.{l_push-Runs, r_push-Runs}
use mudis.Database.Lists.Indexed.{exec_l_range, exec_l_set, exec_l_rem}
use mudis.Database.Lists.Indexed.Index.{set_index, window}
use mudis.Database.Lists.Indexed.Laws.{l_range-window, l_set-Runs, wire}
use mudis.Database.Lists.Indexed.Removals.{l_rem-left_by, left_by}
use mudis.Database.Lists.Move.{exec_r_pop_l_push}
use mudis.Database.Lists.Move.Laws.{r_pop_l_push-move}
use mudis.Database.Lists.Undo.{undo_r_pop_l_push}
use mudis.Database.Lists.Undo.Laws.{Restores, undo-r_pop_l_push}
use mudis.Dict.{Dict}
use mudis.Dict.Simple
use mudis.Dict.Simple.Laws.{simple_dict}
use mudis.Dict.GoMap.{lookup}
use mudis.Strconv.{parse_int, parse_uint, parse_digits, is_digit}
use mudis.Reply.{Slice, bulk, int, ok_reply, multi_bulk, to_bytes}
use mudis.Database.{Entity, State, state_of, reply_of, done, get_entity, to_cmd_line}
use mudis.Prelude.Int.{pos, negsuc}
use mudis.Prelude.{
  ◌+◌, Bytes, codes, List, [], ◌∷◌, ◌++◌, some, ◌||◌, length, map, beq, reverse_onto, if◌then◌else◌,
  ltb, ◌≡◌, refl, arith,
}

abbrev pub dict : Dict Entity
dict = simple_dict Entity

abbrev pub k : Bytes
k = codes "k"

abbrev other : Bytes
other = codes "o"

abbrev pub a : Bytes
a = codes "a"

abbrev b : Bytes
b = codes "b"

abbrev pub empty_db : State dict
empty_db = record { contents = record { m = [] }; aof = [] }

abbrev values_aba : List Slice
values_aba = some a ∷ some b ∷ some a ∷ []

-- The database behind RPUSH k a b a.
abbrev pub list_db : State dict
list_db = state_of (exec_r_push dict empty_db (k ∷ a ∷ b ∷ a ∷ []))

empty_db-Holds : (j : Bytes) → Holds dict empty_db j []
unfolding get_as_list get_entity as_list Simple.get lookup
empty_db-Holds j = refl

aba_pushed :
    Runs dict empty_db
      (exec_r_push dict empty_db (k ∷ a ∷ b ∷ a ∷ []))
      (int (pos (length {A = Slice} [] + 3)))
      k
      values_aba
      (to_cmd_line "rpush" (k ∷ a ∷ b ∷ a ∷ []))
aba_pushed = r_push-Runs dict empty_db k [] a (b ∷ a ∷ []) (empty_db-Holds k)

list_db-Holds : Holds dict list_db k values_aba
list_db-Holds = aba_pushed.holds

other-Holds : Holds dict list_db other []
unfolding beq
other-Holds =
    Holds-elsewhere dict empty_db list_db k other [] (aba_pushed.elsewhere) refl
      (empty_db-Holds other)

l_push-Runs_example :
    Runs dict list_db
      (exec_l_push dict list_db (k ∷ b ∷ a ∷ []))
      (int (pos (length values_aba + length (b ∷ a ∷ []))))
      k
      (reverse_onto (map some (b ∷ a ∷ [])) values_aba)
      (to_cmd_line "lpush" (k ∷ b ∷ a ∷ []))
l_push-Runs_example = l_push-Runs dict list_db k values_aba b (a ∷ []) list_db-Holds

l_range-window_example :
    (wire (reply_of (exec_l_range dict list_db (k ∷ codes "-2" ∷ codes "9" ∷ [])))
      ≡ some (to_bytes (multi_bulk (window values_aba (negsuc 1) (pos 9)))))
    × (state_of (exec_l_range dict list_db (k ∷ codes "-2" ∷ codes "9" ∷ [])) ≡ list_db)
unfolding parse_int parse_uint parse_digits is_digit
l_range-window_example =
    l_range-window dict list_db k values_aba (codes "-2") (codes "9") (negsuc 1) (pos 9)
      list_db-Holds refl refl

l_rem-left_by_example :
    (reply_of (exec_l_rem dict list_db (k ∷ codes "-1" ∷ a ∷ []))
      ≡ some (int (pos (left_by a (negsuc 0) values_aba).1)))
    × Holds dict
        (state_of (exec_l_rem dict list_db (k ∷ codes "-1" ∷ a ∷ [])))
        k
        (left_by a (negsuc 0) values_aba).0
    × SameElsewhere dict list_db (state_of (exec_l_rem dict list_db (k ∷ codes "-1" ∷ a ∷ []))) k
    × ((state_of (exec_l_rem dict list_db (k ∷ codes "-1" ∷ a ∷ []))).aof ≡ (
        if ltb 0 (left_by a (negsuc 0) values_aba).1
        then list_db.aof ++ to_cmd_line "lrem" (k ∷ codes "-1" ∷ a ∷ []) ∷ []
        else list_db.aof))
unfolding parse_int parse_uint parse_digits is_digit
l_rem-left_by_example =
    l_rem-left_by dict list_db k values_aba (codes "-1") a (negsuc 0) list_db-Holds refl
      (omega arith)

r_pop_l_push-move_example :
    (db' : State dict) × (exec_r_pop_l_push dict list_db (k ∷ other ∷ [])
      ≡ done (bulk (some a)) db')
    × Holds dict db' k (some a ∷ some b ∷ [])
    × Holds dict db' other (some a ∷ [])
    × ((j : Bytes)
        → get_entity dict db' j
          ≡ (if beq k j || beq other j then get_entity dict db' j else get_entity dict list_db j))
    × (db'.aof ≡ list_db.aof ++ to_cmd_line "rpoplpush" (k ∷ other ∷ []) ∷ [])
unfolding beq
r_pop_l_push-move_example =
    r_pop_l_push-move dict list_db k other (some a) (some a ∷ some b ∷ []) [] refl list_db-Holds
      other-Holds

undo-r_pop_l_push_example :
    Restores dict
      (undo_r_pop_l_push dict list_db (k ∷ other ∷ []))
      (state_of (exec_r_pop_l_push dict list_db (k ∷ other ∷ [])))
      k
      values_aba
    × Restores dict
        (undo_r_pop_l_push dict list_db (k ∷ other ∷ []))
        (state_of (exec_r_pop_l_push dict list_db (k ∷ other ∷ [])))
        other
        []
unfolding beq
undo-r_pop_l_push_example =
    undo-r_pop_l_push dict list_db k other a (some a ∷ some b ∷ []) [] refl list_db-Holds
      other-Holds

l_set-Runs_example :
    Runs dict list_db
      (exec_l_set dict list_db (k ∷ codes "-1" ∷ b ∷ []))
      ok_reply
      k
      (set_index values_aba (negsuc 0) (some b))
      (to_cmd_line "lset" (k ∷ codes "-1" ∷ b ∷ []))
unfolding parse_int parse_uint parse_digits is_digit
l_set-Runs_example =
    l_set-Runs dict list_db k values_aba (codes "-1") (negsuc 0) (some a) b list_db-Holds refl refl
