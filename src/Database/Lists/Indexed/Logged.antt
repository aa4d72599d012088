-- ===== src/Database/Lists/Indexed/Logged.antt =====
-- database/list.go: what LINDEX and LSET hand to the log.
use mudis.Database.Recorded.{Recorded}
use mudis.Dict.{Dict}
use mudis.LinkedList
use mudis.Strconv.{parse_int}
use mudis.Database.{Entity, State, add_aof, put_entity}
use mudis.Database.Strings.Range.{start_index}
use mudis.Database.Lists.{put_list}
use mudis.Database.Lists.Logged.{get_as_list-cases}
use mudis.Database.Lists.Indexed.{exec_l_index, exec_l_set}
use mudis.Prelude.Int.{pos}
use mudis.Prelude.{
  Bytes, codes, List, [], ◌∷◌, none, some, inl, inr, refl, arith, Option-cases, Result-cases,
}

module _ (D : Dict Entity) (db : State D) where
  pub l_index-Recorded :
      (args : List Bytes) → Recorded (codes "lindex") args db (exec_l_index D db args)
  unfolding exec_l_index
  l_index-Recorded [] = ground arith
  l_index-Recorded (key ∷ []) = ground arith
  l_index-Recorded (key ∷ index ∷ args) = elim (Result-cases (parse_int index)) [
    | inl (_, i) ↦ rw (exec_l_index, i) (inr refl, λ e. cc)
    | inr (n, i) ↦ elim (get_as_list-cases D db key) [
      | inl e ↦ rw (exec_l_index, i, e) (inr refl, λ e. cc)
      | inr (none, e) ↦ rw (exec_l_index, i, e) (inr refl, λ e. cc)
      | inr (some l, e) ↦ elim (Option-cases (start_index (LinkedList.length l) n)) [
        | inl s ↦ rw (exec_l_index, i, e, s) (inr refl, λ e. cc)
        | inr (j, s) ↦ elim (Result-cases (LinkedList.get l (pos j))) [
          | inl (_, g) ↦ rw (exec_l_index, i, e, s, g) (inr refl, λ e. cc)
          | inr (_, g) ↦ rw (exec_l_index, i, e, s, g) (inr refl, λ e. cc)
        ]
      ]
    ]
  ]

  pub l_set-Recorded : (args : List Bytes) → Recorded (codes "lset") args db (exec_l_set D db args)
  unfolding exec_l_set add_aof put_list put_entity
  l_set-Recorded [] = ground arith
  l_set-Recorded (key ∷ []) = ground arith
  l_set-Recorded (key ∷ index ∷ []) = elim (Result-cases (parse_int index)) [
    | inl (_, i) ↦ rw (exec_l_set, i) (inr refl, λ e. cc)
    | inr (n, i) ↦ rw (exec_l_set, i) (inr refl, λ e. cc)
  ]
  l_set-Recorded (key ∷ index ∷ value ∷ args) = elim (Result-cases (parse_int index)) [
    | inl (_, i) ↦ rw (exec_l_set, i) (inr refl, λ e. cc)
    | inr (n, i) ↦ elim (get_as_list-cases D db key) [
      | inl e ↦ rw (exec_l_set, i, e) (inr refl, λ e. cc)
      | inr (none, e) ↦ rw (exec_l_set, i, e) (inr refl, λ e. cc)
      | inr (some l, e) ↦ elim (Option-cases (start_index (LinkedList.length l) n)) [
        | inl s ↦ rw (exec_l_set, i, e, s) (inr refl, λ e. cc)
        | inr (j, s) ↦ elim (Result-cases (LinkedList.set_at l (pos j) (some value))) [
          | inl (_, g) ↦ rw (exec_l_set, i, e, s, g) (inr refl, λ e. cc)
          | inr (_, g) ↦ rw (exec_l_set, i, e, s, g) (inl refl, λ e. cc)
        ]
      ]
    ]
  ]
