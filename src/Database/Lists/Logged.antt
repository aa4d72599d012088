-- ===== src/Database/Lists/Logged.antt =====
-- database/list.go: what the commands on lists hand to the log.
use mudis.Database.Recorded.{Recorded}
use mudis.Dict.{Dict}
use mudis.LinkedList
use mudis.LinkedList.{LinkedList}
use mudis.Reply.{Slice, wrong_type_err}
use mudis.Database.{Entity, string, list, hash_set, State, get_entity, put_entity, remove, add_aof}
use mudis.Database.Lists.{
  as_list, get_as_list, put_list, put_or_remove, exec_l_len, exec_l_pop, exec_r_pop, exec_l_push_x,
  insert_all, add_all, exec_l_push, exec_r_push, exec_r_push_x, get_or_init_list,
}
use mudis.Database.Lists.Holds.{insert_all_lem, add_all_lem}
use mudis.LinkedList.Values.{empty-Stands}
use mudis.Prelude.Int.{pos}
use mudis.Prelude.{
  Bytes, codes, List, [], ◌∷◌, ◌++◌, Option, none, some, ok, err, ◌==◌, ◌≡◌, ◌⊎◌, inl, inr, refl,
  ap, arith, Bool-cases, Result-cases,
}

as_list-cases :
    (e : Option Entity)
    → (as_list e ≡ err wrong_type_err) ⊎ ((l : Option (LinkedList Slice)) × (as_list e ≡ ok l))
unfolding as_list
as_list-cases none = inr (_, refl)
as_list-cases (some (string s)) = inl refl
as_list-cases (some (list l)) = inr (_, refl)
as_list-cases (some (hash_set s)) = inl refl

module _ (D : Dict Entity) (db : State D) where
  pub get_as_list-cases :
      (key : Bytes)
      → (get_as_list D db key ≡ err wrong_type_err)
        ⊎ ((l : Option (LinkedList Slice)) × (get_as_list D db key ≡ ok l))
  unfolding get_as_list
  get_as_list-cases key = as_list-cases (get_entity D db key)

  put_or_remove-aof : (key : Bytes) (l : LinkedList Slice) → (put_or_remove D db key l).aof ≡ db.aof
  unfolding put_or_remove put_list put_entity remove
  put_or_remove-aof key l = elim (Bool-cases (LinkedList.length l == 0)) [
    | inl e ↦ rw (put_or_remove, e) refl
    | inr e ↦ rw (put_or_remove, e) refl
  ]

  pub l_len-Recorded : (args : List Bytes) → Recorded (codes "llen") args db (exec_l_len D db args)
  unfolding exec_l_len
  l_len-Recorded [] = ground arith
  l_len-Recorded (key ∷ args) = elim (get_as_list-cases key) [
    | inl e ↦ ground arith
    | inr (l, e) ↦ ground arith
  ]

  pub l_pop-Recorded : (args : List Bytes) → Recorded (codes "lpop") args db (exec_l_pop D db args)
  unfolding exec_l_pop add_aof
  l_pop-Recorded [] = ground arith
  l_pop-Recorded (key ∷ args) = elim (get_as_list-cases key) [
    | inl e ↦ rw (exec_l_pop, e) (inr refl, λ e. cc)
    | inr (none, e) ↦ rw (exec_l_pop, e) (inr refl, λ e. cc)
    | inr (some l, e) ↦ elim (Result-cases (LinkedList.remove l (pos 0))) [
      | inl (_, f) ↦ rw (exec_l_pop, e, f) (inr refl, λ e. cc)
      | inr ((l', v), f) ↦
          rw (exec_l_pop, e, f)
            (
              inl (ap (λ l. l ++ (codes "lpop" ∷ key ∷ args) ∷ []) (put_or_remove-aof key l')),
              λ e. cc,
            )
    ]
  ]

  pub r_pop-Recorded : (args : List Bytes) → Recorded (codes "rpop") args db (exec_r_pop D db args)
  unfolding exec_r_pop add_aof
  r_pop-Recorded [] = ground arith
  r_pop-Recorded (key ∷ args) = elim (get_as_list-cases key) [
    | inl e ↦ rw (exec_r_pop, e) (inr refl, λ e. cc)
    | inr (none, e) ↦ rw (exec_r_pop, e) (inr refl, λ e. cc)
    | inr (some l, e) ↦ elim (Result-cases (LinkedList.remove_last l)) [
      | inl (_, f) ↦ rw (exec_r_pop, e, f) (inr refl, λ e. cc)
      | inr ((l', v), f) ↦
          rw (exec_r_pop, e, f)
            (
              inl (ap (λ l. l ++ (codes "rpop" ∷ key ∷ args) ∷ []) (put_or_remove-aof key l')),
              λ e. cc,
            )
    ]
  ]

  pub l_push_x-Recorded :
      (args : List Bytes) → Recorded (codes "lpushx") args db (exec_l_push_x D db args)
  unfolding exec_l_push_x add_aof put_list put_entity
  l_push_x-Recorded [] = ground arith
  l_push_x-Recorded (key ∷ args) = elim (get_as_list-cases key) [
    | inl e ↦ rw (exec_l_push_x, e) (inr refl, λ e. cc)
    | inr (none, e) ↦ rw (exec_l_push_x, e) (inr refl, λ e. cc)
    | inr (some l, e) ↦ elim (Result-cases (insert_all l args)) [
      | inl (_, f) ↦ rw (exec_l_push_x, e, f) (inr refl, λ e. cc)
      | inr (l', f) ↦ rw (exec_l_push_x, e, f) (inl refl, λ e. cc)
    ]
  ]

  -- The list that an absent key is given takes the values, so that no panic leaves it unlogged.
  pub l_push-Recorded :
      (args : List Bytes) → Recorded (codes "lpush") args db (exec_l_push D db args)
  unfolding exec_l_push get_or_init_list add_aof put_list put_entity
  l_push-Recorded [] = ground arith
  l_push-Recorded (key ∷ args) = elim (get_as_list-cases key) [
    | inl e ↦ rw (exec_l_push, get_or_init_list, e) (inr refl, λ e. cc)
    | inr (none, e) ↦
        let (l', f, _) = insert_all_lem LinkedList.empty [] args empty-Stands in
        rw (exec_l_push, get_or_init_list, e, f) (inl refl, λ e. cc)
    | inr (some l, e) ↦ elim (Result-cases (insert_all l args)) [
      | inl (_, f) ↦ rw (exec_l_push, get_or_init_list, e, f) (inr refl, λ e. cc)
      | inr (l', f) ↦ rw (exec_l_push, get_or_init_list, e, f) (inl refl, λ e. cc)
    ]
  ]

  -- The list that an absent key is given takes the values, so that no panic leaves it unlogged.
  pub r_push-Recorded :
      (args : List Bytes) → Recorded (codes "rpush") args db (exec_r_push D db args)
  unfolding exec_r_push get_or_init_list add_aof put_list put_entity
  r_push-Recorded [] = ground arith
  r_push-Recorded (key ∷ args) = elim (get_as_list-cases key) [
    | inl e ↦ rw (exec_r_push, get_or_init_list, e) (inr refl, λ e. cc)
    | inr (none, e) ↦
        let (l', f, _) = add_all_lem LinkedList.empty [] args empty-Stands in
        rw (exec_r_push, get_or_init_list, e, f) (inl refl, λ e. cc)
    | inr (some l, e) ↦ elim (Result-cases (add_all l args)) [
      | inl (_, f) ↦ rw (exec_r_push, get_or_init_list, e, f) (inr refl, λ e. cc)
      | inr (l', f) ↦ rw (exec_r_push, get_or_init_list, e, f) (inl refl, λ e. cc)
    ]
  ]

  pub r_push_x-Recorded :
      (args : List Bytes) → Recorded (codes "rpushx") args db (exec_r_push_x D db args)
  unfolding exec_r_push_x add_aof put_list put_entity
  r_push_x-Recorded [] = ground arith
  r_push_x-Recorded (key ∷ []) = ground arith
  r_push_x-Recorded (key ∷ value ∷ args) = elim (get_as_list-cases key) [
    | inl e ↦ rw (exec_r_push_x, e) (inr refl, λ e. cc)
    | inr (none, e) ↦ rw (exec_r_push_x, e) (inr refl, λ e. cc)
    | inr (some l, e) ↦ elim (Result-cases (add_all l (value ∷ args))) [
      | inl (_, f) ↦ rw (exec_r_push_x, e, f) (inr refl, λ e. cc)
      | inr (l', f) ↦ rw (exec_r_push_x, e, f) (inl refl, λ e. cc)
    ]
  ]
