-- ===== src/Database/Lists/Pushes.antt =====
-- LPUSH, RPUSH, LPUSHX, RPUSHX, LPOP, RPOP and LLEN, as operations on the values under a key.
use mudis.LinkedList
use mudis.LinkedList.{LinkedList}
use mudis.LinkedList.Values.{size_of, remove-Stands, remove_last-Stands}
use mudis.Dict.{Dict}
use mudis.Reply.{Slice, bulk, int, null_bulk}
use mudis.Database.{Entity, State, to_cmd_line, done}
use mudis.Database.Lists.{
  exec_l_push, exec_r_push, exec_l_push_x, exec_r_push_x, exec_l_pop, exec_r_pop, exec_l_len,
}
use mudis.Database.Lists.Holds.{
  Holds, Runs, get_or_init_lem, insert_all_lem, add_all_lem, Runs-put_list, there,
  Runs-put_or_remove,
}
use mudis.Prelude.Int.{pos}
use mudis.Prelude.{
  ◌+◌, Bytes, List, [], ◌∷◌, ◌++◌, some, length, map, reverse_onto, ◌≡◌, refl, ap, arith, ◌∙◌,
  length-append, length-map, length-reverse_onto,
}

module _ (D : Dict Entity) (db : State D) (k : Bytes) where
  -- LPUSH at a key that holds the values `vs`, or none, replies the new length; the pushed values
  -- stand before them, the last one first; no other key changes, and the line is logged.
  pub l_push-Runs :
      (vs : List Slice) (w : Bytes) (ws : List Bytes)
      → Holds D db k vs
      → Runs D db
          (exec_l_push D db (k ∷ w ∷ ws))
          (int (pos (length vs + length (w ∷ ws))))
          k
          (reverse_onto (map some (w ∷ ws)) vs)
          (to_cmd_line "lpush" (k ∷ w ∷ ws))
  unfolding exec_l_push
  l_push-Runs vs w ws h =
      let (db', l, b, e, s, el, a) = get_or_init_lem D db k vs h in
      let (l', f, t) = insert_all_lem l vs (w ∷ ws) s in
      let n : length (reverse_onto (map some (w ∷ ws)) vs) ≡ length vs + length (w ∷ ws) =
        omega (arith, length-reverse_onto (map some (w ∷ ws)) vs, length-map some (w ∷ ws)) in
      rw (exec_l_push, e, f)
        (Runs-put_list D db k db' l' _ _ el a (omega (arith, n)) t _ _
          (ap (λ m. int (pos m)) (unfold LinkedList.length in (size_of l' _ t ∙ n))))

  -- RPUSH at a key that holds the values `vs`, or none, replies the new length; the pushed values
  -- stand behind them; no other key changes, and the line is logged.
  pub r_push-Runs :
      (vs : List Slice) (w : Bytes) (ws : List Bytes)
      → Holds D db k vs
      → Runs D db
          (exec_r_push D db (k ∷ w ∷ ws))
          (int (pos (length vs + length (w ∷ ws))))
          k
          (vs ++ map some (w ∷ ws))
          (to_cmd_line "rpush" (k ∷ w ∷ ws))
  unfolding exec_r_push
  r_push-Runs vs w ws h =
      let (db', l, b, e, s, el, a) = get_or_init_lem D db k vs h in
      let (l', f, t) = add_all_lem l vs (w ∷ ws) s in
      let n : length (vs ++ map some (w ∷ ws)) ≡ length vs + length (w ∷ ws) =
        omega (arith, length-append vs (map some (w ∷ ws)), length-map some (w ∷ ws)) in
      rw (exec_r_push, e, f)
        (Runs-put_list D db k db' l' _ _ el a (omega (arith, n)) t _ _
          (ap (λ m. int (pos m)) (unfold LinkedList.length in (size_of l' _ t ∙ n))))

  -- LPUSHX and RPUSHX of an absent key reply 0 and change nothing.
  pub push_x-absent :
      (w : Bytes) (ws : List Bytes)
      → Holds D db k []
      → (exec_l_push_x D db (k ∷ w ∷ ws) ≡ done (int (pos 0)) db)
        × (exec_r_push_x D db (k ∷ w ∷ ws) ≡ done (int (pos 0)) db)
  unfolding exec_l_push_x exec_r_push_x
  push_x-absent w ws h = (rw (exec_l_push_x, h) refl, rw (exec_r_push_x, h) refl)

  -- LPOP replies the first value and leaves the others, an absent key where there are none; no
  -- other key changes, and the line is logged.
  pub l_pop-Runs :
      (v : Slice) (vs : List Slice)
      → Holds D db k (v ∷ vs)
      → Runs D db (exec_l_pop D db (k ∷ [])) (bulk v) k vs (to_cmd_line "lpop" (k ∷ []))
  unfolding exec_l_pop
  l_pop-Runs v vs (l, e, s) =
      let (l', f, t) = remove-Stands l [] v vs s in
      rw (exec_l_pop, e, f) (Runs-put_or_remove D db k l' _ _ vs t)

  -- RPOP replies the last value and leaves the others, an absent key where there are none; no
  -- other key changes, and the line is logged.
  pub r_pop-Runs :
      (v : Slice) (vs : List Slice)
      → Holds D db k (vs ++ v ∷ [])
      → Runs D db (exec_r_pop D db (k ∷ [])) (bulk v) k vs (to_cmd_line "rpop" (k ∷ []))
  unfolding exec_r_pop
  r_pop-Runs v vs h =
      let (l, e, s) = there D db k (vs ++ v ∷ []) (omega (arith, length-append vs (v ∷ []))) h in
      let (l', f, t) = remove_last-Stands l vs v s in
      rw (exec_r_pop, e, f) (Runs-put_or_remove D db k l' _ _ vs t)

  -- LPOP and RPOP of an absent key reply null and change nothing.
  pub pop-absent :
      Holds D db k []
      → (exec_l_pop D db (k ∷ []) ≡ done null_bulk db)
        × (exec_r_pop D db (k ∷ []) ≡ done null_bulk db)
  unfolding exec_l_pop exec_r_pop
  pop-absent h = (rw (exec_l_pop, h) refl, rw (exec_r_pop, h) refl)

  -- LLEN replies the number of values and changes nothing.
  pub l_len-Holds :
      (vs : List Slice)
      → Holds D db k vs
      → exec_l_len D db (k ∷ []) ≡ done (int (pos (length vs))) db
  unfolding exec_l_len LinkedList.length
  l_len-Holds [] h = rw (exec_l_len, h) refl
  l_len-Holds (v ∷ vs) (l, e, s) =
      rw (exec_l_len, e) (ap (λ n. done (int (pos n)) db) (size_of l (v ∷ vs) s))
