-- ===== src/Database/Lists/Undo/Laws.antt =====
-- The command lines that undo a command on lists, run behind it, bring the values back.
use mudis.LinkedList
use mudis.LinkedList.{LinkedList}
use mudis.LinkedList.Seg.{Stands}
use mudis.LinkedList.Values.{size_of, get-Stands}
use mudis.Strconv.{parse_int}
use mudis.Dict.{Dict}
use mudis.Dict.GoMap.{lookup, insert}
use mudis.Reply.{Slice}
use mudis.Database.{
  Entity, State, CmdLine, to_cmd_line, state_of, exec, validate_arity, register_command,
}
use mudis.Database.Lists.{exec_l_pop, exec_r_pop, exec_l_push, exec_r_push}
use mudis.Database.Lists.Indexed.{exec_l_set}
use mudis.Database.Lists.Indexed.Index.{at_index, set_index, locate, set_index_back, reverse}
use mudis.Database.Lists.Indexed.Laws.{l_set-Runs}
use mudis.Database.Lists.Move.{exec_r_pop_l_push}
use mudis.Database.Lists.Move.Laws.{r_pop_l_push-move}
use mudis.Database.Lists.Pushes.{l_push-Runs, r_push-Runs, l_pop-Runs, r_pop-Runs}
use mudis.Database.Lists.Undo.{
  undo_l_pop, undo_r_pop, undo_with, undo_l_push, undo_r_push, undo_l_set, undo_r_pop_l_push,
  list_commands, as_word,
}
use mudis.Database.Lists.Holds.{Holds, Holds-elsewhere, there}
use mudis.Prelude.Int.{ℤ}
use mudis.Prelude.{
  beq_sym, inl, inr, ℕ, suc, ◌+◌, ◌-◌, Bytes, List, [], ◌∷◌, ◌++◌, Option, some, length, ok, map,
  ◌==◌, false, ◌≡◌, refl, ap, arith, ◌∙◌, sym, length-append, replicate, beq, to_lower,
  reverse_onto_append, append_assoc, append-nil, length-reverse_onto, reverse_twice, length-map,
}

module _ (D : Dict Entity) where
  -- The lines are run one behind the other.
  abbrev pub run_lines : State D → List CmdLine → State D
  run_lines db [] = db
  run_lines db (line ∷ lines) = run_lines (state_of (exec (list_commands D) db line)) lines

  module _ (db : State D) (k : Bytes) where
    run_l_pop : exec (list_commands D) db (to_cmd_line "LPOP" (k ∷ [])) ≡ exec_l_pop D db (k ∷ [])
    unfolding exec list_commands register_command insert lookup beq to_lower validate_arity
    run_l_pop = refl

    run_r_pop : exec (list_commands D) db (to_cmd_line "RPOP" (k ∷ [])) ≡ exec_r_pop D db (k ∷ [])
    unfolding exec list_commands register_command insert lookup beq to_lower validate_arity
    run_r_pop = refl

    run_l_push :
        (w : Bytes)
        → exec (list_commands D) db (to_cmd_line "LPUSH" (k ∷ w ∷ []))
          ≡ exec_l_push D db (k ∷ w ∷ [])
    unfolding exec list_commands register_command insert lookup beq to_lower validate_arity
    run_l_push w = refl

    run_r_push :
        (w : Bytes)
        → exec (list_commands D) db (to_cmd_line "RPUSH" (k ∷ w ∷ []))
          ≡ exec_r_push D db (k ∷ w ∷ [])
    unfolding exec list_commands register_command insert lookup beq to_lower validate_arity
    run_r_push w = refl

    run_l_set :
        (i w : Bytes)
        → exec (list_commands D) db (to_cmd_line "LSET" (k ∷ i ∷ w ∷ []))
          ≡ exec_l_set D db (k ∷ i ∷ w ∷ [])
    unfolding exec list_commands register_command insert lookup beq to_lower validate_arity
    run_l_set i w = refl

  -- As many LPOPs as there are values in front remove those, and as many RPOPs those at the end.
  pop_front :
      (us vs : List Slice) (db : State D) (k : Bytes)
      → Holds D db k (us ++ vs)
      → Holds D (run_lines db (replicate (length us) (to_cmd_line "LPOP" (k ∷ [])))) k vs
  pop_front [] vs db k h = h
  pop_front (u ∷ us) vs db k h =
      pop_front us vs _ k (rw (run_l_pop db k) ((l_pop-Runs D db k u (us ++ vs) h).holds))

  pop_back :
      (us vs : List Slice) (db : State D) (k : Bytes)
      → Holds D db k (vs ++ reverse us)
      → Holds D (run_lines db (replicate (length us) (to_cmd_line "RPOP" (k ∷ [])))) k vs
  pop_back [] vs db k h = rw append-nil at h
  pop_back (u ∷ us) vs db k h =
      let g : Holds D db k ((vs ++ reverse us) ++ u ∷ []) =
        rw (reverse_onto_append us (u ∷ []), ← append_assoc vs (reverse us) (u ∷ [])) at h in
      pop_back us vs _ k (rw (run_r_pop db k) ((r_pop-Runs D db k u (vs ++ reverse us) g).holds))

  -- What `undo` gives brings `vs` back under `k`, behind the command that left `after`.
  abbrev pub Restores : Option (List CmdLine) → State D → Bytes → List Slice → Type 0
  Restores undo after k vs =
      (lines : List CmdLine) × (undo ≡ some lines) × Holds D (run_lines after lines) k vs

  undo_with_lem :
      (db : State D) (k : Bytes) (us ws : List Slice) (v : Slice) (index : ℕ → ℕ)
      (lines : Bytes → List CmdLine)
      → Holds D db k (us ++ v ∷ ws)
      → index (length (us ++ v ∷ ws)) ≡ length us
      → undo_with D db k index lines ≡ some (lines (as_word v))
  unfolding undo_with LinkedList.length
  undo_with_lem db k us ws v index lines h i =
      let (l, e, s) = there D db k (us ++ v ∷ ws) (omega (arith, length-append us (v ∷ ws))) h in
      let n : l.size ≡ length (us ++ v ∷ ws) = size_of l (us ++ v ∷ ws) s in
      let m : (l.size == 0) ≡ false = ground (arith, n, length-append us (v ∷ ws)) in
      rw (undo_with, e, m, ap index n ∙ i, get-Stands l us v ws s) refl

  module _ (db : State D) (k : Bytes) where
    -- The line that undoes LPOP at a list whose first value is not nil brings its values back.
    pub undo-l_pop :
        (w : Bytes) (vs : List Slice)
        → Holds D db k (some w ∷ vs)
        → Restores (undo_l_pop D db (k ∷ [])) (state_of (exec_l_pop D db (k ∷ []))) k (some w ∷ vs)
    unfolding undo_l_pop
    undo-l_pop w vs h =
        let after = state_of (exec_l_pop D db (k ∷ [])) in
        (
          to_cmd_line "LPUSH" (k ∷ w ∷ []) ∷ [],
          undo_with_lem db k [] vs (some w) (λ n. 0) (λ e. to_cmd_line "LPUSH" (k ∷ e ∷ []) ∷ []) h
              refl,
          rw (run_l_push after k w)
              ((l_push-Runs D after k vs w [] ((l_pop-Runs D db k (some w) vs h).holds)).holds),
        )

    -- The line that undoes RPOP at a list whose last value is not nil brings its values back.
    pub undo-r_pop :
        (w : Bytes) (vs : List Slice)
        → Holds D db k (vs ++ some w ∷ [])
        → Restores
            (undo_r_pop D db (k ∷ []))
            (state_of (exec_r_pop D db (k ∷ [])))
            k
            (vs ++ some w ∷ [])
    unfolding undo_r_pop
    undo-r_pop w vs h =
        let after = state_of (exec_r_pop D db (k ∷ [])) in
        (
          to_cmd_line "RPUSH" (k ∷ w ∷ []) ∷ [],
          undo_with_lem db k vs [] (some w) (λ n. n - 1)
              (λ e. to_cmd_line "RPUSH" (k ∷ e ∷ []) ∷ []) h
              (omega (arith, length-append vs (some w ∷ []))),
          rw (run_r_push after k w)
              ((r_push-Runs D after k vs w [] ((r_pop-Runs D db k (some w) vs h).holds)).holds),
        )

    -- The lines that undo LPUSH, run behind it, bring back the values that the key held before.
    pub undo-l_push :
        (w : Bytes) (ws : List Bytes) (vs : List Slice)
        → Holds D db k vs
        → Restores (undo_l_push D db (k ∷ w ∷ ws)) (state_of (exec_l_push D db (k ∷ w ∷ ws))) k vs
    unfolding undo_l_push
    undo-l_push w ws vs h =
        let us : List Slice = reverse (map some (w ∷ ws)) in
        let n : length us ≡ length (w ∷ ws) =
          omega (arith, length-reverse_onto (map some (w ∷ ws)) [], length-map some (w ∷ ws)) in
        let g = (l_push-Runs D db k vs w ws h).holds in
        (
          replicate (length us) (to_cmd_line "LPOP" (k ∷ [])),
          ap (λ m. some (replicate m (to_cmd_line "LPOP" (k ∷ [])))) (sym n),
          (pop_front us vs _ k (rw (reverse_onto_append (map some (w ∷ ws)) vs) at g)),
        )

    -- The lines that undo RPUSH, run behind it, bring back the values that the key held before.
    pub undo-r_push :
        (w : Bytes) (ws : List Bytes) (vs : List Slice)
        → Holds D db k vs
        → Restores (undo_r_push D db (k ∷ w ∷ ws)) (state_of (exec_r_push D db (k ∷ w ∷ ws))) k vs
    unfolding undo_r_push
    undo-r_push w ws vs h =
        let us : List Slice = reverse (map some (w ∷ ws)) in
        let n : length us ≡ length (w ∷ ws) =
          omega (arith, length-reverse_onto (map some (w ∷ ws)) [], length-map some (w ∷ ws)) in
        let g = (r_push-Runs D db k vs w ws h).holds in
        (
          replicate (length us) (to_cmd_line "RPOP" (k ∷ [])),
          ap (λ m. some (replicate m (to_cmd_line "RPOP" (k ∷ [])))) (sym n),
          (pop_back us vs _ k (rw (← reverse_twice (map some (w ∷ ws)) []) at g)),
        )

    -- The line that undoes LSET at an index in range whose value is not nil brings the values
    -- back.
    pub undo-l_set :
        (vs : List Slice) (index u w : Bytes) (i : ℤ)
        → Holds D db k vs
        → parse_int index ≡ ok i
        → at_index vs i ≡ some (some u)
        → Restores
            (undo_l_set D db (k ∷ index ∷ w ∷ []))
            (state_of (exec_l_set D db (k ∷ index ∷ w ∷ [])))
            k
            vs
    unfolding undo_l_set LinkedList.length
    undo-l_set vs index u w i h p q = elim (locate vs i) [
      | inr out ↦ cc
      | inl at ↦
          let after = state_of (exec_l_set D db (k ∷ index ∷ w ∷ [])) in
          let m : length vs ≡ length at.before + suc (length at.behind) =
            ap length at.list ∙ length-append at.before (at.value ∷ at.behind) in
          let (l, e, s) = there D db k vs (omega arith) h in
          let t : Stands l (at.before ++ at.value ∷ at.behind) = rw (← at.list) s in
          let v : at.value ≡ some u = ground (arith, at.found) in
          let g = (l_set-Runs D db k vs index i (some u) w h p q).holds in
          let (x, y) = set_index_back vs i (some u) (some w) q in
          (
            to_cmd_line "LSET" (k ∷ index ∷ u ∷ []) ∷ [],
            rw
                (
                  undo_l_set,
                  p,
                  e,
                  size_of l vs s,
                  at.start,
                  get-Stands l at.before at.value at.behind t,
                  v,
                )
                refl,
            rw (run_l_set after k index u) (
                rw y at (
                  (l_set-Runs D after k (set_index vs i (some w)) index i (some w) u g p x).holds)),
          )
    ]

    -- The lines that undo RPOPLPUSH between two different keys, run behind it, bring back the
    -- values of both, where the moved value is not nil.
    pub undo-r_pop_l_push :
        (d w : Bytes) (vs us : List Slice)
        → beq k d ≡ false
        → Holds D db k (vs ++ some w ∷ [])
        → Holds D db d us
        → Restores
            (undo_r_pop_l_push D db (k ∷ d ∷ []))
            (state_of (exec_r_pop_l_push D db (k ∷ d ∷ [])))
            k
            (vs ++ some w ∷ [])
          × Restores
              (undo_r_pop_l_push D db (k ∷ d ∷ []))
              (state_of (exec_r_pop_l_push D db (k ∷ d ∷ [])))
              d
              us
    unfolding undo_r_pop_l_push
    undo-r_pop_l_push d w vs us apart h g =
        let lines : List CmdLine =
          to_cmd_line "RPUSH" (k ∷ w ∷ []) ∷ to_cmd_line "LPOP" (d ∷ []) ∷ [] in
        let e =
          undo_with_lem db k vs [] (some w) (λ n. n - 1)
            (λ x. to_cmd_line "RPUSH" (k ∷ x ∷ []) ∷ to_cmd_line "LPOP" (d ∷ []) ∷ []) h
            (omega (arith, length-append vs (some w ∷ []))) in
        let (db₁, f, hs, hd, _, _) = r_pop_l_push-move D db k d (some w) vs us apart h g in
        let r = r_push-Runs D db₁ k vs w [] hs in
        let db₂ = state_of (exec_r_push D db₁ (k ∷ w ∷ [])) in
        let hd₂ = Holds-elsewhere D db₁ db₂ k d (some w ∷ us) r.elsewhere apart hd in
        let p = l_pop-Runs D db₂ d (some w) us hd₂ in
        let db₃ = state_of (exec_l_pop D db₂ (d ∷ [])) in
        let hs₃ =
          Holds-elsewhere D db₂ db₃ d k (vs ++ some w ∷ []) p.elsewhere (beq_sym d k ∙ apart)
            r.holds in
        (
          (lines, e, rw (f, run_r_push db₁ k w, run_l_pop db₂ d) hs₃),
          (lines, e, rw (f, run_r_push db₁ k w, run_l_pop db₂ d) (p.holds)),
        )
