-- ===== src/Database/Lists/Indexed/Laws.antt =====
-- LINDEX, LSET, LRANGE and LREM, as operations on the values under a key.
use mudis.LinkedList
use mudis.LinkedList.Loops
use mudis.LinkedList.{LinkedList}
use mudis.LinkedList.Seg.{Stands}
use mudis.LinkedList.Values.{size_of, get-Stands, set_at-Stands}
use mudis.LinkedList.Window.{range-Stands}
use mudis.Dict.{Dict}
use mudis.Strconv.{parse_int}
use mudis.Reply.Framing.{wire_nothing}
use mudis.Reply.{Slice, Reply, bulk, null_bulk, ok_reply, multi_bulk, to_bytes}
use mudis.Database.{Entity, State, to_cmd_line, reply_of, state_of, done}
use mudis.Database.Lists.{as_slice}
use mudis.Database.Lists.Indexed.{
  exec_l_index, exec_l_set, exec_l_range, range_of, out_of_range, range_start, range_stop,
}
use mudis.Database.Lists.Indexed.Index.{
  at_index, set_index, window, locate, range_start-window, window_nothing, range_bounds,
  take-window,
}
use mudis.Database.Lists.Holds.{Holds, Runs, there, Runs-put_list}
use mudis.Prelude.Int.{ℤ, pos, negsuc}
use mudis.Prelude.{
  ℕ, suc, ◌+◌, ◌-◌, ◌<◌, ◌≤◌, Bytes, List, [], ◌∷◌, ◌++◌, Option, none, some, length, ok, map, take,
  drop, ltb, ◌≡◌, refl, ap, arith, ◌∙◌, inl, inr, if◌then◌else◌, Option-cases, length-append,
}

-- The reply on the wire.
abbrev pub wire : Option Reply → Option Bytes
wire none = none
wire (some r) = some (to_bytes r)

map-as_slice : (vs : List Slice) → map as_slice (map some vs) ≡ vs
map-as_slice [] = refl
map-as_slice (v ∷ vs) = ap (λ us. v ∷ us) (map-as_slice vs)

module _ (D : Dict Entity) (db : State D) (k : Bytes) where
  -- LINDEX replies the value at the index, counted from the end where it is negative, and null out
  -- of range; it changes nothing.
  pub l_index-at_index :
      (vs : List Slice) (index : Bytes) (i : ℤ)
      → Holds D db k vs
      → parse_int index ≡ ok i
      → exec_l_index D db (k ∷ index ∷ [])
        ≡ done (elim (at_index vs i) [ none ↦ null_bulk | some v ↦ bulk v ]) db
  unfolding exec_l_index LinkedList.length
  l_index-at_index [] index (pos n) h p = rw (exec_l_index, p, h) refl
  l_index-at_index [] index (negsuc n) h p = rw (exec_l_index, p, h) refl
  l_index-at_index (v ∷ vs) index i (l, e, s) p =
      let n : l.size ≡ length (v ∷ vs) = size_of l (v ∷ vs) s in
      elim (locate (v ∷ vs) i) [
        | inr out ↦ rw (exec_l_index, p, e, n, out.0, out.1) refl
        | inl at ↦
            let t : Stands l (at.before ++ at.value ∷ at.behind) = rw (← at.list) s in
            rw
              (
                exec_l_index,
                p,
                e,
                n,
                at.start,
                at.found,
                get-Stands l at.before at.value at.behind t,
              )
              refl
      ]

  -- LSET at an index in range, counted from the end where it is negative, replies OK and replaces
  -- the value there; no other key changes, and the line is logged.
  pub l_set-Runs :
      (vs : List Slice) (index : Bytes) (i : ℤ) (v : Slice) (w : Bytes)
      → Holds D db k vs
      → parse_int index ≡ ok i
      → at_index vs i ≡ some v
      → Runs D db
          (exec_l_set D db (k ∷ index ∷ w ∷ []))
          ok_reply
          k
          (set_index vs i (some w))
          (to_cmd_line "lset" (k ∷ index ∷ w ∷ []))
  unfolding exec_l_set LinkedList.length
  l_set-Runs vs index i v w h p q = elim (locate vs i) [
    | inr out ↦ cc
    | inl at ↦
        let m : length vs ≡ length at.before + suc (length at.behind) =
          ap length at.list ∙ length-append at.before (at.value ∷ at.behind) in
        let (l, e, s) = there D db k vs (omega arith) h in
        let n : l.size ≡ length vs = size_of l vs s in
        let t : Stands l (at.before ++ at.value ∷ at.behind) = rw (← at.list) s in
        let (l', f, u) = set_at-Stands l at.before at.value at.behind t (some w) in
        rw (exec_l_set, p, e, n, at.start, f, at.replaced (some w))
          (Runs-put_list D db k db l' _ (at.before ++ some w ∷ at.behind) (λ j. ground arith) refl
            (omega (arith, length-append at.before (some w ∷ at.behind))) u _ _ refl)
  ]

  -- LSET at a key that holds values, at an index out of range, replies the error and changes
  -- nothing.
  pub l_set_outside :
      (vs : List Slice) (index : Bytes) (i : ℤ) (w : Bytes)
      → Holds D db k vs
      → 0 < length vs
      → parse_int index ≡ ok i
      → at_index vs i ≡ none
      → exec_l_set D db (k ∷ index ∷ w ∷ []) ≡ done out_of_range db
  unfolding exec_l_set LinkedList.length
  l_set_outside vs index i w h b p q = elim (locate vs i) [
    | inl at ↦ cc
    | inr out ↦
        let (l, e, s) = there D db k vs b h in rw (exec_l_set, p, e, size_of l vs s, out.0) refl
  ]

  range_of-window :
      (l : LinkedList Slice) (vs : List Slice) (i j : ℤ)
      → 0 < length vs
      → Stands l vs
      → (wire (reply_of (range_of D db l i j)) ≡ some (to_bytes (multi_bulk (window vs i j))))
        × (state_of (range_of D db l i j) ≡ db)
  unfolding range_of LinkedList.length
  range_of-window l vs i j b s =
      let n : l.size ≡ length vs = size_of l vs s in
      elim (Option-cases (range_start (length vs) i)) [
        | inl out ↦
            let out' : range_start l.size i ≡ none = rw (← n) at out in
            (
              rw (range_of, out', range_start-window vs i j out) (ap some wire_nothing),
              rw (range_of, out') refl,
            )
        | inr (a, e) ↦
            let e' : range_start l.size i ≡ some a = rw (← n) at e in
            let stop : ℕ = (if ltb (range_stop l.size j) a then a else range_stop l.size j) in
            let (x, y, z, u) = range_bounds vs i j a b e in
            let z' : range_stop l.size j ≤ l.size = rw (← n) at z in
            let r : Loops.range l (pos a) (pos stop) ≡ ok (map some (take (stop - a) (drop a vs))) =
              range-Stands l vs a stop s x (ground arith) (ground arith) in
            let t : take (stop - a) (drop a vs) ≡ window vs i j =
              ap
                (λ m. take ((if ltb (range_stop m j) a then a else range_stop m j) - a) (drop a vs))
                n
              ∙ take-window vs i j a b e in
            (rw (range_of, e', r, t, map-as_slice (window vs i j)) refl, rw (range_of, e', r) refl)
      ]

  -- LRANGE changes nothing and replies, on the wire, the values between its two inclusive indices,
  -- each counted from the end where it is negative.
  pub l_range-window :
      (vs : List Slice) (start stop : Bytes) (i j : ℤ)
      → Holds D db k vs
      → parse_int start ≡ ok i
      → parse_int stop ≡ ok j
      → (wire (reply_of (exec_l_range D db (k ∷ start ∷ stop ∷ [])))
          ≡ some (to_bytes (multi_bulk (window vs i j))))
        × (state_of (exec_l_range D db (k ∷ start ∷ stop ∷ [])) ≡ db)
  unfolding exec_l_range
  l_range-window [] start stop i j h p q = (
    rw (exec_l_range, p, q, h, window_nothing i j) (ap some wire_nothing),
    rw (exec_l_range, p, q, h) refl,
  )
  l_range-window (v ∷ vs) start stop i j (l, e, s) p q =
      rw (exec_l_range, p, q, e) (range_of-window l (v ∷ vs) i j (omega arith) s)
