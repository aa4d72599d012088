-- ===== src/Database/Lists/Move/Laws.antt =====
-- RPOPLPUSH, as an operation on the values under its two keys, which may be the same.
use mudis.LinkedList
use mudis.LinkedList.{LinkedList}
use mudis.LinkedList.Seg.{Stands}
use mudis.LinkedList.Values.{size_of, remove_last-Stands, insert-Stands}
use mudis.Dict.{Dict}
use mudis.Reply.{Slice, bulk}
use mudis.Database.{
  CmdLine, Entity, State, to_cmd_line, done, list, get_entity, put_entity, remove, add_aof,
}
use mudis.Database.Lists.{get_as_list, as_list, get_or_init_list, put_list}
use mudis.Database.Lists.Move.{exec_r_pop_l_push, move}
use mudis.Database.Lists.Holds.{
  Holds, Runs, there, Runs-put_list, SameElsewhere, put_list-SameElsewhere, get_or_init_lem,
  Holds-add_aof,
}
use mudis.Prelude.Int.{pos}
use mudis.Prelude.{
  beq_sym, ◌&&◌, ◌<◌, Bytes, List, [], ◌∷◌, ◌++◌, none, some, ok, ◌==◌, ◌||◌, false, beq, beq_refl,
  ◌≡◌, refl, arith, if◌then◌else◌, length-append,
}

module _ (D : Dict Entity) (db : State D) where
  move-same :
      (k : Bytes) (rest : List Bytes) (l dest l₁ l₂ : LinkedList Slice) (v : Slice)
      → LinkedList.remove_last l ≡ ok (l₁, some v)
      → LinkedList.insert l₁ (pos 0) v ≡ ok l₂
      → 0 < l₂.size
      → move D db k k rest l dest
        ≡ done (bulk v) (
            add_aof (to_cmd_line "rpoplpush" (k ∷ k ∷ rest)) (put_list D (put_list D db k l₁) k l₂))
  unfolding move LinkedList.length
  move-same k rest l dest l₁ l₂ v e f n = ground (arith, beq_refl k)

  -- What the two keys hold behind a move between them.
  moved : Bytes → Bytes → LinkedList Slice → LinkedList Slice → State D
  moved s d l₁ l₂ =
      let db' = put_list D (put_list D db s l₁) d l₂ in
      if LinkedList.length l₁ == 0 then remove D db' s else db'

  move-other :
      (s d : Bytes) (rest : List Bytes) (l dest l₁ l₂ : LinkedList Slice) (v : Slice)
      → beq s d ≡ false
      → LinkedList.remove_last l ≡ ok (l₁, some v)
      → LinkedList.insert dest (pos 0) v ≡ ok l₂
      → move D db s d rest l dest
        ≡ done (bulk v) (add_aof (to_cmd_line "rpoplpush" (s ∷ d ∷ rest)) (moved s d l₁ l₂))
  unfolding move moved LinkedList.length
  move-other s d rest l dest l₁ l₂ v b e f = ground arith

  module _ (s d : Bytes) (l₁ l₂ : LinkedList Slice) (apart : beq s d ≡ false) where
    get-moved :
        (j : Bytes)
        → get_entity D (moved s d l₁ l₂) j ≡ (
            if (l₁.size == 0) && beq s j
            then none
            else if beq d j
            then some (list l₂)
            else if beq s j
            then some (list l₁)
            else get_entity D db j)
    unfolding moved LinkedList.length get_entity put_list put_entity remove
    get-moved j = ground (
      arith,
      D.get-remove (D.put (D.put db.contents s (list l₁)).0 d (list l₂)).0 s j,
      D.get-put (D.put db.contents s (list l₁)).0 d j (list l₂),
      D.get-put db.contents s j (list l₁),
    )

    aof-moved : (moved s d l₁ l₂).aof ≡ db.aof
    unfolding moved put_list put_entity remove
    aof-moved = ground arith

    moved-elsewhere :
        (old : State D) (line : CmdLine)
        → SameElsewhere D old db d
        → (j : Bytes)
        → get_entity D (add_aof line (moved s d l₁ l₂)) j ≡ (
            if beq s j || beq d j
            then get_entity D (add_aof line (moved s d l₁ l₂)) j
            else get_entity D old j)
    unfolding add_aof get_entity
    moved-elsewhere old line el j = ground (arith, get-moved j, el j)

    moved-source : (vs : List Slice) → Stands l₁ vs → Holds D (moved s d l₁ l₂) s vs
    unfolding get_as_list as_list
    moved-source [] t = ground (arith, get-moved s, beq_refl s, size_of l₁ [] t)
    moved-source (v ∷ vs) t =
        (l₁, ground (arith, get-moved s, beq_refl s, beq_sym s d, size_of l₁ (v ∷ vs) t), t)

    moved-dest :
        (v : Slice) (vs : List Slice) → Stands l₂ (v ∷ vs) → Holds D (moved s d l₁ l₂) d (v ∷ vs)
    unfolding get_as_list as_list
    moved-dest v vs t = (l₂, ground (arith, get-moved d, beq_refl d), t)

module _ (D : Dict Entity) (db : State D) where
  -- RPOPLPUSH between two different keys replies the last value of the source, leaves the others
  -- there, and puts it before the values of the destination; no other key changes, and the line is
  -- logged.
  pub r_pop_l_push-move :
      (s d : Bytes) (v : Slice) (vs us : List Slice)
      → beq s d ≡ false
      → Holds D db s (vs ++ v ∷ [])
      → Holds D db d us
      → (db' : State D) × (exec_r_pop_l_push D db (s ∷ d ∷ []) ≡ done (bulk v) db')
        × Holds D db' s vs
        × Holds D db' d (v ∷ us)
        × ((j : Bytes)
            → get_entity D db' j
              ≡ (if beq s j || beq d j then get_entity D db' j else get_entity D db j))
        × (db'.aof ≡ db.aof ++ to_cmd_line "rpoplpush" (s ∷ d ∷ []) ∷ [])
  unfolding exec_r_pop_l_push
  r_pop_l_push-move s d v vs us apart h g =
      let line = to_cmd_line "rpoplpush" (s ∷ d ∷ []) in
      let (l, e, k) = there D db s (vs ++ v ∷ []) (omega (arith, length-append vs (v ∷ []))) h in
      let (l₁, f, t) = remove_last-Stands l vs v k in
      let (db₀, dest, b, i, k₂, el, a) = get_or_init_lem D db d us g in
      let (l₂, m, u) = insert-Stands dest [] v us k₂ in
      (
        add_aof line (moved D db₀ s d l₁ l₂),
        rw (exec_r_pop_l_push, e, i, move-other D db₀ s d [] l dest l₁ l₂ v apart f m) refl,
        Holds-add_aof D (moved D db₀ s d l₁ l₂) s line vs (moved-source D db₀ s d l₁ l₂ apart vs t),
        Holds-add_aof D (moved D db₀ s d l₁ l₂) d line (v ∷ us)
            (moved-dest D db₀ s d l₁ l₂ apart v us u),
        moved-elsewhere D db₀ s d l₁ l₂ apart db line el,
        unfold add_aof in rw (aof-moved D db₀ s d l₁ l₂ apart, a) refl,
      )

  -- RPOPLPUSH with one key for both replies its last value and puts it first; no other key
  -- changes, and the line is logged.
  pub r_pop_l_push-rotate :
      (k : Bytes) (v : Slice) (vs : List Slice)
      → Holds D db k (vs ++ v ∷ [])
      → Runs D db
          (exec_r_pop_l_push D db (k ∷ k ∷ []))
          (bulk v)
          k
          (v ∷ vs)
          (to_cmd_line "rpoplpush" (k ∷ k ∷ []))
  unfolding exec_r_pop_l_push get_or_init_list
  r_pop_l_push-rotate k v vs h =
      let (l, e, s) = there D db k (vs ++ v ∷ []) (omega (arith, length-append vs (v ∷ []))) h in
      let (l₁, f, t) = remove_last-Stands l vs v s in
      let (l₂, g, u) = insert-Stands l₁ [] v vs t in
      let n : 0 < l₂.size = omega (arith, size_of l₂ (v ∷ vs) u) in
      rw (exec_r_pop_l_push, e, get_or_init_list, e, move-same D db k [] l l l₁ l₂ v f g n)
        (Runs-put_list D db k (put_list D db k l₁) l₂ _ (v ∷ vs) (put_list-SameElsewhere D db k l₁)
          (unfold put_list put_entity in refl) (omega arith) u _ _ refl)
